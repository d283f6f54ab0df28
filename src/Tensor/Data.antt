-- ===== src/Tensor/Data.antt =====
-- The contents of tensors: construction, `fill`, copies and conversions of src/tensor/tensor.cpp,
-- built without `SCI_DEBUG`, so that no assertion is checked. `ops` gives the memory operations of
-- each device. `none` is undefined behaviour.
pub mod Memory
pub mod Repeats
pub mod Fills
pub mod Spaces
pub mod Copies
mod Tests
use scicompute.Base.{
  ℕ, zero, suc, ◌+◌, ◌-◌, ◌*◌, ◌%◌, ◌^◌, ◌≡◌, Bool, true, false, ◌&&◌, Option, some, none, List, [],
  ◌∷◌, min, ltb, ◌==◌, if◌then◌else◌, replicate,
}
use scicompute.Base.Int.{ℤ, pos, eqb_ℤ, to_size}
use scicompute.Base.Fallible.{◌>>=◌}
use scicompute.Core.Types.{
  DType, float32, float16, bfloat16, int8, int32, int64, bool, float64, uint8, dtype_size, Layout,
  contiguous, DeviceType, cpu, cuda, cpu_pinned,
}
use scicompute.Core.Status.{of_invalid_argument, of_not_implemented, create_status}
use scicompute.Core.Expected.{Expected, of_value, of_unexpected}
use scicompute.Core.Shape.{TensorShape, num_elements, shape_eq}
use scicompute.Tensor.{Tensor, Device}
use Memory.{read_at, write_at, DeviceOps, Space, Block, space_of, same_type}

-- `num_elements() * kDTypeSize(dtype)`
unfoldable pub byte_size : TensorShape → DType → Option ℕ
unfolding dtype_size
byte_size shape dtype = num_elements shape >>= λ n. some ((to_size n * dtype_size dtype) % 2 ^ 64)

abbrev pub same_device : Device → Device → Bool
same_device d e = same_type d.device_type e.device_type && eqb_ℤ d.id e.id

abbrev pub same_dtype : DType → DType → Bool
same_dtype float32 float32 = true
same_dtype float16 float16 = true
same_dtype bfloat16 bfloat16 = true
same_dtype int8 int8 = true
same_dtype int32 int32 = true
same_dtype int64 int64 = true
same_dtype bool bool = true
same_dtype float64 float64 = true
same_dtype uint8 uint8 = true
same_dtype _ _ = false

abbrev pub block_of : Tensor → Block
block_of t = (space_of t.device, t.bytes)

-- The loop of `fill` with the step, n elements of `size` bytes each; `fuel` bounds its rounds.
pub broadcast : (fuel step n size : ℕ) → List ℕ → Option (List ℕ)
unfolding read_at write_at
broadcast zero step n size bytes = if ltb step n then none else some bytes
broadcast (suc fuel) step n size bytes =
    let copied = read_at 0 (min step (n - step) * size) bytes in
    let next =
      (copied >>= λ ys. write_at (step * size) ys bytes >>= broadcast fuel (step * 2) n size) in
    if ltb step n then next else some bytes

-- `fill`, of the bytes at `value`. There are fewer rounds than elements.
pub fill_bytes : (n size : ℕ) → List ℕ → List ℕ → Option (List ℕ)
unfolding broadcast
fill_bytes n size value bytes =
    let seeded = (read_at 0 size value >>= λ ys. write_at 0 ys bytes) in
    let filled = (seeded >>= broadcast n 1 n size) in if n == 0 then some bytes else filled

-- `fill` of a block that the host reaches.
pub fill_host : (n size : ℕ) → List ℕ → Tensor → Option Tensor
unfolding fill_bytes
fill_host n size value t = fill_bytes n size value t.bytes >>= λ bs. some (record t { bytes = bs })

-- The `memcpy` of `fill` runs on the host, which does not reach the memory of a CUDA device.
pub fill : List ℕ → Tensor → Option Tensor
unfolding fill_host dtype_size
fill value t = num_elements t.shape >>= λ k.
    let n = to_size k in
    let filled = fill_host n (dtype_size t.dtype) value t in
    if n == 0 then some t else if same_type t.device.device_type cuda then none else filled

-- The bytes of 1.0f and of the `int` 1, lowest first.
abbrev pub one_float32 : List ℕ
one_float32 = 0 ∷ 0 ∷ 128 ∷ 63 ∷ []

abbrev pub one_int32 : List ℕ
one_int32 = 1 ∷ 0 ∷ 0 ∷ 0 ∷ []

pub fill_ones : Tensor → Option Tensor
unfolding fill
fill_ones t = elim t.dtype [
  | float32 ↦ fill one_float32 t
  | float16 ↦ some t
  | bfloat16 ↦ some t
  | int8 ↦ some t
  | int32 ↦ fill one_int32 t
  | int64 ↦ some t
  | bool ↦ some t
  | float64 ↦ some t
  | uint8 ↦ some t
]

module _ (ops : Device → DeviceOps) where
  -- `Tensor(shape, dtype, device)`, and `Empty`.
  unfoldable pub create : TensorShape → DType → Device → Option Tensor
  unfolding byte_size
  create shape dtype device = byte_size shape dtype >>= λ size.
      let block = (ops device).allocate size in
      some (record {
        shape = shape;
        dtype = dtype;
        layout = contiguous;
        device = device;
        address = block.0;
        num_bytes = size;
        bytes = block.1;
      })

  pub fill_zero : Tensor → Option Tensor
  fill_zero t =
      (ops t.device).set_bytes t.num_bytes 0 t.bytes >>= λ bs. some (record t { bytes = bs })

  pub zeros : TensorShape → DType → Device → Option Tensor
  unfolding create fill_zero
  zeros shape dtype device = create shape dtype device >>= fill_zero

  pub ones : TensorShape → DType → Device → Option Tensor
  unfolding create fill_ones
  ones shape dtype device = create shape dtype device >>= fill_ones

  pub full : TensorShape → DType → Device → List ℕ → Option Tensor
  unfolding create fill
  full shape dtype device value = create shape dtype device >>= fill value

  pub copy_across_devices : (src_device dst_device : Device) → ℕ → Block → Block → Option (List ℕ)
  copy_across_devices src_device dst_device n src dst =
      let to_device = (ops dst_device).copy_to_device n src dst in
      let to_host = (ops src_device).copy_to_host n src dst in
      let staged =
        ((ops src_device).copy_to_host n src (Space.host, replicate n 0) >>= λ staging.
        (ops dst_device).copy_to_device n (Space.host, staging) dst) in
      if same_type src_device.device_type cpu
      then to_device
      else if same_type dst_device.device_type cpu
      then to_host
      else staged

  pub copy_from : Tensor → Tensor → Option Tensor
  unfolding copy_across_devices
  copy_from other t =
      let src = block_of other in
      let dst = block_of t in
      let within = (ops t.device).copy_within t.num_bytes src dst in
      let across = copy_across_devices other.device t.device t.num_bytes src dst in
      (if same_device t.device other.device then within else across) >>= λ bs.
      some (record t { bytes = bs })

  -- `copy_from(data, bytes)`, of memory of the host.
  pub copy_from_data : List ℕ → ℕ → Tensor → Option Tensor
  copy_from_data src n t = (ops t.device).copy_to_device n (Space.host, src) (block_of t) >>= λ bs.
      some (record t { bytes = bs })

  pub clone : Tensor → Option Tensor
  unfolding create copy_from
  clone t = create t.shape t.dtype t.device >>= copy_from t

  -- `to(target_device)`
  pub to : Device → Tensor → Option Tensor
  unfolding create copy_from copy_across_devices
  to target t = create t.shape t.dtype target >>= λ r.
      let across = copy_across_devices t.device target t.num_bytes (block_of t) (block_of r) in
      if same_device t.device target
      then copy_from t r
      else (across >>= λ bs. some (record r { bytes = bs }))

  -- `to(type, id)`, where `found` is what `get_device` gives.
  pub to_found : Option Device → Tensor → Option (Expected Tensor)
  unfolding to
  to_found none t =
      some (of_unexpected (create_status of_invalid_argument (some "Invalid device type")))
  to_found (some device) t = to device t >>= λ r. some (of_value r)

  -- The copy constructor, which calls `copy_to_device` though the source lies on the device.
  unfoldable pub copy_construct : Tensor → Option Tensor
  copy_construct t =
      let block = (ops t.device).allocate t.num_bytes in
      let copied : Option Tensor =
        ((ops t.device).copy_to_device t.num_bytes (block_of t) (space_of t.device, block.1)
          >>= λ bs. some (record t { address = block.0; bytes = bs })) in
      let empty : Tensor = record t { address = 0; num_bytes = 0; bytes = [] } in
      if t.address == 0 then some empty else copied

  pub to_dtype : DType → Tensor → Option (Expected Tensor)
  unfolding clone
  to_dtype dtype t =
      let cloned : Option (Expected Tensor) = (clone t >>= λ r. some (of_value r)) in
      let refused : Expected Tensor =
        of_unexpected
          (create_status of_not_implemented (some "Dtype conversion not yet implemented")) in
      if same_dtype t.dtype dtype then cloned else some refused

-- `Tensor(shape, dtype, device, external_data, owns_data)` of a block and what it holds.
pub adopt : TensorShape → DType → Device → ℕ → List ℕ → Option Tensor
unfolding byte_size
adopt shape dtype device address contents = byte_size shape dtype >>= λ size. some (record {
  shape = shape;
  dtype = dtype;
  layout = contiguous;
  device = device;
  address = address;
  num_bytes = size;
  bytes = contents;
})

-- What a move leaves of a tensor: it keeps all but the buffer.
unfoldable pub moved_from : Tensor → Tensor
moved_from t = record t { address = 0; num_bytes = 0; bytes = [] }

pub is_same_shape : Tensor → Tensor → Option Bool
is_same_shape t u = shape_eq t.shape u.shape

-- ===== src/Tensor/View.antt =====
-- The views of src/tensor/tensor.cpp, built without `SCI_DEBUG`, so that no assertion is checked.
-- `none` is undefined behaviour, or the exception of a shape of negative length.
pub mod Offsets
pub mod Index
pub mod Swaps
pub mod Slices
pub mod Inner
pub mod Dense
mod Tests
use scicompute.Base.{
  ℕ, zero, suc, ◌+◌, ◌-◌, ◌*◌, ◌^◌, ◌%◌, ◌≡◌, Bool, true, false, not, ◌||◌, Option, some, none,
  List, [], ◌∷◌, get_elem?, set, add_size, if◌then◌else◌,
}
use scicompute.Base.Int.{ℤ, pos, negsuc, mul_int64, add_int64, eqb_ℤ, to_size}
use scicompute.Base.Fallible.{◌>>=◌}
use scicompute.Core.Types.{DType, Layout, contiguous, strided, column_major, DeviceType, dtype_size}
use scicompute.Core.Shape.{TensorShape, strides, num_elements, dim, set_dim, rounds}
use scicompute.Tensor.{Tensor, Device}

pub record TensorView : Type 0 where
  pub data_ptr : ℕ
  pub shape : TensorShape
  pub dtype : DType
  pub device : DeviceType
  pub layout : Layout
  pub strides : List ℤ

-- `TensorView(data, shape, dtype, device, layout)`: the strides are those of the shape.
pub of_shape : ℕ → TensorShape → DType → DeviceType → Layout → Option TensorView
of_shape data_ptr shape dtype device layout = strides shape >>= λ s. some (record {
  data_ptr = data_ptr;
  shape = shape;
  dtype = dtype;
  device = device;
  layout = layout;
  strides = s;
})

-- `TensorView(shape, dtype, device, layout, strides, data)`
abbrev pub of_strides : TensorShape → DType → DeviceType → Layout → List ℤ → ℕ → TensorView
of_strides shape dtype device layout strides data_ptr = record {
  data_ptr = data_ptr;
  shape = shape;
  dtype = dtype;
  device = device;
  layout = layout;
  strides = strides;
}

-- `TensorView(tensor)`, and `view`.
pub view : Tensor → Option TensorView
unfolding of_shape
view t = of_shape t.address t.shape t.dtype t.device.device_type t.layout

pub reshape : TensorShape → Tensor → Option TensorView
unfolding of_shape
reshape new_shape t = of_shape t.address new_shape t.dtype t.device.device_type t.layout

-- The size of an element is a `size_t`, and products of `size_t` wrap.
abbrev pub advance : ℕ → ℕ → DType → ℕ
advance data_ptr offset dtype = add_size data_ptr ((offset * dtype_size dtype) % 2 ^ 64)

-- `end - start` is an `int64_t`.
pub minus_int64 : ℤ → ℤ → Option ℤ
minus_int64 a (pos zero) = some a
minus_int64 a (pos (suc b)) = add_int64 a (negsuc b)
minus_int64 a (negsuc b) = add_int64 a (pos (suc b))

pub slice : ℕ → ℤ → ℤ → Tensor → Option TensorView
unfolding minus_int64 of_shape dtype_size
slice d start end t = minus_int64 end start >>= λ extent. set_dim d extent t.shape >>= λ new_shape.
    strides t.shape >>= λ s. get_elem? s d >>= λ stride. mul_int64 start stride >>= λ offset.
    of_shape (advance t.address (to_size offset) t.dtype) new_shape t.dtype t.device.device_type
      t.layout

-- `std::swap(xs[i], xs[j])`
pub swap : ℕ → ℕ → List ℤ → Option (List ℤ)
swap i j xs = get_elem? xs i >>= λ a. get_elem? xs j >>= λ b. some (set (set xs i b) j a)

pub swap_dims : ℕ → ℕ → TensorShape → Option TensorShape
unfolding swap
swap_dims i j s = swap i j s.dims >>= λ arr. some (record s { dims = arr })

pub transpose : ℕ → ℕ → Tensor → Option TensorView
unfolding swap swap_dims
transpose i j t = swap_dims i j t.shape >>= λ new_shape. strides t.shape >>= λ s.
    swap i j s >>= λ new_strides.
    some (of_strides new_shape t.dtype t.device.device_type strided new_strides t.address)

-- The loop of `offset`, which ends with the indices or the strides.
pub offset_from : List ℤ → List ℤ → ℕ → Option ℕ
offset_from [] strides offset = some offset
offset_from (i ∷ is) [] offset = some offset
offset_from (i ∷ is) (s ∷ ss) offset =
    mul_int64 i s >>= λ p. offset_from is ss (add_size offset (to_size p))

pub offset : List ℤ → TensorView → Option ℕ
unfolding offset_from
offset indices v = offset_from indices v.strides 0

-- The address of an element.
pub at : List ℤ → TensorView → Option ℕ
unfolding offset
at indices v = offset indices v >>= λ o. some (advance v.data_ptr o v.dtype)

abbrev pub is_dense : Layout → Bool
is_dense contiguous = true
is_dense column_major = false
is_dense strided = false

-- The loop of `is_contiguous`, from the index `i - 1` down to 0.
pub dense_from : List ℤ → TensorShape → ℕ → ℤ → Option Bool
dense_from s shape zero expected = some true
dense_from s shape (suc i) expected = get_elem? s i >>= λ stride.
    let rest = (dim i shape >>= λ d. mul_int64 expected d >>= λ next. dense_from s shape i next) in
    if eqb_ℤ stride expected then rest else some false

pub is_contiguous : TensorView → Option Bool
unfolding dense_from
is_contiguous v =
    let dense = dense_from v.strides v.shape (rounds v.shape.ndims) (pos 1) in
    if is_dense v.layout then dense else some false

-- `num_bytes`: the count is converted to `size_t`.
unfoldable pub num_bytes : TensorView → Option ℕ
unfolding dtype_size
num_bytes v = num_elements v.shape >>= λ n. some ((to_size n * dtype_size v.dtype) % 2 ^ 64)

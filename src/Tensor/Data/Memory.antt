-- ===== src/Tensor/Data/Memory.antt =====
-- Copies of bytes between blocks of memory, and the memory operations of a `Device`, with those of
-- `CPUDevice` (src/device/device.cpp). `none` is an access outside a block, or to memory of another
-- device or of the host where that of the device is meant.
use scicompute.Base.{
  ℕ, ◌+◌, ◌≡◌, arith, Bool, true, false, ◌&&◌, Option, some, none, List, [], ◌++◌, length, take,
  drop, replicate, leb, ◌==◌, if◌then◌else◌,
}
use scicompute.Base.Int.{ℤ, eqb_ℤ}
use scicompute.Base.Fallible.{◌>>=◌}
use scicompute.Core.Types.{DeviceType, cpu, cuda, cpu_pinned}
use scicompute.Tensor.{Device}

unfoldable pub read_at : ℕ → ℕ → List ℕ → Option (List ℕ)
read_at i n xs = if leb (i + n) (length xs) then some (take n (drop i xs)) else none

unfoldable pub write_at : ℕ → List ℕ → List ℕ → Option (List ℕ)
write_at i ys xs =
    if leb (i + length ys) (length xs)
    then some (take i xs ++ ys ++ drop (i + length ys) xs)
    else none

-- `memcpy(dst, src, n)` and `memset(dst, value, n)`: what the destination holds afterwards.
unfoldable pub memcpy : ℕ → List ℕ → List ℕ → Option (List ℕ)
unfolding read_at write_at
memcpy n src dst = read_at 0 n src >>= λ ys. write_at 0 ys dst

unfoldable pub memset : ℕ → ℕ → List ℕ → Option (List ℕ)
unfolding write_at
memset n value dst = write_at 0 (replicate n value) dst

-- The memory of the host, or of a device.
pub data Space : Type 0 where
  host : Space
  device_memory : DeviceType → ℤ → Space

-- The memory that a device allocates.
abbrev pub space : DeviceType → ℤ → Space
space cpu id = Space.host
space cuda id = Space.device_memory cuda id
space cpu_pinned id = Space.device_memory cpu_pinned id

abbrev pub space_of : Device → Space
space_of d = space d.device_type d.id

-- The enumerators have different values.
abbrev pub same_type : DeviceType → DeviceType → Bool
same_type cpu cpu = true
same_type cuda cuda = true
same_type cpu_pinned cpu_pinned = true
same_type _ _ = false

pub same_type_eq : (t u : DeviceType) → same_type t u ≡ true → t ≡ u
same_type_eq t u h = ground arith

abbrev pub same_space : Space → Space → Bool
same_space host host = true
same_space host (device_memory t i) = false
same_space (device_memory t i) host = false
same_space (device_memory t i) (device_memory u j) = same_type t u && eqb_ℤ i j

-- Bytes, and the memory in which they lie.
abbrev pub Block : Type 0
Block = Space × List ℕ

-- A device gives an address and what the block there holds. A copy takes the number of bytes, the
-- source and the destination, and answers with what the destination holds.
pub record DeviceOps : Type 0 where
  pub allocate : ℕ → ℕ × List ℕ
  pub copy_to_device : ℕ → Block → Block → Option (List ℕ)
  pub copy_to_host : ℕ → Block → Block → Option (List ℕ)
  pub copy_within : ℕ → Block → Block → Option (List ℕ)
  pub set_bytes : ℕ → ℕ → List ℕ → Option (List ℕ)

-- A copy that reaches the memory `from` and the memory `into` only.
unfoldable pub copy_between : (from into : Space) → ℕ → Block → Block → Option (List ℕ)
unfolding memcpy
copy_between from into n src dst =
    let copied = memcpy n src.1 dst.1 in
    if same_space from src.0 && same_space into dst.0 then copied else none

-- `CPUDevice::allocate`, where `posix_memalign` gives `address`, 0 if it fails: zeroed memory.
abbrev pub cpu_allocate : (address bytes : ℕ) → ℕ × List ℕ
cpu_allocate address bytes =
    if bytes == 0 then (0, []) else if address == 0 then (0, []) else (address, replicate bytes 0)

unfoldable pub cpu_ops : (address : ℕ) → DeviceOps
unfolding copy_between memset
cpu_ops address = record {
  allocate = cpu_allocate address;
  copy_to_device = copy_between Space.host Space.host;
  copy_to_host = copy_between Space.host Space.host;
  copy_within = copy_between Space.host Space.host;
  set_bytes = memset;
}

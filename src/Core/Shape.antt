-- ===== src/Core/Shape.antt =====
-- `TensorShape` of include/core/types.hpp: an array of eight dimensions and the number of those in
-- use. Dimensions are `int64_t`. `none` is undefined behaviour, an access outside the array or a
-- signed overflow, or the exception of a vector of negative length.
pub mod Rows
pub mod Writes
mod Tests
use scicompute.Base.{
  ℕ, zero, suc, ◌+◌, ◌-◌, ◌≡◌, Bool, true, false, not, Option, some, none, List, [], ◌∷◌, ltb, leb,
  if◌then◌else◌, length, get_elem?, set, take, replicate,
}
use scicompute.Base.Int.{ℤ, pos, negsuc, mul_int64, add_int64, eqb_ℤ, ltb_ℤ}
use scicompute.Base.Fallible.{◌>>=◌}

abbrev pub max_dim : ℕ
max_dim = 8

pub record TensorShape : Type 0 where
  pub dims : List ℤ
  pub ndims : ℤ

abbrev pub zeros : List ℤ
zeros = replicate max_dim (pos 0)

abbrev pub scalar : TensorShape
scalar = record { dims = zeros; ndims = pos 0 }

-- The loop of the constructor from an initializer list, at the index i of the array.
pub copy_dims : List ℤ → ℕ → List ℤ → List ℤ
copy_dims [] i arr = arr
copy_dims (d ∷ ds) i arr =
    copy_dims ds (if ltb i max_dim then suc i else i) (if ltb i max_dim then set arr i d else arr)

pub of_initializer_list : List ℤ → TensorShape
unfolding copy_dims
of_initializer_list ds = record { dims = copy_dims ds 0 zeros; ndims = pos (length ds) }

-- `arr[i] = d`
pub write : ℕ → ℤ → List ℤ → Option (List ℤ)
write i d arr = if ltb i (length arr) then some (set arr i d) else none

-- The loop of the constructor from a vector.
pub write_dims : List ℤ → ℕ → List ℤ → Option (List ℤ)
unfolding write
write_dims [] i arr = some arr
write_dims (d ∷ ds) i arr = write i d arr >>= write_dims ds (suc i)

pub of_vector : List ℤ → Option TensorShape
unfolding write_dims
of_vector ds =
    write_dims ds 0 zeros >>= λ arr. some (record { dims = arr; ndims = pos (length ds) })

-- The rounds of a loop from 0 to a signed bound.
abbrev pub rounds : ℤ → ℕ
rounds (pos n) = n
rounds (negsuc n) = 0

-- The loop of the constructor from an array, from the index i on, with n rounds to go.
copy_array : (n i : ℕ) → (src arr : List ℤ) → Option (List ℤ)
unfolding write
copy_array zero i src arr = some arr
copy_array (suc n) i src arr = get_elem? src i >>= λ d. write i d arr >>= copy_array n (suc i) src

of_array : List ℤ → ℤ → Option TensorShape
unfolding copy_array
of_array ds n = copy_array (rounds n) 0 ds zeros >>= λ arr. some (record { dims = arr; ndims = n })

-- `empty()`
is_empty : TensorShape → Bool
is_empty s = eqb_ℤ s.ndims (pos 0)

unfoldable pub dim : ℕ → TensorShape → Option ℤ
dim i s = get_elem? s.dims i

-- `shape[i] = d`
unfoldable pub set_dim : ℕ → ℤ → TensorShape → Option TensorShape
unfolding write
set_dim i d s = write i d s.dims >>= λ arr. some (record s { dims = arr })

-- The loop of `num_elements` and of `count`, from the index i on, with n rounds to go.
pub product_from : List ℤ → ℕ → ℕ → ℤ → Option ℤ
product_from dims i zero acc = some acc
product_from dims i (suc n) acc =
    get_elem? dims i >>= λ d. mul_int64 acc d >>= product_from dims (suc i) n

pub num_elements : TensorShape → Option ℤ
unfolding product_from
num_elements s =
    if eqb_ℤ s.ndims (pos 0) then some (pos 0) else product_from s.dims 0 (rounds s.ndims) (pos 1)

-- A negative index counts from the end.
pub from_end : ℤ → TensorShape → Option ℤ
from_end i s = if ltb_ℤ i (pos 0) then add_int64 s.ndims i else some i

-- The loop of `count`; an index that is still negative is outside the array.
pub count_between : List ℤ → ℤ → ℤ → Option ℤ
unfolding product_from
count_between dims (pos i) (pos j) = product_from dims i (j - i) (pos 1)
count_between dims (pos i) (negsuc j) = some (pos 1)
count_between dims (negsuc i) j = if ltb_ℤ (negsuc i) j then none else some (pos 1)

pub count : ℤ → ℤ → TensorShape → Option ℤ
unfolding from_end count_between
count i j s = from_end i s >>= λ first. from_end j s >>= λ last. count_between s.dims first last

-- The loop of `strides`, from the index `i - 1` down to 0.
pub fill_strides : List ℤ → ℕ → List ℤ → Option (List ℤ)
fill_strides dims zero s = some s
fill_strides dims (suc i) s = get_elem? s (suc i) >>= λ next.
    get_elem? dims (suc i) >>= λ d. mul_int64 next d >>= λ v. fill_strides dims i (set s i v)

abbrev pub strides_of_rank : List ℤ → ℤ → Option (List ℤ)
strides_of_rank dims (pos n) = fill_strides dims (n - 1) (replicate n (pos 1))
strides_of_rank dims (negsuc n) = none

pub strides : TensorShape → Option (List ℤ)
unfolding fill_strides
strides s = strides_of_rank s.dims s.ndims

abbrev pub set_ndims : ℤ → TensorShape → TensorShape
set_ndims n s = record s { ndims = n }

-- `dims()`: the vector from the first dimension to the last one in use.
abbrev pub dims_of_rank : List ℤ → ℤ → Option (List ℤ)
dims_of_rank dims (pos n) = if leb n (length dims) then some (take n dims) else none
dims_of_rank dims (negsuc n) = none

pub get_dims : TensorShape → Option (List ℤ)
get_dims s = dims_of_rank s.dims s.ndims

-- The loop of `operator==`, from the index i on, with n rounds to go.
pub same_dims : List ℤ → List ℤ → ℕ → ℕ → Option Bool
same_dims ds es i zero = some true
same_dims ds es i (suc n) = get_elem? ds i >>= λ d. get_elem? es i >>= λ e.
    let rest = same_dims ds es (suc i) n in if eqb_ℤ d e then rest else some false

pub shape_eq : TensorShape → TensorShape → Option Bool
unfolding same_dims
shape_eq s t =
    let same = same_dims s.dims t.dims 0 (rounds s.ndims) in
    if eqb_ℤ s.ndims t.ndims then same else some false

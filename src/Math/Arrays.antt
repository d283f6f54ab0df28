-- ===== src/Math/Arrays.antt =====
-- The loops of the kernels over arrays of `float`. `none` is an access outside an array.
pub mod Pointwise
use scicompute.Base.{
  ℕ, zero, suc, ◌+◌, ◌*◌, ◌/◌, ◌%◌, ◌^◌, ◌≡◌, Bool, true, false, Option, some, none, List, [], ◌∷◌,
  length, get_elem?, set, ltb, if◌then◌else◌, length-set,
}
use scicompute.Base.Fallible.{◌>>=◌}
use scicompute.Base.Int.{ℤ, to_size}
use scicompute.Core.Types.{DType}
use scicompute.Core.Shape.{TensorShape, num_elements}
use scicompute.Tensor.Data.{byte_size}

module _ {ℓ} {W : Type ℓ} where
  -- `out[i] = x`
  unfoldable pub put : ℕ → W → List W → Option (List W)
  put i x out = if ltb i (length out) then some (set out i x) else none

  -- `out[i] = f(a[i])`, n times from i on.
  unfoldable pub map_into : (W → W) → (n i : ℕ) → (a out : List W) → Option (List W)
  unfolding put
  map_into f zero i a out = some out
  map_into f (suc n) i a out = get_elem? a i >>= λ x. put i (f x) out >>= map_into f n (suc i) a

  -- `out[i] = f(a[i], b[i])`, n times from i on.
  unfoldable pub zip_into : (W → W → W) → (n i : ℕ) → (a b out : List W) → Option (List W)
  unfolding put
  zip_into f zero i a b out = some out
  zip_into f (suc n) i a b out =
      get_elem? a i >>= λ x. get_elem? b i >>= λ y. put i (f x y) out >>= zip_into f n (suc i) a b

  -- `a[i] = f(a[i], b[i])`, n times from i on.
  unfoldable pub zip_inplace : (W → W → W) → (n i : ℕ) → (b a : List W) → Option (List W)
  unfolding put
  zip_inplace f zero i b a = some a
  zip_inplace f (suc n) i b a =
      get_elem? a i >>= λ x. get_elem? b i >>= λ y. put i (f x y) a >>= zip_inplace f n (suc i) b

  -- `a[i] = f(a[i])`, n times from i on.
  unfoldable pub map_inplace : (W → W) → (n i : ℕ) → List W → Option (List W)
  unfolding put
  map_inplace f zero i a = some a
  map_inplace f (suc n) i a = get_elem? a i >>= λ x. put i (f x) a >>= map_inplace f n (suc i)

  -- `acc = f(acc, a[i])`, n times from i on.
  unfoldable pub fold_from : {B : Type ℓ} → (B → W → B) → (n i : ℕ) → List W → B → Option B
  fold_from f zero i a acc = some acc
  fold_from f (suc n) i a acc = get_elem? a i >>= λ x. fold_from f n (suc i) a (f acc x)

-- A tensor whose block is seen as an array of `float`.
pub record FloatTensor {ℓ} (W : Type ℓ) : Type ℓ where
  pub shape : TensorShape
  pub dtype : DType
  pub floats : List W

-- `size_t n = a.num_elements()`
abbrev pub element_count {ℓ} : {W : Type ℓ} → FloatTensor W → Option ℕ
element_count a = num_elements a.shape >>= λ n. some (to_size n)

module _ {ℓ} {W : Type ℓ} (fresh : ℕ → List W) where
  -- `Tensor(shape, dtype, device)`: a block of n bytes holds the array `fresh (n / 4)`.
  unfoldable pub create : TensorShape → DType → Option (FloatTensor W)
  create shape dtype = byte_size shape dtype >>= λ size.
      some (record { shape = shape; dtype = dtype; floats = fresh (size / 4) })

  -- A new tensor like a, which the kernel fills.
  unfoldable pub with_output :
      FloatTensor W → (List W → ℕ → Option (List W)) → Option (FloatTensor W)
  unfolding create
  with_output a kernel = create a.shape a.dtype >>= λ out.
      element_count a >>= λ n. kernel out.floats n >>= λ r. some (record out { floats = r })

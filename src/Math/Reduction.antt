-- ===== src/Math/Reduction.antt =====
-- src/math/reduction.cpp, built without `SCI_DEBUG`, so that no assertion is checked. `fresh` gives
-- the array of a new block. `none` is undefined behaviour.
pub mod Extremes
pub mod Results
mod Tests
use scicompute.Base.{
  ℕ, zero, suc, ◌-◌, ◌≡◌, Bool, true, false, Option, some, none, List, [], ◌∷◌, get_elem?,
  if◌then◌else◌,
}
use scicompute.Base.Fallible.{◌>>=◌}
use scicompute.Base.Int.{ℤ, pos, negsuc, eqb_ℤ, to_size}
use scicompute.Core.Types.{DType, int64}
use scicompute.Core.Status.{create_status, of_not_implemented}
use scicompute.Core.Expected.{Expected, of_value, of_unexpected}
use scicompute.Core.Shape.{TensorShape, of_initializer_list, set_dim}
use scicompute.Math.Float.{Float, max_of, min_of}
use scicompute.Math.Arrays.{FloatTensor, element_count, create, put, fold_from}

module _ {ℓ} {W : Type ℓ} ⦃fl : Float W⦄ where
  pub sum_f32 : List W → ℕ → Option W
  unfolding fold_from
  sum_f32 values n = fold_from fl.add n 0 values fl.nought

  pub max_f32 : List W → ℕ → Option W
  unfolding fold_from
  max_f32 values n = get_elem? values 0 >>= fold_from max_of (n - 1) 1 values

  pub min_f32 : List W → ℕ → Option W
  unfolding fold_from
  min_f32 values n = get_elem? values 0 >>= fold_from min_of (n - 1) 1 values

  pub mean_f32 : List W → ℕ → Option W
  unfolding sum_f32
  mean_f32 values n = sum_f32 values n >>= λ s. some (fl.div s (fl.of_size n))

  abbrev pub add_square : W → W → W → W
  add_square m acc x = fl.add acc (fl.mul (fl.sub x m) (fl.sub x m))

  pub var_f32 : List W → ℕ → Option W
  unfolding mean_f32 fold_from
  var_f32 values n = mean_f32 values n >>= λ m.
      fold_from (add_square m) n 0 values fl.nought >>= λ v. some (fl.div v (fl.of_size n))

  abbrev pub add_power : W → W → W → W
  add_power p acc x = fl.add acc (fl.power (fl.magnitude x) p)

  -- The loop of `argmax` from the index i on, with n rounds to go.
  pub argmax_from : (n i : ℕ) → List W → (max_idx : ℕ) → (max_val : W) → Option ℕ
  argmax_from zero i values max_idx max_val = some max_idx
  argmax_from (suc n) i values max_idx max_val = get_elem? values i >>= λ x.
      argmax_from n (suc i) values (if fl.lt max_val x then i else max_idx)
        (if fl.lt max_val x then x else max_val)

  pub argmax_f32 : List W → ℕ → Option ℕ
  unfolding argmax_from
  argmax_f32 values n = get_elem? values 0 >>= argmax_from (n - 1) 1 values 0

  module _ (fresh : ℕ → List W) where
    -- A new tensor of one element of the type of a, which the kernel computes.
    pub scalar_output : FloatTensor W → (ℕ → Option W) → Option (FloatTensor W)
    unfolding create put
    scalar_output a kernel = create fresh (of_initializer_list (pos 1 ∷ [])) a.dtype >>= λ out.
        element_count a >>= kernel >>= λ x.
        put 0 x out.floats >>= λ r. some (record out { floats = r })

    pub sum : FloatTensor W → Option (FloatTensor W)
    unfolding scalar_output sum_f32
    sum a = scalar_output a (sum_f32 a.floats)

    pub mean : FloatTensor W → Option (FloatTensor W)
    unfolding scalar_output mean_f32
    mean a = scalar_output a (mean_f32 a.floats)

    pub max : FloatTensor W → Option (FloatTensor W)
    unfolding scalar_output max_f32
    max a = scalar_output a (max_f32 a.floats)

    pub min : FloatTensor W → Option (FloatTensor W)
    unfolding scalar_output min_f32
    min a = scalar_output a (min_f32 a.floats)

    pub prod : FloatTensor W → Option (FloatTensor W)
    unfolding scalar_output fold_from
    prod a = scalar_output a λ n. fold_from fl.mul n 0 a.floats fl.one

    pub std : FloatTensor W → Option (FloatTensor W)
    unfolding scalar_output var_f32
    std a = scalar_output a λ n. var_f32 a.floats n >>= λ v. some (fl.root v)

    pub var : FloatTensor W → Option (FloatTensor W)
    unfolding scalar_output var_f32
    var a = scalar_output a (var_f32 a.floats)

    pub norm : W → FloatTensor W → Option (FloatTensor W)
    unfolding scalar_output fold_from
    norm p a = scalar_output a λ n.
        fold_from (add_power p) n 0 a.floats fl.nought >>= λ s. some (fl.power s (fl.div fl.one p))

    -- `argmax(a, axis)`: the number that the result of one element holds.
    pub argmax : ℤ → FloatTensor W → Option (Expected ℕ)
    unfolding argmax_f32
    argmax axis a =
        let index = (element_count a >>= argmax_f32 a.floats) in
        let refused : Expected ℕ =
          of_unexpected
            (create_status of_not_implemented (some "Along-axis argmax not yet implemented")) in
        if eqb_ℤ axis (negsuc 0) then (index >>= λ i. some (of_value i)) else some refused

    -- `sum(a, axis)`, which makes an output and does not use it.
    pub sum_axis : ℤ → FloatTensor W → Option (Expected (FloatTensor W))
    unfolding create
    sum_axis axis a = set_dim (to_size axis) (pos 1) a.shape >>= λ out_shape.
        create fresh out_shape a.dtype >>= λ out. some (
          of_unexpected
            (create_status of_not_implemented (some "Along-axis reduction not yet implemented")))

  pub mean_axis : ℤ → FloatTensor W → Expected (FloatTensor W)
  mean_axis axis a =
      of_unexpected (create_status of_not_implemented (some "Along-axis mean not yet implemented"))

  pub argmin : ℤ → FloatTensor W → Expected ℕ
  argmin axis a =
      of_unexpected (create_status of_not_implemented (some "argmin not yet implemented"))

  -- The pair of the maxima and their indices.
  max_with_indices : ℤ → FloatTensor W → Expected (FloatTensor W × List ℕ)
  max_with_indices axis a =
      of_unexpected
        (create_status of_not_implemented (some "Along-axis max_with_indices not yet implemented"))

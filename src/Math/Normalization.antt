-- ===== src/Math/Normalization.antt =====
-- src/math/normalization.cpp, built without `SCI_DEBUG`, so that no assertion is checked. The indices
-- in a row are `int`; only the overflow of its first index is told apart. `none` is undefined
-- behaviour.
pub mod Row
pub mod Results
mod Tests
use scicompute.Base.{
  ℕ, zero, suc, ◌+◌, ◌-◌, ◌≡◌, Bool, true, false, Option, some, none, List, [], ◌∷◌, get_elem?,
  length, map, if◌then◌else◌,
}
use scicompute.Base.Fallible.{◌>>=◌}
use scicompute.Base.Int.{ℤ, pos, negsuc, mul_int64, add_int64, to_size, to_int}
use scicompute.Core.Types.{DType, float32}
use scicompute.Core.Status.{create_status, of_not_implemented}
use scicompute.Core.Expected.{Expected, of_unexpected}
use scicompute.Core.Shape.{TensorShape, dim, rounds, of_initializer_list}
use scicompute.Math.Float.{Float}
use scicompute.Math.Arrays.{FloatTensor, create, put}
use scicompute.Math.Reduction.{add_square}
use scicompute.Math.Softmax.{row_loop}

module _ {ℓ} {W : Type ℓ} ⦃fl : Float W⦄ where
  -- `acc = f(acc, x[base + c])`, for n columns from c on.
  pub fold_row : (W → W → W) → (n c base : ℕ) → List W → W → Option W
  fold_row f zero c base x acc = some acc
  fold_row f (suc n) c base x acc =
      get_elem? x (base + c) >>= λ v. fold_row f n (suc c) base x (f acc v)

  -- `out[base + c] = f(c, x[base + c])`, for n columns from c on.
  pub map_row : (ℕ → W → Option W) → (n c base : ℕ) → (x out : List W) → Option (List W)
  unfolding put
  map_row f zero c base x out = some out
  map_row f (suc n) c base x out = get_elem? x (base + c) >>= λ v.
      f c v >>= λ w. put (base + c) w out >>= map_row f n (suc c) base x

  -- `p ? p[c] : value`
  abbrev pub entry : Option (List W) → W → ℕ → Option W
  entry none value c = some value
  entry (some p) value c = get_elem? p c

  add_product : W → W → W
  add_product acc v = fl.add acc (fl.mul v v)

  layer_entry : (weight bias : Option (List W)) → (mean inv_std : W) → ℕ → W → Option W
  layer_entry weight bias mean inv_std c v = entry weight fl.one c >>= λ w.
      entry bias fl.nought c >>= λ b. some (fl.add (fl.mul (fl.mul (fl.sub v mean) inv_std) w) b)

  -- A row of `layer_norm_f32`.
  layer_row :
      (weight bias : Option (List W)) → W → (n base stride : ℕ) → (x out : List W) → Option (List W)
  unfolding fold_row map_row layer_entry
  layer_row weight bias eps n base stride x out = fold_row fl.add n 0 base x fl.nought >>= λ total.
      let mean = fl.div total (fl.of_size n) in
      fold_row (add_square mean) n 0 base x fl.nought >>= λ squares.
      let variance = fl.div squares (fl.of_size n) in
      map_row (layer_entry weight bias mean (fl.div fl.one (fl.root (fl.add variance eps)))) n 0
        base x out

  rms_entry : (weight : Option (List W)) → (inv_rms : W) → ℕ → W → Option W
  rms_entry weight inv_rms c v = entry weight fl.one c >>= λ w. some (fl.mul (fl.mul v inv_rms) w)

  -- A row of `rms_norm_f32`.
  rms_row :
      (weight : Option (List W)) → W → (n base stride : ℕ) → (x out : List W) → Option (List W)
  unfolding fold_row map_row rms_entry add_product
  rms_row weight eps n base stride x out = fold_row add_product n 0 base x fl.nought >>= λ squares.
      let rms = fl.root (fl.add (fl.div squares (fl.of_size n)) eps) in
      map_row (rms_entry weight (fl.div fl.one rms)) n 0 base x out

  pub layer_norm_f32 :
      (weight bias : Option (List W)) → W → (rows cols : ℤ) → (x out : List W) → Option (List W)
  unfolding row_loop layer_row
  layer_norm_f32 weight bias eps rows cols x out =
      row_loop (layer_row weight bias eps) (rounds rows) 0 cols x out

  pub rms_norm_f32 :
      (weight : Option (List W)) → W → (rows cols : ℤ) → (x out : List W) → Option (List W)
  unfolding row_loop rms_row
  rms_norm_f32 weight eps rows cols x out = row_loop (rms_row weight eps) (rounds rows) 0 cols x out

-- `rows *= x.dim(i)`, where the product is an `int64_t` and `rows` is an `int`.
rows_from : (n i : ℕ) → TensorShape → ℤ → Option ℤ
unfolding dim
rows_from zero i shape rows = some rows
rows_from (suc n) i shape rows =
    dim i shape >>= λ d. mul_int64 rows d >>= λ p. rows_from n (suc i) shape (to_int p)

module _ {ℓ} {W : Type ℓ} ⦃fl : Float W⦄ where
  -- An empty block is a null pointer.
  abbrev pub pointer : FloatTensor W → Option (List W)
  pointer t = elim t.floats [ [] ↦ none | f ∷ fs ↦ some (f ∷ fs) ]

  module _ (fresh : ℕ → List W) where
    -- The output of both, filled by a kernel for the rows and columns.
    normalized :
        FloatTensor W
        → ((rows cols : ℤ) → (x out : List W) → Option (List W))
        → Option (FloatTensor W)
    unfolding rows_from create dim
    normalized x kernel = create fresh x.shape x.dtype >>= λ out.
        add_int64 x.shape.ndims (negsuc 0) >>= λ last.
        rows_from (rounds last) 0 x.shape (pos 1) >>= λ rows. dim (to_size last) x.shape >>= λ cols.
        kernel rows (to_int cols) x.floats out.floats >>= λ r. some (record out { floats = r })

    layer_norm : (x weight bias : FloatTensor W) → W → Option (FloatTensor W)
    unfolding normalized layer_norm_f32
    layer_norm x weight bias eps = normalized x (layer_norm_f32 (pointer weight) (pointer bias) eps)

    rms_norm : (x weight : FloatTensor W) → W → Option (FloatTensor W)
    unfolding normalized rms_norm_f32
    rms_norm x weight eps = normalized x (rms_norm_f32 (pointer weight) eps)

    -- A tensor of the dimension filled with a value.
    filled : ℤ → W → Option (FloatTensor W)
    unfolding create
    filled d value = create fresh (of_initializer_list (d ∷ [])) float32 >>= λ t.
        some (record t { floats = map (λ x. value) t.floats })

    -- The forms without a weight, of the last number of a shape.
    layer_norm_default : FloatTensor W → ℤ → W → Option (FloatTensor W)
    unfolding layer_norm filled
    layer_norm_default x norm_dim eps = filled norm_dim fl.one >>= λ weight.
        filled norm_dim fl.nought >>= λ bias. layer_norm x weight bias eps

    rms_norm_default : FloatTensor W → ℤ → W → Option (FloatTensor W)
    unfolding rms_norm filled
    rms_norm_default x norm_dim eps = filled norm_dim fl.one >>= λ weight. rms_norm x weight eps

  batch_norm : Expected (FloatTensor W)
  batch_norm =
      of_unexpected (create_status of_not_implemented (some "BatchNorm not yet implemented"))

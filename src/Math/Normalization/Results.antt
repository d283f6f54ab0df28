-- ===== src/Math/Normalization/Results.antt =====
-- The normalizations of a matrix, row by row.
use scicompute.Base.{
  ℕ, ◌+◌, ◌*◌, ◌^◌, ◌≤◌, ◌<◌, ◌≡◌, ap, ◌∙◌, Option, some, List, length, get_elem?, arith,
  get_elem?-some,
}
use scicompute.Base.Fallible.{◌>>=◌}
use scicompute.Base.Int.{pos}
use scicompute.Math.Float.{Float}
use scicompute.Math.Reduction.{add_square}
use scicompute.Math.Reduction.Results.{fold_left}
use scicompute.Math.Softmax.Segment.{segment, Outside}
use scicompute.Math.Softmax.RowLoop.{row_loop-each}
use scicompute.Math.Normalization.{
  fold_row, map_row, layer_entry, layer_row, rms_entry, rms_row, add_product, layer_norm_f32,
  rms_norm_f32,
}
use scicompute.Math.Normalization.Row.{fold_row-segment, map_row-segment}

module _ {ℓ} {W : Type ℓ} ⦃fl : Float W⦄ where
  -- The mean and the variance of a row, and the sum of its squares.
  abbrev pub mean_of : List W → ℕ → W
  mean_of row n = fl.div (fold_left fl.add fl.nought row) (fl.of_size n)

  abbrev pub variance_of : List W → ℕ → W
  variance_of row n = fl.div (fold_left (add_square (mean_of row n)) fl.nought row) (fl.of_size n)

  abbrev pub mean_square : List W → ℕ → W
  mean_square row n = fl.div (fold_left (λ s v. fl.add s (fl.mul v v)) fl.nought row) (fl.of_size n)

  -- From base on, y is the row of x under a function of the row, the column and the element.
  abbrev pub RowOf :
      (List W → ℕ → W → Option W) → (cols : ℕ) → (x : List W) → (base : ℕ) → (y : List W) → Type ℓ
  RowOf f cols x base y =
      (j : ℕ) (v : W)
      → j < cols
      → get_elem? x (base + j) ≡ some v
      → get_elem? y (base + j) ≡ f (segment base cols x) j v

  abbrev pub layer_of : (weight bias : List W) → W → ℕ → List W → ℕ → W → Option W
  layer_of weight bias eps cols row j v = get_elem? weight j >>= λ w. get_elem? bias j >>= λ b.
      some (
        fl.add
          (fl.mul
            (fl.mul (fl.sub v (mean_of row cols))
              (fl.div fl.one (fl.root (fl.add (variance_of row cols) eps))))
            w)
          b)

  abbrev pub rms_of : (weight : List W) → W → ℕ → List W → ℕ → W → Option W
  rms_of weight eps cols row j v = get_elem? weight j >>= λ w.
      some (fl.mul (fl.mul v (fl.div fl.one (fl.root (fl.add (mean_square row cols) eps)))) w)

  entries-some :
      (g : W → W → W) (p q : List W) (j : ℕ)
      → j < length p
      → j < length q
      → (w : W) × ((get_elem? p j >>= λ w. get_elem? q j >>= λ b. some (g w b)) ≡ some w)
  entries-some g p q j h k =
      let (w, e) = get_elem?-some p j h in
      let (b, f) = get_elem?-some q j k in
      (
        g w b,
        ap (λ o. o >>= λ w. get_elem? q j >>= λ b. some (g w b)) e
            ∙ ap (λ o. o >>= λ b. some (g w b)) f,
      )

  entry-some :
      (g : W → W) (p : List W) (j : ℕ)
      → j < length p
      → (w : W) × ((get_elem? p j >>= λ w. some (g w)) ≡ some w)
  entry-some g p j h = let (w, e) = get_elem?-some p j h in (g w, ap (λ o. o >>= λ w. some (g w)) e)

  layer_row-RowOf :
      (weight bias : List W) (eps : W) (n base : ℕ) (x out : List W)
      → n ≤ length weight
      → n ≤ length bias
      → base + n ≤ length x
      → base + n ≤ length out
      → (q : List W) × (layer_row (some weight) (some bias) eps n base 1 x out ≡ some q)
        × Outside base n out q
        × RowOf (layer_of weight bias eps n) n x base q
  unfolding layer_row layer_entry
  layer_row-RowOf weight bias eps n base x out h k l m =
      let row = segment base n x in
      let mean = mean_of row n in
      let inv_std = fl.div fl.one (fl.root (fl.add (variance_of row n) eps)) in
      let (r, made, outside, each) =
        map_row-segment (layer_of weight bias eps n row) n base x out l m (λ j v o.
          entries-some (λ w b. fl.add (fl.mul (fl.mul (fl.sub v mean) inv_std) w) b) weight bias j
            (omega arith) (omega arith)) in
      let write : W → W → Option (List W) = λ mean squares.
        map_row
          (layer_entry (some weight) (some bias) mean
            (fl.div fl.one (fl.root (fl.add (fl.div squares (fl.of_size n)) eps))))
          n 0 base x out in
      (
        r,
        ap
              (λ o. o >>= λ total.
                fold_row (add_square (fl.div total (fl.of_size n))) n 0 base x fl.nought
                >>= write (fl.div total (fl.of_size n)))
              (fold_row-segment fl.add n base x fl.nought l)
            ∙ ap (λ o. o >>= write mean) (fold_row-segment (add_square mean) n base x fl.nought l)
            ∙ made,
        outside,
        each,
      )

  rms_row-RowOf :
      (weight : List W) (eps : W) (n base : ℕ) (x out : List W)
      → n ≤ length weight
      → base + n ≤ length x
      → base + n ≤ length out
      → (q : List W) × (rms_row (some weight) eps n base 1 x out ≡ some q)
        × Outside base n out q
        × RowOf (rms_of weight eps n) n x base q
  unfolding rms_row rms_entry add_product
  rms_row-RowOf weight eps n base x out h l m =
      let row = segment base n x in
      let inv_rms = fl.div fl.one (fl.root (fl.add (mean_square row n) eps)) in
      let (r, made, outside, each) =
        map_row-segment (rms_of weight eps n row) n base x out l m
          (λ j v o. entry-some (λ w. fl.mul (fl.mul v inv_rms) w) weight j (omega arith)) in
      (
        r,
        ap
              (λ o. o >>= λ squares.
                map_row
                  (rms_entry (some weight)
                    (fl.div fl.one (fl.root (fl.add (fl.div squares (fl.of_size n)) eps))))
                  n 0 base x out)
              (fold_row-segment (λ s v. fl.add s (fl.mul v v)) n base x fl.nought l)
            ∙ made,
        outside,
        each,
      )

  -- layer_norm_f32 and rms_norm_f32 of an array of rows times cols floats, below 2^31, with at least
  -- cols weights and biases. Every row of the outcome is, element by element, for layer_norm_f32
  -- the difference from the mean of the row times the inverse of the root of its variance plus
  -- eps, times the weight of the column, plus its bias, and for rms_norm_f32 the element times the
  -- inverse of the root of the mean square of the row plus eps, times the weight.
  pub norms_lem :
      (weight bias x out : List W) (eps : W) (rows cols : ℕ)
      → cols ≤ length weight
      → cols ≤ length bias
      → rows * cols ≤ length x
      → rows * cols ≤ length out
      → rows * cols < 2 ^ 31
      → ((y : List W) × (layer_norm_f32 (some weight) (some bias) eps (pos rows) (pos cols) x out
            ≡ some y)
          × (length y ≡ length out)
          × ((i : ℕ) → i < rows → RowOf (layer_of weight bias eps cols) cols x (i * cols) y))
        × ((y : List W) × (rms_norm_f32 (some weight) eps (pos rows) (pos cols) x out ≡ some y)
            × (length y ≡ length out)
            × ((i : ℕ) → i < rows → RowOf (rms_of weight eps cols) cols x (i * cols) y))
  unfolding layer_norm_f32 rms_norm_f32
  norms_lem weight bias x out eps rows cols h k l m small =
      let stays : (f : List W → ℕ → W → Option W) (base : ℕ) (q y : List W)
          → ((j : ℕ) → j < cols → get_elem? y (base + j) ≡ get_elem? q (base + j))
          → RowOf f cols x base q
          → RowOf f cols x base y =
        λ f base q y same row j v o e. same j o ∙ row j v o e in
      let (y, made, long, before, each) =
        row_loop-each (layer_row (some weight) (some bias) eps) cols x
          (RowOf (layer_of weight bias eps cols) cols x)
          (λ base out. layer_row-RowOf weight bias eps cols base x out h k)
          (stays (layer_of weight bias eps cols)) rows 0 out (omega arith) (omega arith)
          (omega arith) in
      let (z, done, wide, first, every) =
        row_loop-each (rms_row (some weight) eps) cols x (RowOf (rms_of weight eps cols) cols x)
          (λ base out. rms_row-RowOf weight eps cols base x out h) (stays (rms_of weight eps cols))
          rows 0 out (omega arith) (omega arith) (omega arith) in
      (
        (y, made, long, λ i o. each i (omega arith) (omega arith)),
        (z, done, wide, λ i o. every i (omega arith) (omega arith)),
      )

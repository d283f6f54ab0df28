-- ===== src/Math/Softmax/Rows.antt =====
-- `softmax` of a tensor of two dimensions, row by row.
use scicompute.Base.{
  ℕ, ◌+◌, ◌*◌, ◌/◌, ◌%◌, ◌^◌, ◌≤◌, ◌<◌, ◌≡◌, refl, ap, ◌∙◌, Option, some, List, [], ◌∷◌, length,
  get_elem?, arith, if_true, lt→ltb, if◌then◌else◌, ◌||◌,
}
use scicompute.Base.Fallible.{◌>>=◌}
use scicompute.Base.Int.{ℤ, pos, negsuc, eqb_ℤ, add_int64, int64, to_int, signed_32, to_size}
use scicompute.Core.Types.{DType, dtype_size}
use scicompute.Core.Status.{create_status, of_not_implemented}
use scicompute.Core.Expected.{Expected, of_value, of_unexpected}
use scicompute.Core.Shape.{dim, rounds}
use scicompute.Core.Shape.Rows.{HasDims}
use scicompute.Tensor.Data.{byte_size}
use scicompute.Math.Float.{Float, IsOrdered}
use scicompute.Math.Arrays.{FloatTensor, create}
use scicompute.Math.Elementwise.Results.{Holds}
use scicompute.Math.Reduction.Extremes.{Foremost}
use scicompute.Math.Softmax.{softmax_f32, row_loop, by_rows, last_axis, softmax}
use scicompute.Math.Softmax.Segment.{segment}
use scicompute.Math.Softmax.RowLoop.{row_loop-each}
use scicompute.Math.Softmax.Row.{share, softmax_f32-share}

to_int-pos : (a : ℕ) → a < 2 ^ 31 → to_int (pos a) ≡ pos a
to_int-pos a h =
    ap signed_32 {x = a % 2 ^ 32} {y = a} (omega arith) ∙ if_true _ _ (lt→ltb a (2 ^ 31) h)

module _ {ℓ} {W : Type ℓ} ⦃fl : Float W⦄ where
  -- From base on, y is the softmax of x: with a greatest element m of the row, each element is the
  -- exponential of its difference from m, times the inverse of the sum of these.
  abbrev pub Shared : (cols : ℕ) → (x : List W) → (base : ℕ) → (y : List W) → Type ℓ
  Shared cols x base y =
      (m : W) × Foremost fl.lt (segment base cols x) cols m
      × ((j : ℕ) (v : W)
          → j < cols
          → get_elem? x (base + j) ≡ some v
          → get_elem? y (base + j) ≡ some (share m (segment base cols x) v))

  -- Row i of y is the softmax of row i of x.
  abbrev pub RowDone : (cols : ℕ) → (x y : List W) → ℕ → Type ℓ
  RowDone cols x y i = Shared cols x (i * cols) y

  row_loop-RowDone :
      (ordered : IsOrdered W) (rows cols : ℕ) (x out : List W)
      → 1 ≤ cols
      → rows * cols ≤ length x
      → rows * cols ≤ length out
      → rows * cols < 2 ^ 31
      → (y : List W) × (row_loop softmax_f32 rows 0 (pos cols) x out ≡ some y)
        × (length y ≡ length out)
        × ((i : ℕ) → i < rows → RowDone cols x y i)
  row_loop-RowDone ordered rows cols x out one h k small =
      let (y, made, long, before, each) =
        row_loop-each softmax_f32 cols x (Shared cols x)
          (λ base out h k.
            let (q, m, made, outside, best, row) =
              softmax_f32-share ordered cols base x out one h k in
            (q, made, outside, (m, best, row)))
          (λ base q y same (m, best, row). (m, best, λ j v l f. same j l ∙ row j v l f)) rows 0 out
          (omega (arith, h)) (omega (arith, k)) (omega arith) in
      (y, made, long, λ i l. each i (omega arith) (omega arith))

  by_rows-row_loop :
      (a : FloatTensor W) (rows cols : ℕ) (out : List W)
      → HasDims a.shape (rows ∷ cols ∷ [])
      → rows < 2 ^ 31
      → cols < 2 ^ 31
      → by_rows softmax_f32 a out ≡ row_loop softmax_f32 rows 0 (pos cols) a.floats out
  unfolding by_rows dim
  by_rows-row_loop a rows cols out (two, reads) few narrow =
      let loop : ℤ → ℤ → Option (List W) =
        λ d e. row_loop softmax_f32 (rounds (to_int d)) 0 (to_int e) a.floats out in
      if_true _ _ (ap (λ n. eqb_ℤ n (pos 2)) two)
      ∙ ap (λ o. o >>= λ d. get_elem? a.shape.dims 1 >>= λ e. loop d e) (reads 0 rows refl)
      ∙ ap (λ o. o >>= λ e. loop (pos rows) e) (reads 1 cols refl)
      ∙ ap (λ d. row_loop softmax_f32 (rounds d) 0 (to_int (pos cols)) a.floats out)
          (to_int-pos rows few)
      ∙ ap (λ e. row_loop softmax_f32 rows 0 e a.floats out) (to_int-pos cols narrow)

  -- softmax along the last axis, given as -1, of a float32 tensor of rows times cols elements, both
  -- at least 1 and their product below 2^31, where floats are ordered as they are without NaN and
  -- a new block of n floats holds n: a tensor of the same shape, each row of which is the softmax
  -- of the row.
  pub softmax_lem :
      (fresh : ℕ → List W) (ordered : IsOrdered W) (a : FloatTensor W) (rows cols : ℕ)
      → ((n : ℕ) → length (fresh n) ≡ n)
      → HasDims a.shape (rows ∷ cols ∷ [])
      → Holds a (rows * cols)
      → 1 ≤ rows
      → 1 ≤ cols
      → rows * cols < 2 ^ 31
      → (y : List W) × (softmax fresh (negsuc 0) a ≡ some (of_value (record a { floats = y })))
        × (length y ≡ rows * cols)
        × ((i : ℕ) → i < rows → RowDone cols a.floats y i)
  unfolding softmax create byte_size dtype_size add_int64 int64
  softmax_lem fresh ordered a rows cols sized (two, reads) (count, type, long) h k small =
      let out = fresh ((rows * cols * 4) % 2 ^ 64 / 4) in
      let full : length out ≡ rows * cols = sized ((rows * cols * 4) % 2 ^ 64 / 4) ∙ omega arith in
      let (y, made, same, each) =
        row_loop-RowDone ordered rows cols a.floats out k (omega (arith, long))
          (omega (arith, full)) (omega arith) in
      let few : rows < 2 ^ 31 = fits rows cols k small in
      let narrow : cols < 2 ^ 31 = fits' rows cols h small in
      let refused : Expected (FloatTensor W) =
        of_unexpected
          (create_status of_not_implemented (some "Only last-axis softmax supported")) in
      let computed : FloatTensor W → Option (Expected (FloatTensor W)) =
        λ t. by_rows softmax_f32 a t.floats >>= λ r. some (of_value (record t { floats = r })) in
      let decide : FloatTensor W → Option (Expected (FloatTensor W)) =
        λ t. last_axis (negsuc 0) a >>= λ last. if last then computed t else some refused in
      let output : DType → FloatTensor W =
        λ ty. record a { floats = fresh ((rows * cols * dtype_size ty) % 2 ^ 64 / 4) } in
      (
        y,
        ap
              (λ o.
                (o >>= λ n. some ((to_size n * dtype_size a.dtype) % 2 ^ 64))
                >>= (λ size. some (record a { floats = fresh (size / 4) }))
                >>= decide)
              count
            ∙ ap (λ ty. decide (output ty)) type
            ∙ ap
                (λ n.
                  (add_int64 n (negsuc 0) >>= λ last.
                  some (eqb_ℤ (negsuc 0) (negsuc 0) || eqb_ℤ (negsuc 0) last))
                  >>= λ last. if last then computed (record a { floats = out }) else some refused)
                two
            ∙ ap (λ o. o >>= λ r. some (of_value (record a { floats = r })))
                (by_rows-row_loop a rows cols out (two, reads) few narrow ∙ made),
        same ∙ full,
        each,
      )
    where
      fits : (r c : ℕ) → 1 ≤ c → r * c < 2 ^ 31 → r < 2 ^ 31
      fits r c h k = grind arith

      fits' : (r c : ℕ) → 1 ≤ r → r * c < 2 ^ 31 → c < 2 ^ 31
      fits' r c h k = grind arith

-- ===== src/Tensor/View/Dense.antt =====
-- `is_contiguous`: whether the strides are those of the row-major order.
use scicompute.Base.{
  ℕ, zero, suc, ◌*◌, ◌^◌, ◌≤◌, ◌<◌, ◌≡◌, ◌≢◌, ◌↔◌, ◌⊎◌, inl, inr, refl, sym, ap, ◌∙◌, Bool, true,
  false, Option, some, List, map, length, get_elem?, drop, arith, some_inj, if_true, if_false,
  if◌then◌else◌, ==_refl, ==_ne, ℕ_discrete, get_elem?-some, length-map, Bool-cases, ◌==◌,
}
use scicompute.Base.Int.{ℤ, pos, negsuc, eqb_ℤ, mul_int64, mul_int64-pos}
use scicompute.Base.Fallible.{◌>>=◌}
use scicompute.Core.Shape.{TensorShape, dim, rounds}
use scicompute.Core.Shape.Rows.{
  volume, room, row_strides, HasDims, volume_le, volume-drop, room-drop_le, row_strides-volume,
  length-row_strides, volume-drop_all, get_elem?-map_pos, list_ext,
}
use scicompute.Tensor.View.{TensorView, is_dense, dense_from, is_contiguous}

SameNumber : ℤ → ℕ → Type 0
SameNumber a n =
    ((eqb_ℤ a (pos n) ≡ true) × (a ≡ pos n)) ⊎ ((eqb_ℤ a (pos n) ≡ false) × (a ≢ pos n))

eqb_ℤ-pos : (a : ℤ) (n : ℕ) → SameNumber a n
unfolding SameNumber
eqb_ℤ-pos (pos m) n = elim (ℕ_discrete m n) [
  | yes e ↦ inl (ap (λ k. m == k) (sym e) ∙ ==_refl m, ap pos e)
  | no ne ↦ inr (==_ne m n ne, λ e. ne (ap magnitude e))
]
  where
    magnitude : ℤ → ℕ
    magnitude (pos k) = k
    magnitude (negsuc k) = k
eqb_ℤ-pos (negsuc m) n = inr (refl, λ e. cc)

module _ (s : List ℤ) (shape : TensorShape) (ds : List ℕ) (has : HasDims shape ds)
    (small : room ds < 2 ^ 63) (long : length s ≡ length ds) where
  Row : ℕ → Type 0
  Row i = (j : ℕ) → j < i → get_elem? s j ≡ some (pos (volume (drop (suc j) ds)))

  dense_from-suc :
      (i d : ℕ) (v : ℤ)
      → get_elem? ds i ≡ some d
      → get_elem? s i ≡ some v
      → dense_from s shape (suc i) (pos (volume (drop (suc i) ds))) ≡ (
          if eqb_ℤ v (pos (volume (drop (suc i) ds)))
          then dense_from s shape i (pos (volume (drop i ds)))
          else some false)
  unfolding dense_from dim
  dense_from-suc i d v e f =
      let expected = volume (drop (suc i) ds) in
      let bound = volume_le (drop i ds) in
      let shorter = room-drop_le ds i in
      let product : expected * d ≡ volume (drop i ds) =
        swapped expected d ∙ sym (volume-drop ds i d e) in
      let next : Option Bool = dense_from s shape i (pos (volume (drop i ds))) in
      let rest : (dim i shape >>= λ d. mul_int64 (pos expected) d >>= λ n. dense_from s shape i n)
          ≡ next =
        ap (λ o. o >>= λ d. mul_int64 (pos expected) d >>= λ n. dense_from s shape i n)
          (has.1 i d e)
        ∙ ap (λ o. o >>= λ n. dense_from s shape i n)
            (mul_int64-pos expected d (omega (arith, product)))
        ∙ ap (λ n. dense_from s shape i (pos n)) product in
      ap
        (λ o. o >>= λ stride.
          if eqb_ℤ stride (pos expected)
          then (dim i shape >>= λ d. mul_int64 (pos expected) d >>= λ n. dense_from s shape i n)
          else some false)
        f
      ∙ ap (λ r. if eqb_ℤ v (pos expected) then r else some false) rest
    where
      swapped : (a b : ℕ) → a * b ≡ b * a
      swapped a b = grind arith

  dense_from-Row :
      (i : ℕ)
      → i ≤ length ds
      → (dense_from s shape i (pos (volume (drop i ds))) ≡ some true) ↔ Row i
  unfolding dense_from Row SameNumber
  dense_from-Row zero h = (λ e j l. elim l [ ], λ r. refl)
  dense_from-Row (suc i) h =
      let (d, e) = get_elem?-some ds i (omega arith) in
      let (v, f) = get_elem?-some s i (omega arith) in
      let (to, from) = dense_from-Row i (omega arith) in
      let computed = dense_from-suc i d v e f in
      elim (eqb_ℤ-pos v (volume (drop (suc i) ds))) [
        | inl (t, eq) ↦
            let here = computed ∙ if_true _ _ t in
            (
              λ g j l. elim (ℕ_discrete i j) [
                | yes k ↦
                    ap (get_elem? s) (sym k)
                    ∙ f
                    ∙ ap some eq
                    ∙ ap (λ n. some (pos (volume (drop (suc n) ds)))) k
                | no k ↦ to (sym here ∙ g) j (omega arith)
              ],
              λ r. here ∙ from (λ j l. r j (omega arith)),
            )
        | inr (t, ne) ↦
            let here = computed ∙ if_false _ _ t in
            (λ g. absurd (cc (here, g)), λ r. absurd (ne (some_inj (sym f ∙ r i (omega arith)))))
      ]

  strides-Row : Row (length ds) ↔ (s ≡ map pos (row_strides ds))
  unfolding Row
  strides-Row =
      let fact : (j : ℕ)
          → j < length ds
          → get_elem? (map pos (row_strides ds)) j ≡ some (pos (volume (drop (suc j) ds))) =
        λ j l.
          get_elem?-map_pos (row_strides ds) j (volume (drop (suc j) ds))
            (row_strides-volume ds j l) in
      (
        λ r.
            list_ext s (map pos (row_strides ds))
              (long ∙ sym (length-map pos (row_strides ds) ∙ length-row_strides ds))
              (λ j l. r j (omega arith) ∙ sym (fact j (omega arith))),
        λ e j l. ap (λ l. get_elem? l j) e ∙ fact j l,
      )

-- A view with a stride for each dimension, the extents of which have a product below 2^63 where an
-- extent of 0 counts as 1, is contiguous exactly if its layout is, and its strides are the products
-- of the extents after them.
pub is_contiguous_iff :
    (v : TensorView) (ds : List ℕ)
    → HasDims v.shape ds
    → room ds < 2 ^ 63
    → length v.strides ≡ length ds
    → (is_contiguous v ≡ some true)
      ↔ ((is_dense v.layout ≡ true) × (v.strides ≡ map pos (row_strides ds)))
unfolding is_contiguous
is_contiguous_iff v ds has small long =
    let (to, from) = dense_from-Row v.strides v.shape ds has small long (length ds) (omega arith) in
    let (out, back) = strides-Row v.strides v.shape ds has small long in
    let start : dense_from v.strides v.shape (rounds v.shape.ndims) (pos 1)
        ≡ dense_from v.strides v.shape (length ds) (pos (volume (drop (length ds) ds))) =
      ap (λ n. dense_from v.strides v.shape (rounds n) (pos 1)) has.0
      ∙ ap (λ n. dense_from v.strides v.shape (length ds) (pos n)) (sym (volume-drop_all ds)) in
    elim (Bool-cases (is_dense v.layout)) [
      | inl t ↦ (
        λ e. (t, out (to (sym start ∙ sym (if_true _ _ t) ∙ e))),
        λ (u, e). if_true _ _ t ∙ start ∙ from (back e),
      )
      | inr f ↦ (λ e. absurd (cc (sym (if_false _ _ f) ∙ e)), λ (u, e). absurd (cc (f, u)))
    ]

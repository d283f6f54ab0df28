-- ===== src/Math/Softmax/RowLoop.antt =====
-- The loop over the rows of a matrix, for any kernel that writes its row only.
use scicompute.Base.{
  ℕ, zero, suc, ◌+◌, ◌*◌, ◌^◌, ◌≤◌, ◌<◌, ◌≡◌, refl, ap, subst, ◌∙◌, inl, Option, some, List, length,
  get_elem?, arith, if_true, lt→ltb, ℕ_discrete,
}
use scicompute.Base.Fallible.{◌>>=◌}
use scicompute.Base.Int.{pos, mul_int, to_size}
use scicompute.Math.Float.{Float}
use scicompute.Math.Softmax.{row_loop}
use scicompute.Math.Softmax.Segment.{Outside}

mul_int-pos : (a b : ℕ) → a * b < 2 ^ 31 → mul_int (pos a) (pos b) ≡ some (pos (a * b))
unfolding mul_int
mul_int-pos a b h = if_true _ _ (lt→ltb (a * b) (2 ^ 31) h)

-- `P base y` is what the kernel does to the row at base, which depends on that row of y only.
module _ {ℓ} {W : Type ℓ} ⦃fl : Float W⦄
    (kernel : (n base stride : ℕ) → (x out : List W) → Option (List W)) (cols : ℕ) (x : List W)
    (P : ℕ → List W → Type ℓ)
    (runs : (base : ℕ) (out : List W)
      → base + cols ≤ length x
      → base + cols ≤ length out
      → (q : List W) × (kernel cols base 1 x out ≡ some q) × Outside base cols out q × P base q)
    (stays : (base : ℕ) (q y : List W)
      → ((j : ℕ) → j < cols → get_elem? y (base + j) ≡ get_elem? q (base + j))
      → P base q
      → P base y) where
  pub row_loop-each :
      (n r : ℕ) (out : List W)
      → (r + n) * cols ≤ length x
      → (r + n) * cols ≤ length out
      → (r + n) * cols < 2 ^ 31
      → (y : List W) × (row_loop kernel n r (pos cols) x out ≡ some y)
        × (length y ≡ length out)
        × ((j : ℕ) → j < r * cols → get_elem? y j ≡ get_elem? out j)
        × ((i : ℕ) → r ≤ i → i < r + n → P (i * cols) y)
  unfolding row_loop
  row_loop-each zero r out h k small =
      (out, refl, refl, λ j l. refl, λ i l m. absurd (omega (arith, l, m)))
  row_loop-each (suc n) r out h k small =
      let above : r * cols + cols ≤ (r + suc n) * cols = grind arith in
      let same : (suc r + n) * cols ≡ (r + suc n) * cols =
        ap (λ (a : ℕ). a * cols) {x = suc r + n} {y = r + suc n} (omega arith) in
      let next : suc r * cols ≡ r * cols + cols = grind arith in
      let (q, made, (long, outside), done) = runs (r * cols) out (omega arith) (omega arith) in
      let (y, rest, long', before, after) =
        row_loop-each n (suc r) q (omega (arith, same)) (omega (arith, same, long))
          (omega (arith, same)) in
      (
        y,
        ap
              (λ o. o >>= λ base.
                kernel cols (to_size base) 1 x out >>= row_loop kernel n (suc r) (pos cols) x)
              (mul_int-pos r cols (omega arith))
            ∙ ap (λ o. o >>= row_loop kernel n (suc r) (pos cols) x) made
            ∙ rest,
        long' ∙ long,
        λ j l. before j (omega arith) ∙ outside j (inl l),
        λ i l u. elim (ℕ_discrete r i) [
          | yes e ↦
              subst (λ i. P (i * cols) y) e
                (stays (r * cols) q y (λ j v. before (r * cols + j) (omega arith)) done)
          | no e ↦ after i (omega (arith, e)) (omega arith)
        ],
      )

-- ===== src/Math/Normalization/Row.antt =====
-- The loops over a row: a fold, and a kernel for each element.
use scicompute.Base.{
  ℕ, zero, suc, ◌+◌, ◌*◌, ◌≤◌, ◌<◌, ◌≡◌, refl, sym, ap, subst, ◌∙◌, inl, inr, Option, some, List,
  length, get_elem?, set, arith, some_inj, if_true, lt→ltb, get_elem?-some, length-set,
}
use scicompute.Base.Fallible.{◌>>=◌}
use scicompute.Math.Float.{Float}
use scicompute.Math.Arrays.{put}
use scicompute.Math.Reduction.Results.{fold_left}
use scicompute.Math.Softmax.Segment.{
  segment, segment-cons, Outside, Outside-suc, written-first, first_or_after,
}
use scicompute.Math.Normalization.{fold_row, map_row}

module _ {ℓ} {W : Type ℓ} ⦃fl : Float W⦄ where
  fold_row-fold_left :
      (f : W → W → W) (n c base : ℕ) (x : List W) (acc : W)
      → base + c + n ≤ length x
      → fold_row f n c base x acc ≡ some (fold_left f acc (segment (base + c) n x))
  unfolding fold_row
  fold_row-fold_left f zero c base x acc h = refl
  fold_row-fold_left f (suc n) c base x acc h =
      let (v, e) = get_elem?-some x (base + c) (omega arith) in
      ap (λ o. o >>= λ v. fold_row f n (suc c) base x (f acc v)) e
      ∙ fold_row-fold_left f n (suc c) base x (f acc v) (omega arith)
      ∙ ap (λ b. some (fold_left f (f acc v) (segment b n x))) {x = base + suc c}
          {y = suc (base + c)} (omega arith)
      ∙ ap (λ l. some (fold_left f acc l)) (sym (segment-cons (base + c) n x v e))

  -- Where the kernel gives a value for each column, the loop writes these.
  map_row-each :
      (f : ℕ → W → Option W) (n c base : ℕ) (x out : List W)
      → base + c + n ≤ length x
      → base + c + n ≤ length out
      → ((j : ℕ) (v : W) → j < c + n → (w : W) × (f j v ≡ some w))
      → (r : List W) × (map_row f n c base x out ≡ some r)
        × Outside (base + c) n out r
        × ((j : ℕ) (v : W)
            → c ≤ j
            → j < c + n
            → get_elem? x (base + j) ≡ some v
            → get_elem? r (base + j) ≡ f j v)
  unfolding map_row put
  map_row-each f zero c base x out h l total =
      (out, refl, (refl, λ j o. refl), λ j v o p e. absurd (omega (arith, o, p)))
  map_row-each f (suc n) c base x out h l total =
      let p = base + c in
      let (v, e) = get_elem?-some x p (omega arith) in
      let (w, g) = total c v (omega arith) in
      let (r, made, outside, each) =
        map_row-each f n (suc c) base x (set out p w) (omega arith)
          (omega (arith, length-set out p w)) (λ j u o. total j u (omega arith)) in
      let around : Outside (base + suc c) n (set out (base + c * 1) w) r =
        subst (λ q. Outside (base + suc c) n (set out q w) r) {x = p} {y = base + c * 1}
          (omega arith) outside in
      (
        r,
        ap (λ o. o >>= λ v. f c v >>= λ w. put p w out >>= map_row f n (suc c) base x) e
            ∙ ap (λ o. o >>= λ w. put p w out >>= map_row f n (suc c) base x) g
            ∙ ap (λ o. o >>= map_row f n (suc c) base x)
                (if_true _ _ (lt→ltb p (length out) (omega arith)))
            ∙ made,
        Outside-suc base c n out r w around,
        λ j u o q i. elim (first_or_after n o q) [
          | inl same ↦
              ap (λ a. get_elem? r (base + a)) (sym same)
              ∙ written-first base c n out r w around (omega arith)
              ∙ sym g
              ∙ ap (λ z. f c z) (some_inj (sym e ∙ ap (λ a. get_elem? x (base + a)) same ∙ i))
              ∙ ap (λ a. f a u) same
          | inr after ↦ each j u after.0 after.1 i
        ],
      )

  -- The same for a whole row.
  pub fold_row-segment :
      (f : W → W → W) (n base : ℕ) (x : List W) (acc : W)
      → base + n ≤ length x
      → fold_row f n 0 base x acc ≡ some (fold_left f acc (segment base n x))
  fold_row-segment f n base x acc h =
      fold_row-fold_left f n 0 base x acc (omega arith)
      ∙ ap (λ b. some (fold_left f acc (segment b n x))) {x = base + 0} {y = base} (omega arith)

  pub map_row-segment :
      (f : ℕ → W → Option W) (n base : ℕ) (x out : List W)
      → base + n ≤ length x
      → base + n ≤ length out
      → ((j : ℕ) (v : W) → j < n → (w : W) × (f j v ≡ some w))
      → (r : List W) × (map_row f n 0 base x out ≡ some r)
        × Outside base n out r
        × ((j : ℕ) (v : W)
            → j < n
            → get_elem? x (base + j) ≡ some v
            → get_elem? r (base + j) ≡ f j v)
  map_row-segment f n base x out h l total =
      let (r, made, outside, each) =
        map_row-each f n 0 base x out (omega arith) (omega arith)
          (λ j v o. total j v (omega arith)) in
      (
        r,
        made,
        subst (λ b. Outside b n out r) {x = base + 0} {y = base} (omega arith) outside,
        λ j v o e. each j v (omega arith) (omega arith) e,
      )

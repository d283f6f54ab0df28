-- ===== src/Math/Reduction/Extremes.antt =====
-- The reductions that compare: `max`, `min` and `argmax`.
use scicompute.Base.{
  ℕ, zero, suc, ◌+◌, ◌-◌, ◌≤◌, ◌<◌, ◌≡◌, refl, sym, ap, subst, ◌∙◌, inl, inr, Bool, true, false,
  some, List, length, get_elem?, arith, some_inj, if_true, if_false, if◌then◌else◌, Bool-cases,
  get_elem?-some, ℕ_discrete,
}
use scicompute.Base.Fallible.{◌>>=◌}
use scicompute.Math.Float.{Float, IsOrdered}
use scicompute.Math.Arrays.{fold_from}
use scicompute.Math.Reduction.{max_f32, min_f32, argmax_from, argmax_f32}

module _ {ℓ} {W : Type ℓ} where
  -- x is an element of the array that is before none of the first n in the order.
  abbrev pub Foremost : (W → W → Bool) → List W → ℕ → W → Type ℓ
  Foremost before values n x =
      ((i : ℕ) × (i < n) × (get_elem? values i ≡ some x))
      × ((j : ℕ) (y : W) → j < n → get_elem? values j ≡ some y → before x y ≡ false)

  module _ (before : W → W → Bool) (irrefl : (x : W) → before x x ≡ false)
      (trans : (x y z : W) → before x y ≡ true → before y z ≡ true → before x z ≡ true) where
    pick : W → W → W
    pick m x = if before m x then x else m

    not_before : (m x y : W) → before m x ≡ true → before m y ≡ false → before x y ≡ false
    not_before m x y t f = elim (Bool-cases (before x y)) [
      | inl u ↦ absurd (cc (trans m x y t u, f))
      | inr u ↦ u
    ]

    pick-Foremost :
        (values : List W) (n : ℕ) (m x : W)
        → get_elem? values n ≡ some x
        → Foremost before values n m
        → Foremost before values (suc n) (pick m x)
    unfolding pick
    pick-Foremost values n m x e ((i, l, g), all) = elim (Bool-cases (before m x)) [
      | inl t ↦
          subst (λ z. Foremost before values (suc n) z) (sym (if_true x m t))
            (
              (n, omega arith, e),
              λ j y k f. elim (ℕ_discrete j n) [
                | yes same ↦
                    ap (before x) (some_inj (sym f ∙ ap (get_elem? values) same ∙ e)) ∙ irrefl x
                | no other ↦ not_before m x y t (all j y (omega arith) f)
              ],
            )
      | inr u ↦
          subst (λ z. Foremost before values (suc n) z) (sym (if_false x m u))
            (
              (i, omega arith, g),
              λ j y k f. elim (ℕ_discrete j n) [
                | yes same ↦ ap (before m) (some_inj (sym f ∙ ap (get_elem? values) same ∙ e)) ∙ u
                | no other ↦ all j y (omega arith) f
              ],
            )
    ]

    fold-Foremost :
        (k n : ℕ) (values : List W) (m : W)
        → n + k ≤ length values
        → Foremost before values n m
        → (r : W) × (fold_from (λ a b. if before a b then b else a) k n values m ≡ some r)
          × Foremost before values (n + k) r
    unfolding fold_from pick
    fold-Foremost zero n values m h best =
        (m, refl, subst (λ i. Foremost before values i m) {x = n} (omega arith) best)
    fold-Foremost (suc k) n values m h best =
        let (x, e) = get_elem?-some values n (omega arith) in
        let (r, made, done) =
          fold-Foremost k (suc n) values (pick m x) (omega arith)
            (pick-Foremost values n m x e best) in
        (
          r,
          ap
                (λ o. o >>= λ x.
                  fold_from (λ a b. if before a b then b else a) k (suc n) values (pick m x))
                e
              ∙ made,
          subst (λ i. Foremost before values i r) {x = suc n + k} (omega arith) done,
        )

    first-Foremost :
        (values : List W) (x : W) → get_elem? values 0 ≡ some x → Foremost before values 1 x
    first-Foremost values x e = (
      (0, omega arith, e),
      λ j y k f.
          ap (before x) (some_inj (sym f ∙ ap (get_elem? values) {x = j} {y = 0} (omega arith) ∙ e))
          ∙ irrefl x,
    )

    pub extreme-Foremost :
        (values : List W) (n : ℕ)
        → 1 ≤ n
        → n ≤ length values
        → (r : W) × ((get_elem? values 0
              >>= fold_from (λ a b. if before a b then b else a) (n - 1) 1 values)
            ≡ some r)
          × Foremost before values n r
    extreme-Foremost values n h k =
        let (x, e) = get_elem?-some values 0 (omega arith) in
        let (r, made, best) =
          fold-Foremost (n - 1) 1 values x (omega arith) (first-Foremost values x e) in
        (
          r,
          ap (λ o. o >>= fold_from (λ a b. if before a b then b else a) (n - 1) 1 values) e ∙ made,
          subst (λ i. Foremost before values i r) {x = 1 + (n - 1)} (omega arith) best,
        )

module _ {ℓ} {W : Type ℓ} ⦃fl : Float W⦄ (ordered : IsOrdered W) where
  pub max_f32-Foremost :
      (values : List W) (n : ℕ)
      → 1 ≤ n
      → n ≤ length values
      → (r : W) × (max_f32 values n ≡ some r) × Foremost fl.lt values n r
  unfolding max_f32
  max_f32-Foremost = extreme-Foremost fl.lt ordered.irrefl ordered.trans

  pub min_f32-Foremost :
      (values : List W) (n : ℕ)
      → 1 ≤ n
      → n ≤ length values
      → (r : W) × (min_f32 values n ≡ some r) × Foremost (λ x y. fl.lt y x) values n r
  unfolding min_f32
  min_f32-Foremost =
      extreme-Foremost (λ x y. fl.lt y x) ordered.irrefl (λ x y z t u. ordered.trans z y x u t)

  -- The element m at i is a greatest among the first n, and the first such.
  abbrev pub FirstMax : List W → (n i : ℕ) → W → Type ℓ
  FirstMax values n i m =
      (get_elem? values i ≡ some m)
      × (i < n)
      × ((j : ℕ) (y : W) → j < n → get_elem? values j ≡ some y → fl.lt m y ≡ false)
      × ((j : ℕ) (y : W) → j < i → get_elem? values j ≡ some y → fl.lt y m ≡ true)

  above : (m x y : W) → fl.lt m x ≡ true → fl.lt m y ≡ false → fl.lt y x ≡ true
  above m x y t f = elim (Bool-cases (fl.lt y x)) [
    | inl u ↦ u
    | inr u ↦ absurd (cc (ordered.negative_trans m y x f u, t))
  ]

  FirstMax-suc :
      (values : List W) (n i : ℕ) (m x : W)
      → get_elem? values n ≡ some x
      → FirstMax values n i m
      → FirstMax values (suc n) (if fl.lt m x then n else i) (if fl.lt m x then x else m)
  FirstMax-suc values n i m x e (g, l, all, first) =
      let same : (j : ℕ) (y : W) → j ≡ n → get_elem? values j ≡ some y → x ≡ y =
        λ j y q f. some_inj (sym e ∙ ap (get_elem? values) (sym q) ∙ f) in
      elim (Bool-cases (fl.lt m x)) [
        | inl t ↦
            subst (λ b. FirstMax values (suc n) (if b then n else i) (if b then x else m)) (sym t)
              (
                e,
                omega arith,
                λ j y k f. elim (ℕ_discrete j n) [
                  | yes q ↦ ap (fl.lt x) (sym (same j y q f)) ∙ ordered.irrefl x
                  | no q ↦
                      not_before fl.lt ordered.irrefl ordered.trans m x y t
                        (all j y (omega arith) f)
                ],
                λ j y k f. above m x y t (all j y k f),
              )
        | inr u ↦
            subst (λ b. FirstMax values (suc n) (if b then n else i) (if b then x else m)) (sym u)
              (
                g,
                omega arith,
                λ j y k f. elim (ℕ_discrete j n) [
                  | yes q ↦ ap (fl.lt m) (sym (same j y q f)) ∙ u
                  | no q ↦ all j y (omega arith) f
                ],
                first,
              )
      ]

  argmax_from-FirstMax :
      (k n : ℕ) (values : List W) (i : ℕ) (m : W)
      → n + k ≤ length values
      → FirstMax values n i m
      → (r : ℕ) × (best : W) × (argmax_from k n values i m ≡ some r)
        × FirstMax values (n + k) r best
  unfolding argmax_from
  argmax_from-FirstMax zero n values i m h facts =
      (i, m, refl, subst (λ j. FirstMax values j i m) {x = n} (omega arith) facts)
  argmax_from-FirstMax (suc k) n values i m h facts =
      let (x, e) = get_elem?-some values n (omega arith) in
      let (r, best, made, done) =
        argmax_from-FirstMax k (suc n) values (if fl.lt m x then n else i)
          (if fl.lt m x then x else m) (omega arith) (FirstMax-suc values n i m x e facts) in
      (
        r,
        best,
        ap
              (λ o. o >>= λ x.
                argmax_from k (suc n) values (if fl.lt m x then n else i)
                  (if fl.lt m x then x else m))
              e
            ∙ made,
        subst (λ j. FirstMax values j r best) {x = suc n + k} (omega arith) done,
      )

  pub argmax_f32-FirstMax :
      (values : List W) (n : ℕ)
      → 1 ≤ n
      → n ≤ length values
      → (r : ℕ) × (best : W) × (argmax_f32 values n ≡ some r) × FirstMax values n r best
  unfolding argmax_f32
  argmax_f32-FirstMax values n h k =
      let (x, e) = get_elem?-some values 0 (omega arith) in
      let (one, least) = first-Foremost fl.lt ordered.irrefl ordered.trans values x e in
      let (r, best, made, done) =
        argmax_from-FirstMax (n - 1) 1 values 0 x (omega arith)
          (e, omega arith, least, λ j y l f. elim l [ ]) in
      (
        r,
        best,
        ap (λ o. o >>= argmax_from (n - 1) 1 values 0) e ∙ made,
        subst (λ j. FirstMax values j r best) {x = 1 + (n - 1)} (omega arith) done,
      )

-- ===== src/Math/Arrays/Pointwise.antt =====
-- What the loops over arrays write.
use scicompute.Base.{
  ℕ, zero, suc, ◌+◌, ◌≤◌, ◌<◌, ◌≡◌, refl, sym, ap, ◌∙◌, Option, some, none, List, length, get_elem?,
  set, arith, if_true, if_false, lt→ltb, ltb, ltb→lt, Bool-cases, length-set, get_elem?-some,
  get_elem?-set_self, get_elem?-set_ne, ℕ_discrete, some_inj, Option-cases, inl, inr,
}
use scicompute.Base.Fallible.{◌>>=◌, >>=-eq-some}
use scicompute.Math.Arrays.{put, map_into, zip_into}

module _ {ℓ} {W : Type ℓ} where
  -- The array r is out, but for f of the elements of a and b from i on, n of them.
  abbrev pub Zipped : (W → W → W) → (n i : ℕ) → (a b out r : List W) → Type ℓ
  Zipped f n i a b out r =
      (length r ≡ length out)
      × ((j : ℕ) → j < i → get_elem? r j ≡ get_elem? out j)
      × ((j : ℕ) (x y : W)
          → i ≤ j
          → j < i + n
          → get_elem? a j ≡ some x
          → get_elem? b j ≡ some y
          → get_elem? r j ≡ some (f x y))

  pub zip_into-Zipped :
      (f : W → W → W) (n i : ℕ) (a b out : List W)
      → i + n ≤ length a
      → i + n ≤ length b
      → i + n ≤ length out
      → (r : List W) × (zip_into f n i a b out ≡ some r) × Zipped f n i a b out r
  unfolding zip_into put
  zip_into-Zipped f zero i a b out h k l =
      (out, refl, (refl, (λ j m. refl), λ j x y m o. absurd (omega (arith, m, o))))
  zip_into-Zipped f (suc n) i a b out h k l =
      let (x, e) = get_elem?-some a i (omega arith) in
      let (y, g) = get_elem?-some b i (omega arith) in
      let written = set out i (f x y) in
      let (r, made, (long, before, after)) =
        zip_into-Zipped f n (suc i) a b written (omega arith) (omega arith)
          (omega (arith, length-set out i (f x y))) in
      (
        r,
        ap (λ o. o >>= λ x. get_elem? b i >>= λ y. put i (f x y) out >>= zip_into f n (suc i) a b) e
            ∙ ap (λ o. o >>= λ y. put i (f x y) out >>= zip_into f n (suc i) a b) g
            ∙ ap (λ o. o >>= zip_into f n (suc i) a b)
                (if_true _ _ (lt→ltb i (length out) (omega arith)))
            ∙ made,
        (
          long ∙ length-set out i (f x y),
          λ j m.
              before j (omega arith) ∙ get_elem?-set_ne out i j (f x y) (λ q. omega (arith, q, m)),
          λ j u v m o p q. elim (ℕ_discrete i j) [
            | yes same ↦
                ap (get_elem? r) (sym same)
                ∙ before i (omega arith)
                ∙ get_elem?-set_self out i (f x y) (omega arith)
                ∙ ap (λ z. some (f z y)) (some_inj (sym e ∙ ap (get_elem? a) same ∙ p))
                ∙ ap (λ z. some (f u z)) (some_inj (sym g ∙ ap (get_elem? b) same ∙ q))
            | no other ↦ after j u v (omega arith) (omega arith) p q
          ],
        ),
      )

  -- A kernel that returns has written within its output.
  pub zip_into-fits :
      (f : W → W → W) (n i : ℕ) (a b out r : List W)
      → i ≤ length out
      → zip_into f n i a b out ≡ some r
      → i + n ≤ length out
  unfolding zip_into put
  zip_into-fits f zero i a b out r h e = omega arith
  zip_into-fits f (suc n) i a b out r h e =
      let next = zip_into f n (suc i) a b in
      let (x, ex, rest) =
        >>=-eq-some (get_elem? a i) (λ x. get_elem? b i >>= λ y. put i (f x y) out >>= next) e in
      let (y, ey, last) = >>=-eq-some (get_elem? b i) (λ y. put i (f x y) out >>= next) rest in
      let (w, ew, done) = >>=-eq-some (put i (f x y) out) next last in
      elim (Bool-cases (ltb i (length out))) [
        | inl t ↦
            let written : set out i (f x y) ≡ w = some_inj (sym (if_true _ _ t) ∙ ew) in
            let inside = ltb→lt i (length out) t in
            let same : length w ≡ length out = ap length (sym written) ∙ length-set out i (f x y) in
            let fits = zip_into-fits f n (suc i) a b w r (omega (arith, same)) done in
            omega (arith, fits, same)
        | inr t ↦ absurd (cc (if_false (some (set out i (f x y))) none t, ew))
      ]

  -- A kernel on one array is one on two that takes no notice of the second.
  pub map_into-zip_into :
      (f : W → W) (n i : ℕ) (a out : List W)
      → map_into f n i a out ≡ zip_into (λ x y. f x) n i a a out
  unfolding map_into zip_into
  map_into-zip_into f zero i a out = refl
  map_into-zip_into f (suc n) i a out =
      let one : W → Option (List W) = λ x. put i (f x) out >>= map_into f n (suc i) a in
      let next = zip_into (λ x y. f x) n (suc i) a a in
      let two : W → Option (List W) = λ x. get_elem? a i >>= λ y. put i (f x) out >>= next in
      elim (Option-cases (get_elem? a i)) [
        | inl e ↦ ap (λ o. o >>= one) e ∙ sym (ap (λ o. o >>= two) e)
        | inr (x, e) ↦
            ap (λ o. o >>= one) e
            ∙ elim (Option-cases (put i (f x) out)) [
              | inl p ↦ ap (λ o. o >>= map_into f n (suc i) a) p ∙ sym (ap (λ o. o >>= next) p)
              | inr (r, p) ↦
                  ap (λ o. o >>= map_into f n (suc i) a) p
                  ∙ map_into-zip_into f n (suc i) a r
                  ∙ sym (ap (λ o. o >>= next) p)
            ]
            ∙ sym (ap (λ o. o >>= λ y. put i (f x) out >>= next) e)
            ∙ sym (ap (λ o. o >>= two) e)
      ]

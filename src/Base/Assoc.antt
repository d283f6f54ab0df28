-- ===== src/Base/Assoc.antt =====
-- `std::unordered_map` with numbers as keys, as an association list.
use scicompute.Base.Sets.{contains, count, count-absent}
use scicompute.Base.{
  ℕ, suc, true, ◌+◌, ◌≡◌, ◌≢◌, refl, sym, ap, subst, ◌∙◌, some, none, Option, List, [], ◌∷◌, arith,
  length, ℕ_discrete, ◌==◌, if◌then◌else◌, if_true, if_false, ==_refl, ==_ne, some_inj, ◌≤◌,
  Bool-cases, inl, inr,
}

module _ {ℓ} {B : Type ℓ} where
  unfoldable pub find : ℕ → List (ℕ × B) → Option B
  find k [] = none
  find k (p ∷ m) = let rest = find k m in if k == p.0 then some p.1 else rest

  unfoldable pub erase : ℕ → List (ℕ × B) → List (ℕ × B)
  erase k [] = []
  erase k (p ∷ m) = let rest = erase k m in if k == p.0 then rest else p ∷ rest

  unfoldable pub put : ℕ → B → List (ℕ × B) → List (ℕ × B)
  put k v m = (k, v) ∷ erase k m

  unfoldable pub Distinct : List (ℕ × B) → Type ℓ
  Distinct [] = Unit
  Distinct (p ∷ m) = (find p.0 m ≡ none) × Distinct m

  pub find-hit : (k : ℕ) (p : ℕ × B) (m : List (ℕ × B)) → k ≡ p.0 → find k (p ∷ m) ≡ some p.1
  unfolding find
  find-hit k p m e = if_true _ _ (ap (◌==◌ k) (sym e) ∙ ==_refl k)

  pub find-miss : (k : ℕ) (p : ℕ × B) (m : List (ℕ × B)) → k ≢ p.0 → find k (p ∷ m) ≡ find k m
  unfolding find
  find-miss k p m n = if_false _ _ (==_ne k p.0 n)

  erase-hit : (k : ℕ) (p : ℕ × B) (m : List (ℕ × B)) → k ≡ p.0 → erase k (p ∷ m) ≡ erase k m
  unfolding erase
  erase-hit k p m e = if_true _ _ (ap (◌==◌ k) (sym e) ∙ ==_refl k)

  erase-miss : (k : ℕ) (p : ℕ × B) (m : List (ℕ × B)) → k ≢ p.0 → erase k (p ∷ m) ≡ p ∷ erase k m
  unfolding erase
  erase-miss k p m n = if_false _ _ (==_ne k p.0 n)

  pub find-erase_same : (k : ℕ) (m : List (ℕ × B)) → find k (erase k m) ≡ none
  unfolding find erase
  find-erase_same k [] = refl
  find-erase_same k (p ∷ m) = elim (ℕ_discrete k p.0) [
    | yes e ↦ ap (find k) (erase-hit k p m e) ∙ find-erase_same k m
    | no n ↦ ap (find k) (erase-miss k p m n) ∙ find-miss k p (erase k m) n ∙ find-erase_same k m
  ]

  pub find-erase_other : (k j : ℕ) (m : List (ℕ × B)) → k ≢ j → find k (erase j m) ≡ find k m
  unfolding find erase
  find-erase_other k j [] n = refl
  find-erase_other k j (p ∷ m) n = elim (ℕ_discrete j p.0) [
    | yes e ↦
        ap (find k) (erase-hit j p m e)
        ∙ find-erase_other k j m n
        ∙ sym (find-miss k p m (λ h. n (h ∙ sym e)))
    | no ne ↦ ap (find k) (erase-miss j p m ne) ∙ elim (ℕ_discrete k p.0) [
      | yes e ↦ find-hit k p (erase j m) e ∙ sym (find-hit k p m e)
      | no no_hit ↦
          find-miss k p (erase j m) no_hit ∙ find-erase_other k j m n ∙ sym (find-miss k p m no_hit)
    ]
  ]

  pub find-put_same : (k : ℕ) (v : B) (m : List (ℕ × B)) → find k (put k v m) ≡ some v
  unfolding put
  find-put_same k v m = find-hit k (k, v) (erase k m) refl

  pub find-put_other : (k j : ℕ) (v : B) (m : List (ℕ × B)) → k ≢ j → find k (put j v m) ≡ find k m
  unfolding put
  find-put_other k j v m n = find-miss k (j, v) (erase j m) n ∙ find-erase_other k j m n

  pub Distinct-erase : (k : ℕ) (m : List (ℕ × B)) → Distinct m → Distinct (erase k m)
  unfolding Distinct erase
  Distinct-erase k [] d = tt
  Distinct-erase k (p ∷ m) d = elim (ℕ_discrete k p.0) [
    | yes e ↦ subst Distinct (sym (erase-hit k p m e)) (Distinct-erase k m d.1)
    | no n ↦
        subst Distinct (sym (erase-miss k p m n))
          (find-erase_other p.0 k m (λ h. n (sym h)) ∙ d.0, Distinct-erase k m d.1)
  ]

  pub Distinct-put : (k : ℕ) (v : B) (m : List (ℕ × B)) → Distinct m → Distinct (put k v m)
  unfolding Distinct put
  Distinct-put k v m d = (find-erase_same k m, Distinct-erase k m d)

  pub erase-absent : (k : ℕ) (m : List (ℕ × B)) → find k m ≡ none → erase k m ≡ m
  unfolding erase
  erase-absent k [] e = refl
  erase-absent k (p ∷ m) e = elim (ℕ_discrete k p.0) [
    | yes h ↦ elim (some-none (sym (find-hit k p m h) ∙ e)) [ ]
    | no n ↦ erase-miss k p m n ∙ ap (◌∷◌ p) (erase-absent k m (sym (find-miss k p m n) ∙ e))
  ]
    where
      some-none : {v : B} → some v ≡ none → ⊥
      some-none h = cc

  pub erase-put : (k : ℕ) (v : B) (m : List (ℕ × B)) → erase k (put k v m) ≡ erase k m
  unfolding put
  erase-put k v m =
      erase-hit k (k, v) (erase k m) refl ∙ erase-absent k (erase k m) (find-erase_same k m)

  -- The sum of a measure of the entries.
  unfoldable pub total : (B → ℕ) → List (ℕ × B) → ℕ
  total f [] = 0
  total f (p ∷ m) = f p.1 + total f m

  pub total-erase :
      (f : B → ℕ) (k : ℕ) (v : B) (m : List (ℕ × B))
      → Distinct m
      → find k m ≡ some v
      → (total f m ≡ f v + total f (erase k m)) × (length m ≡ suc (length (erase k m)))
  unfolding total erase find Distinct
  total-erase f k v [] d e = cc
  total-erase f k v (p ∷ m) d e = elim (ℕ_discrete k p.0) [
    | yes h ↦
        let same : erase k (p ∷ m) ≡ m =
          erase-hit k p m h ∙ erase-absent k m (ap (λ i. find i m) h ∙ d.0) in
        let val : p.1 ≡ v = some_inj (sym (find-hit k p m h) ∙ e) in
        (
          ap (λ w. f w + total f m) val ∙ ap (λ r. f v + total f r) (sym same),
          ap (λ r. suc (length r)) (sym same),
        )
    | no n ↦
        let ih = total-erase f k v m d.1 (sym (find-miss k p m n) ∙ e) in
        let step : erase k (p ∷ m) ≡ p ∷ erase k m = erase-miss k p m n in
        (omega (arith, ih.0, ap (total f) step), omega (arith, ih.1, ap (λ r. length r) step))
  ]

  abbrev pub keys : List (ℕ × B) → List ℕ
  keys [] = []
  keys (p ∷ m) = p.0 ∷ keys m

  pub find-keys :
      (k : ℕ) (m : List (ℕ × B)) → contains k (keys m) ≡ true → (v : B) × (find k m ≡ some v)
  find-keys k [] h = cc
  find-keys k (p ∷ m) h = elim (ℕ_discrete k p.0) [
    | yes e ↦ (p.1, find-hit k p m e)
    | no n ↦ let (v, f) = find-keys k m (rest n) in (v, find-miss k p m n ∙ f)
  ]
    where
      rest : k ≢ p.0 → contains k (keys m) ≡ true
      rest n = ground arith

  pub keys-find :
      (k : ℕ) (v : B) (m : List (ℕ × B)) → find k m ≡ some v → contains k (keys m) ≡ true
  unfolding find
  keys-find k v [] e = cc
  keys-find k v (p ∷ m) e = elim (ℕ_discrete k p.0) [
    | yes h ↦ ground arith
    | no n ↦ let ih = keys-find k v m (sym (find-miss k p m n) ∙ e) in ground arith
  ]

  pub Distinct-keys_count : (k : ℕ) (m : List (ℕ × B)) → Distinct m → count k (keys m) ≤ 1
  unfolding Distinct count
  Distinct-keys_count k [] d = omega arith
  Distinct-keys_count k (p ∷ m) d = elim (ℕ_discrete k p.0) [
    | yes e ↦
        let absent : count k (keys m) ≡ 0 = elim (Bool-cases (contains k (keys m))) [
          | inl t ↦ let (v, f) = find-keys k m t in absurd (cc (f, ap (λ i. find i m) e, d.0))
          | inr f ↦ count-absent k (keys m) f
        ] in
        ground arith
    | no n ↦ let ih = Distinct-keys_count k m d.1 in ground (arith, ==_ne k p.0 n)
  ]

  pub length-keys : (m : List (ℕ × B)) → length (keys m) ≡ length m
  length-keys [] = refl
  length-keys (p ∷ m) = ap suc (length-keys m)

-- ===== src/Math/Softmax/Segment.antt =====
-- Segments of an array, read and written.
use scicompute.Base.{
  ℕ, zero, suc, ◌+◌, ◌-◌, ◌*◌, ◌≤◌, ◌<◌, ◌≡◌, ◌⊎◌, refl, sym, ap, ◌∙◌, inl, inr, some, List, [],
  ◌∷◌, length, get_elem?, set, take, drop, arith, some_inj, get_elem?-set_self, get_elem?-set_ne,
  length-set, ℕ_discrete,
}

-- The n elements of an array from `base` on.
abbrev pub segment {ℓ} : {W : Type ℓ} → (base n : ℕ) → List W → List W
segment base n x = take n (drop base x)

module _ {ℓ} {W : Type ℓ} where
  pub get_elem?-segment :
      (base n i : ℕ) (x : List W) → i < n → get_elem? (segment base n x) i ≡ get_elem? x (base + i)
  get_elem?-segment base n i x h = taken n i (drop base x) h ∙ dropped base i x
    where
      taken : (n i : ℕ) (x : List W) → i < n → get_elem? (take n x) i ≡ get_elem? x i
      taken zero i x h = elim h [ ]
      taken (suc n) i [] h = refl
      taken (suc n) zero (v ∷ x) h = refl
      taken (suc n) (suc i) (v ∷ x) h = taken n i x (omega arith)

      dropped : (b i : ℕ) (x : List W) → get_elem? (drop b x) i ≡ get_elem? x (b + i)
      dropped zero i x = ap (get_elem? x) {x = i} (omega arith)
      dropped (suc b) i [] = refl
      dropped (suc b) i (v ∷ x) =
          dropped b i x
          ∙ sym (ap (get_elem? (v ∷ x)) {x = suc b + i} {y = suc (b + i)} (omega arith))

  pub length-segment :
      (base n : ℕ) (x : List W) → base + n ≤ length x → length (segment base n x) ≡ n
  length-segment base n x h = taken n (drop base x) (omega (arith, dropped base x))
    where
      taken : (n : ℕ) (x : List W) → n ≤ length x → length (take n x) ≡ n
      taken zero x h = refl
      taken (suc n) [] h = let bad : 1 ≤ 0 = omega arith in elim bad [ ]
      taken (suc n) (v ∷ x) h = ap suc (taken n x (omega arith))

      dropped : (b : ℕ) (x : List W) → length (drop b x) ≡ length x - b
      dropped zero x = omega arith
      dropped (suc b) [] = omega arith
      dropped (suc b) (v ∷ x) = omega (arith, dropped b x)

  -- The arrays agree outside the n places from base on.
  abbrev pub Outside : (base n : ℕ) → (out r : List W) → Type ℓ
  Outside base n out r =
      (length r ≡ length out)
      × ((j : ℕ) → (j < base) ⊎ (base + n ≤ j) → get_elem? r j ≡ get_elem? out j)

  pub segment-cons :
      (base n : ℕ) (x : List W) (v : W)
      → get_elem? x base ≡ some v
      → segment base (suc n) x ≡ v ∷ segment (suc base) n x
  segment-cons base n [] v e = cc
  segment-cons zero n (y ∷ x) v e = ap (λ z. z ∷ take n x) (some_inj e)
  segment-cons (suc base) n (y ∷ x) v e = segment-cons base n x v e

  -- A write at the first place, and then writes at the k places after it.
  pub Outside-suc :
      (base i k : ℕ) (out r : List W) (w : W)
      → Outside (base + suc i) k (set out (base + i * 1) w) r
      → Outside (base + i) (suc k) out r
  Outside-suc base i k out r w (long, same) = (
    long ∙ length-set out (base + i * 1) w,
    λ j h. elim h [
      | inl l ↦
          same j (inl (omega arith))
          ∙ get_elem?-set_ne out (base + i * 1) j w (λ e. omega (arith, e, l))
      | inr l ↦
          same j (inr (omega arith))
          ∙ get_elem?-set_ne out (base + i * 1) j w (λ e. omega (arith, e, l))
    ],
  )

  pub written-first :
      (base i k : ℕ) (out r : List W) (w : W)
      → Outside (base + suc i) k (set out (base + i * 1) w) r
      → base + i < length out
      → get_elem? r (base + i) ≡ some w
  written-first base i k out r w (long, same) h =
      same (base + i) (inl (omega arith))
      ∙ ap (get_elem? (set out (base + i * 1) w)) {x = base + i} {y = base + i * 1} (omega arith)
      ∙ get_elem?-set_self out (base + i * 1) w (omega arith)

-- One place more on which a fact holds.
pub first_or_after :
    {i j : ℕ} (k : ℕ) → i ≤ j → j < i + suc k → (i ≡ j) ⊎ ((suc i ≤ j) × (j < suc i + k))
first_or_after {i = i} {j = j} k h l = elim (ℕ_discrete i j) [
  | yes e ↦ inl e
  | no e ↦ inr (omega (arith, e), omega arith)
]

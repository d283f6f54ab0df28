-- ===== src/Base/Sets.antt =====
-- `std::unordered_set` of numbers, as a list.
use scicompute.Base.{
  ℕ, suc, ◌+◌, ◌≤◌, ◌≡◌, Bool, true, false, refl, List, [], ◌∷◌, ◌++◌, ◌==◌, ◌||◌, if◌then◌else◌,
  arith, length, ◌<◌, ℕ_discrete, ap, sym, ◌∙◌, ==_refl, ==_ne,
}

abbrev pub contains : ℕ → List ℕ → Bool
contains x [] = false
contains x (y ∷ ys) = x == y || contains x ys

pub contains-append :
    (x : ℕ) (xs ys : List ℕ) → contains x (xs ++ ys) ≡ (contains x xs || contains x ys)
contains-append x [] ys = refl
contains-append x (y ∷ xs) ys = let ih = contains-append x xs ys in ground arith

-- All members of one list are members of another.
abbrev pub Within : List ℕ → List ℕ → Type 0
Within xs ys = (x : ℕ) → contains x xs ≡ true → contains x ys ≡ true

unfoldable pub count : ℕ → List ℕ → ℕ
count x [] = 0
count x (y ∷ ys) = (if x == y then 1 else 0) + count x ys

pub count-append : (x : ℕ) (xs ys : List ℕ) → count x (xs ++ ys) ≡ count x xs + count x ys
unfolding count
count-append x [] ys = omega arith
count-append x (z ∷ xs) ys = omega (arith, count-append x xs ys)

-- The list with its first `x` taken out.
unfoldable pub take_out : ℕ → List ℕ → List ℕ
take_out x [] = []
take_out x (y ∷ ys) = let rest = take_out x ys in if x == y then ys else y ∷ rest

pub count-take_out :
    (x y : ℕ) (ys : List ℕ)
    → 1 ≤ count x ys
    → count y (take_out x ys) + (if y == x then 1 else 0) ≡ count y ys
unfolding count take_out
count-take_out x y [] h = elim h [ ]
count-take_out x y (z ∷ ys) h = elim (ℕ_discrete x z) [
  | yes e ↦ ground arith
  | no n ↦ let ih = count-take_out x y ys (ground arith) in ground arith
]

pub length-take_out :
    (x : ℕ) (ys : List ℕ) → 1 ≤ count x ys → suc (length (take_out x ys)) ≡ length ys
unfolding count take_out
length-take_out x [] h = elim h [ ]
length-take_out x (z ∷ ys) h = elim (ℕ_discrete x z) [
  | yes e ↦
      ap (λ b. suc (length (if b then ys else z ∷ take_out x ys)))
        (ap (λ y. x == y) (sym e) ∙ ==_refl x)
  | no n ↦ let ih = length-take_out x ys (ground arith) in ground arith
]

-- A list that holds nothing more often than another is no longer.
pub length-count_le : (xs ys : List ℕ) → ((x : ℕ) → count x xs ≤ count x ys) → length xs ≤ length ys
unfolding count
length-count_le [] ys h = omega arith
length-count_le (x ∷ xs) ys h =
    let here = h x in
    let same = ==_refl x in
    let there : 1 ≤ count x ys = ground arith in
    let shorter = length-take_out x ys there in
    let ih =
      length-count_le xs (take_out x ys)
        (λ y. let more = h y in let out = count-take_out x y ys there in omega arith) in
    omega arith

pub contains-count : (x : ℕ) (xs : List ℕ) → 1 ≤ count x xs → contains x xs ≡ true
unfolding count
contains-count x [] h = elim h [ ]
contains-count x (y ∷ ys) h = elim (ℕ_discrete x y) [
  | yes e ↦ ap (λ b. b || contains x ys) (ap (λ k. x == k) (sym e) ∙ ==_refl x)
  | no n ↦ let ih = contains-count x ys (ground (arith, ==_ne x y n)) in ground arith
]

pub count-absent : (x : ℕ) (xs : List ℕ) → contains x xs ≡ false → count x xs ≡ 0
unfolding count
count-absent x [] h = refl
count-absent x (y ∷ ys) h = let ih = count-absent x ys (ground arith) in ground arith

pub count-contains : (x : ℕ) (xs : List ℕ) → contains x xs ≡ true → 0 < count x xs
unfolding count
count-contains x [] h = cc
count-contains x (y ∷ xs) h = let ih = count-contains x xs in ground arith

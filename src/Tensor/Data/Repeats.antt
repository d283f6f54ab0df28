-- ===== src/Tensor/Data/Repeats.antt =====
-- Blocks that hold a value many times, read and written.
use mathlib.Core.List.{append_assoc}
use scicompute.Base.{
  ℕ, zero, suc, ◌+◌, ◌-◌, ◌*◌, ◌≤◌, ◌≡◌, refl, sym, ap, ◌∙◌, some, List, [], ◌∷◌, ◌++◌, length,
  take, drop, arith, if_true, le→leb, length-append,
}
use scicompute.Tensor.Data.Memory.{read_at, write_at}

-- n copies of a value, one after the other.
abbrev pub copies : ℕ → List ℕ → List ℕ
copies zero v = []
copies (suc n) v = v ++ copies n v

take-append : (n : ℕ) (xs ys : List ℕ) → n ≡ length xs → take n (xs ++ ys) ≡ xs
take-append zero [] ys e = refl
take-append zero (x ∷ xs) ys e = let bad : 1 ≤ 0 = omega arith in elim bad [ ]
take-append (suc n) [] ys e = let bad : 1 ≤ 0 = omega arith in elim bad [ ]
take-append (suc n) (x ∷ xs) ys e = ap (λ l. x ∷ l) (take-append n xs ys (omega arith))

drop-append : (n k : ℕ) (xs ys : List ℕ) → n ≡ length xs + k → drop n (xs ++ ys) ≡ drop k ys
drop-append n k [] ys e = ap (λ m. drop m ys) {x = n} {y = k} (omega arith)
drop-append zero k (x ∷ xs) ys e = let bad : 1 ≤ 0 = omega arith in elim bad [ ]
drop-append (suc n) k (x ∷ xs) ys e = drop-append n k xs ys (omega arith)

pub length-drop : (n : ℕ) (xs : List ℕ) → length (drop n xs) ≡ length xs - n
length-drop zero xs = omega arith
length-drop (suc n) [] = omega arith
length-drop (suc n) (x ∷ xs) = omega (arith, length-drop n xs)

pub no_bytes : (xs : List ℕ) → length xs ≡ 0 → xs ≡ []
no_bytes [] e = refl
no_bytes (x ∷ xs) e = let bad : 1 ≤ 0 = omega arith in elim bad [ ]

pub length-copies : (n : ℕ) (v : List ℕ) → length (copies n v) ≡ n * length v
length-copies zero v = omega arith
length-copies (suc n) v =
    let split : suc n * length v ≡ length v + n * length v = grind arith in
    omega (arith, length-append v (copies n v), length-copies n v, split)

copies-add : (m n : ℕ) (v : List ℕ) → copies m v ++ copies n v ≡ copies (m + n) v
copies-add zero n v = ap (λ k. copies k v) {x = n} (omega arith)
copies-add (suc m) n v =
    append_assoc v (copies m v) (copies n v)
    ∙ ap (λ l. v ++ l) (copies-add m n v)
    ∙ ap (λ k. copies k v) {x = suc (m + n)} (omega arith)

pub read-copies :
    (c n : ℕ) (v rest : List ℕ)
    → c ≤ n
    → read_at 0 (c * length v) (copies n v ++ rest) ≡ some (copies c v)
unfolding read_at
read-copies c n v rest h =
    let split : copies n v ++ rest ≡ copies c v ++ (copies (n - c) v ++ rest) =
      ap (λ k. copies k v ++ rest) {x = n} {y = c + (n - c)} (omega arith)
      ∙ ap (λ l. l ++ rest) (sym (copies-add c (n - c) v))
      ∙ append_assoc (copies c v) (copies (n - c) v) rest in
    let long = length-append (copies n v) rest in
    let shorter : c * length v ≤ n * length v = scaled c n (length v) h in
    if_true _ _ (
      le→leb (0 + c * length v) (length (copies n v ++ rest))
        (omega (arith, long, length-copies n v)))
    ∙ ap (λ l. some (take (c * length v) l)) split
    ∙ ap some (
        take-append (c * length v) (copies c v) (copies (n - c) v ++ rest)
          (sym (length-copies c v)))
  where
    scaled : (a b s : ℕ) → a ≤ b → a * s ≤ b * s
    scaled a b s h = grind arith

pub write-copies :
    (n c : ℕ) (v rest : List ℕ)
    → c * length v ≤ length rest
    → write_at (n * length v) (copies c v) (copies n v ++ rest)
      ≡ some (copies (n + c) v ++ drop (c * length v) rest)
unfolding write_at
write-copies n c v rest h =
    let long = length-append (copies n v) rest in
    let filled = length-copies n v in
    let more = length-copies c v in
    if_true _ _ (
      le→leb (n * length v + length (copies c v)) (length (copies n v ++ rest))
        (omega (arith, long, filled, more)))
    ∙ ap
        (λ l.
          some (l ++ copies c v ++ drop (n * length v + length (copies c v)) (copies n v ++ rest)))
        (take-append (n * length v) (copies n v) rest (sym filled))
    ∙ ap (λ l. some (copies n v ++ copies c v ++ l))
        (drop-append (n * length v + length (copies c v)) (c * length v) (copies n v) rest
          (omega (arith, filled, more)))
    ∙ ap some (regroup (drop (c * length v) rest))
  where
    regroup : (l : List ℕ) → copies n v ++ copies c v ++ l ≡ copies (n + c) v ++ l
    regroup l = ap (λ k. k ++ l) (copies-add n c v)

pub length-take : (n : ℕ) (xs : List ℕ) → n ≤ length xs → length (take n xs) ≡ n
length-take zero xs h = refl
length-take (suc n) [] h = let bad : 1 ≤ 0 = omega arith in elim bad [ ]
length-take (suc n) (x ∷ xs) h = ap suc (length-take n xs (omega arith))

pub write-first :
    (v bytes : List ℕ)
    → length v ≤ length bytes
    → write_at 0 v bytes ≡ some (v ++ drop (length v) bytes)
unfolding write_at
write-first v bytes h =
    if_true _ _ (le→leb (0 + length v) (length bytes) (omega arith))
    ∙ ap (λ k. some (v ++ drop k bytes)) {x = 0 + length v} (omega arith)

-- ===== src/Tensor/View/Offsets.antt =====
-- Offsets of elements without wrap-around.
use scicompute.Base.{
  ℕ, ◌+◌, ◌*◌, ◌^◌, ◌≤◌, ◌<◌, ◌≡◌, refl, ap, ◌∙◌, some, List, [], ◌∷◌, map, arith, add_size, dec_lt,
  ◌/◌, ◌%◌,
}
use native.Mathlib.Nat.{div-add-mod, mod-lt, div-lt_iff_lt-mul}
use scicompute.Base.Int.{pos, mul_int64-pos, to_size}
use scicompute.Base.Fallible.{◌>>=◌}
use scicompute.Core.Shape.Rows.{volume, row_strides}
use scicompute.Tensor.View.{offset_from}

-- The sum of the indices times the strides.
abbrev pub dot : List ℕ → List ℕ → ℕ
dot [] ss = 0
dot (i ∷ is) [] = 0
dot (i ∷ is) (s ∷ ss) = i * s + dot is ss

pub offset_from-dot :
    (is ss : List ℕ) (acc : ℕ)
    → acc + dot is ss < 2 ^ 63
    → offset_from (map pos is) (map pos ss) acc ≡ some (acc + dot is ss)
unfolding offset_from
offset_from-dot [] ss acc small = ap some {x = acc} (omega arith)
offset_from-dot (i ∷ is) [] acc small = ap some {x = acc} (omega arith)
offset_from-dot (i ∷ is) (s ∷ ss) acc small =
    ap (λ o. o >>= λ p. offset_from (map pos is) (map pos ss) (add_size acc (to_size p)))
      (mul_int64-pos i s (omega arith))
    ∙ ap (offset_from (map pos is) (map pos ss)) {x = add_size acc (i * s)} {y = acc + i * s}
        (omega arith)
    ∙ offset_from-dot is ss (acc + i * s) (omega arith)
    ∙ ap some {x = acc + i * s + dot is ss} (omega arith)

-- As many indices as dimensions, each below its dimension.
abbrev pub InRange : List ℕ → List ℕ → Type 0
InRange [] [] = 0 ≤ 0
InRange [] (d ∷ ds) = 1 ≤ 0
InRange (i ∷ is) [] = 1 ≤ 0
InRange (i ∷ is) (d ∷ ds) = (i < d) × InRange is ds

-- The place of an element in row-major order.
abbrev pub position : List ℕ → List ℕ → ℕ
position is ds = dot is (row_strides ds)

row_below : (i d v r : ℕ) → i < d → r < v → i * v + r < d * v
row_below i d v r h k = grind arith

pub position_lt : (is ds : List ℕ) → InRange is ds → position is ds < volume ds
position_lt [] [] h = omega arith
position_lt [] (d ∷ ds) h = elim h [ ]
position_lt (i ∷ is) [] h = elim h [ ]
position_lt (i ∷ is) (d ∷ ds) (h, hs) =
    row_below i d (volume ds) (position is ds) h (position_lt is ds hs)

-- Indices with the same place are the same.
remainder_eq : (i j v r s : ℕ) → r < v → s < v → i * v + r ≡ j * v + s → i ≡ j
remainder_eq i j v r s h k e = elim (dec_lt i j) [
  | yes l ↦ let gap : (i + 1) * v ≤ j * v = scaled (i + 1) j v (omega arith) in absurd (grind arith)
  | no l ↦ elim (dec_lt j i) [
    | yes l ↦
        let gap : (j + 1) * v ≤ i * v = scaled (j + 1) i v (omega arith) in absurd (grind arith)
    | no m ↦ omega arith
  ]
]
  where
    scaled : (a b v : ℕ) → a ≤ b → a * v ≤ b * v
    scaled a b v h = grind arith

pub position_inj :
    (is js ds : List ℕ) → InRange is ds → InRange js ds → position is ds ≡ position js ds → is ≡ js
position_inj [] [] [] h k e = refl
position_inj [] js (d ∷ ds) h k e = elim h [ ]
position_inj (i ∷ is) [] (d ∷ ds) h k e = elim k [ ]
position_inj [] (j ∷ js) [] h k e = elim k [ ]
position_inj (i ∷ is) js [] h k e = elim h [ ]
position_inj (i ∷ is) (j ∷ js) (d ∷ ds) (h, hs) (k, ks) e =
    let below = position_lt is ds hs in
    let below' = position_lt js ds ks in
    let first = remainder_eq i j (volume ds) (position is ds) (position js ds) below below' e in
    let scaled : i * volume ds ≡ j * volume ds = ap (λ (n : ℕ). n * volume ds) first in
    ap (λ n. n ∷ is) first ∙ ap (λ l. j ∷ l) (position_inj is js ds hs ks (omega arith))

-- Every place below the count of elements has indices.
pub indices_at : ℕ → List ℕ → List ℕ
indices_at o [] = []
indices_at o (d ∷ ds) = o / volume ds ∷ indices_at (o % volume ds) ds

pub indices_at-position :
    (o : ℕ) (ds : List ℕ)
    → o < volume ds
    → InRange (indices_at o ds) ds × (position (indices_at o ds) ds ≡ o)
unfolding indices_at
indices_at-position o [] h = (omega arith, omega arith)
indices_at-position o (d ∷ ds) h =
    let positive : 1 ≤ volume ds = nonzero d (volume ds) o h in
    let (range, place) = indices_at-position (o % volume ds) ds (mod-lt o positive) in
    (((div-lt_iff_lt-mul positive).1 h, range), omega (arith, place, div-add-mod o (volume ds)))
  where
    nonzero : (d v o : ℕ) → o < d * v → 1 ≤ v
    nonzero d v o h = grind arith

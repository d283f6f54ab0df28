-- ===== src/Base/Int.antt =====
-- Signed 64-bit views of words and their difference.
use Prim.Native.Nat.{ℕ, suc, ◌+◌, ◌-◌, ◌*◌, ◌%◌, ◌^◌, ◌<◌}
use mathlib.Core.Option.{Option, some, none}
use mathlib.Core.Path.{◌≡◌}
use mathlib.Core.Bool.{Bool, true, false}
use native.Mathlib.Omega.{arith}
use scicompute.Base.Tests.{ltb, leb, ◌==◌, if◌then◌else◌, if_true, lt→ltb}

-- `negsuc n` is -(n + 1).
pub data ℤ : Type 0 where
  pos : ℕ → ℤ
  negsuc : ℕ → ℤ

-- a - b
abbrev pub sub_ℕ : ℕ → ℕ → ℤ
sub_ℕ a b = if leb b a then pos (a - b) else negsuc (b - a - 1)

-- `static_cast<intptr_t>`: the upper half of the words stands for the negative numbers.
abbrev pub intptr : ℕ → ℤ
intptr w = if ltb w (2 ^ 63) then pos w else sub_ℕ w (2 ^ 64)

-- The exact difference. It stays in the signed range for words below 2^63.
abbrev pub diff : ℤ → ℤ → ℤ
diff (pos a) (pos b) = sub_ℕ a b
diff (pos a) (negsuc b) = pos (a + b + 1)
diff (negsuc a) (pos b) = negsuc (a + b)
diff (negsuc a) (negsuc b) = sub_ℕ b a

abbrev pub is_zero : ℤ → Bool
is_zero (pos a) = a == 0
is_zero (negsuc a) = false

abbrev pub is_negative : ℤ → Bool
is_negative (pos a) = false
is_negative (negsuc a) = true

-- Below 2^63 the signed difference tells how two words compare.
pub is_zero-diff :
    (a b : ℕ) → a < 2 ^ 63 → b < 2 ^ 63 → is_zero (diff (intptr a) (intptr b)) ≡ (a == b)
is_zero-diff a b h k = ground arith

pub is_negative-diff :
    (a b : ℕ) → a < 2 ^ 63 → b < 2 ^ 63 → is_negative (diff (intptr a) (intptr b)) ≡ ltb a b
is_negative-diff a b h k = ground arith

abbrev pub mul_ℤ : ℤ → ℤ → ℤ
mul_ℤ (pos a) (pos b) = pos (a * b)
mul_ℤ (pos a) (negsuc b) = sub_ℕ 0 (a * suc b)
mul_ℤ (negsuc a) (pos b) = sub_ℕ 0 (suc a * b)
mul_ℤ (negsuc a) (negsuc b) = pos (suc a * suc b)

abbrev pub add_ℤ : ℤ → ℤ → ℤ
add_ℤ (pos a) (pos b) = pos (a + b)
add_ℤ (pos a) (negsuc b) = sub_ℕ a (suc b)
add_ℤ (negsuc a) (pos b) = sub_ℕ b (suc a)
add_ℤ (negsuc a) (negsuc b) = negsuc (a + b + 1)

abbrev pub eqb_ℤ : ℤ → ℤ → Bool
eqb_ℤ (pos a) (pos b) = a == b
eqb_ℤ (pos a) (negsuc b) = false
eqb_ℤ (negsuc a) (pos b) = false
eqb_ℤ (negsuc a) (negsuc b) = a == b

abbrev pub ltb_ℤ : ℤ → ℤ → Bool
ltb_ℤ (pos a) (pos b) = ltb a b
ltb_ℤ (pos a) (negsuc b) = false
ltb_ℤ (negsuc a) (pos b) = true
ltb_ℤ (negsuc a) (negsuc b) = ltb b a

abbrev pub fits_int64 : ℤ → Bool
fits_int64 (pos a) = ltb a (2 ^ 63)
fits_int64 (negsuc a) = ltb a (2 ^ 63)

-- The result of an operation on `int64_t`. An overflow is undefined behaviour, `none`.
unfoldable pub int64 : ℤ → Option ℤ
int64 z = if fits_int64 z then some z else none

unfoldable pub mul_int64 : ℤ → ℤ → Option ℤ
unfolding int64
mul_int64 a b = int64 (mul_ℤ a b)

unfoldable pub add_int64 : ℤ → ℤ → Option ℤ
unfolding int64
add_int64 a b = int64 (add_ℤ a b)

-- The conversion of an `int64_t` to `size_t`.
abbrev pub to_size : ℤ → ℕ
to_size (pos a) = a
to_size (negsuc a) = 2 ^ 64 - suc a

pub mul_int64-pos : (a b : ℕ) → a * b < 2 ^ 63 → mul_int64 (pos a) (pos b) ≡ some (pos (a * b))
unfolding mul_int64 int64
mul_int64-pos a b h = if_true _ _ (lt→ltb (a * b) (2 ^ 63) h)

-- The conversion of an `int64_t` to `int`, and the product of two of the type `int`.
abbrev pub signed_32 : ℕ → ℤ
signed_32 w = if ltb w (2 ^ 31) then pos w else sub_ℕ w (2 ^ 32)

abbrev pub to_int : ℤ → ℤ
to_int (pos a) = signed_32 (a % 2 ^ 32)
to_int (negsuc a) = signed_32 ((2 ^ 32 - suc (a % 2 ^ 32)) % 2 ^ 32)

abbrev pub fits_int : ℤ → Bool
fits_int (pos a) = ltb a (2 ^ 31)
fits_int (negsuc a) = ltb a (2 ^ 31)

unfoldable pub mul_int : ℤ → ℤ → Option ℤ
mul_int a b = if fits_int (mul_ℤ a b) then some (mul_ℤ a b) else none

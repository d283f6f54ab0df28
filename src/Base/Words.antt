-- ===== src/Base/Words.antt =====
-- `size_t` arithmetic, and remainders by a capacity.
use Prim.Native.Nat.{ℕ, ◌+◌, ◌-◌, ◌*◌, ◌/◌, ◌%◌, ◌^◌, ◌≤◌, ◌<◌}
use mathlib.Core.Logic.{◌≢◌}
use native.Mathlib.Decide.{dec_lt}
use native.Mathlib.Nat.{div-add-mod}
use native.Mathlib.Omega.{arith}

-- `size_t` addition and subtraction wrap at 2^64.
abbrev pub size_mod : ℕ
size_mod = 2 ^ 64

abbrev pub add_size : ℕ → ℕ → ℕ
add_size a b = (a + b) % 2 ^ 64

abbrev pub sub_size : ℕ → ℕ → ℕ
sub_size a b = (a + 2 ^ 64 - b) % 2 ^ 64

multiple_mono : (c a b : ℕ) → a ≤ b → c * a ≤ c * b
multiple_mono c a b h = grind arith

-- A multiple of `c` lies in no open interval between neighbouring multiples.
multiple_gap : (c a b : ℕ) → c * a < c * b → c * a + c ≤ c * b
multiple_gap c a b h = elim (dec_lt a b) [
  | yes p ↦ omega (arith, multiple_mono c (a + 1) b (omega arith))
  | no p ↦ absurd (omega (arith, multiple_mono c b a (omega arith)))
]

-- Two positions less than `cap` apart have different remainders.
pub mod_apart : (cap i j : ℕ) → i < j → j < i + cap → i % cap ≢ j % cap
mod_apart cap i j h k e = omega (
  arith,
  div-add-mod i cap,
  div-add-mod j cap,
  multiple_gap cap (i / cap) (j / cap) (omega (arith, div-add-mod i cap, div-add-mod j cap)),
)

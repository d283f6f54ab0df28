-- ===== src/Math/Float.antt =====
-- What the kernels use of `float` and of the functions of <cmath> and <algorithm>.
use scicompute.Base.{ℕ, ◌+◌, ◌*◌, ◌≡◌, Bool, true, false, if◌then◌else◌, ltb, arith}

pub record Float {ℓ} (W : Type ℓ) : Type ℓ where
  pub nought : W
  pub one : W
  pub add : W → W → W
  pub sub : W → W → W
  pub mul : W → W → W
  pub div : W → W → W
  pub neg : W → W
  pub magnitude : W → W
  pub root : W → W
  pub power : W → W → W
  pub exponential : W → W
  pub logarithm : W → W
  pub lt : W → W → Bool
  pub of_size : ℕ → W

module _ {ℓ} {W : Type ℓ} ⦃fl : Float W⦄ where
  -- `std::max`, `std::min` and `std::clamp`
  abbrev pub max_of : W → W → W
  max_of a b = if fl.lt a b then b else a

  abbrev pub min_of : W → W → W
  min_of a b = if fl.lt b a then b else a

  abbrev pub clamped : (low high v : W) → W
  clamped low high v = if fl.lt v low then low else if fl.lt high v then high else v

-- The comparison of numbers that are not NaN.
pub record IsOrdered {ℓ} (W : Type ℓ) ⦃fl : Float W⦄ : Type ℓ where
  pub irrefl : (x : W) → fl.lt x x ≡ false
  pub trans : (x y z : W) → fl.lt x y ≡ true → fl.lt y z ≡ true → fl.lt x z ≡ true
  pub negative_trans : (x y z : W) → fl.lt x y ≡ false → fl.lt y z ≡ false → fl.lt x z ≡ false

-- The laws can be met: whole numbers.
instance abbrev pub ℕ_float : Float ℕ
ℕ_float = record {
  nought = 0;
  one = 1;
  add = λ a b. a + b;
  sub = λ a b. a;
  mul = λ a b. a * b;
  div = λ a b. a;
  neg = λ a. a;
  magnitude = λ a. a;
  root = λ a. a;
  power = λ a b. a;
  exponential = λ a. a;
  logarithm = λ a. a;
  lt = ltb;
  of_size = λ n. n;
}

pub ℕ-IsOrdered : IsOrdered ℕ
ℕ-IsOrdered = record {
  irrefl = λ x. ground arith;
  trans = λ x y z h k. ground arith;
  negative_trans = λ x y z h k. ground arith;
}

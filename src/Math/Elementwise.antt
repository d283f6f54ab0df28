-- ===== src/Math/Elementwise.antt =====
-- src/math/elementwise.cpp, built without `SCI_DEBUG`, so that no assertion is checked. `fresh`
-- gives the array of a new block. `none` is undefined behaviour.
pub mod Results
mod Tests
use scicompute.Base.{ℕ, ◌≡◌, Option, some, none, List}
use scicompute.Base.Fallible.{◌>>=◌}
use scicompute.Math.Float.{Float, clamped}
use scicompute.Math.Arrays.{
  FloatTensor, element_count, with_output, map_into, zip_into, map_inplace, zip_inplace,
}

module _ {ℓ} {W : Type ℓ} ⦃fl : Float W⦄ where
  pub add_f32 : (a b out : List W) → ℕ → Option (List W)
  unfolding zip_into
  add_f32 a b out n = zip_into fl.add n 0 a b out

  pub mul_f32 : (a b out : List W) → ℕ → Option (List W)
  unfolding zip_into
  mul_f32 a b out n = zip_into fl.mul n 0 a b out

  pub sub_f32 : (a b out : List W) → ℕ → Option (List W)
  unfolding zip_into
  sub_f32 a b out n = zip_into fl.sub n 0 a b out

  pub div_f32 : (a b out : List W) → ℕ → Option (List W)
  unfolding zip_into
  div_f32 a b out n = zip_into fl.div n 0 a b out

  -- `add(a, b, out)`: what `out` is afterwards.
  pub add_into : (a b out : FloatTensor W) → Option (FloatTensor W)
  unfolding add_f32
  add_into a b out = element_count a >>= λ n.
      add_f32 a.floats b.floats out.floats n >>= λ r. some (record out { floats = r })

  pub add_inplace : (a b : FloatTensor W) → Option (FloatTensor W)
  unfolding zip_inplace
  add_inplace a b = element_count a >>= λ n.
      zip_inplace fl.add n 0 b.floats a.floats >>= λ r. some (record a { floats = r })

  pub mul_scalar_inplace : W → FloatTensor W → Option (FloatTensor W)
  unfolding map_inplace
  mul_scalar_inplace scalar a = element_count a >>= λ n.
      map_inplace (λ x. fl.mul x scalar) n 0 a.floats >>= λ r. some (record a { floats = r })

  module _ (fresh : ℕ → List W) where
    pub unary : (W → W) → FloatTensor W → Option (FloatTensor W)
    unfolding with_output map_into
    unary f a = with_output fresh a λ out n. map_into f n 0 a.floats out

    pub add : (a b : FloatTensor W) → Option (FloatTensor W)
    unfolding with_output add_f32
    add a b = with_output fresh a (add_f32 a.floats b.floats)

    pub sub : (a b : FloatTensor W) → Option (FloatTensor W)
    unfolding with_output sub_f32
    sub a b = with_output fresh a (sub_f32 a.floats b.floats)

    pub mul : (a b : FloatTensor W) → Option (FloatTensor W)
    unfolding with_output mul_f32
    mul a b = with_output fresh a (mul_f32 a.floats b.floats)

    pub div : (a b : FloatTensor W) → Option (FloatTensor W)
    unfolding with_output div_f32
    div a b = with_output fresh a (div_f32 a.floats b.floats)

    pub add_scalar : W → FloatTensor W → Option (FloatTensor W)
    unfolding unary
    add_scalar scalar = unary λ x. fl.add x scalar

    pub negate : FloatTensor W → Option (FloatTensor W)
    unfolding unary
    negate = unary fl.neg

    pub abs : FloatTensor W → Option (FloatTensor W)
    unfolding unary
    abs = unary fl.magnitude

    pub sqrt : FloatTensor W → Option (FloatTensor W)
    unfolding unary
    sqrt = unary fl.root

    pub rsqrt : FloatTensor W → Option (FloatTensor W)
    unfolding unary
    rsqrt = unary λ x. fl.div fl.one (fl.root x)

    pub pow : W → FloatTensor W → Option (FloatTensor W)
    unfolding unary
    pow exponent = unary λ x. fl.power x exponent

    pub clamp : (min_val max_val : W) → FloatTensor W → Option (FloatTensor W)
    unfolding unary
    clamp min_val max_val = unary (clamped min_val max_val)

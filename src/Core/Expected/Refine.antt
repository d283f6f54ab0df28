-- ===== src/Core/Expected/Refine.antt =====
-- An `Expected` that was made from a value or from a status is that value or that status.
use scicompute.Base.{◌≡◌, ◌⊎◌, inl, inr, refl, some}
use scicompute.Core.Status.{Status, ok_status}
use scicompute.Core.Expected.{
  Expected, raw, Read, returns, throws, of_value, of_unexpected, copy_construct, copy_assign,
  destroy, value, error,
}

module _ {ℓ} {T : Type ℓ} where
  -- The object that stands for a value or a status.
  unfoldable pub expected_of : T ⊎ Status → Expected T
  unfolding of_value of_unexpected
  expected_of (inl v) = of_value v
  expected_of (inr s) = of_unexpected s

  abbrev pub read_of : T ⊎ Status → Read T
  read_of (inl v) = returns v
  read_of (inr s) = throws s.message

  abbrev pub error_of : T ⊎ Status → Status
  error_of (inl v) = ok_status
  error_of (inr s) = s

  -- A copy of the object for `b` is the object for `b`, and so is any object for `a` to which it was
  -- assigned: over a value or an error, from a value or an error, with no use of a dead object.
  pub copies_lem :
      (a b : T ⊎ Status)
      → (copy_construct (expected_of b) ≡ some (expected_of b))
        × (copy_assign (expected_of a) (expected_of b) ≡ some (expected_of b))
  unfolding copy_construct copy_assign expected_of
  copies_lem (inl v) (inl w) = (refl, refl)
  copies_lem (inl v) (inr t) = (refl, refl)
  copies_lem (inr s) (inl w) = (refl, refl)
  copies_lem (inr s) (inr t) = (refl, refl)

  -- `value()` returns the value or throws the message of the status, `error()` is `Ok` or the status,
  -- and the destructor finds the object that it destroys.
  reads_lem :
      (a : T ⊎ Status)
      → (value (expected_of a) ≡ some (read_of a))
        × (error (expected_of a) ≡ some (error_of a))
        × (destroy (expected_of a) ≡ some raw)
  unfolding value error destroy expected_of
  reads_lem (inl v) = (refl, refl, refl)
  reads_lem (inr s) = (refl, refl, refl)

-- ===== src/Core/Expected.antt =====
-- `Expected<T>` of include/core/status.hpp: a flag beside raw storage in which a value or a status
-- is alive. `none` is undefined behaviour: the use of an object that is not alive.
pub mod Refine
mod Tests
use Prim.Native.String.{String}
use scicompute.Base.{◌≡◌, Bool, true, false, Option, none, some, if◌then◌else◌}
use scicompute.Base.Fallible.{◌>>=◌}
use scicompute.Core.Status.{Status, ok_status}

pub data Storage {ℓ} (T : Type ℓ) : Type ℓ where
  raw : Storage T
  holds_value : T → Storage T
  holds_error : Status → Storage T

pub record Expected {ℓ} (T : Type ℓ) : Type ℓ where
  pub storage : Storage T
  pub has_value : Bool

-- What `value()` and the other reads give.
pub data Read {ℓ} (A : Type ℓ) : Type ℓ where
  returns : A → Read A
  throws : (message : String) → Read A

module _ {ℓ} {T : Type ℓ} where
  -- `Expected()`, which sets the flag and constructs nothing.
  pub default_construct : Expected T
  default_construct = record { storage = raw; has_value = true }

  pub of_value : T → Expected T
  of_value v = record { storage = holds_value v; has_value = true }

  pub of_unexpected : Status → Expected T
  of_unexpected s = record { storage = holds_error s; has_value = false }

  -- `*get_ptr_()` and `*get_err_()`
  pub value_in : Storage T → Option T
  value_in raw = none
  value_in (holds_value v) = some v
  value_in (holds_error s) = none

  pub error_in : Storage T → Option Status
  error_in raw = none
  error_in (holds_value v) = none
  error_in (holds_error s) = some s

  -- A destructor call leaves raw storage.
  abbrev pub destroyed : Bool → Storage T → Option (Storage T)
  destroyed true s = value_in s >>= λ v. some raw
  destroyed false s = error_in s >>= λ e. some raw

  pub copy_construct : Expected T → Option (Expected T)
  unfolding value_in error_in
  copy_construct o =
      if o.has_value
      then (value_in o.storage >>= λ v. some (record { storage = holds_value v; has_value = true }))
      else (error_in o.storage >>= λ s.
          some (record { storage = holds_error s; has_value = false }))

  -- `operator=` of two different objects, by the two flags.
  pub assign_storage : Bool → Bool → Storage T → Storage T → Option (Storage T)
  unfolding value_in error_in
  assign_storage true true mine other =
      value_in mine >>= λ w. value_in other >>= λ v. some (holds_value v)
  assign_storage true false mine other =
      destroyed true mine >>= λ r. error_in other >>= λ s. some (holds_error s)
  assign_storage false true mine other =
      destroyed false mine >>= λ r. value_in other >>= λ v. some (holds_value v)
  assign_storage false false mine other =
      error_in mine >>= λ t. error_in other >>= λ s. some (holds_error s)

  pub copy_assign : Expected T → Expected T → Option (Expected T)
  unfolding assign_storage
  copy_assign e o = assign_storage e.has_value o.has_value e.storage o.storage >>= λ s.
      some (record { storage = s; has_value = o.has_value })

  -- `~Expected()`
  pub destroy : Expected T → Option (Storage T)
  unfolding value_in error_in
  destroy e = destroyed e.has_value e.storage

  pub message : Expected T → Option String
  unfolding error_in
  message e = if e.has_value then some "" else (error_in e.storage >>= λ s. some s.message)

  pub value : Expected T → Option (Read T)
  unfolding value_in message
  value e =
      if e.has_value
      then (value_in e.storage >>= λ v. some (returns v))
      else (message e >>= λ m. some (throws m))

  pub error : Expected T → Option Status
  unfolding error_in
  error e = if e.has_value then some ok_status else error_in e.storage

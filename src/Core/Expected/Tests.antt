-- ===== src/Core/Expected/Tests.antt =====
-- `Expected` at concrete inputs.
use scicompute.Base.{ℕ, ◌≡◌, refl, inl, inr, true, none, some, ◌⊎◌}
use scicompute.Core.Status.{Status, not_found}
use scicompute.Core.Expected.{default_construct, of_value, copy_construct, copy_assign, destroy}
use scicompute.Core.Expected.Refine.{expected_of, copies_lem}

abbrev good : ℕ ⊎ Status
good = inl 7

abbrev bad : ℕ ⊎ Status
bad = inr (record { code = not_found; message = "key" })

copies_lem_example :
    (copy_construct (expected_of bad) ≡ some (expected_of bad))
    × (copy_assign (expected_of good) (expected_of bad) ≡ some (expected_of bad))
copies_lem_example = copies_lem good bad

-- A default-constructed `Expected` says that it has a value, and holds none: its destructor, a copy
-- and an assignment to it use an object that was never constructed.
default_is_raw :
    ((default_construct {T = ℕ}).has_value ≡ true)
    × (destroy (default_construct {T = ℕ}) ≡ none)
    × (copy_construct (default_construct {T = ℕ}) ≡ none)
    × (copy_assign {T = ℕ} default_construct (of_value 7) ≡ none)
unfolding default_construct destroy copy_construct copy_assign of_value
default_is_raw = (refl, refl, refl, refl)

-- ===== src/Core/Status/Tests.antt =====
-- `Status` at concrete inputs.
use scicompute.Base.{◌≡◌, refl, some}
use scicompute.Core.Status.{of_not_found, create_status, to_string}

printed : to_string (create_status of_not_found (some "key")) ≡ "Not Found: key"
unfolding to_string create_status
printed = refl

-- ===== src/Core/Status/Codes.antt =====
-- The codes are told apart by their numbers and by their names.
use Prim.Native.String.{String}
use text.Mathlib.Text.{◌==◌ as str_eq}
use scicompute.Base.{
  ℕ, ◌≡◌, ◌↔◌, refl, ap, sym, ◌∙◌, Bool, true, false, ◌==◌, ==_iff, Option, none, some, some_inj,
  List, [], ◌∷◌, if◌then◌else◌,
}
use scicompute.Core.Status.{
  Factory, factory_code, create_status, status_ok, is_ok, of_error, of_not_found,
  of_invalid_argument, of_not_implemented, of_out_of_memory, of_internal_error, of_cuda_error,
  of_cuda_not_available, of_cuda_out_of_memory, of_ipc_error, of_ipc_segment_not_found,
  of_ipc_queue_full, of_ipc_queue_empty, of_ipc_timeout, of_pool_error, of_pool_out_of_slots,
  of_pool_double_free, of_tensor_error, of_tensor_invalid_shape, of_tensor_device_mismatch,
  of_device_error, of_device_not_found, of_scheduler_error, of_scheduler_full, of_scheduler_closed,
  StatusCode, number, status_code_to_string, Status, status_eq, ok, error, not_found,
  already_exists, invalid_argument, not_implemented, out_of_memory, resource_exhausted, unavailable,
  permission_denied, invalid_operation, deadline_exceeded, internal, cancelled, cuda_error,
  cuda_not_available, cuda_out_of_memory, cuda_invalid_device, cuda_kernel_not_found,
  cuda_launch_failure, cuda_illegal_address, ipc_error, ipc_segment_not_found, ipc_segment_exists,
  ipc_permission_denied, ipc_queue_full, ipc_queue_empty, ipc_timeout, pool_error,
  pool_out_of_slots, pool_invalid_block, pool_double_free, tensor_error, tensor_invalid_shape,
  tensor_invalid_dtype, tensor_device_mismatch, tensor_broadcast_failed, device_error,
  device_not_found, device_unavailable, device_invalid_id, scheduler_error, scheduler_full,
  scheduler_closed, scheduler_timeout,
}

abbrev all_codes : List StatusCode
all_codes =
    ok ∷ error ∷ not_found ∷ already_exists ∷ invalid_argument ∷ not_implemented ∷ out_of_memory
    ∷ resource_exhausted ∷ unavailable ∷ permission_denied ∷ invalid_operation ∷ deadline_exceeded
    ∷ internal ∷ cancelled ∷ cuda_error ∷ cuda_not_available ∷ cuda_out_of_memory
    ∷ cuda_invalid_device ∷ cuda_kernel_not_found ∷ cuda_launch_failure ∷ cuda_illegal_address
    ∷ ipc_error ∷ ipc_segment_not_found ∷ ipc_segment_exists ∷ ipc_permission_denied
    ∷ ipc_queue_full ∷ ipc_queue_empty ∷ ipc_timeout ∷ pool_error ∷ pool_out_of_slots
    ∷ pool_invalid_block ∷ pool_double_free ∷ tensor_error ∷ tensor_invalid_shape
    ∷ tensor_invalid_dtype ∷ tensor_device_mismatch ∷ tensor_broadcast_failed ∷ device_error
    ∷ device_not_found ∷ device_unavailable ∷ device_invalid_id ∷ scheduler_error ∷ scheduler_full
    ∷ scheduler_closed ∷ scheduler_timeout ∷ []

-- The first code of a list that passes a test.
unfoldable pub first_code : (StatusCode → Bool) → List StatusCode → Option StatusCode
first_code test [] = none
first_code test (c ∷ cs) = let rest = first_code test cs in if test c then some c else rest

unfoldable pub of_number : ℕ → Option StatusCode
unfolding first_code
of_number n = first_code (λ c. number c == n) all_codes

unfoldable pub of_string : String → Option StatusCode
unfolding first_code
of_string s = first_code (λ c. str_eq (status_code_to_string c) s) all_codes

-- Looking a code up by its number or by its name in the list of codes finds it: no two codes share
-- a number or a name.
of_number-number : (c : StatusCode) → of_number (number c) ≡ some c
unfolding of_number number
of_number-number ok = refl
of_number-number error = refl
of_number-number not_found = refl
of_number-number already_exists = refl
of_number-number invalid_argument = refl
of_number-number not_implemented = refl
of_number-number out_of_memory = refl
of_number-number resource_exhausted = refl
of_number-number unavailable = refl
of_number-number permission_denied = refl
of_number-number invalid_operation = refl
of_number-number deadline_exceeded = refl
of_number-number internal = refl
of_number-number cancelled = refl
of_number-number cuda_error = refl
of_number-number cuda_not_available = refl
of_number-number cuda_out_of_memory = refl
of_number-number cuda_invalid_device = refl
of_number-number cuda_kernel_not_found = refl
of_number-number cuda_launch_failure = refl
of_number-number cuda_illegal_address = refl
of_number-number ipc_error = refl
of_number-number ipc_segment_not_found = refl
of_number-number ipc_segment_exists = refl
of_number-number ipc_permission_denied = refl
of_number-number ipc_queue_full = refl
of_number-number ipc_queue_empty = refl
of_number-number ipc_timeout = refl
of_number-number pool_error = refl
of_number-number pool_out_of_slots = refl
of_number-number pool_invalid_block = refl
of_number-number pool_double_free = refl
of_number-number tensor_error = refl
of_number-number tensor_invalid_shape = refl
of_number-number tensor_invalid_dtype = refl
of_number-number tensor_device_mismatch = refl
of_number-number tensor_broadcast_failed = refl
of_number-number device_error = refl
of_number-number device_not_found = refl
of_number-number device_unavailable = refl
of_number-number device_invalid_id = refl
of_number-number scheduler_error = refl
of_number-number scheduler_full = refl
of_number-number scheduler_closed = refl
of_number-number scheduler_timeout = refl

-- Different codes have different names: the table of the names, read backwards, gives each code
-- back from what `StatusCodeToString` prints for it.
of_string-status_code_to_string : (c : StatusCode) → of_string (status_code_to_string c) ≡ some c
unfolding of_string status_code_to_string
of_string-status_code_to_string ok = refl
of_string-status_code_to_string error = refl
of_string-status_code_to_string not_found = refl
of_string-status_code_to_string already_exists = refl
of_string-status_code_to_string invalid_argument = refl
of_string-status_code_to_string not_implemented = refl
of_string-status_code_to_string out_of_memory = refl
of_string-status_code_to_string resource_exhausted = refl
of_string-status_code_to_string unavailable = refl
of_string-status_code_to_string permission_denied = refl
of_string-status_code_to_string invalid_operation = refl
of_string-status_code_to_string deadline_exceeded = refl
of_string-status_code_to_string internal = refl
of_string-status_code_to_string cancelled = refl
of_string-status_code_to_string cuda_error = refl
of_string-status_code_to_string cuda_not_available = refl
of_string-status_code_to_string cuda_out_of_memory = refl
of_string-status_code_to_string cuda_invalid_device = refl
of_string-status_code_to_string cuda_kernel_not_found = refl
of_string-status_code_to_string cuda_launch_failure = refl
of_string-status_code_to_string cuda_illegal_address = refl
of_string-status_code_to_string ipc_error = refl
of_string-status_code_to_string ipc_segment_not_found = refl
of_string-status_code_to_string ipc_segment_exists = refl
of_string-status_code_to_string ipc_permission_denied = refl
of_string-status_code_to_string ipc_queue_full = refl
of_string-status_code_to_string ipc_queue_empty = refl
of_string-status_code_to_string ipc_timeout = refl
of_string-status_code_to_string pool_error = refl
of_string-status_code_to_string pool_out_of_slots = refl
of_string-status_code_to_string pool_invalid_block = refl
of_string-status_code_to_string pool_double_free = refl
of_string-status_code_to_string tensor_error = refl
of_string-status_code_to_string tensor_invalid_shape = refl
of_string-status_code_to_string tensor_invalid_dtype = refl
of_string-status_code_to_string tensor_device_mismatch = refl
of_string-status_code_to_string tensor_broadcast_failed = refl
of_string-status_code_to_string device_error = refl
of_string-status_code_to_string device_not_found = refl
of_string-status_code_to_string device_unavailable = refl
of_string-status_code_to_string device_invalid_id = refl
of_string-status_code_to_string scheduler_error = refl
of_string-status_code_to_string scheduler_full = refl
of_string-status_code_to_string scheduler_closed = refl
of_string-status_code_to_string scheduler_timeout = refl

number_inj : (c d : StatusCode) → number c ≡ number d → c ≡ d
number_inj c d e = some_inj (sym (of_number-number c) ∙ ap of_number e ∙ of_number-number d)

-- Two statuses are equal for `operator==` exactly when their codes are, whatever their messages.
status_eq_iff : (s t : Status) → (status_eq s t ≡ true) ↔ (s.code ≡ t.code)
unfolding status_eq
status_eq_iff s t = (
  λ h. number_inj s.code t.code ((==_iff (number s.code) (number t.code)).0 h),
  λ e. (==_iff (number s.code) (number t.code)).1 (ap number e),
)

factory_code-ne-ok : (f : Factory) → is_ok (factory_code f) ≡ false
unfolding is_ok factory_code
factory_code-ne-ok of_error = refl
factory_code-ne-ok of_not_found = refl
factory_code-ne-ok of_invalid_argument = refl
factory_code-ne-ok of_not_implemented = refl
factory_code-ne-ok of_out_of_memory = refl
factory_code-ne-ok of_internal_error = refl
factory_code-ne-ok of_cuda_error = refl
factory_code-ne-ok of_cuda_not_available = refl
factory_code-ne-ok of_cuda_out_of_memory = refl
factory_code-ne-ok of_ipc_error = refl
factory_code-ne-ok of_ipc_segment_not_found = refl
factory_code-ne-ok of_ipc_queue_full = refl
factory_code-ne-ok of_ipc_queue_empty = refl
factory_code-ne-ok of_ipc_timeout = refl
factory_code-ne-ok of_pool_error = refl
factory_code-ne-ok of_pool_out_of_slots = refl
factory_code-ne-ok of_pool_double_free = refl
factory_code-ne-ok of_tensor_error = refl
factory_code-ne-ok of_tensor_invalid_shape = refl
factory_code-ne-ok of_tensor_device_mismatch = refl
factory_code-ne-ok of_device_error = refl
factory_code-ne-ok of_device_not_found = refl
factory_code-ne-ok of_scheduler_error = refl
factory_code-ne-ok of_scheduler_full = refl
factory_code-ne-ok of_scheduler_closed = refl

-- No factory but `Ok` makes a status that counts as success, whatever its message, and two of them
-- are equal for `operator==` exactly when their factories have one code.
create_status-fails :
    (f g : Factory) (m n : Option String)
    → (status_ok (create_status f m) ≡ false)
      × ((status_eq (create_status f m) (create_status g n) ≡ true)
          ↔ (factory_code f ≡ factory_code g))
unfolding create_status status_ok
create_status-fails f g m n =
    (factory_code-ne-ok f, status_eq_iff (create_status f m) (create_status g n))

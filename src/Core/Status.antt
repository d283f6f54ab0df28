-- ===== src/Core/Status.antt =====
-- `StatusCode` and `Status` of include/core/status.hpp. A default message is `none`.
pub mod Codes
mod Tests
use Prim.Native.String.{String, ◌++◌}
use scicompute.Base.{ℕ, Bool, true, false, not, ◌==◌, Option, none, some, if◌then◌else◌}

pub data StatusCode : Type 0 where
  ok : StatusCode
  error : StatusCode
  not_found : StatusCode
  already_exists : StatusCode
  invalid_argument : StatusCode
  not_implemented : StatusCode
  out_of_memory : StatusCode
  resource_exhausted : StatusCode
  unavailable : StatusCode
  permission_denied : StatusCode
  invalid_operation : StatusCode
  deadline_exceeded : StatusCode
  internal : StatusCode
  cancelled : StatusCode
  cuda_error : StatusCode
  cuda_not_available : StatusCode
  cuda_out_of_memory : StatusCode
  cuda_invalid_device : StatusCode
  cuda_kernel_not_found : StatusCode
  cuda_launch_failure : StatusCode
  cuda_illegal_address : StatusCode
  ipc_error : StatusCode
  ipc_segment_not_found : StatusCode
  ipc_segment_exists : StatusCode
  ipc_permission_denied : StatusCode
  ipc_queue_full : StatusCode
  ipc_queue_empty : StatusCode
  ipc_timeout : StatusCode
  pool_error : StatusCode
  pool_out_of_slots : StatusCode
  pool_invalid_block : StatusCode
  pool_double_free : StatusCode
  tensor_error : StatusCode
  tensor_invalid_shape : StatusCode
  tensor_invalid_dtype : StatusCode
  tensor_device_mismatch : StatusCode
  tensor_broadcast_failed : StatusCode
  device_error : StatusCode
  device_not_found : StatusCode
  device_unavailable : StatusCode
  device_invalid_id : StatusCode
  scheduler_error : StatusCode
  scheduler_full : StatusCode
  scheduler_closed : StatusCode
  scheduler_timeout : StatusCode

-- The value of a code as an `int32_t`.
unfoldable pub number : StatusCode → ℕ
number ok = 0
number error = 1
number not_found = 2
number already_exists = 3
number invalid_argument = 4
number not_implemented = 5
number out_of_memory = 6
number resource_exhausted = 7
number unavailable = 8
number permission_denied = 9
number invalid_operation = 10
number deadline_exceeded = 11
number internal = 12
number cancelled = 13
number cuda_error = 100
number cuda_not_available = 101
number cuda_out_of_memory = 102
number cuda_invalid_device = 103
number cuda_kernel_not_found = 104
number cuda_launch_failure = 105
number cuda_illegal_address = 106
number ipc_error = 200
number ipc_segment_not_found = 201
number ipc_segment_exists = 202
number ipc_permission_denied = 203
number ipc_queue_full = 204
number ipc_queue_empty = 205
number ipc_timeout = 206
number pool_error = 300
number pool_out_of_slots = 301
number pool_invalid_block = 302
number pool_double_free = 303
number tensor_error = 400
number tensor_invalid_shape = 401
number tensor_invalid_dtype = 402
number tensor_device_mismatch = 403
number tensor_broadcast_failed = 404
number device_error = 500
number device_not_found = 501
number device_unavailable = 502
number device_invalid_id = 503
number scheduler_error = 600
number scheduler_full = 601
number scheduler_closed = 602
number scheduler_timeout = 603

unfoldable pub status_code_to_string : StatusCode → String
status_code_to_string ok = "OK"
status_code_to_string error = "Error"
status_code_to_string not_found = "Not Found"
status_code_to_string already_exists = "Already Exists"
status_code_to_string invalid_argument = "Invalid Argument"
status_code_to_string not_implemented = "Not Implemented"
status_code_to_string out_of_memory = "Out of Memory"
status_code_to_string resource_exhausted = "Resource Exhausted"
status_code_to_string unavailable = "Unavailable"
status_code_to_string permission_denied = "Permission Denied"
status_code_to_string invalid_operation = "Invalid Operation"
status_code_to_string deadline_exceeded = "Deadline Exceeded"
status_code_to_string internal = "Internal Error"
status_code_to_string cancelled = "Cancelled"
status_code_to_string cuda_error = "CUDA Error"
status_code_to_string cuda_not_available = "CUDA Not Available"
status_code_to_string cuda_out_of_memory = "CUDA Out of Memory"
status_code_to_string cuda_invalid_device = "CUDA Invalid Device"
status_code_to_string cuda_kernel_not_found = "CUDA Kernel Not Found"
status_code_to_string cuda_launch_failure = "CUDA Launch Failure"
status_code_to_string cuda_illegal_address = "CUDA Illegal Address"
status_code_to_string ipc_error = "IPC Error"
status_code_to_string ipc_segment_not_found = "IPC Segment Not Found"
status_code_to_string ipc_segment_exists = "IPC Segment Exists"
status_code_to_string ipc_permission_denied = "IPC Permission Denied"
status_code_to_string ipc_queue_full = "IPC Queue Full"
status_code_to_string ipc_queue_empty = "IPC Queue Empty"
status_code_to_string ipc_timeout = "IPC Timeout"
status_code_to_string pool_error = "Pool Error"
status_code_to_string pool_out_of_slots = "Pool Out of Slots"
status_code_to_string pool_invalid_block = "Pool Invalid Block"
status_code_to_string pool_double_free = "Pool Double Free"
status_code_to_string tensor_error = "Tensor Error"
status_code_to_string tensor_invalid_shape = "Tensor Invalid Shape"
status_code_to_string tensor_invalid_dtype = "Tensor Invalid Dtype"
status_code_to_string tensor_device_mismatch = "Tensor Device Mismatch"
status_code_to_string tensor_broadcast_failed = "Tensor Broadcast Failed"
status_code_to_string device_error = "Device Error"
status_code_to_string device_not_found = "Device Not Found"
status_code_to_string device_unavailable = "Device Unavailable"
status_code_to_string device_invalid_id = "Device Invalid ID"
status_code_to_string scheduler_error = "Scheduler Error"
status_code_to_string scheduler_full = "Scheduler Queue Full"
status_code_to_string scheduler_closed = "Scheduler Closed"
status_code_to_string scheduler_timeout = "Scheduler Timeout"

pub is_ok : StatusCode → Bool
unfolding number
is_ok c = number c == number ok

pub record Status : Type 0 where
  pub code : StatusCode
  pub message : String

abbrev pub default : String → Option String → String
default text none = text
default text (some message) = message

-- The factories of `Status`, all but `Ok`.
pub data Factory : Type 0 where
  of_error : Factory
  of_not_found : Factory
  of_invalid_argument : Factory
  of_not_implemented : Factory
  of_out_of_memory : Factory
  of_internal_error : Factory
  of_cuda_error : Factory
  of_cuda_not_available : Factory
  of_cuda_out_of_memory : Factory
  of_ipc_error : Factory
  of_ipc_segment_not_found : Factory
  of_ipc_queue_full : Factory
  of_ipc_queue_empty : Factory
  of_ipc_timeout : Factory
  of_pool_error : Factory
  of_pool_out_of_slots : Factory
  of_pool_double_free : Factory
  of_tensor_error : Factory
  of_tensor_invalid_shape : Factory
  of_tensor_device_mismatch : Factory
  of_device_error : Factory
  of_device_not_found : Factory
  of_scheduler_error : Factory
  of_scheduler_full : Factory
  of_scheduler_closed : Factory

pub factory_code : Factory → StatusCode
factory_code of_error = error
factory_code of_not_found = not_found
factory_code of_invalid_argument = invalid_argument
factory_code of_not_implemented = not_implemented
factory_code of_out_of_memory = out_of_memory
factory_code of_internal_error = internal
factory_code of_cuda_error = cuda_error
factory_code of_cuda_not_available = cuda_not_available
factory_code of_cuda_out_of_memory = cuda_out_of_memory
factory_code of_ipc_error = ipc_error
factory_code of_ipc_segment_not_found = ipc_segment_not_found
factory_code of_ipc_queue_full = ipc_queue_full
factory_code of_ipc_queue_empty = ipc_queue_empty
factory_code of_ipc_timeout = ipc_timeout
factory_code of_pool_error = pool_error
factory_code of_pool_out_of_slots = pool_out_of_slots
factory_code of_pool_double_free = pool_double_free
factory_code of_tensor_error = tensor_error
factory_code of_tensor_invalid_shape = tensor_invalid_shape
factory_code of_tensor_device_mismatch = tensor_device_mismatch
factory_code of_device_error = device_error
factory_code of_device_not_found = device_not_found
factory_code of_scheduler_error = scheduler_error
factory_code of_scheduler_full = scheduler_full
factory_code of_scheduler_closed = scheduler_closed

pub factory_message : Factory → String
factory_message of_error = "Unknown error"
factory_message of_not_found = "Not found"
factory_message of_invalid_argument = "Invalid argument"
factory_message of_not_implemented = "Not implemented"
factory_message of_out_of_memory = "Out of memory"
factory_message of_internal_error = "Internal error"
factory_message of_cuda_error = "CUDA error"
factory_message of_cuda_not_available = "CUDA not available"
factory_message of_cuda_out_of_memory = "CUDA out of memory"
factory_message of_ipc_error = "IPC error"
factory_message of_ipc_segment_not_found = "IPC segment not found"
factory_message of_ipc_queue_full = "IPC queue full"
factory_message of_ipc_queue_empty = "IPC queue empty"
factory_message of_ipc_timeout = "IPC timeout"
factory_message of_pool_error = "Pool error"
factory_message of_pool_out_of_slots = "Pool out of slots"
factory_message of_pool_double_free = "Pool double free"
factory_message of_tensor_error = "Tensor error"
factory_message of_tensor_invalid_shape = "Tensor invalid shape"
factory_message of_tensor_device_mismatch = "Tensor device mismatch"
factory_message of_device_error = "Device error"
factory_message of_device_not_found = "Device not found"
factory_message of_scheduler_error = "Scheduler error"
factory_message of_scheduler_full = "Scheduler queue full"
factory_message of_scheduler_closed = "Scheduler closed"

-- The call of a factory, with its message if one is given.
pub create_status : Factory → Option String → Status
unfolding factory_code factory_message
create_status f message = record {
  code = factory_code f;
  message = default (factory_message f) message;
}

-- `Status()` and `Status::Ok()`
pub ok_status : Status
ok_status = record { code = ok; message = "" }

pub status_ok : Status → Bool
unfolding is_ok
status_ok s = is_ok s.code

-- `operator==`, which compares the codes only.
pub status_eq : Status → Status → Bool
unfolding number
status_eq s t = number s.code == number t.code

pub to_string : Status → String
unfolding status_ok status_code_to_string
to_string s = if status_ok s then "OK" else (status_code_to_string s.code ++ ": ") ++ s.message

-- ===== src/Jsc/Errors.antt =====
-- backend-jsc/src/experimental.rs: the failures that the backend reports.
use rust_jsi.Host.Entry.{GateError}
use rust_jsi.Backend.Errors.{BackendError, failure}

pub data RuntimeError : Type 0 where
  creation_failed null_context invalidated wrong_thread active_entry_conflict : RuntimeError
  wrong_runtime stale_handle identity_exhausted : RuntimeError
  host : GateError → RuntimeError
  scope_depth_exceeded persistent_root_limit_reached local_root_limit_reached : RuntimeError
  call_argument_limit_reached call_string_data_limit_reached : RuntimeError
  external_buffer_allocation_limit_reached external_buffer_byte_limit_reached : RuntimeError
  host_function_limit_reached native_state_registration_limit_reached : RuntimeError

-- backend-jsc/src/experimental/common.rs: how a failure crosses the backend contract.
abbrev pub map_runtime_error : RuntimeError → BackendError
map_runtime_error wrong_runtime = BackendError.wrong_backend
map_runtime_error stale_handle = BackendError.stale_handle
map_runtime_error (host error) = failure "JavaScriptCore host entry rejected"
map_runtime_error creation_failed = failure "JavaScriptCore creation failed"
map_runtime_error null_context = failure "JavaScriptCore context is null"
map_runtime_error invalidated = failure "JavaScriptCore runtime is invalid"
map_runtime_error wrong_thread = failure "JavaScriptCore runtime thread mismatch"
map_runtime_error active_entry_conflict = failure "another RustJSI runtime entry is active"
map_runtime_error identity_exhausted = failure "runtime identity exhausted"
map_runtime_error scope_depth_exceeded = failure "Context scope depth exceeded"
map_runtime_error persistent_root_limit_reached = failure "persistent root slot limit reached"
map_runtime_error local_root_limit_reached = failure "local result root limit reached"
map_runtime_error call_argument_limit_reached = failure "call argument limit reached"
map_runtime_error call_string_data_limit_reached = failure "call string data limit reached"
map_runtime_error external_buffer_allocation_limit_reached =
    failure "external-buffer allocation limit reached"
map_runtime_error external_buffer_byte_limit_reached = failure "external-buffer byte limit reached"
map_runtime_error host_function_limit_reached = failure "host function registration limit reached"
map_runtime_error native_state_registration_limit_reached =
    failure "native-state registration limit reached"

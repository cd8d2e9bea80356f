-- ===== src/ErrorContract.antt =====
-- components/error-contract/include/contract_types.h and constants.h: the data of the error-contract
-- audit. An array with its count is a list, a `char` array is its text.
pub mod Event
pub mod Builder
pub mod Loader
pub mod Analysis
pub mod SafeCalls
pub mod Signals
pub mod Run
mod Tests
use Prim.Native.Nat.{ℕ}
use p101_audit.Base.{Bool, List, ◌==◌}
use p101_audit.Base.Text.{Text}

abbrev pub contract_path_len : ℕ
contract_path_len = 4096

abbrev pub max_fact_functions : ℕ
max_fact_functions = 8192

abbrev pub max_fact_events : ℕ
max_fact_events = 65_536

abbrev pub function_name_len : ℕ
function_name_len = 256

pub data EventKind : Type 0 where
  call env_use error_use trace_use error_check error_optional error_discard error_propagated :
      EventKind
  error_unchecked_chain error_output_unchecked process_termination function_return : EventKind
  function_early_return call_not_isolated must_check_result_discarded error_cleanup_shadow :
      EventKind
  partial_result_discarded uncertain_progress_retried condition_wait_outside_loop : EventKind
  post_fork_unsafe_call zero_size_allocation overlapping_restricted_copy : EventKind
  thread_automatic_storage_escape env_borrowed_pointer_invalidated path_toctou : EventKind
  signal_handler_registered signal_shared_object_access recursive_call : EventKind

-- The numbers of the enumeration.
unfoldable pub kind_number : EventKind → ℕ
kind_number EventKind.call = 0
kind_number EventKind.env_use = 1
kind_number EventKind.error_use = 2
kind_number EventKind.trace_use = 3
kind_number EventKind.error_check = 4
kind_number EventKind.error_optional = 5
kind_number EventKind.error_discard = 6
kind_number EventKind.error_propagated = 7
kind_number EventKind.error_unchecked_chain = 8
kind_number EventKind.error_output_unchecked = 9
kind_number EventKind.process_termination = 10
kind_number EventKind.function_return = 11
kind_number EventKind.function_early_return = 12
kind_number EventKind.call_not_isolated = 13
kind_number EventKind.must_check_result_discarded = 14
kind_number EventKind.error_cleanup_shadow = 15
kind_number EventKind.partial_result_discarded = 16
kind_number EventKind.uncertain_progress_retried = 17
kind_number EventKind.condition_wait_outside_loop = 18
kind_number EventKind.post_fork_unsafe_call = 19
kind_number EventKind.zero_size_allocation = 20
kind_number EventKind.overlapping_restricted_copy = 21
kind_number EventKind.thread_automatic_storage_escape = 22
kind_number EventKind.env_borrowed_pointer_invalidated = 23
kind_number EventKind.path_toctou = 24
kind_number EventKind.signal_handler_registered = 25
kind_number EventKind.signal_shared_object_access = 26
kind_number EventKind.recursive_call = 27

-- `left == right`
unfoldable pub same_kind : EventKind → EventKind → Bool
same_kind left right = kind_number left == kind_number right

pub data OwnershipKind : Type 0 where
  error_acquire error_release env_acquire env_release : OwnershipKind

pub record ContractFunction : Type 0 where
  pub path : Text
  pub name : Text
  pub usr : Text
  pub line : ℕ
  pub start : ℕ
  pub end : ℕ
  pub has_env_contract : Bool
  pub has_error_contract : Bool
  pub is_termination_adapter : Bool
  pub env_reported : Bool
  pub error_reported : Bool

pub record ContractEvent : Type 0 where
  pub kind : EventKind
  pub path : Text
  pub name : Text
  pub caller : Text
  pub usr : Text
  pub caller_usr : Text
  pub line : ℕ
  pub start : ℕ
  pub end : ℕ
  pub needs_env : Bool
  pub needs_error : Bool

pub record OwnershipFile : Type 0 where
  pub path : Text
  pub error_create_count : ℕ
  pub error_destroy_count : ℕ
  pub env_create_count : ℕ
  pub env_destroy_count : ℕ
  pub first_error_create_line : ℕ
  pub first_env_create_line : ℕ

pub record ContractModel : Type 0 where
  pub functions : List ContractFunction
  pub events : List ContractEvent
  pub files_scanned : ℕ
  pub ownership_files : List OwnershipFile

-- ===== src/ErrorContract/Event.antt =====
-- components/error-contract/src/contract_event.c: what an event needs, the order of events, and the
-- events that notes stand for.
use p101_audit.Base.{Bool, not, ◌&&◌, ◌||◌, Option, none, some, leb, ◌==◌, if◌then◌else◌}
use p101_audit.ErrorContract.{EventKind, OwnershipKind, ContractEvent, same_kind}

-- `enum p101_c_note_kind` belongs to lib_c_facts: the notes that the sources name.
pub data NoteKind : Type 0 where
  env_use error_use trace_use error_check error_optional error_discard error_propagated : NoteKind
  error_unchecked_chain error_output_unchecked function_return function_early_return : NoteKind
  call_not_isolated must_check_result_discarded error_cleanup_shadow partial_result_discarded :
      NoteKind
  uncertain_progress_retried condition_wait_outside_loop post_fork_unsafe_call : NoteKind
  zero_size_allocation overlapping_restricted_copy thread_automatic_storage_escape : NoteKind
  env_borrowed_pointer_invalidated path_toctou signal_handler_registered : NoteKind
  signal_shared_object_access recursive_call : NoteKind
  signature_env_order field_reach alloc_sizeof_type macro_argument_bare macro_statement_bare :
      NoteKind
  handler_registered other env_contract error_contract call_result_discarded : NoteKind
  termination_adapter ownership_error_acquire ownership_error_release : NoteKind
  ownership_env_acquire ownership_env_release : NoteKind

unfoldable pub event_needs_env : ContractEvent → Bool
event_needs_env e =
    same_kind e.kind EventKind.trace_use || same_kind e.kind EventKind.call && e.needs_env

unfoldable pub event_needs_error : ContractEvent → Bool
event_needs_error e =
    same_kind e.kind EventKind.error_check || same_kind e.kind EventKind.call && e.needs_error

unfoldable pub event_is_not_after : ContractEvent → ContractEvent → Bool
event_is_not_after candidate event =
    if not (candidate.start == 0) && not (event.start == 0)
    then leb candidate.start event.start
    else leb candidate.line event.line

unfoldable pub event_kind_from_note : NoteKind → Option EventKind
event_kind_from_note NoteKind.env_use = some EventKind.env_use
event_kind_from_note NoteKind.error_use = some EventKind.error_use
event_kind_from_note NoteKind.trace_use = some EventKind.trace_use
event_kind_from_note NoteKind.error_check = some EventKind.error_check
event_kind_from_note NoteKind.error_optional = some EventKind.error_optional
event_kind_from_note NoteKind.error_discard = some EventKind.error_discard
event_kind_from_note NoteKind.error_propagated = some EventKind.error_propagated
event_kind_from_note NoteKind.error_unchecked_chain = some EventKind.error_unchecked_chain
event_kind_from_note NoteKind.error_output_unchecked = some EventKind.error_output_unchecked
event_kind_from_note NoteKind.function_return = some EventKind.function_return
event_kind_from_note NoteKind.function_early_return = some EventKind.function_early_return
event_kind_from_note NoteKind.call_not_isolated = some EventKind.call_not_isolated
event_kind_from_note NoteKind.must_check_result_discarded =
    some EventKind.must_check_result_discarded
event_kind_from_note NoteKind.error_cleanup_shadow = some EventKind.error_cleanup_shadow
event_kind_from_note NoteKind.partial_result_discarded = some EventKind.partial_result_discarded
event_kind_from_note NoteKind.uncertain_progress_retried = some EventKind.uncertain_progress_retried
event_kind_from_note NoteKind.condition_wait_outside_loop =
    some EventKind.condition_wait_outside_loop
event_kind_from_note NoteKind.post_fork_unsafe_call = some EventKind.post_fork_unsafe_call
event_kind_from_note NoteKind.zero_size_allocation = some EventKind.zero_size_allocation
event_kind_from_note NoteKind.overlapping_restricted_copy =
    some EventKind.overlapping_restricted_copy
event_kind_from_note NoteKind.thread_automatic_storage_escape =
    some EventKind.thread_automatic_storage_escape
event_kind_from_note NoteKind.env_borrowed_pointer_invalidated =
    some EventKind.env_borrowed_pointer_invalidated
event_kind_from_note NoteKind.path_toctou = some EventKind.path_toctou
event_kind_from_note NoteKind.signal_handler_registered = some EventKind.signal_handler_registered
event_kind_from_note NoteKind.signal_shared_object_access =
    some EventKind.signal_shared_object_access
event_kind_from_note NoteKind.recursive_call = some EventKind.recursive_call
event_kind_from_note _ = none

-- The switch of `p101_contract_ownership_kind_from_role`.
unfoldable pub ownership_kind_from_note : NoteKind → Option OwnershipKind
ownership_kind_from_note NoteKind.ownership_error_acquire = some OwnershipKind.error_acquire
ownership_kind_from_note NoteKind.ownership_error_release = some OwnershipKind.error_release
ownership_kind_from_note NoteKind.ownership_env_acquire = some OwnershipKind.env_acquire
ownership_kind_from_note NoteKind.ownership_env_release = some OwnershipKind.env_release
ownership_kind_from_note _ = none

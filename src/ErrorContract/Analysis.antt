-- ===== src/ErrorContract/Analysis.antt =====
-- components/error-contract/src/contract.c: the rules of ownership and of the events of each function.
-- report.c: how a finding is reported.
use p101_audit.Base.{
  ℕ, ◌+◌, ◌%◌, ◌^◌, Bool, true, not, ◌&&◌, ◌||◌, List, [], ◌∷◌, ◌++◌, Option, none, some, ltb, leb,
  ◌==◌, if◌then◌else◌, is_nil,
}
use p101_audit.Base.Text.{Text, codes, str_eq}
use p101_audit.Base.Scan.{any, find}
use p101_audit.ErrorContract.{
  EventKind, ContractFunction, ContractEvent, OwnershipFile, ContractModel, same_kind,
}
use p101_audit.ErrorContract.Event.{event_needs_env, event_needs_error, event_is_not_after}

pub data Rule : Type 0 where
  env_required error_required error_discarded unchecked_chain error_ownership env_ownership : Rule
  process_termination single_exit isolated_call output_before_error_check : Rule
  must_check_result_discarded error_cleanup_shadow partial_result_discarded : Rule
  uncertain_progress_retried condition_wait_outside_loop post_fork_unsafe_call : Rule
  zero_size_allocation overlapping_restricted_copy thread_automatic_storage_escape : Rule
  env_borrowed_pointer_invalidated path_toctou signal_shared_object_access signal_unsafe_call : Rule
  recursive_call : Rule

-- A diagnostic, less the text of its message.
pub record Diagnostic : Type 0 where
  pub rule : Rule
  pub path : Text
  pub line : ℕ
  pub function_name : Text

-- `struct contract_report` with the state of the error object: the diagnostics that were emitted, and
-- whether an error was raised. `findings` is the number of the former.
pub record Report : Type 0 where
  pub emitted : List Diagnostic
  pub has_error : Bool

-- The next function of the file starts there; `(size_t)-1` if there is none.
abbrev pub no_line : ℕ
no_line = 0xffff_ffff_ffff_ffff

unfoldable pub next_line_from : ContractFunction → List ContractFunction → ℕ → ℕ
next_line_from f [] line = line
next_line_from f (c ∷ cs) line =
    next_line_from f cs
      (if leb c.line f.line || leb line c.line || not (str_eq c.path f.path) then line else c.line)

unfoldable pub next_function_line : ContractModel → ContractFunction → ℕ
next_function_line model f = next_line_from f model.functions no_line

unfoldable pub event_is_in_function : ContractEvent → ContractFunction → ℕ → Bool
event_is_in_function e f end_line =
    str_eq e.path f.path
    && (if not (is_nil e.caller_usr)
        then str_eq e.caller_usr f.usr
        else if not (e.start == 0) && ltb f.start f.end
        then leb f.start e.start && ltb e.start f.end
        else leb f.line e.line && ltb e.line end_line)

unfoldable pub visible_env_before_event :
    ContractModel → ContractFunction → ContractEvent → ℕ → Bool
visible_env_before_event model f e end_line =
    f.has_env_contract
    || any
        (λ c.
          same_kind c.kind EventKind.env_use
          && event_is_not_after c e
          && event_is_in_function c f end_line)
        model.events

unfoldable pub visible_error_before_event :
    ContractModel → ContractFunction → ContractEvent → ℕ → Bool
visible_error_before_event model f e end_line =
    f.has_error_contract
    || any
        (λ c.
          same_kind c.kind EventKind.error_use
          && event_is_not_after c e
          && event_is_in_function c f end_line)
        model.events

unfoldable pub error_is_explicitly_optional :
    ContractModel → ContractFunction → ContractEvent → ℕ → Bool
error_is_explicitly_optional model f e end_line =
    any
      (λ c.
        same_kind c.kind EventKind.error_optional
        && c.line == e.line
        && c.start == e.start
        && str_eq c.caller_usr e.caller_usr
        && event_is_in_function c f end_line)
      model.events

unfoldable pub is_early_return : ContractFunction → ℕ → ContractEvent → Bool
is_early_return f end_line e =
    same_kind e.kind EventKind.function_early_return && event_is_in_function e f end_line

unfoldable pub function_early_return_line : ContractModel → ContractFunction → ℕ → ℕ
function_early_return_line model f end_line =
    elim (find (is_early_return f end_line) model.events) [ none ↦ 0 | some e ↦ e.line ]

-- The test of `exit_event_is_duplicate`, for one earlier event.
unfoldable pub is_same_exit : ContractEvent → ContractEvent → Bool
is_same_exit e c =
    same_kind c.kind e.kind
    && c.line == e.line
    && c.start == e.start
    && str_eq c.path e.path
    && str_eq c.caller_usr e.caller_usr

-- `earlier` are the events before the index of `e`.
unfoldable pub exit_event_is_duplicate : List ContractEvent → ContractEvent → Bool
exit_event_is_duplicate earlier e = any (is_same_exit e) earlier

unfoldable pub is_exit : ContractFunction → ℕ → ContractEvent → Bool
is_exit f end_line e =
    (same_kind e.kind EventKind.function_return || same_kind e.kind EventKind.process_termination)
    && event_is_in_function e f end_line

-- The count, and `*second_exit_line`.
unfoldable pub count_exits :
    ContractFunction → ℕ → List ContractEvent → List ContractEvent → ℕ × ℕ → ℕ × ℕ
count_exits f end_line earlier [] counted = counted
count_exits f end_line earlier (e ∷ events) (count, second) =
    let counts = is_exit f end_line e && not (exit_event_is_duplicate earlier e) in
    count_exits f end_line (earlier ++ e ∷ []) events (
      if counts
      then ((count + 1) % 2 ^ 64, if (count + 1) % 2 ^ 64 == 2 then e.line else second)
      else (count, second))

unfoldable pub function_exit_count : ContractModel → ContractFunction → ℕ → ℕ × ℕ
function_exit_count model f end_line = count_exits f end_line [] model.events (0, f.line)

-- The chain of tests that report and go on with the next event, for all kinds but the termination of
-- the process.
unfoldable pub immediate_rule : EventKind → Option Rule
immediate_rule EventKind.call_not_isolated = some Rule.isolated_call
immediate_rule EventKind.error_output_unchecked = some Rule.output_before_error_check
immediate_rule EventKind.must_check_result_discarded = some Rule.must_check_result_discarded
immediate_rule EventKind.error_cleanup_shadow = some Rule.error_cleanup_shadow
immediate_rule EventKind.partial_result_discarded = some Rule.partial_result_discarded
immediate_rule EventKind.uncertain_progress_retried = some Rule.uncertain_progress_retried
immediate_rule EventKind.condition_wait_outside_loop = some Rule.condition_wait_outside_loop
immediate_rule EventKind.post_fork_unsafe_call = some Rule.post_fork_unsafe_call
immediate_rule EventKind.zero_size_allocation = some Rule.zero_size_allocation
immediate_rule EventKind.overlapping_restricted_copy = some Rule.overlapping_restricted_copy
immediate_rule EventKind.thread_automatic_storage_escape = some Rule.thread_automatic_storage_escape
immediate_rule EventKind.env_borrowed_pointer_invalidated =
    some Rule.env_borrowed_pointer_invalidated
immediate_rule EventKind.path_toctou = some Rule.path_toctou
immediate_rule EventKind.recursive_call = some Rule.recursive_call
immediate_rule _ = none

-- The events of a function that must not terminate the process.
unfoldable pub is_termination : ContractFunction → ContractEvent → Bool
is_termination f e =
    same_kind e.kind EventKind.process_termination
    && not (str_eq f.usr (codes "c:@F@main"))
    && not f.is_termination_adapter

-- What the loop over the events changes: the report, and the two flags of its copy of the function.
pub record Checked : Type 0 where
  pub report : Report
  pub env_reported : Bool
  pub error_reported : Bool

-- `accepts` says whether p101_tool_diagnostic_initialize and p101_tool_report_emit of the tool support
-- both succeed on a diagnostic, behind those that were emitted.
module _ (accepts : List Diagnostic → Diagnostic → Bool) where
  unfoldable pub report_finding : Rule → Text → ℕ → Text → Report → Report
  report_finding rule path line name r =
      let d : Diagnostic = record { rule = rule; path = path; line = line; function_name = name } in
      if accepts r.emitted d
      then record r { emitted = r.emitted ++ d ∷ [] }
      else record r { has_error = true }

  unfoldable pub report_event : Rule → ContractFunction → ContractEvent → Checked → Checked
  report_event rule f e s = record s { report = report_finding rule e.path e.line f.name s.report }

  unfoldable pub check_env :
      ContractModel → ContractFunction → ℕ → ContractEvent → Checked → Checked
  check_env model f end_line e s =
      if event_needs_env e
        && not s.env_reported
        && not (visible_env_before_event model f e end_line)
      then record (report_event Rule.env_required f e s) { env_reported = true }
      else s

  unfoldable pub check_error :
      ContractModel → ContractFunction → ℕ → ContractEvent → Checked → Checked
  check_error model f end_line e s =
      if event_needs_error e
        && not s.error_reported
        && not (visible_error_before_event model f e end_line)
        && not (error_is_explicitly_optional model f e end_line)
      then record (report_event Rule.error_required f e s) { error_reported = true }
      else s

  unfoldable pub check_discard :
      ContractModel → ContractFunction → ℕ → ContractEvent → Checked → Checked
  check_discard model f end_line e s =
      if same_kind e.kind EventKind.error_discard
        && not (error_is_explicitly_optional model f e end_line)
      then report_event Rule.error_discarded f e s
      else s

  unfoldable pub check_chain :
      Bool → ContractModel → ContractFunction → ℕ → ContractEvent → Checked → Checked
  check_chain strict_sequence model f end_line e s =
      if strict_sequence
        && same_kind e.kind EventKind.error_unchecked_chain
        && not (error_is_explicitly_optional model f e end_line)
      then report_event Rule.unchecked_chain f e s
      else s

  -- The body of the loop over the events.
  unfoldable pub check_event :
      Bool → ContractModel → ContractFunction → ℕ → ContractEvent → Checked → Checked
  check_event strict_sequence model f end_line e s =
      let checked : Checked = elim (immediate_rule e.kind) [
        | some rule ↦ report_event rule f e s
        | none ↦ check_chain strict_sequence model f end_line e (
            check_discard model f end_line e
              (check_error model f end_line e (check_env model f end_line e s)))
      ] in
      if not (event_is_in_function e f end_line)
      then s
      else if is_termination f e
      then report_event Rule.process_termination f e s
      else checked

  unfoldable pub check_events :
      Bool → ContractModel → ContractFunction → ℕ → List ContractEvent → Checked → Checked
  check_events strict_sequence model f end_line [] s = s
  check_events strict_sequence model f end_line (e ∷ events) s =
      if s.report.has_error
      then s
      else check_events strict_sequence model f end_line events
          (check_event strict_sequence model f end_line e s)

  -- The rule of the single exit.
  unfoldable pub check_exits : ContractModel → ContractFunction → ℕ → Report → Report
  check_exits model f end_line r =
      let early = function_early_return_line model f end_line in
      let (count, second) = function_exit_count model f end_line in
      if not (early == 0)
      then report_finding Rule.single_exit f.path early f.name r
      else if ltb 1 count
      then report_finding Rule.single_exit f.path second f.name r
      else r

  -- The body of the loop over the functions.
  unfoldable pub check_function : Bool → ContractModel → ContractFunction → Report → Report
  check_function strict_sequence model f r =
      let end_line = next_function_line model f in
      (check_events strict_sequence model f end_line model.events (record {
        report = check_exits model f end_line r;
        env_reported = f.env_reported;
        error_reported = f.error_reported;
      })).report

  unfoldable pub check_functions : Bool → ContractModel → List ContractFunction → Report → Report
  check_functions strict_sequence model [] r = r
  check_functions strict_sequence model (f ∷ fs) r =
      if r.has_error
      then r
      else check_functions strict_sequence model fs (check_function strict_sequence model f r)

  unfoldable pub analyze_model : Bool → ContractModel → Report → Report
  analyze_model strict_sequence model r = check_functions strict_sequence model model.functions r

  -- The body of the loop of `analyze_ownership`.
  unfoldable pub check_owner : OwnershipFile → Report → Report
  check_owner owner r =
      let r' =
        if ltb owner.error_destroy_count owner.error_create_count
        then report_finding Rule.error_ownership owner.path owner.first_error_create_line
            (codes "-") r
        else r in
      if ltb owner.env_destroy_count owner.env_create_count
      then report_finding Rule.env_ownership owner.path owner.first_env_create_line (codes "-") r'
      else r'

  unfoldable pub check_owners : List OwnershipFile → Report → Report
  check_owners [] r = r
  check_owners (owner ∷ owners) r =
      if r.has_error then r else check_owners owners (check_owner owner r)

  unfoldable pub analyze_ownership : ContractModel → Report → Report
  analyze_ownership model r = check_owners model.ownership_files r

-- ===== src/ErrorContract/Tests.antt =====
-- Runs of the audit of error contracts on a small program with a signal handler, and its theorems at
-- concrete inputs.
use p101_audit.Base.{
  ℕ, zero, suc, ◌+◌, ◌-◌, ◌^◌, ◌≡◌, ◌≢◌, ◌≤◌, ◌<◌, ◌↔◌, ◌⊎◌, inl, inr, refl, ap, Bool, true, false,
  List, [], ◌∷◌, Option, none, some, Memᴰ, arith, length, if◌then◌else◌, Bool-cases,
}
use p101_audit.Base.Text.{Text, codes, str_eq}
use p101_audit.Base.Scan.{any, find}
use p101_audit.Wrapper.{Kind}
use p101_audit.ErrorContract.{
  OwnershipKind, ContractModel, ContractEvent, same_kind, kind_number, contract_path_len,
}
use p101_audit.ErrorContract.Event.{
  NoteKind, event_needs_env, event_needs_error, event_is_not_after, event_kind_from_note,
  ownership_kind_from_note,
}
use p101_audit.ErrorContract.Builder.{
  copy_text, text_fits, add_function, event_of, add_event, is_function_at, update_first,
  grant_contract, set_contract, set_termination_adapter, is_owner, count_ownership, new_owner,
  record_ownership,
}
use p101_audit.ErrorContract.Builder.Ledger.{
  recorded, recorded_in, lookup, step, record_ownership_refines,
}
use p101_audit.ErrorContract.Loader.{
  FactKind, SavedFact, NativeRecord, termination_function_usrs, is_process_termination_call,
  event_start, count_file, add_fact_event, record_fields, apply_fact_note, apply_role,
  apply_other_note, apply_note, apply_fact, apply_record, apply_records, empty_model,
}
use p101_audit.ErrorContract.Loader.Agreement.{record_of, apply_fact-eq-apply_record}
use p101_audit.ErrorContract.Loader.Invariant.{IsBuilt, apply_records-IsBuilt, empty-IsBuilt}
use p101_audit.ErrorContract.Analysis.{
  Rule, Diagnostic, Report, next_line_from, next_function_line, event_is_in_function,
  visible_env_before_event, visible_error_before_event, error_is_explicitly_optional,
  is_early_return, function_early_return_line, is_same_exit, exit_event_is_duplicate, is_exit,
  count_exits, function_exit_count, immediate_rule, is_termination, report_finding, report_event,
  check_env, check_error, check_discard, check_chain, check_event, check_events, check_exits,
  check_function, check_functions, analyze_model, check_owner, check_owners, analyze_ownership,
}
use p101_audit.ErrorContract.SafeCalls.{safe_calls, call_is_async_signal_safe}
use p101_audit.ErrorContract.Signals.{
  index_of_usr, function_index_by_usr, is_known, no_marks, mark, mark_handlers, extends,
  mark_callees, close_marks, reachable_functions, name_at, signal_rule, report_signals,
  analyze_signal_handlers,
}
use p101_audit.ErrorContract.Signals.Reach.{Reaches, reachable_functions_iff, close_marks_ends}
use p101_audit.ErrorContract.Run.{
  NativeAnalysis, load_analysis, analyze, run, empty_report, exit_success, exit_findings,
  exit_trouble,
}
use p101_audit.ErrorContract.Run.Clean.{IsClean, analyze_iff}
use p101_audit.ErrorContract.Run.Status.{IsLoaded, run_succeeds_iff}
use p101_audit.ErrorContract.Run.LongPath.{IsStored, long_path-IsClean}

-- All that a run computes with.
auditing : Unit {0}
unfolding str_eq any find same_kind kind_number event_needs_env event_needs_error event_is_not_after
    event_kind_from_note ownership_kind_from_note copy_text text_fits add_function event_of
    add_event is_function_at update_first grant_contract set_contract set_termination_adapter
    is_owner count_ownership new_owner record_ownership termination_function_usrs
    is_process_termination_call event_start count_file add_fact_event record_fields apply_fact_note
    apply_role apply_other_note apply_note apply_fact apply_record apply_records empty_model
    next_line_from next_function_line event_is_in_function visible_env_before_event
    visible_error_before_event error_is_explicitly_optional is_early_return
    function_early_return_line is_same_exit exit_event_is_duplicate is_exit count_exits
    function_exit_count immediate_rule is_termination report_finding report_event check_env
    check_error check_discard check_chain check_event check_events check_exits check_function
    check_functions analyze_model check_owner check_owners analyze_ownership safe_calls
    call_is_async_signal_safe index_of_usr function_index_by_usr is_known no_marks mark
    mark_handlers extends mark_callees close_marks reachable_functions name_at signal_rule
    report_signals analyze_signal_handlers load_analysis analyze run
auditing = tt

-- Three of the names that lib_c_facts gives to notes.
abbrev note_kind : Option Text → NoteKind
note_kind none = NoteKind.other
note_kind (some name) =
    if str_eq name (codes "signal-handler-registered")
    then NoteKind.signal_handler_registered
    else if str_eq name (codes "ownership-error-acquire")
    then NoteKind.ownership_error_acquire
    else if str_eq name (codes "ownership-error-release")
    then NoteKind.ownership_error_release
    else NoteKind.other

abbrev every_diagnostic : List Diagnostic → Diagnostic → Bool
every_diagnostic emitted d = true

abbrev report_ends : Report → Bool
report_ends r = true

-- A function of a.c over the ten offsets from `start` on.
abbrev function_record : Text → ℕ → NativeRecord
function_record name start = record {
  kind = Kind.function;
  path = codes "a.c";
  name = some name;
  caller = none;
  usr = some name;
  caller_usr = none;
  line = start;
  column = 1;
  start_offset = start;
  end_offset = start + 10;
  is_definition = true;
  has_env_parameter = false;
  has_error_parameter = false;
}

abbrev call_record : Text → Text → ℕ → NativeRecord
call_record caller callee start = record (function_record callee start) {
  kind = Kind.call;
  caller_usr = some caller;
  is_definition = false;
}

abbrev note_record : Text → Text → ℕ → NativeRecord
note_record name caller start = record (call_record caller name start) { kind = Kind.note }

-- main registers on_signal, which calls flush.
abbrev program : List NativeRecord
program =
    function_record (codes "c:@F@main") 10
    ∷ function_record (codes "c:@F@on_signal") 30
    ∷ function_record (codes "c:@F@flush") 50
    ∷ note_record (codes "signal-handler-registered") (codes "c:@F@on_signal") 12
    ∷ call_record (codes "c:@F@on_signal") (codes "c:@F@flush") 32
    ∷ []

-- flush writes by a function that is safe in handlers.
abbrev safe_program : List NativeRecord
safe_program = call_record (codes "c:@F@flush") (codes "c:@F@write") 52 ∷ program

abbrev unsafe_program : List NativeRecord
unsafe_program = call_record (codes "c:@F@flush") (codes "c:@F@printf") 52 ∷ program

abbrev leaking_program : List NativeRecord
leaking_program = note_record (codes "ownership-error-acquire") (codes "c:@F@main") 14 ∷ program

-- An analysis with these records, whose calls raise no error.
abbrev analysis_of : List NativeRecord → NativeAnalysis
analysis_of records = record {
  has_compile_db = false;
  verbose = true;
  search_fails = false;
  print_fails = false;
  records = records;
  scan_fails = false;
}

abbrev audit : List NativeRecord → ℕ
audit records = run every_diagnostic note_kind false true true (analysis_of records) report_ends

broken_scan_fails :
    run every_diagnostic note_kind false true true
      (record (analysis_of safe_program) { scan_fails = true })
      report_ends
    ≡ exit_trouble
unfolding auditing
broken_scan_fails = refl

abbrev loaded : List NativeRecord → ContractModel
loaded records = (apply_records note_kind records empty_model).0

safe_program_succeeds : audit safe_program ≡ exit_success
unfolding auditing
safe_program_succeeds = refl

unsafe_program_fails : audit unsafe_program ≡ exit_findings
unfolding auditing
unsafe_program_fails = refl

leaking_program_fails : audit leaking_program ≡ exit_findings
unfolding auditing
leaking_program_fails = refl

-- An unsafe call two calls away from the handler.
unsafe_program_report : analyze every_diagnostic false (loaded unsafe_program) ≡ record {
  emitted =
      record {
        rule = Rule.signal_unsafe_call;
        path = codes "a.c";
        line = 52;
        function_name = codes "c:@F@flush";
      }
      ∷ [];
  has_error = false;
}
unfolding auditing
unsafe_program_report = refl

run_succeeds_iff_example : (audit unsafe_program ≡ exit_success) ↔ (
    (true ≡ true)
    × (true ≡ true)
    × IsLoaded note_kind (analysis_of unsafe_program)
    × IsClean false (loaded unsafe_program)
    × (report_ends empty_report ≡ true))
run_succeeds_iff_example =
    run_succeeds_iff note_kind every_diagnostic false true true (analysis_of unsafe_program)
      report_ends

apply_records-IsBuilt_example : IsBuilt (loaded unsafe_program)
apply_records-IsBuilt_example =
    apply_records-IsBuilt note_kind unsafe_program empty_model empty-IsBuilt

analyze_iff_example :
    (analyze every_diagnostic false (loaded unsafe_program) ≡ empty_report)
    ↔ IsClean false (loaded unsafe_program)
analyze_iff_example =
    analyze_iff every_diagnostic false (loaded unsafe_program)
      (apply_records-IsBuilt note_kind unsafe_program empty_model empty-IsBuilt).fresh

reachable_functions_iff_example :
    (reachable_functions (loaded unsafe_program) 2 ≡ true) ↔ Reaches (loaded unsafe_program) 2
reachable_functions_iff_example = reachable_functions_iff (loaded unsafe_program) 2

flush_is_reached : Reaches (loaded unsafe_program) 2
unfolding auditing
flush_is_reached = reachable_functions_iff_example.0 refl

four_rounds : length (loaded unsafe_program).functions < 4
unfolding auditing
four_rounds = omega arith

close_marks_ends_example :
    ((e : ContractEvent)
      → Memᴰ e (loaded unsafe_program).events
      → extends (loaded unsafe_program) (close_marks 4 (loaded unsafe_program) (mark 1 no_marks)) e
        ≡ false)
    × (close_marks 4 (loaded unsafe_program) (mark 1 no_marks)
        ≡ close_marks
            (suc (length (loaded unsafe_program).functions))
            (loaded unsafe_program)
            (mark 1 no_marks))
close_marks_ends_example = close_marks_ends (loaded unsafe_program) (mark 1 no_marks) 4 four_rounds

abbrev exit_call : SavedFact
exit_call = record {
  kind = FactKind.call;
  path = codes "a.c";
  value = some (codes "exit");
  caller = some (codes "flush");
  usr = some (codes "c:@F@exit");
  caller_usr = some (codes "c:@F@flush");
  line = 53;
  column = 4;
  start = 530;
  end = 537;
  is_declaration = false;
  has_env_parameter = false;
  has_error_parameter = false;
}

apply_fact-eq-apply_record_example :
    apply_fact note_kind (loaded program) exit_call
    ≡ apply_record note_kind (loaded program) (record_of exit_call)
apply_fact-eq-apply_record_example = apply_fact-eq-apply_record note_kind (loaded program) exit_call

leaks_once :
    (j : OwnershipKind) (q : Text)
    → lookup j q (loaded leaking_program).ownership_files < 2 ^ 64 - 1
unfolding auditing lookup recorded_in recorded
leaks_once OwnershipKind.error_acquire q = elim (Bool-cases (str_eq (codes "a.c") q)) [
  | inl e ↦ rw e (omega arith)
  | inr e ↦ rw e (omega arith)
]
leaks_once _ q = elim (Bool-cases (str_eq (codes "a.c") q)) [
  | inl e ↦ rw e (omega arith)
  | inr e ↦ rw e (omega arith)
]

short_path : length (codes "a.c") < contract_path_len
short_path = omega arith

record_ownership_refines_example :
    (((record_ownership (loaded leaking_program) (codes "a.c") 60 OwnershipKind.error_release).1
        ≢ none)
      × ((record_ownership (loaded leaking_program) (codes "a.c") 60 OwnershipKind.error_release).0
          ≡ loaded leaking_program))
    ⊎ (((record_ownership (loaded leaking_program) (codes "a.c") 60 OwnershipKind.error_release).1
          ≡ none)
        × ((j : OwnershipKind) (q : Text)
            → lookup j q
                (record_ownership
                  (loaded leaking_program)
                  (codes "a.c")
                  60
                  OwnershipKind.error_release).0.ownership_files
              ≡ lookup j q (loaded leaking_program).ownership_files
                + step OwnershipKind.error_release (codes "a.c") j q))
record_ownership_refines_example =
    record_ownership_refines (loaded leaking_program) (codes "a.c") 60 OwnershipKind.error_release
      short_path leaks_once

-- A path of so many bytes.
repeated : ℕ → Text
repeated zero = []
repeated (suc n) = b'a' ∷ repeated n

length-repeated : (n : ℕ) → length (repeated n) ≡ n
unfolding repeated
length-repeated zero = refl
length-repeated (suc n) = ap suc (length-repeated n)

path_is_long : contract_path_len ≤ length (repeated 5000)
path_is_long = omega (arith, length-repeated 5000)

nothing-IsStored : IsStored empty_model.ownership_files
unfolding empty_model
nothing-IsStored o m = elim m [ ]

all_room : length empty_model.ownership_files + 1 < 8192
unfolding empty_model
all_room = omega arith

long_path-IsClean_example :
    ¬ IsClean true
      (record_ownership
        (record_ownership empty_model (repeated 5000) 7 OwnershipKind.error_acquire).0
        (repeated 5000)
        9
        OwnershipKind.error_release).0
long_path-IsClean_example =
    long_path-IsClean true empty_model (repeated 5000) 7 9 path_is_long nothing-IsStored all_room

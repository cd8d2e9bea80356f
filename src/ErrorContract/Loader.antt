-- ===== src/ErrorContract/Loader.antt =====
-- components/error-contract/src/contract_model.c and native_analysis.c: the model is filled from saved
-- facts, or from the records of an analysis.
pub mod Agreement
pub mod Invariant
use p101_audit.Base.{
  ℕ, ◌+◌, ◌%◌, ◌^◌, Bool, true, false, not, ◌&&◌, ◌||◌, List, [], ◌∷◌, Option, none, some, ◌==◌,
  if◌then◌else◌,
}
use p101_audit.Base.Text.{Text, codes, str_eq}
use p101_audit.Base.Scan.{any}
use p101_audit.Wrapper.{Kind}
use p101_audit.ErrorContract.{EventKind, ContractModel, same_kind}
use p101_audit.ErrorContract.Event.{NoteKind, event_kind_from_note, ownership_kind_from_note}
use p101_audit.ErrorContract.Builder.{
  Failure, Outcome, EventFields, add_function, add_event, set_contract, set_termination_adapter,
  record_ownership, parse_failure,
}

-- `enum p101_c_fact_kind` of lib_c_facts.
pub data FactKind : Type 0 where
  unknown file include parameter type enum enumerator macro function call note : FactKind

-- `struct p101_c_fact` belongs to lib_c_facts: the fields that the loader reads. The path is compared
-- without a test, so it is not a null pointer.
pub record SavedFact : Type 0 where
  pub kind : FactKind
  pub path : Text
  pub value : Option Text
  pub caller : Option Text
  pub usr : Option Text
  pub caller_usr : Option Text
  pub line : ℕ
  pub column : ℕ
  pub start : ℕ
  pub end : ℕ
  pub is_declaration : Bool
  pub has_env_parameter : Bool
  pub has_error_parameter : Bool

-- The fields of `struct p101_c_analysis_record` that this audit reads.
pub record NativeRecord : Type 0 where
  pub kind : Kind
  pub path : Text
  pub name : Option Text
  pub caller : Option Text
  pub usr : Option Text
  pub caller_usr : Option Text
  pub line : ℕ
  pub column : ℕ
  pub start_offset : ℕ
  pub end_offset : ℕ
  pub is_definition : Bool
  pub has_env_parameter : Bool
  pub has_error_parameter : Bool

unfoldable pub termination_function_usrs : List Text
termination_function_usrs =
    codes "c:@F@_Exit"
    ∷ codes "c:@F@_exit"
    ∷ codes "c:@F@abort"
    ∷ codes "c:@F@err"
    ∷ codes "c:@F@errx"
    ∷ codes "c:@F@exit"
    ∷ codes "c:@F@quick_exit"
    ∷ codes "c:@F@verr"
    ∷ codes "c:@F@verrx"
    ∷ []

unfoldable pub is_process_termination_call : Option Text → Bool
is_process_termination_call none = false
is_process_termination_call (some usr) = any (λ t. str_eq usr t) termination_function_usrs

-- A return without an offset is placed by its column.
unfoldable pub event_start : EventKind → ℕ → ℕ → ℕ
event_start kind start column =
    if (same_kind kind EventKind.function_return || same_kind kind EventKind.function_early_return)
      && start == 0
    then column
    else start

unfoldable pub count_file : ContractModel → ContractModel
count_file model = record model { files_scanned = (model.files_scanned + 1) % 2 ^ 64 }

-- `add_event` of contract_model.c.
unfoldable pub add_fact_event : ContractModel → EventKind → SavedFact → Outcome
add_fact_event model kind x = add_event model kind (record {
  path = x.path;
  name = x.value;
  caller = x.caller;
  usr = x.usr;
  caller_usr = x.caller_usr;
  line = x.line;
  start = event_start kind x.start x.column;
  end = x.end;
  needs_env = same_kind kind EventKind.call && x.has_env_parameter;
  needs_error = same_kind kind EventKind.call && x.has_error_parameter;
})

-- The arguments of `p101_contract_model_add_event` in native_analysis.c.
unfoldable pub record_fields : NativeRecord → ℕ → Bool → Bool → EventFields
record_fields r start needs_env needs_error = record {
  path = r.path;
  name = r.name;
  caller = r.caller;
  usr = r.usr;
  caller_usr = r.caller_usr;
  line = r.line;
  start = start;
  end = r.end_offset;
  needs_env = needs_env;
  needs_error = needs_error;
}

-- The notes that are no ownership role.
unfoldable pub apply_fact_note : ContractModel → SavedFact → NoteKind → Outcome
apply_fact_note model x NoteKind.termination_adapter =
    (set_termination_adapter model x.path x.caller_usr, none)
apply_fact_note model x NoteKind.env_contract = (set_contract model x.path x.caller_usr true, none)
apply_fact_note model x NoteKind.error_contract =
    (set_contract model x.path x.caller_usr false, none)
apply_fact_note model x role = elim (event_kind_from_note role) [
  | none ↦ (model, none)
  | some kind ↦ add_fact_event model kind x
]

-- The case of a note: `record_ownership_role` comes first.
unfoldable pub apply_role : ContractModel → SavedFact → NoteKind → Outcome
apply_role model x role = elim (ownership_kind_from_note role) [
  | some kind ↦ record_ownership model x.path x.line kind
  | none ↦ apply_fact_note model x role
]

-- The notes of a record that are neither of an adapter nor an ownership role.
unfoldable pub apply_other_note : ContractModel → NativeRecord → NoteKind → Outcome
apply_other_note model r NoteKind.env_contract = (set_contract model r.path r.caller_usr true, none)
apply_other_note model r NoteKind.error_contract =
    (set_contract model r.path r.caller_usr false, none)
apply_other_note model r role = elim (event_kind_from_note role) [
  | none ↦ (model, none)
  | some kind ↦
      add_event model kind (record_fields r (event_start kind r.start_offset r.column) false false)
]

unfoldable pub apply_note : ContractModel → NativeRecord → NoteKind → Outcome
apply_note model r NoteKind.termination_adapter =
    (set_termination_adapter model r.path r.caller_usr, none)
apply_note model r role = elim (ownership_kind_from_note role) [
  | some kind ↦ record_ownership model r.path r.line kind
  | none ↦ apply_other_note model r role
]

-- `note_kind` is `p101_c_note_kind_from_name` of lib_c_facts.
module _ (note_kind : Option Text → NoteKind) where
  unfoldable pub apply_fact : ContractModel → SavedFact → Outcome
  apply_fact model x = elim x.kind [
    | FactKind.file ↦ (count_file model, none)
    | FactKind.function ↦
        if not x.is_declaration
        then add_function model x.path x.value x.usr x.line x.start x.end
        else (model, none)
    | FactKind.call ↦
        if is_process_termination_call x.usr
        then add_fact_event model EventKind.process_termination x
        else add_fact_event model EventKind.call x
    | FactKind.note ↦ apply_role model x (note_kind x.value)
    | _ ↦ (model, none)
  ]

  unfoldable pub apply_record : ContractModel → NativeRecord → Outcome
  apply_record model r = elim r.kind [
    | Kind.file ↦ (count_file model, none)
    | Kind.function ↦
        if r.is_definition
        then add_function model r.path r.name r.usr r.line r.start_offset r.end_offset
        else (model, none)
    | Kind.call ↦
        if is_process_termination_call r.usr
        then add_event model EventKind.process_termination
            (record_fields r r.start_offset false false)
        else add_event model EventKind.call
            (record_fields r r.start_offset r.has_env_parameter r.has_error_parameter)
    | Kind.note ↦ apply_note model r (note_kind r.name)
    | Kind.diagnostic ↦ (model, some parse_failure)
    | _ ↦ (model, none)
  ]

  -- The callback under `p101_c_analysis_scan`: no record is read behind an error.
  unfoldable pub apply_records : List NativeRecord → ContractModel → Outcome
  apply_records [] model = (model, none)
  apply_records (r ∷ rs) model =
      let (model', failure) = apply_record model r in
      elim failure [ none ↦ apply_records rs model' | some e ↦ (model', some e) ]

unfoldable pub empty_model : ContractModel
empty_model = record { functions = []; events = []; files_scanned = 0; ownership_files = [] }

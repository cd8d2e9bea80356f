-- ===== src/ErrorContract/Loader/Agreement.antt =====
-- The two loaders build the same model.
use p101_audit.Base.{◌≡◌, refl, not, Option}
use p101_audit.Base.Text.{Text}
use p101_audit.Wrapper.{Kind}
use p101_audit.ErrorContract.{ContractModel, same_kind, kind_number}
use p101_audit.ErrorContract.Event.{NoteKind, event_kind_from_note, ownership_kind_from_note}
use p101_audit.ErrorContract.Loader.{
  FactKind, SavedFact, NativeRecord, event_start, add_fact_event, record_fields, apply_fact_note,
  apply_fact, apply_other_note, apply_role, apply_note, apply_record,
}

-- The kind of the record that lib_c_facts saves as a fact of the kind; an unknown fact is none.
abbrev pub kind_of : FactKind → Kind
kind_of FactKind.unknown = Kind.other 0
kind_of FactKind.file = Kind.file
kind_of FactKind.include = Kind.include
kind_of FactKind.parameter = Kind.parameter
kind_of FactKind.type = Kind.type
kind_of FactKind.enum = Kind.enum
kind_of FactKind.enumerator = Kind.enumerator
kind_of FactKind.macro = Kind.macro
kind_of FactKind.function = Kind.function
kind_of FactKind.call = Kind.call
kind_of FactKind.note = Kind.note

-- The record whose fields the fact holds.
abbrev pub record_of : SavedFact → NativeRecord
record_of x = record {
  kind = kind_of x.kind;
  path = x.path;
  name = x.value;
  caller = x.caller;
  usr = x.usr;
  caller_usr = x.caller_usr;
  line = x.line;
  column = x.column;
  start_offset = x.start;
  end_offset = x.end;
  is_definition = not x.is_declaration;
  has_env_parameter = x.has_env_parameter;
  has_error_parameter = x.has_error_parameter;
}

roles_agree :
    (model : ContractModel) (x : SavedFact) (role : NoteKind)
    → apply_role model x role ≡ apply_note model (record_of x) role
unfolding ownership_kind_from_note event_kind_from_note apply_fact_note apply_role apply_note
    apply_other_note add_fact_event record_fields event_start same_kind kind_number
roles_agree model x NoteKind.env_use = refl
roles_agree model x _ = refl

-- Whatever the model and the fact: a saved fact does to the model what the record that holds the same
-- fields does, and raises the same error.
pub apply_fact-eq-apply_record :
    (note_kind : Option Text → NoteKind) (model : ContractModel) (x : SavedFact)
    → apply_fact note_kind model x ≡ apply_record note_kind model (record_of x)
unfolding add_fact_event record_fields event_start same_kind kind_number apply_fact apply_record
apply_fact-eq-apply_record note_kind model x = by_kind x.kind refl
  where
    by_kind :
        (k : FactKind)
        → x.kind ≡ k
        → apply_fact note_kind model x ≡ apply_record note_kind model (record_of x)
    by_kind FactKind.unknown e = rw e refl
    by_kind FactKind.note e =
        rw e (roles_agree model (record x { kind = FactKind.note }) (note_kind x.value))
    by_kind _ e = rw e refl

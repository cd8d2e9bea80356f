-- ===== src/Wrapper/Observer.antt =====
-- src/model.c: the observer that copies each analysis record into the model.
pub mod Bounds
use p101_audit.Base.{
  ◌&&◌, ℕ, ◌+◌, ◌*◌, ◌%◌, ◌^◌, Bool, true, false, not, ◌||◌, List, [], ◌∷◌, ◌++◌, Option, none,
  some, ltb, ◌==◌, if◌then◌else◌, length,
}
use p101_audit.Base.Text.{Text}
use p101_audit.Wrapper.{Kind, Fact, Model, Platform, copy_field, path_size, name_size, type_size}
use p101_audit.Wrapper.Findings.{next_capacity}

-- `struct p101_c_analysis_record` belongs to lib_c_facts: the fields that the observer reads. A text
-- that may be a null pointer is an option.
pub record Record : Type 0 where
  pub kind : Kind
  pub path : Option Text
  pub resolved_include : Option Text
  pub name : Option Text
  pub type : Option Text
  pub canonical_type : Option Text
  pub return_type : Option Text
  pub caller : Option Text
  pub usr : Option Text
  pub caller_usr : Option Text
  pub replacement : Option Text
  pub line : ℕ
  pub column : ℕ
  pub start_offset : ℕ
  pub end_offset : ℕ
  pub parameter_index : ℕ
  pub mutation : ℕ
  pub is_header : Bool
  pub is_definition : Bool
  pub is_static : Bool
  pub is_public : Bool
  pub is_variadic : Bool
  pub is_local_include : Bool
  pub is_indirect : Bool
  pub has_env_parameter : Bool
  pub has_error_parameter : Bool

unfoldable pub is_diagnostic : Kind → Bool
is_diagnostic Kind.diagnostic = true
is_diagnostic _ = false

unfoldable pub is_enumerator : Kind → Bool
is_enumerator Kind.enumerator = true
is_enumerator _ = false

unfoldable pub identity_fits : Option Text → ℕ → Bool
identity_fits none size = true
identity_fits (some identity) size = ltb (length identity) size

unfoldable pub grow_facts : Platform → Model → Option Model
grow_facts p m =
    let capacity = next_capacity m.fact_capacity in
    if p.grant (capacity * p.fact_bytes % 2 ^ 64)
    then some (record m { fact_capacity = capacity })
    else none

-- Why the scan stops.
pub data Refusal : Type 0 where
  identity_too_long type_too_long out_of_memory : Refusal

unfoldable pub fact_of : Record → Fact
fact_of r = record {
  kind = r.kind;
  path = copy_field path_size r.path;
  resolved = copy_field path_size r.resolved_include;
  name = copy_field name_size r.name;
  type = copy_field type_size r.type;
  canonical_type = copy_field type_size r.canonical_type;
  return_type = copy_field name_size r.return_type;
  caller = copy_field name_size r.caller;
  usr = copy_field name_size r.usr;
  caller_usr = copy_field name_size r.caller_usr;
  parent_usr = if is_enumerator r.kind then copy_field name_size r.caller_usr else [];
  replacement = copy_field name_size r.replacement;
  line = r.line;
  column = r.column;
  start = r.start_offset;
  end = r.end_offset;
  parameter_index = r.parameter_index;
  mutation = r.mutation;
  is_header = r.is_header;
  is_definition = r.is_definition;
  is_static = r.is_static;
  is_public = r.is_public;
  is_variadic = r.is_variadic;
  is_local_include = r.is_local_include;
  is_indirect = r.is_indirect;
  needs_env = r.has_env_parameter;
  needs_error = r.has_error_parameter;
}

unfoldable pub count_failure : Record → Model → Model
count_failure r m =
    if is_diagnostic r.kind
    then record m { parse_failures = (m.parse_failures + 1) % 2 ^ 64 }
    else m

unfoldable pub identities_fit : Record → Bool
identities_fit r = identity_fits r.usr name_size && identity_fits r.caller_usr name_size

unfoldable pub types_fit : Record → Bool
types_fit r =
    identity_fits r.type type_size
    && identity_fits r.canonical_type type_size
    && identity_fits r.return_type name_size

-- A model with room for a fact more.
unfoldable pub make_room : Platform → Model → Option Model
make_room p m = if length m.facts == m.fact_capacity then grow_facts p m else some m

-- The new model, and `none` for `keep_going`.
unfoldable pub analysis_observer : Platform → Record → Model → Model × Option Refusal
analysis_observer p r m =
    let m' = count_failure r m in
    if not (identities_fit r)
    then (m', some identity_too_long)
    else if not (types_fit r)
    then (m', some type_too_long)
    else elim (make_room p m') [
      | none ↦ (m', some out_of_memory)
      | some m'' ↦ (record m'' { facts = m''.facts ++ fact_of r ∷ [] }, none)
    ]

-- The callback under `p101_c_analysis_scan`: it is called for each record until it refuses one.
unfoldable pub observe_all : Platform → List Record → Model → Model × Option Refusal
observe_all p [] m = (m, none)
observe_all p (r ∷ rs) m =
    let (m', refusal) = analysis_observer p r m in
    elim refusal [ none ↦ observe_all p rs m' | some e ↦ (m', some e) ]

-- ===== src/ModuleMap/Loader.antt =====
-- components/module-map/src/fact_loader.c and native_analysis.c: the map is filled from saved facts, or
-- from the records of an analysis.
pub mod Files
pub mod Invariant
use p101_audit.Base.{
  ℕ, Bool, true, false, not, ◌&&◌, ◌||◌, List, [], ◌∷◌, Option, none, some, if◌then◌else◌,
}
use p101_audit.Base.Text.{Text, str_eq}
use p101_audit.Base.Scan.{find}
use p101_audit.Wrapper.{Kind}
use p101_audit.ErrorContract.Event.{NoteKind}
use p101_audit.ErrorContract.Loader.{FactKind}
use p101_audit.ModuleMap.{SourceFile, ProjectMap, max_name}
use p101_audit.ModuleMap.Strings.{basename_no_suffix, normalize_module_name}
use p101_audit.ModuleMap.Mutation.{
  Failure, Outcome, add_named_source_file, add_include, add_function, add_macro, add_type, add_call,
  add_note, note_error_use, note_error_check,
}

-- `struct p101_c_fact` belongs to lib_c_facts: the fields that the loader reads. The value and the
-- module are used without a test, so they are not null pointers.
pub record ModuleFact : Type 0 where
  pub kind : FactKind
  pub path : Option Text
  pub module_name : Text
  pub is_header : Bool
  pub value : Text
  pub resolved : Option Text
  pub usr : Option Text
  pub caller : Option Text
  pub caller_usr : Option Text
  pub line : ℕ
  pub is_local : Bool
  pub is_static : Bool
  pub is_declaration : Bool
  pub is_definition : Bool

-- The fields of `struct p101_c_analysis_record` that the callback reads.
pub record ModuleRecord : Type 0 where
  pub kind : Kind
  pub path : Option Text
  pub is_header : Bool
  pub name : Text
  pub resolved_include : Option Text
  pub usr : Option Text
  pub caller : Option Text
  pub caller_usr : Option Text
  pub line : ℕ
  pub is_local_include : Bool
  pub is_static : Bool
  pub is_definition : Bool

-- An error of an operation, or the diagnostic of the analysis.
pub data LoadFailure : Type 0 where
  operation_failed : Failure → LoadFailure
  source_diagnostic : LoadFailure

abbrev pub Loaded : Type 0
Loaded = ProjectMap × Option LoadFailure

abbrev pub load_failure : Option Failure → Option LoadFailure
load_failure none = none
load_failure (some e) = some (operation_failed e)

abbrev pub loaded : Outcome → Loaded
loaded (map, failure) = (map, load_failure failure)

unfoldable pub find_fact_file : ProjectMap → Text → Option SourceFile
find_fact_file map path = find (λ f. str_eq f.path path) map.files

-- The operation's outcome behind an earlier error, which stays.
abbrev pub behind : Option Failure → Outcome → Outcome
behind none outcome = outcome
behind (some e) (map, failure) = (map, some e)

-- The search for the file, the addition if it is not found, and the search for it then.
unfoldable pub file_for : ProjectMap → Text → Text → Bool → Outcome × Option SourceFile
file_for map path module_name is_header =
    let added = add_named_source_file map path module_name is_header in
    elim (find_fact_file map path) [
      | some f ↦ ((map, none), some f)
      | none ↦ (added, find_fact_file added.0 path)
    ]

unfoldable pub file_for_fact : ProjectMap → ModuleFact → Outcome × Option SourceFile
file_for_fact map x = elim x.path [
  | none ↦ ((map, none), none)
  | some path ↦ file_for map path (normalize_module_name max_name x.module_name) x.is_header
]

unfoldable pub file_for_record : ProjectMap → ModuleRecord → Outcome × Option SourceFile
file_for_record map r = elim r.path [
  | none ↦ ((map, none), none)
  | some path ↦ file_for map path (basename_no_suffix max_name path) r.is_header
]

-- The notes that the two loaders record.
unfoldable pub apply_module_note :
    ProjectMap → SourceFile → NoteKind → Text → Option Text → Option Text → ℕ → Outcome
apply_module_note map file NoteKind.error_use name caller caller_usr line = note_error_use map file
apply_module_note map file NoteKind.error_check name caller caller_usr line =
    let used = note_error_use map file in behind used.1 (note_error_check used.0 file)
apply_module_note map file NoteKind.signature_env_order name caller caller_usr line =
    add_note map file (some name) caller caller_usr line
apply_module_note map file NoteKind.alloc_sizeof_type name caller caller_usr line =
    add_note map file (some name) caller caller_usr line
apply_module_note map file _ name caller caller_usr line = (map, none)

unfoldable pub is_diagnostic : Kind → Bool
is_diagnostic Kind.diagnostic = true
is_diagnostic _ = false

-- `note_kind` is `p101_c_note_kind_from_name` of lib_c_facts.
module _ (note_kind : Text → NoteKind) where
  -- The switch of the fact loader.
  unfoldable pub apply_fact_kind : ProjectMap → SourceFile → ModuleFact → FactKind → Outcome
  apply_fact_kind map file x FactKind.include =
      add_include map file x.value x.resolved x.line x.is_local
  apply_fact_kind map file x FactKind.function =
      if not x.is_declaration || file.is_header
      then add_function map file x.value x.usr x.line x.is_static x.is_declaration
      else (map, none)
  apply_fact_kind map file x FactKind.call =
      add_call map file (some x.value) x.usr x.caller_usr x.line
  apply_fact_kind map file x FactKind.type = add_type map file x.value x.line
  apply_fact_kind map file x FactKind.enum = add_type map file x.value x.line
  apply_fact_kind map file x FactKind.macro =
      if x.is_definition then add_macro map file x.value x.line else (map, none)
  apply_fact_kind map file x FactKind.note =
      apply_module_note map file (note_kind x.value) x.value x.caller x.caller_usr x.line
  apply_fact_kind map file x _ = (map, none)

  unfoldable pub apply_module_fact : ProjectMap → ModuleFact → Outcome
  apply_module_fact map x =
      let (found, file) = file_for_fact map x in
      elim file [ none ↦ found | some f ↦ behind found.1 (apply_fact_kind found.0 f x x.kind) ]

  -- The loop over the facts of the file, which ends behind an error.
  unfoldable pub apply_module_facts : List ModuleFact → ProjectMap → Outcome
  apply_module_facts [] map = (map, none)
  apply_module_facts (x ∷ xs) map =
      let (map', failure) = apply_module_fact map x in
      elim failure [ none ↦ apply_module_facts xs map' | some e ↦ (map', some e) ]

  -- The switch of the callback.
  unfoldable pub apply_record_kind : ProjectMap → SourceFile → ModuleRecord → Kind → Outcome
  apply_record_kind map file r Kind.include =
      add_include map file r.name r.resolved_include r.line r.is_local_include
  apply_record_kind map file r Kind.function =
      if r.is_definition || file.is_header
      then add_function map file r.name r.usr r.line r.is_static (not r.is_definition)
      else (map, none)
  apply_record_kind map file r Kind.call = add_call map file (some r.name) r.usr r.caller_usr r.line
  apply_record_kind map file r Kind.type = add_type map file r.name r.line
  apply_record_kind map file r Kind.enum = add_type map file r.name r.line
  apply_record_kind map file r Kind.macro =
      if r.is_definition then add_macro map file r.name r.line else (map, none)
  apply_record_kind map file r Kind.note =
      apply_module_note map file (note_kind r.name) r.name r.caller r.caller_usr r.line
  apply_record_kind map file r _ = (map, none)

  unfoldable pub apply_source_record : ProjectMap → ModuleRecord → Outcome
  apply_source_record map r =
      let (found, file) = file_for_record map r in
      elim file [ none ↦ found | some f ↦ behind found.1 (apply_record_kind found.0 f r r.kind) ]

  unfoldable pub apply_module_record : ProjectMap → ModuleRecord → Loaded
  apply_module_record map r =
      if is_diagnostic r.kind
      then (map, some source_diagnostic)
      else loaded (apply_source_record map r)

  -- The callback under `p101_c_analysis_scan`: no record is read behind an error.
  unfoldable pub apply_module_records : List ModuleRecord → ProjectMap → Loaded
  apply_module_records [] map = (map, none)
  apply_module_records (r ∷ rs) map =
      let (map', failure) = apply_module_record map r in
      elim failure [ none ↦ apply_module_records rs map' | some e ↦ (map', some e) ]

-- ===== src/ModuleMap/Mutation.antt =====
-- components/module-map/src/model_mutation.c and model_notes.c: the operations that fill the map.
pub mod Modules
pub mod Counters
pub mod Writes
pub mod Appending
pub mod Counting
pub mod Keeping
pub mod Sequences
use p101_audit.Base.{
  ℕ, zero, suc, ◌+◌, ◌%◌, ◌^◌, Bool, true, false, not, ◌&&◌, ◌||◌, List, [], ◌∷◌, ◌++◌, Option,
  none, some, ltb, leb, ◌==◌, if◌then◌else◌, length, is_nil,
}
use p101_audit.Base.Text.{Text, str_eq}
use p101_audit.Base.Scan.{any}
use p101_audit.ModuleMap.{
  SourceFile, Module, FunctionRecord, IncludeRecord, MacroRecord, TypeRecord, NoteRecord,
  CallRecord, ProjectMap, path_len, max_name, max_modules, max_files, max_functions, max_includes,
  max_macros, max_types, max_calls, max_notes,
}
use p101_audit.ModuleMap.Strings.{copy_string, basename_no_suffix}
use p101_audit.ModuleMap.Relative.{local_include_to_module}

-- The errors that the operations raise.
pub data Failure : Type 0 where
  too_many_modules too_many_files too_many_includes too_many_functions too_many_macros : Failure
  too_many_types too_many_calls function_identity call_identity : Failure

-- What an operation leaves: the map, and the error that it raised.
abbrev pub Outcome : Type 0
Outcome = ProjectMap × Option Failure

-- `count++` on a size_t.
unfoldable pub increment : ℕ → ℕ
increment count = (count + 1) % 2 ^ 64

unfoldable pub same_declaration_site : Text → Text → ℕ → Text → Text → ℕ → Bool
same_declaration_site left_name left_path left_line right_name right_path right_line =
    left_line == right_line && str_eq left_name right_name && str_eq left_path right_path

-- The index at which the search for a module's name ends.
unfoldable pub module_index : Text → List Module → ℕ
module_index name [] = 0
module_index name (m ∷ modules) =
    let later = module_index name modules in if str_eq m.name name then 0 else suc later

-- A module after memset and the copy of its name.
unfoldable pub new_module : Text → Module
new_module name = record {
  name = copy_string max_name name;
  source_path = [];
  header_path = [];
  source_count = 0;
  header_count = 0;
  function_count = 0;
  public_function_count = 0;
  static_function_count = 0;
  header_declaration_count = 0;
  macro_count = 0;
  type_count = 0;
  local_include_count = 0;
  external_include_count = 0;
  uses_error_object = false;
  checks_error_object = false;
}

-- The pointer is the index of the module; `none` is a null pointer, with the error for too many modules.
unfoldable pub get_module : ProjectMap → Text → Option (ℕ × ProjectMap)
get_module map name =
    let index = module_index name map.modules in
    if ltb index (length map.modules)
    then some (index, map)
    else if leb max_modules (length map.modules)
    then none
    else some (index, record map { modules = map.modules ++ new_module name ∷ [] })

-- A write through the pointer.
unfoldable pub update_at : ℕ → (Module → Module) → List Module → List Module
update_at index f [] = []
update_at zero f (m ∷ modules) = f m ∷ modules
update_at (suc index) f (m ∷ modules) = m ∷ update_at index f modules

unfoldable pub update_module : ℕ → (Module → Module) → ProjectMap → ProjectMap
update_module index f map = record map { modules = update_at index f map.modules }

-- The operations look up their module and go on with the pointer, or raise.
unfoldable pub with_module : ProjectMap → Text → (ℕ → ProjectMap → ProjectMap) → Outcome
with_module map name f = elim (get_module map name) [
  | none ↦ (map, some too_many_modules)
  | some (index, map') ↦ (f index map', none)
]

unfoldable pub count_file : Text → Bool → Module → Module
count_file path true m = record m {
  header_count = increment m.header_count;
  header_path = if is_nil m.header_path then copy_string path_len path else m.header_path;
}
count_file path false m = record m {
  source_count = increment m.source_count;
  source_path = if is_nil m.source_path then copy_string path_len path else m.source_path;
}

unfoldable pub add_named_source_file : ProjectMap → Text → Text → Bool → Outcome
add_named_source_file map path module_name is_header =
    let file : SourceFile = record {
      path = copy_string path_len path;
      module_name = copy_string max_name module_name;
      is_header = is_header;
    } in
    if leb max_files (length map.files)
    then (map, some too_many_files)
    else with_module map module_name (λ index map'.
      update_module index (count_file path is_header)
        (record map' { files = map'.files ++ file ∷ [] }))

unfoldable pub add_source_file : ProjectMap → Text → Bool → Outcome
add_source_file map path is_header =
    add_named_source_file map path (basename_no_suffix max_name path) is_header

unfoldable pub or_empty : Option Text → Text
or_empty none = []
or_empty (some t) = t

unfoldable pub count_include : Bool → Module → Module
count_include true m = record m { local_include_count = increment m.local_include_count }
count_include false m = record m { external_include_count = increment m.external_include_count }

unfoldable pub add_include : ProjectMap → SourceFile → Text → Option Text → ℕ → Bool → Outcome
add_include map file target resolved line is_local =
    let new : IncludeRecord = record {
      from_module = copy_string max_name file.module_name;
      target =
          if is_local
          then local_include_to_module max_name file target
          else copy_string max_name target;
      path = copy_string path_len file.path;
      resolved = copy_string path_len (or_empty resolved);
      line = line;
      is_local = is_local;
    } in
    if leb max_includes (length map.includes)
    then (map, some too_many_includes)
    else with_module map file.module_name (λ index map'.
      update_module index (count_include is_local)
        (record map' { includes = map'.includes ++ new ∷ [] }))

unfoldable pub usr_fits : Option Text → Bool
usr_fits none = false
usr_fits (some usr) = ltb (length usr) max_name

unfoldable pub count_function : Bool → Bool → Module → Module
count_function is_static true m = record m {
  header_declaration_count = increment m.header_declaration_count;
}
count_function true false m = record m {
  function_count = increment m.function_count;
  static_function_count = increment m.static_function_count;
}
count_function false false m = record m {
  function_count = increment m.function_count;
  public_function_count = increment m.public_function_count;
}

unfoldable pub add_function :
    ProjectMap → SourceFile → Text → Option Text → ℕ → Bool → Bool → Outcome
add_function map file name usr line is_static is_header_declaration =
    let new : FunctionRecord = record {
      name = copy_string max_name name;
      usr = copy_string max_name (or_empty usr);
      module_name = copy_string max_name file.module_name;
      path = copy_string path_len file.path;
      line = line;
      is_static = is_static;
      is_header_declaration = is_header_declaration;
    } in
    if leb max_functions (length map.functions)
    then (map, some too_many_functions)
    else if not (usr_fits usr)
    then (map, some function_identity)
    else if any (λ f. same_declaration_site f.name f.path f.line name file.path line) map.functions
    then (map, none)
    else with_module map file.module_name (λ index map'.
      update_module index (count_function is_static is_header_declaration)
        (record map' { functions = map'.functions ++ new ∷ [] }))

unfoldable pub add_macro : ProjectMap → SourceFile → Text → ℕ → Outcome
add_macro map file name line =
    let new : MacroRecord = record {
      name = copy_string max_name name;
      module_name = copy_string max_name file.module_name;
      path = copy_string path_len file.path;
      line = line;
      is_header = file.is_header;
    } in
    if leb max_macros (length map.macros)
    then (map, some too_many_macros)
    else if any (λ m. same_declaration_site m.name m.path m.line name file.path line) map.macros
    then (map, none)
    else with_module map file.module_name (λ index map'.
      update_module index (λ m. record m { macro_count = increment m.macro_count })
        (record map' { macros = map'.macros ++ new ∷ [] }))

-- The module is looked up before the search for the same site.
unfoldable pub add_type : ProjectMap → SourceFile → Text → ℕ → Outcome
add_type map file name line =
    let new : TypeRecord = record {
      name = copy_string max_name name;
      module_name = copy_string max_name file.module_name;
      path = copy_string path_len file.path;
      line = line;
      is_header = file.is_header;
    } in
    if leb max_types (length map.types)
    then (map, some too_many_types)
    else with_module map file.module_name (λ index map'.
      if any (λ t. same_declaration_site t.name t.path t.line name file.path line) map'.types
      then map'
      else update_module index (λ m. record m { type_count = increment m.type_count })
          (record map' { types = map'.types ++ new ∷ [] }))

unfoldable pub add_call :
    ProjectMap → SourceFile → Option Text → Option Text → Option Text → ℕ → Outcome
add_call map file name usr caller_usr line =
    let new : CallRecord = record {
      name = copy_string max_name (or_empty name);
      usr = copy_string max_name (or_empty usr);
      caller_usr = copy_string max_name (or_empty caller_usr);
      module_name = copy_string max_name file.module_name;
      path = copy_string path_len file.path;
      line = line;
      is_header = file.is_header;
    } in
    if leb max_calls (length map.calls)
    then (record map { calls_dropped = increment map.calls_dropped }, some too_many_calls)
    else elim name [
      | none ↦ (map, some call_identity)
      | some n ↦
          if usr_fits usr
          then (record map { calls = map.calls ++ new ∷ [] }, none)
          else (map, some call_identity)
    ]

unfoldable pub is_note_at : Text → Text → Text → ℕ → NoteRecord → Bool
is_note_at name symbol path line n =
    str_eq n.name name && str_eq n.symbol symbol && str_eq n.path path && n.line == line

unfoldable pub add_note :
    ProjectMap → SourceFile → Option Text → Option Text → Option Text → ℕ → Outcome
add_note map file name symbol symbol_usr line =
    let new : NoteRecord = record {
      name = copy_string max_name (or_empty name);
      symbol = copy_string max_name (or_empty symbol);
      symbol_usr = copy_string max_name (or_empty symbol_usr);
      module_name = copy_string max_name file.module_name;
      path = copy_string path_len file.path;
      line = line;
      is_header = file.is_header;
    } in
    if leb max_notes (length map.notes)
      || any (is_note_at (or_empty name) (or_empty symbol) file.path line) map.notes
    then (map, none)
    else (record map { notes = map.notes ++ new ∷ [] }, none)

unfoldable pub note_error_use : ProjectMap → SourceFile → Outcome
note_error_use map file =
    with_module map file.module_name
      (λ index map'. update_module index (λ m. record m { uses_error_object = true }) map')

unfoldable pub note_error_check : ProjectMap → SourceFile → Outcome
note_error_check map file =
    with_module map file.module_name
      (λ index map'. update_module index (λ m. record m { checks_error_object = true }) map')

-- ===== src/ModuleMap/Tests.antt =====
-- Runs of the module map on a small project, and its theorems at concrete inputs.
use p101_audit.Base.{
  ℕ, ◌≡◌, ◌≢◌, ◌≤◌, ◌↔◌, refl, true, false, List, [], ◌∷◌, none, some, Memᴰ, arith, length,
}
use p101_audit.Base.Text.{Text, codes, str_eq, starts_with, strchr}
use p101_audit.Base.Scan.{any, find}
use p101_audit.ModuleMap.{SourceFile, Module, FunctionRecord, IncludeRecord, CallRecord, ProjectMap}
use p101_audit.ModuleMap.Strings.{
  split_last, copy_string, append_string, path_basename, without_prefix, stem_length,
  basename_no_suffix, normalize_module_name, without_project, names_file, include_to_module,
}
use p101_audit.ModuleMap.Relative.{
  skip_slashes, next_component, parent, append_component, add_component, normalize_loop,
  normalize_relative_path, local_include_to_module,
}
use p101_audit.ModuleMap.Relative.Bounds.{length-normalize_relative_path}
use p101_audit.ModuleMap.Query.{
  first_local_include_from, first_local_include, is_earlier, function_used_outside_module,
}
use p101_audit.ModuleMap.Query.Answers.{
  IsFirst, first_local_include-IsFirst, function_used_outside_module_iff,
}
use p101_audit.ModuleMap.Mutation.{
  increment, same_declaration_site, module_index, new_module, get_module, update_at, update_module,
  with_module, count_file, count_include, count_function, add_named_source_file, add_source_file,
  add_include, add_function, add_macro, add_type, add_call, add_note, is_note_at, note_error_use,
  note_error_check, or_empty, usr_fits,
}
use p101_audit.ModuleMap.Mutation.Counters.{Counter, expected, tally, IsWell}
use p101_audit.ModuleMap.Mutation.Sequences.{
  Operation, FitsName, perform, perform_all, perform_all-IsWell,
}
use p101_audit.ErrorContract.Event.{NoteKind}
use p101_audit.ErrorContract.Loader.{FactKind}
use p101_audit.Wrapper.{Kind}
use p101_audit.ModuleMap.Loader.{
  ModuleFact, ModuleRecord, source_diagnostic, find_fact_file, file_for, file_for_fact,
  file_for_record, apply_module_note, apply_fact_kind, apply_module_fact, apply_module_facts,
  is_diagnostic, apply_record_kind, apply_source_record, apply_module_record, apply_module_records,
}
use p101_audit.ModuleMap.Loader.Invariant.{IsFilled, load-IsFilled}

-- All that a run computes with.
mapping : Unit {0}
unfolding str_eq starts_with strchr any find split_last copy_string append_string path_basename
    without_prefix stem_length basename_no_suffix normalize_module_name without_project names_file
    include_to_module skip_slashes next_component parent append_component add_component
    normalize_loop normalize_relative_path local_include_to_module first_local_include_from
    first_local_include is_earlier function_used_outside_module increment same_declaration_site
    module_index new_module get_module update_at update_module with_module count_file count_include
    count_function add_named_source_file add_source_file add_include add_function add_macro add_type
    find_fact_file file_for file_for_fact file_for_record apply_module_note apply_fact_kind
    apply_module_fact apply_module_facts is_diagnostic apply_record_kind apply_source_record
    apply_module_record apply_module_records note_error_use note_error_check is_note_at add_call
    add_note or_empty usr_fits perform perform_all tally expected
mapping = tt

abbrev empty : ProjectMap
empty = record {
  files = [];
  modules = [];
  functions = [];
  includes = [];
  macros = [];
  types = [];
  calls = [];
  notes = [];
  calls_dropped = 0;
}

abbrev list_file : SourceFile
list_file = record { path = codes "src/list.c"; module_name = codes "list"; is_header = false }

-- The function is reported twice.
abbrev operations : List Operation
operations =
    Operation.source_file (codes "src/p101_list.c") false
    ∷ Operation.function list_file (codes "push") (some (codes "c:@F@push")) 7 false false
    ∷ Operation.function list_file (codes "push") (some (codes "c:@F@push")) 7 false false
    ∷ Operation.include list_file (codes "./node.h") none 2 true
    ∷ Operation.macro list_file (codes "LIMIT") 3
    ∷ []

-- One module, which counts the function once.
listed_once :
    ((m : Module) × ((perform_all operations empty).modules ≡ m ∷ [])
      × (m.name ≡ codes "list")
      × (m.function_count ≡ 1)
      × (m.source_count ≡ 1))
unfolding mapping
listed_once = (_, refl, refl, refl, refl)

included_module :
    (i : IncludeRecord) × ((perform_all operations empty).includes ≡ i ∷ [])
    × (i.target ≡ codes "node")
unfolding mapping
included_module = (_, refl, refl)

empty-expected : (c : Counter) (name : Text) → expected c empty name ≡ 0
unfolding expected tally
empty-expected Counter.sources name = refl
empty-expected _ name = refl

empty-IsWell : IsWell empty
empty-IsWell = record {
  within = record {
    files = omega arith;
    functions = omega arith;
    includes = omega arith;
    macros = omega arith;
    types = omega arith;
    calls = omega arith;
    notes = omega arith;
  };
  modules = omega arith;
  distinct = tt;
  counted = λ c. tt;
  listed = λ c name a. empty-expected c name;
}

operations_fit : (o : Operation) → Memᴰ o operations → FitsName o
operations_fit o (Memᴰ.head e) = rw e tt
operations_fit o (Memᴰ.tail (Memᴰ.head e)) = rw e (omega arith)
operations_fit o (Memᴰ.tail (Memᴰ.tail (Memᴰ.head e))) = rw e (omega arith)
operations_fit o (Memᴰ.tail (Memᴰ.tail (Memᴰ.tail (Memᴰ.head e)))) = rw e (omega arith)
operations_fit o (Memᴰ.tail (Memᴰ.tail (Memᴰ.tail (Memᴰ.tail (Memᴰ.head e))))) = rw e (omega arith)
operations_fit o (Memᴰ.tail (Memᴰ.tail (Memᴰ.tail (Memᴰ.tail (Memᴰ.tail m))))) = elim m [ ]

perform_all-IsWell_example : IsWell (perform_all operations empty)
perform_all-IsWell_example = perform_all-IsWell operations empty operations_fit empty-IsWell

normalized : normalize_relative_path (codes "a/./b//../../../c") ≡ codes "../c"
unfolding mapping
normalized = refl

length-normalize_relative_path_example :
    length (normalize_relative_path (codes "a/./b//../../../c"))
    ≤ length (codes "a/./b//../../../c")
length-normalize_relative_path_example = length-normalize_relative_path (codes "a/./b//../../../c")

abbrev include_at : ℕ → IncludeRecord
include_at n = record {
  from_module = codes "list";
  target = codes "node";
  path = codes "src/list.c";
  resolved = [];
  line = n;
  is_local = true;
}

abbrev pushed : FunctionRecord
pushed = record {
  name = codes "push";
  usr = codes "c:@F@push";
  module_name = codes "list";
  path = codes "src/list.c";
  line = 7;
  is_static = false;
  is_header_declaration = false;
}

abbrev push_call : CallRecord
push_call = record {
  name = codes "push";
  usr = codes "c:@F@push";
  caller_usr = codes "c:@F@main";
  module_name = codes "main";
  path = codes "src/main.c";
  line = 9;
  is_header = false;
}

abbrev project : ProjectMap
project = record empty {
  includes = include_at 5 ∷ include_at 2 ∷ include_at 3 ∷ [];
  calls = push_call ∷ [];
}

second_is_first : first_local_include project (codes "src/list.c") ≡ some (include_at 2)
unfolding mapping
second_is_first = refl

first_local_include-IsFirst_example :
    IsFirst
      (codes "src/list.c")
      project.includes
      none
      (first_local_include project (codes "src/list.c"))
first_local_include-IsFirst_example = first_local_include-IsFirst project (codes "src/list.c")

function_used_outside_module_iff_example : (function_used_outside_module project pushed ≡ true) ↔ (
    (pushed.usr ≢ [])
    × ((c : CallRecord) × Memᴰ c project.calls
        × (c.module_name ≢ pushed.module_name)
        × (c.usr ≡ pushed.usr)))
function_used_outside_module_iff_example = function_used_outside_module_iff project pushed

abbrev macro_fact : ModuleFact
macro_fact = record {
  kind = FactKind.macro;
  path = some (codes "src/p101_list.c");
  module_name = codes "list";
  is_header = false;
  value = codes "LIMIT";
  resolved = none;
  usr = none;
  caller = none;
  caller_usr = none;
  line = 3;
  is_local = false;
  is_static = false;
  is_declaration = false;
  is_definition = true;
}

abbrev function_record : ModuleRecord
function_record = record {
  kind = Kind.function;
  path = some (codes "src/p101_list.c");
  is_header = false;
  name = codes "push";
  resolved_include = none;
  usr = some (codes "c:@F@push");
  caller = none;
  caller_usr = none;
  line = 7;
  is_local_include = false;
  is_static = false;
  is_definition = true;
}

-- The file of a fact is added once.
facts_loaded :
    (f : SourceFile) × ((apply_module_facts
        (λ t. NoteKind.other)
        (macro_fact ∷ macro_fact ∷ [])
        empty).0.files
      ≡ f ∷ [])
    × (f.module_name ≡ codes "list")
unfolding mapping
facts_loaded = (_, refl, refl)

-- A record behind a diagnostic is not read.
diagnostic_ends :
    apply_module_records
      (λ t. NoteKind.other)
      (record function_record { kind = Kind.diagnostic } ∷ function_record ∷ [])
      empty
    ≡ (empty, some source_diagnostic)
unfolding mapping
diagnostic_ends = refl

empty-IsFilled : IsFilled empty
empty-IsFilled = record { well = empty-IsWell; fit = λ f m. elim m [ ] }

load-IsFilled_example :
    IsFilled (apply_module_facts (λ t. NoteKind.other) (macro_fact ∷ []) empty).0
    × IsFilled
        (apply_module_records
          (λ t. NoteKind.other)
          (function_record ∷ function_record ∷ [])
          empty).0
load-IsFilled_example =
    load-IsFilled (λ t. NoteKind.other) (macro_fact ∷ []) (function_record ∷ function_record ∷ [])
      empty empty-IsFilled

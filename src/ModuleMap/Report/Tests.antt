-- ===== src/ModuleMap/Report/Tests.antt =====
-- The report on a small library, and its theorem at a concrete input.
use p101_audit.Base.{
  ℕ, ◌-◌, ◌≡◌, refl, Bool, true, false, ◌&&◌, ◌||◌, List, [], ◌∷◌, none, some, leb, ◌==◌,
  if◌then◌else◌,
}
use p101_audit.Base.Text.{Text, codes, str_eq, starts_with, strstr}
use p101_audit.Base.Scan.{any, find}
use p101_audit.ModuleMap.{Module, FunctionRecord, IncludeRecord, MacroRecord, ProjectMap}
use p101_audit.ModuleMap.Strings.{split_last, path_basename, trim_left, trim_right}
use p101_audit.ModuleMap.Query.{
  module_has_direct_include, symbol_used_outside_module, include_target_exists,
  module_used_outside_module, function_used_outside_module, function_has_header_declaration,
  function_has_non_static_definition, is_earlier, first_local_include_from, first_local_include,
  target_matches_module, source_includes_own, module_has_header,
}
use p101_audit.ModuleMap.Idioms.{
  public_function_exists, public_function_anywhere, name_ends_with, swap_suffix, shared_length,
  is_prefixed, scan_prefix, cut_prefix, owns_prefix, module_shares_prefix, wraps_platform_name,
  is_earlier_macro, guard_macro_from, guard_macro, guard_stem, guard_suffix,
}
use p101_audit.ModuleMap.Report.{
  ModuleRule, ModuleFinding, LayerFile, ReportArguments, ReportPlatform, module_has_source,
  module_contains_entrypoint, write_finding, write_each, write_loop, module_rules, function_rules,
  macro_rules, type_rules, lacks_peer, has_peer, naming_rules, prefix_rules, leading_rule,
  own_header_rules, suffix_rules, note_rules, include_rules, layer_line_allows,
  layer_allows_include, guard_rules, write_include, write_includes, write_findings,
}

reporting : Unit {0}
unfolding str_eq starts_with strstr any find split_last path_basename trim_left trim_right
    module_has_direct_include symbol_used_outside_module include_target_exists
    module_used_outside_module function_used_outside_module function_has_header_declaration
    function_has_non_static_definition is_earlier first_local_include_from first_local_include
    target_matches_module source_includes_own module_has_header public_function_exists
    public_function_anywhere name_ends_with swap_suffix shared_length is_prefixed scan_prefix
    cut_prefix owns_prefix module_shares_prefix wraps_platform_name is_earlier_macro
    guard_macro_from guard_macro guard_stem guard_suffix module_has_source
    module_contains_entrypoint write_finding write_each write_loop module_rules function_rules
    macro_rules type_rules lacks_peer has_peer naming_rules prefix_rules leading_rule
    own_header_rules suffix_rules note_rules include_rules layer_line_allows layer_allows_include
    guard_rules write_include write_includes write_findings
reporting = tt

-- The C locale, for letters.
abbrev ascii : ReportPlatform
ascii = record {
  is_space = λ c. c == 32 || c == 9 || c == 10;
  is_alnum = λ c. leb b'a' c && leb c b'z' || leb b'A' c && leb c b'Z' || leb b'0' c && leb c b'9';
  to_upper = λ c. if leb b'a' c && leb c b'z' then c - 32 else c;
  error_before = false;
  begun = true;
  heading_fails = false;
}

abbrev accept_all : List ModuleFinding → ModuleFinding → Bool
accept_all emitted f = true

abbrev arguments : ReportArguments
arguments = record { library_mode = true; max_functions = 12; max_public = 8; layer_config = none }

abbrev definition : Text → ℕ → FunctionRecord
definition name line = record {
  name = name;
  usr = name;
  module_name = codes "list";
  path = codes "src/list.c";
  line = line;
  is_static = false;
  is_header_declaration = false;
}

abbrev list_module : Module
list_module = record {
  name = codes "list";
  source_path = codes "src/list.c";
  header_path = codes "include/list.h";
  source_count = 1;
  header_count = 1;
  function_count = 1;
  public_function_count = 1;
  static_function_count = 0;
  header_declaration_count = 0;
  macro_count = 1;
  type_count = 0;
  local_include_count = 1;
  external_include_count = 0;
  uses_error_object = false;
  checks_error_object = false;
}

abbrev own_include : IncludeRecord
own_include = record {
  from_module = codes "list";
  target = codes "list";
  path = codes "src/list.c";
  resolved = codes "include/list.h";
  line = 1;
  is_local = true;
}

abbrev guard : MacroRecord
guard = record {
  name = codes "P101_LIST_H";
  module_name = codes "list";
  path = codes "include/list.h";
  line = 2;
  is_header = true;
}

-- A library of one module with these functions.
abbrev library : List FunctionRecord → ProjectMap
library functions = record {
  files =
      record { path = codes "src/list.c"; module_name = codes "list"; is_header = false }
      ∷ record { path = codes "include/list.h"; module_name = codes "list"; is_header = true }
      ∷ [];
  modules = list_module ∷ [];
  functions = functions;
  includes = own_include ∷ [];
  macros = guard ∷ [];
  types = [];
  calls = [];
  notes = [];
  calls_dropped = 0;
}

one_function :
    (write_findings ascii accept_all arguments
      (library (definition (codes "list_push") 4 ∷ []))).emitted
    ≡ []
unfolding reporting
one_function = refl

-- A constructor with no destructor.
unpaired :
    (write_findings ascii accept_all arguments
      (library (definition (codes "list_create") 4 ∷ []))).emitted
    ≡ record { rule = ModuleRule.missing_destroy; path = codes "src/list.c"; line = 4 } ∷ []
unfolding reporting
unpaired = refl

-- No common prefix, and no guard of the header's name.
unprefixed :
    (write_findings ascii accept_all arguments
      (record (library (definition (codes "push") 4 ∷ definition (codes "pop") 9 ∷ [])) {
        macros = record guard { name = codes "P101_NODE_H" } ∷ [];
      })).emitted
    ≡ record { rule = ModuleRule.module_prefix; path = codes "src/list.c"; line = 0 }
      ∷ record { rule = ModuleRule.include_guard; path = codes "include/list.h"; line = 2 }
      ∷ []
unfolding reporting
unprefixed = refl

abbrev layers : LayerFile
layers = record {
  lines = codes "# layers" ∷ codes " report -> model " ∷ [];
  read_fails = false;
  close_fails = false;
}

layer_lines :
    layer_allows_include ascii
      (record arguments { layer_config = some (some layers) })
      (codes "report")
      (codes "model")
      false
    ≡ (true, false)
unfolding reporting
layer_lines = refl

-- A failing close leaves the answer, and an error.
layer_close_fails :
    layer_allows_include ascii
      (record arguments { layer_config = some (some (record layers { close_fails = true })) })
      (codes "report")
      (codes "model")
      false
    ≡ (true, true)
unfolding reporting
layer_close_fails = refl

abbrev layered : ReportArguments
layered = record arguments { layer_config = some (some layers) }

-- ===== src/ModuleMap/Mutation/Appending.antt =====
-- The record that each operation appends, and the counters that it concerns.
use p101_audit.Base.{
  ◌+◌, ◌≡◌, ◌<◌, refl, sym, ◌∙◌, ap, subst, Bool, true, false, not, ◌&&◌, List, [], ◌∷◌, ◌++◌,
  if◌then◌else◌, length, length-append, arith,
}
use p101_audit.Base.Text.{Text, str_eq}
use p101_audit.ModuleMap.{
  SourceFile, Module, FunctionRecord, IncludeRecord, MacroRecord, TypeRecord, ProjectMap, max_files,
  max_functions, max_includes, max_macros, max_types,
}
use p101_audit.ModuleMap.Mutation.{increment}
use p101_audit.ModuleMap.Mutation.Counters.{Counter, value, expected, tally-snoc, Within}
use p101_audit.ModuleMap.Mutation.Writes.{Appends}

-- The counters to which the macro adds one.
unfoldable pub macro_counts : MacroRecord → Counter → Bool
macro_counts new Counter.macros = true
macro_counts new _ = false

abbrev pub append_macro : MacroRecord → ProjectMap → ProjectMap
append_macro new map = record map { macros = map.macros ++ new ∷ [] }

expected-append_macro :
    (map : ProjectMap) (new : MacroRecord) (ms : List Module) (c : Counter) (n : Text)
    → expected c (append_macro new (record map { modules = ms })) n
      ≡ expected c map n + (if macro_counts new c && str_eq new.module_name n then 1 else 0)
unfolding expected macro_counts
expected-append_macro map new ms Counter.macros n = tally-snoc _ _ n map.macros new
expected-append_macro map new ms _ n = omega arith

pub macro-Appends :
    (map : ProjectMap) (new : MacroRecord) (g : Module → Module)
    → Within map
    → length map.macros < max_macros
    → ((m : Module) → (g m).name ≡ m.name)
    → ((c : Counter) (m : Module)
        → value c (g m) ≡ (if macro_counts new c then increment (value c m) else value c m))
    → Appends map new.module_name g (append_macro new)
macro-Appends map new g within room named written = record {
  named = named;
  within = λ m e.
      subst (λ x. Within (append_macro new x)) (sym e)
        (record {
          files = within.files;
          functions = within.functions;
          includes = within.includes;
          macros = omega (arith, length-append map.macros (new ∷ []));
          types = within.types;
          calls = within.calls;
          notes = within.notes;
        });
  untouched = λ m. refl;
  counts = macro_counts new;
  written = written;
  appended = λ c m n e.
      ap (λ x. expected c (append_macro new x) n) e ∙ expected-append_macro map new m.modules c n;
}

-- The counters to which the type adds one.
unfoldable pub type_counts : TypeRecord → Counter → Bool
type_counts new Counter.types = true
type_counts new _ = false

abbrev pub append_type : TypeRecord → ProjectMap → ProjectMap
append_type new map = record map { types = map.types ++ new ∷ [] }

expected-append_type :
    (map : ProjectMap) (new : TypeRecord) (ms : List Module) (c : Counter) (n : Text)
    → expected c (append_type new (record map { modules = ms })) n
      ≡ expected c map n + (if type_counts new c && str_eq new.module_name n then 1 else 0)
unfolding expected type_counts
expected-append_type map new ms Counter.types n = tally-snoc _ _ n map.types new
expected-append_type map new ms _ n = omega arith

pub type-Appends :
    (map : ProjectMap) (new : TypeRecord) (g : Module → Module)
    → Within map
    → length map.types < max_types
    → ((m : Module) → (g m).name ≡ m.name)
    → ((c : Counter) (m : Module)
        → value c (g m) ≡ (if type_counts new c then increment (value c m) else value c m))
    → Appends map new.module_name g (append_type new)
type-Appends map new g within room named written = record {
  named = named;
  within = λ m e.
      subst (λ x. Within (append_type new x)) (sym e)
        (record {
          files = within.files;
          functions = within.functions;
          includes = within.includes;
          macros = within.macros;
          types = omega (arith, length-append map.types (new ∷ []));
          calls = within.calls;
          notes = within.notes;
        });
  untouched = λ m. refl;
  counts = type_counts new;
  written = written;
  appended = λ c m n e.
      ap (λ x. expected c (append_type new x) n) e ∙ expected-append_type map new m.modules c n;
}

-- The counters to which the file adds one.
unfoldable pub file_counts : SourceFile → Counter → Bool
file_counts new Counter.sources = not new.is_header
file_counts new Counter.headers = new.is_header
file_counts new _ = false

abbrev pub append_file : SourceFile → ProjectMap → ProjectMap
append_file new map = record map { files = map.files ++ new ∷ [] }

expected-append_file :
    (map : ProjectMap) (new : SourceFile) (ms : List Module) (c : Counter) (n : Text)
    → expected c (append_file new (record map { modules = ms })) n
      ≡ expected c map n + (if file_counts new c && str_eq new.module_name n then 1 else 0)
unfolding expected file_counts
expected-append_file map new ms Counter.sources n = tally-snoc _ _ n map.files new
expected-append_file map new ms Counter.headers n = tally-snoc _ _ n map.files new
expected-append_file map new ms _ n = omega arith

pub file-Appends :
    (map : ProjectMap) (new : SourceFile) (g : Module → Module)
    → Within map
    → length map.files < max_files
    → ((m : Module) → (g m).name ≡ m.name)
    → ((c : Counter) (m : Module)
        → value c (g m) ≡ (if file_counts new c then increment (value c m) else value c m))
    → Appends map new.module_name g (append_file new)
file-Appends map new g within room named written = record {
  named = named;
  within = λ m e.
      subst (λ x. Within (append_file new x)) (sym e)
        (record {
          files = omega (arith, length-append map.files (new ∷ []));
          functions = within.functions;
          includes = within.includes;
          macros = within.macros;
          types = within.types;
          calls = within.calls;
          notes = within.notes;
        });
  untouched = λ m. refl;
  counts = file_counts new;
  written = written;
  appended = λ c m n e.
      ap (λ x. expected c (append_file new x) n) e ∙ expected-append_file map new m.modules c n;
}

-- The counters to which the function adds one.
unfoldable pub function_counts : FunctionRecord → Counter → Bool
function_counts new Counter.functions = not new.is_header_declaration
function_counts new Counter.publics = not new.is_header_declaration && not new.is_static
function_counts new Counter.statics = not new.is_header_declaration && new.is_static
function_counts new Counter.declarations = new.is_header_declaration
function_counts new _ = false

abbrev pub append_function : FunctionRecord → ProjectMap → ProjectMap
append_function new map = record map { functions = map.functions ++ new ∷ [] }

expected-append_function :
    (map : ProjectMap) (new : FunctionRecord) (ms : List Module) (c : Counter) (n : Text)
    → expected c (append_function new (record map { modules = ms })) n
      ≡ expected c map n + (if function_counts new c && str_eq new.module_name n then 1 else 0)
unfolding expected function_counts
expected-append_function map new ms Counter.functions n = tally-snoc _ _ n map.functions new
expected-append_function map new ms Counter.publics n = tally-snoc _ _ n map.functions new
expected-append_function map new ms Counter.statics n = tally-snoc _ _ n map.functions new
expected-append_function map new ms Counter.declarations n = tally-snoc _ _ n map.functions new
expected-append_function map new ms _ n = omega arith

pub function-Appends :
    (map : ProjectMap) (new : FunctionRecord) (g : Module → Module)
    → Within map
    → length map.functions < max_functions
    → ((m : Module) → (g m).name ≡ m.name)
    → ((c : Counter) (m : Module)
        → value c (g m) ≡ (if function_counts new c then increment (value c m) else value c m))
    → Appends map new.module_name g (append_function new)
function-Appends map new g within room named written = record {
  named = named;
  within = λ m e.
      subst (λ x. Within (append_function new x)) (sym e)
        (record {
          files = within.files;
          functions = omega (arith, length-append map.functions (new ∷ []));
          includes = within.includes;
          macros = within.macros;
          types = within.types;
          calls = within.calls;
          notes = within.notes;
        });
  untouched = λ m. refl;
  counts = function_counts new;
  written = written;
  appended = λ c m n e.
      ap (λ x. expected c (append_function new x) n) e
      ∙ expected-append_function map new m.modules c n;
}

-- The counters to which the include adds one.
unfoldable pub include_counts : IncludeRecord → Counter → Bool
include_counts new Counter.locals = new.is_local
include_counts new Counter.externals = not new.is_local
include_counts new _ = false

abbrev pub append_include : IncludeRecord → ProjectMap → ProjectMap
append_include new map = record map { includes = map.includes ++ new ∷ [] }

expected-append_include :
    (map : ProjectMap) (new : IncludeRecord) (ms : List Module) (c : Counter) (n : Text)
    → expected c (append_include new (record map { modules = ms })) n
      ≡ expected c map n + (if include_counts new c && str_eq new.from_module n then 1 else 0)
unfolding expected include_counts
expected-append_include map new ms Counter.locals n = tally-snoc _ _ n map.includes new
expected-append_include map new ms Counter.externals n = tally-snoc _ _ n map.includes new
expected-append_include map new ms _ n = omega arith

pub include-Appends :
    (map : ProjectMap) (new : IncludeRecord) (g : Module → Module)
    → Within map
    → length map.includes < max_includes
    → ((m : Module) → (g m).name ≡ m.name)
    → ((c : Counter) (m : Module)
        → value c (g m) ≡ (if include_counts new c then increment (value c m) else value c m))
    → Appends map new.from_module g (append_include new)
include-Appends map new g within room named written = record {
  named = named;
  within = λ m e.
      subst (λ x. Within (append_include new x)) (sym e)
        (record {
          files = within.files;
          functions = within.functions;
          includes = omega (arith, length-append map.includes (new ∷ []));
          macros = within.macros;
          types = within.types;
          calls = within.calls;
          notes = within.notes;
        });
  untouched = λ m. refl;
  counts = include_counts new;
  written = written;
  appended = λ c m n e.
      ap (λ x. expected c (append_include new x) n) e
      ∙ expected-append_include map new m.modules c n;
}

-- ===== src/ModuleMap/Report/Tidy.antt =====
-- When the report of the module map finds nothing.
use p101_audit.Base.{◌≡◌, ◌≤◌, Bool, true, false, not, ◌&&◌, none, some, Memᴰ}
use p101_audit.Base.Text.{Text, codes, str_eq}
use p101_audit.ModuleMap.{
  SourceFile, Module, FunctionRecord, IncludeRecord, MacroRecord, TypeRecord, NoteRecord,
  ProjectMap, max_name,
}
use p101_audit.ModuleMap.Query.{
  module_has_direct_include, symbol_used_outside_module, include_target_exists,
  module_used_outside_module, function_used_outside_module, function_has_header_declaration,
  function_has_non_static_definition, first_local_include, target_matches_module,
  source_includes_own, module_has_header,
}
use p101_audit.ModuleMap.Idioms.{
  public_function_exists, public_function_anywhere, name_ends_with, swap_suffix,
  module_shares_prefix, wraps_platform_name, guard_macro, guard_suffix,
}
use p101_audit.ModuleMap.Report.{
  ReportArguments, ReportPlatform, module_has_source, module_contains_entrypoint, has_peer,
  LayerFile, layer_line_allows,
}

-- If the array holds the peer's name, a function of the kind has this name.
abbrev pub Paired : (Text → Bool) → Text → Text → Text → Type 0
Paired exists name suffix replacement =
    (peer : Text) → swap_suffix name suffix replacement max_name ≡ some peer → exists peer ≡ true

pub record IsTidyModule (args : ReportArguments) (map : ProjectMap) (m : Module) : Type 0 where
  pub size : args.library_mode ≡ false → m.function_count ≤ args.max_functions
  pub api : args.library_mode ≡ false → m.public_function_count ≤ args.max_public
  pub entry :
      args.library_mode ≡ false
      → module_contains_entrypoint map m.name ≡ true
      → m.function_count ≤ 3

pub record IsTidyFunction (args : ReportArguments) (map : ProjectMap) (f : FunctionRecord)
    : Type 0 where
  pub private_if_unused :
      args.library_mode ≡ false
      → f.is_header_declaration ≡ false
      → f.is_static ≡ false
      → str_eq f.usr (codes "c:@F@main") ≡ false
      → function_has_header_declaration map f ≡ false
      → function_used_outside_module map f ≡ true
  pub defined :
      f.is_header_declaration ≡ true
      → (args.library_mode && not (module_has_source map f.module_name)) ≡ false
      → function_has_non_static_definition map f ≡ true
  pub interface :
      args.library_mode ≡ false
      → f.is_header_declaration ≡ true
      → module_contains_entrypoint map f.module_name ≡ false
      → module_used_outside_module map f.module_name ≡ true

-- The functions whose names the conventions are about.
pub record IsNamed (map : ProjectMap) (f : FunctionRecord) : Type 0 where
  pub public_function : f.is_static ≡ false
  pub definition : f.is_header_declaration ≡ false
  pub own_name : wraps_platform_name map f ≡ false

pub record IsPaired (args : ReportArguments) (map : ProjectMap) (f : FunctionRecord) : Type 0 where
  pub create :
      Paired (public_function_exists map f.module_name) f.name (codes "_create") (codes "_destroy")
  pub count :
      args.library_mode ≡ false
      → Paired (public_function_exists map f.module_name) f.name (codes "_count") (codes "_at")
  pub init :
      has_peer args map f.name (codes "_init") (codes "_destroy") ≡ false
      → has_peer args map f.name (codes "_init") (codes "_fini") ≡ false
      → Paired (public_function_anywhere map) f.name (codes "_init") (codes "_deinit")
  pub opened : Paired (public_function_anywhere map) f.name (codes "_open") (codes "_close")
  pub from_name :
      Paired (public_function_exists map f.module_name) f.name (codes "_from_name") (codes "_name")

-- The layers permit that the module includes from the target: it is the module itself, no
-- configuration is given, or a line of the configuration, which could be opened, has them both.
pub data Layered (p : ReportPlatform) (args : ReportArguments) (from_module target : Text)
    : Type 0 where
  same_module : from_module ≡ target → Layered p args from_module target
  unlayered : args.layer_config ≡ none → Layered p args from_module target
  declared :
      (file : LayerFile) (line : Text)
      → args.layer_config ≡ some (some file)
      → Memᴰ line file.lines
      → layer_line_allows p from_module target line ≡ true
      → Layered p args from_module target

pub record IsTidyInclude (p : ReportPlatform) (args : ReportArguments) (map : ProjectMap)
    (i : IncludeRecord) : Type 0 where
  pub acyclic :
      module_has_direct_include map i.target i.from_module ≡ true
      → str_eq i.from_module i.target ≡ true
  pub target_exists : include_target_exists map i.target ≡ true
  pub layered : Layered p args i.from_module i.target

pub record IsTidyMacro (args : ReportArguments) (map : ProjectMap) (m : MacroRecord) : Type 0 where
  pub used :
      args.library_mode ≡ false
      → m.is_header ≡ true
      → module_used_outside_module map m.module_name ≡ false
      → symbol_used_outside_module map m.module_name m.name ≡ true

pub record IsTidyType (args : ReportArguments) (map : ProjectMap) (t : TypeRecord) : Type 0 where
  pub used :
      args.library_mode ≡ false
      → t.is_header ≡ true
      → module_used_outside_module map t.module_name ≡ true
  pub suffix : name_ends_with t.name (codes "_t") ≡ true → str_eq t.name (codes "errno_t") ≡ true

pub record IsTidyNote (n : NoteRecord) : Type 0 where
  pub order : str_eq n.name (codes "SIGNATURE_ENV_ORDER") ≡ true → n.is_header ≡ true
  pub allocation : str_eq n.name (codes "ALLOC_SIZEOF_TYPE") ≡ false

-- The guard ends with the name that the header's path stands for, if that fits into the array.
abbrev pub IsGuard : ReportPlatform → Text → MacroRecord → Type 0
IsGuard p path guard =
    (expected : Text)
    → guard_suffix p.is_alnum p.to_upper path max_name ≡ some expected
    → name_ends_with guard.name expected ≡ true

pub record IsTidyFile (p : ReportPlatform) (args : ReportArguments) (map : ProjectMap)
    (file : SourceFile) : Type 0 where
  pub own :
      file.is_header ≡ false
      → module_has_header map file.module_name ≡ true
      → source_includes_own map file.path file.module_name ≡ true
  pub leading :
      args.library_mode ≡ false
      → file.is_header ≡ false
      → module_has_header map file.module_name ≡ true
      → (i : IncludeRecord) → first_local_include map file.path ≡ some i
      → target_matches_module i.target file.module_name ≡ true
  pub guard :
      file.is_header ≡ true
      → (g : MacroRecord) × (guard_macro map file.path ≡ some g) × IsGuard p file.path g

-- No rule of the module map is broken.
pub record IsTidy (p : ReportPlatform) (args : ReportArguments) (map : ProjectMap) : Type 0 where
  pub modules : (m : Module) → Memᴰ m map.modules → IsTidyModule args map m
  pub prefixes :
      (m : Module)
      → Memᴰ m map.modules
      → module_shares_prefix map m.name (not args.library_mode) ≡ true
  pub functions : (f : FunctionRecord) → Memᴰ f map.functions → IsTidyFunction args map f
  pub names : (f : FunctionRecord) → Memᴰ f map.functions → IsNamed map f → IsPaired args map f
  pub macros : (m : MacroRecord) → Memᴰ m map.macros → IsTidyMacro args map m
  pub types : (t : TypeRecord) → Memᴰ t map.types → IsTidyType args map t
  pub includes :
      (i : IncludeRecord) → Memᴰ i map.includes → i.is_local ≡ true → IsTidyInclude p args map i
  pub files : (file : SourceFile) → Memᴰ file map.files → IsTidyFile p args map file
  pub notes : (n : NoteRecord) → Memᴰ n map.notes → IsTidyNote n

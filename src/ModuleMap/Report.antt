-- ===== src/ModuleMap/Report.antt =====
-- components/module-map/src/report.c: `p101_module_map_write_findings`, the rules of the module map.
pub mod Loops
pub mod Tidy
pub mod Rules
pub mod FileRules
pub mod Verdict
mod Tests
use p101_audit.Base.{
  ℕ, zero, suc, ◌+◌, ◌-◌, Bool, true, false, not, ◌&&◌, ◌||◌, List, [], ◌∷◌, ◌++◌, Option, none,
  some, ltb, ◌==◌, if◌then◌else◌, length, take, drop, is_nil, is_some,
}
use p101_audit.Base.Text.{Text, codes, str_eq, starts_with, strstr}
use p101_audit.Base.Scan.{any, find}
use p101_audit.ModuleMap.{
  SourceFile, Module, FunctionRecord, IncludeRecord, MacroRecord, TypeRecord, NoteRecord,
  ProjectMap, max_name,
}
use p101_audit.ModuleMap.Strings.{trim_left, trim_right}
use p101_audit.ModuleMap.Query.{
  module_has_direct_include, symbol_used_outside_module, include_target_exists,
  module_used_outside_module, function_used_outside_module, function_has_header_declaration,
  function_has_non_static_definition, first_local_include, target_matches_module,
  source_includes_own, module_has_header,
}
use p101_audit.ModuleMap.Idioms.{
  public_function_exists, public_function_anywhere, name_ends_with, swap_suffix,
  module_shares_prefix, wraps_platform_name, guard_macro, guard_suffix,
}

pub data ModuleRule : Type 0 where
  module_size public_api_size entrypoint_size unused_public_function : ModuleRule
  declaration_without_definition unused_interface unused_public_macro unused_public_type :
      ModuleRule
  include_cycle missing_include_target layer_violation missing_destroy : ModuleRule
  collection_accessor_pair module_prefix include_guard own_header_first missing_teardown :
      ModuleRule
  name_conversion_pair reserved_type_suffix context_argument_order allocation_size_type : ModuleRule

-- A finding, less the text of its message.
pub record ModuleFinding : Type 0 where
  pub rule : ModuleRule
  pub path : Text
  pub line : ℕ

-- What stdio makes of an open configuration: the texts that fgets delivers, whether an error ends
-- them in place of the end of the file, and whether fclose fails.
pub record LayerFile : Type 0 where
  pub lines : List Text
  pub read_fails : Bool
  pub close_fails : Bool

-- The fields of the arguments that the rules read. `layer_config` is none where no path is given; a
-- path is given by the file there, which is none where it cannot be opened.
pub record ReportArguments : Type 0 where
  pub library_mode : Bool
  pub max_functions : ℕ
  pub max_public : ℕ
  pub layer_config : Option (Option LayerFile)

-- The findings that were emitted, `wrote`, and the state of the error object.
pub record Findings : Type 0 where
  pub emitted : List ModuleFinding
  pub wrote : Bool
  pub has_error : Bool

-- A rule that is broken gives its finding.
abbrev pub finding_if : Bool → ModuleRule → Text → ℕ → Option ModuleFinding
finding_if broken rule path line =
    if broken then some (record { rule = rule; path = path; line = line }) else none

unfoldable pub module_has_source : ProjectMap → Text → Bool
module_has_source map module_name = elim (find (λ m. str_eq m.name module_name) map.modules) [
  | none ↦ false
  | some m ↦ ltb 0 m.source_count
]

unfoldable pub module_contains_entrypoint : ProjectMap → Text → Bool
module_contains_entrypoint map module_name =
    any (λ f. str_eq f.module_name module_name && str_eq f.usr (codes "c:@F@main")) map.functions

-- `accepts` says whether the message fits and the tool support initializes and emits the diagnostic.
module _ (accepts : List ModuleFinding → ModuleFinding → Bool) where
  -- `p101_module_map_write_finding`, with the flag that its callers set.
  unfoldable pub write_finding : Option ModuleFinding → Findings → Findings
  write_finding none s = s
  write_finding (some f) s =
      if s.has_error
      then record s { wrote = true }
      else if accepts s.emitted f
      then record s { emitted = s.emitted ++ f ∷ []; wrote = true }
      else record s { wrote = true; has_error = true }

  unfoldable pub write_each : List (Option ModuleFinding) → Findings → Findings
  write_each [] s = s
  write_each (f ∷ fs) s = write_each fs (write_finding f s)

  -- A loop whose body writes what the rules give for the element.
  unfoldable pub write_loop {ℓ} :
      {A : Type ℓ} → (A → List (Option ModuleFinding)) → List A → Findings → Findings
  write_loop rules [] s = s
  write_loop rules (x ∷ xs) s = write_loop rules xs (write_each (rules x) s)

module _ (args : ReportArguments) (map : ProjectMap) where
  -- The first loop over the modules.
  unfoldable pub module_rules : Module → List (Option ModuleFinding)
  module_rules m =
      finding_if (not args.library_mode && ltb args.max_functions m.function_count)
        ModuleRule.module_size m.name 0
      ∷ finding_if (not args.library_mode && ltb args.max_public m.public_function_count)
          ModuleRule.public_api_size m.name 0
      ∷ finding_if
          (not args.library_mode && module_contains_entrypoint map m.name && ltb 3 m.function_count)
          ModuleRule.entrypoint_size m.source_path 0
      ∷ []

  -- The first loop over the functions.
  unfoldable pub function_rules : FunctionRecord → List (Option ModuleFinding)
  function_rules f =
      finding_if
        (not args.library_mode
          && not f.is_header_declaration
          && not f.is_static
          && not (function_has_header_declaration map f)
          && not (function_used_outside_module map f)
          && not (str_eq f.usr (codes "c:@F@main")))
        ModuleRule.unused_public_function f.path f.line
      ∷ finding_if
          (f.is_header_declaration
            && (not args.library_mode || module_has_source map f.module_name)
            && not (function_has_non_static_definition map f))
          ModuleRule.declaration_without_definition f.path f.line
      ∷ finding_if
          (not args.library_mode
            && f.is_header_declaration
            && not (module_used_outside_module map f.module_name)
            && not (module_contains_entrypoint map f.module_name))
          ModuleRule.unused_interface f.path f.line
      ∷ []

  unfoldable pub macro_rules : MacroRecord → List (Option ModuleFinding)
  macro_rules m =
      finding_if
        (not args.library_mode
          && not (module_used_outside_module map m.module_name)
          && m.is_header
          && not (symbol_used_outside_module map m.module_name m.name))
        ModuleRule.unused_public_macro m.path m.line
      ∷ []

  unfoldable pub type_rules : TypeRecord → List (Option ModuleFinding)
  type_rules t =
      finding_if
        (not args.library_mode && not (module_used_outside_module map t.module_name) && t.is_header)
        ModuleRule.unused_public_type t.path t.line
      ∷ []

  -- The peer of a name with the suffix is missing.
  unfoldable pub lacks_peer : (Text → Bool) → Text → Text → Text → Bool
  lacks_peer exists name suffix replacement = elim (swap_suffix name suffix replacement max_name) [
    | none ↦ false
    | some peer ↦ not (exists peer)
  ]

  unfoldable pub has_peer : Text → Text → Text → Bool
  has_peer name suffix replacement = elim (swap_suffix name suffix replacement max_name) [
    | none ↦ false
    | some peer ↦ public_function_anywhere map peer
  ]

  -- The second loop over the functions.
  unfoldable pub naming_rules : FunctionRecord → List (Option ModuleFinding)
  naming_rules f =
      let eligible =
        not f.is_static && not f.is_header_declaration && not (wraps_platform_name map f) in
      let in_module = public_function_exists map f.module_name in
      let anywhere = public_function_anywhere map in
      finding_if (eligible && lacks_peer in_module f.name (codes "_create") (codes "_destroy"))
        ModuleRule.missing_destroy f.path f.line
      ∷ finding_if
          (eligible
            && not args.library_mode
            && lacks_peer in_module f.name (codes "_count") (codes "_at"))
          ModuleRule.collection_accessor_pair f.path f.line
      ∷ finding_if
          (eligible
            && lacks_peer anywhere f.name (codes "_init") (codes "_deinit")
            && not (has_peer f.name (codes "_init") (codes "_destroy"))
            && not (has_peer f.name (codes "_init") (codes "_fini")))
          ModuleRule.missing_teardown f.path f.line
      ∷ finding_if (eligible && lacks_peer anywhere f.name (codes "_open") (codes "_close"))
          ModuleRule.missing_teardown f.path f.line
      ∷ finding_if (eligible && lacks_peer in_module f.name (codes "_from_name") (codes "_name"))
          ModuleRule.name_conversion_pair f.path f.line
      ∷ []

  -- The second loop over the modules.
  unfoldable pub prefix_rules : Module → List (Option ModuleFinding)
  prefix_rules m =
      finding_if (not (module_shares_prefix map m.name (not args.library_mode)))
        ModuleRule.module_prefix
        (if not (is_nil m.source_path) then m.source_path else m.header_path) 0
      ∷ []

  -- The include that stands before the file's own header.
  unfoldable pub leading_rule : SourceFile → Option ModuleFinding
  leading_rule file = elim (first_local_include map file.path) [
    | none ↦ none
    | some leading ↦
        finding_if (not (target_matches_module leading.target file.module_name))
          ModuleRule.own_header_first leading.path leading.line
  ]

  -- The first loop over the files.
  unfoldable pub own_header_rules : SourceFile → List (Option ModuleFinding)
  own_header_rules file =
      let own = source_includes_own map file.path file.module_name in
      (if file.is_header || not (module_has_header map file.module_name)
        then none
        else if not own
        then finding_if true ModuleRule.own_header_first file.path 1
        else if args.library_mode
        then none
        else leading_rule file)
      ∷ []

  unfoldable pub suffix_rules : TypeRecord → List (Option ModuleFinding)
  suffix_rules t =
      finding_if (name_ends_with t.name (codes "_t") && not (str_eq t.name (codes "errno_t")))
        ModuleRule.reserved_type_suffix t.path t.line
      ∷ []

  unfoldable pub note_rules : NoteRecord → List (Option ModuleFinding)
  note_rules n =
      finding_if (str_eq n.name (codes "SIGNATURE_ENV_ORDER") && not n.is_header)
        ModuleRule.context_argument_order n.path n.line
      ∷ finding_if (str_eq n.name (codes "ALLOC_SIZEOF_TYPE")) ModuleRule.allocation_size_type
          n.path n.line
      ∷ []

  -- The rules of an include that do not read the layers.
  unfoldable pub include_rules : IncludeRecord → List (Option ModuleFinding)
  include_rules i =
      finding_if
        (i.is_local
          && module_has_direct_include map i.target i.from_module
          && not (str_eq i.from_module i.target))
        ModuleRule.include_cycle i.path i.line
      ∷ finding_if (i.is_local && not (include_target_exists map i.target))
          ModuleRule.missing_include_target i.path i.line
      ∷ []

-- The functions of <ctype.h>, whether an error was raised before the findings are written, whether
-- p101_tool_report_begin succeeds, and whether the heading for a human reader fails to be written.
pub record ReportPlatform : Type 0 where
  pub is_space : ℕ → Bool
  pub is_alnum : ℕ → Bool
  pub to_upper : ℕ → ℕ
  pub error_before : Bool
  pub begun : Bool
  pub heading_fails : Bool

module _ (p : ReportPlatform) where
  -- A line `left -> right` of the configuration.
  unfoldable pub layer_line_allows : Text → Text → Text → Bool
  layer_line_allows from_module target line =
      let left = trim_left p.is_space (trim_right p.is_space line) in
      let names : Bool = elim (strstr left (codes "->")) [
        | none ↦ false
        | some found ↦
            str_eq (trim_right p.is_space (take (length left - length found) left)) from_module
            && str_eq (trim_right p.is_space (trim_left p.is_space (drop 2 found))) target
      ] in
      not (is_nil left) && not (starts_with left (codes "#")) && names

  -- The answer, and whether an error was raised. No line is read behind an error.
  unfoldable pub layer_allows_include : ReportArguments → Text → Text → Bool → Bool × Bool
  layer_allows_include args from_module target has_error =
      let answer : Bool × Bool = elim args.layer_config [
        | none ↦ (true, has_error)
        | some none ↦ (false, true)
        | some (some file) ↦
            let found = not has_error && any (layer_line_allows from_module target) file.lines in
            (found, has_error || not found && file.read_fails || file.close_fails)
      ] in
      if str_eq from_module target then (true, has_error) else answer

  unfoldable pub guard_rules : ProjectMap → SourceFile → List (Option ModuleFinding)
  guard_rules map file =
      let missing = finding_if true ModuleRule.include_guard file.path 1 in
      let misnamed : MacroRecord → Option ModuleFinding = λ guard.
        elim (guard_suffix p.is_alnum p.to_upper file.path max_name) [
          | none ↦ none
          | some expected ↦
              finding_if (not (name_ends_with guard.name expected)) ModuleRule.include_guard
                file.path guard.line
        ] in
      let found : Option ModuleFinding = elim (guard_macro map file.path) [
        | none ↦ missing
        | some guard ↦ misnamed guard
      ] in
      (if file.is_header then found else none) ∷ []

  module _ (accepts : List ModuleFinding → ModuleFinding → Bool) (args : ReportArguments) where
    -- The body of the loop over the includes.
    unfoldable pub write_include : ProjectMap → IncludeRecord → Findings → Findings
    write_include map i s =
        let written = write_each accepts (include_rules args map i) s in
        let (allowed, has_error) =
          layer_allows_include args i.from_module i.target written.has_error in
        if i.is_local
        then write_finding accepts
            (finding_if (not allowed) ModuleRule.layer_violation i.path i.line)
            (record written { has_error = has_error })
        else written

    unfoldable pub write_includes : ProjectMap → List IncludeRecord → Findings → Findings
    write_includes map [] s = s
    write_includes map (i ∷ includes) s = write_includes map includes (write_include map i s)

    unfoldable pub write_findings : ProjectMap → Findings
    write_findings map =
        let s0 : Findings = record {
          emitted = [];
          wrote = false;
          has_error = p.error_before || not p.begun || p.heading_fails;
        } in
        let s1 = write_loop accepts (module_rules args map) map.modules s0 in
        let s2 = write_loop accepts (function_rules args map) map.functions s1 in
        let s3 = write_loop accepts (macro_rules args map) map.macros s2 in
        let s4 = write_loop accepts (type_rules args map) map.types s3 in
        let s5 = write_includes map map.includes s4 in
        let s6 = write_loop accepts (naming_rules args map) map.functions s5 in
        let s7 = write_loop accepts (prefix_rules args map) map.modules s6 in
        let s8 = write_loop accepts (own_header_rules args map) map.files s7 in
        let s9 = write_loop accepts (suffix_rules args map) map.types s8 in
        let s10 = write_loop accepts (note_rules args map) map.notes s9 in
        let s11 = write_loop accepts (guard_rules map) map.files s10 in if p.begun then s11 else s0

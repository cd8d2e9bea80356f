-- ===== src/ModuleMap/Report/Verdict.antt =====
-- The answer of the report: whether it wrote a finding.
use p101_audit.Base.{◌≡◌, Bool, true, false, ◌||◌, List}
use p101_audit.Base.Scan.{any}
use p101_audit.ModuleMap.{ProjectMap}
use p101_audit.ModuleMap.Report.{
  ModuleFinding, ReportArguments, ReportPlatform, module_rules, function_rules, macro_rules,
  type_rules, naming_rules, prefix_rules, own_header_rules, suffix_rules, note_rules, guard_rules,
}
use p101_audit.ModuleMap.Report.Loops.{breaks, Closes, include_breaks}

-- No error is raised before the first rule, and none by closing the configuration.
pub record IsQuiet (p : ReportPlatform) (args : ReportArguments) : Type 0 where
  pub entry : p.error_before ≡ false
  pub begun : p.begun ≡ true
  pub heading : p.heading_fails ≡ false
  pub closes : Closes args

module _ (p : ReportPlatform) (accepts : List ModuleFinding → ModuleFinding → Bool)
    (args : ReportArguments) (map : ProjectMap) where
  -- An element of one of the loops breaks a rule.
  abbrev some_rule_broken : Bool
  some_rule_broken =
      any (λ m. breaks (module_rules args map m)) map.modules
      || any (λ f. breaks (function_rules args map f)) map.functions
      || any (λ m. breaks (macro_rules args map m)) map.macros
      || any (λ t. breaks (type_rules args map t)) map.types
      || any (include_breaks accepts p args map) map.includes
      || any (λ f. breaks (naming_rules args map f)) map.functions
      || any (λ m. breaks (prefix_rules args map m)) map.modules
      || any (λ f. breaks (own_header_rules args map f)) map.files
      || any (λ t. breaks (suffix_rules args map t)) map.types
      || any (λ n. breaks (note_rules args map n)) map.notes
      || any (λ f. breaks (guard_rules p map f)) map.files

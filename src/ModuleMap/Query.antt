-- ===== src/ModuleMap/Query.antt =====
-- components/module-map/src/model_query.c and idioms_includes.c: the questions that the rules of the
-- module map ask of it.
pub mod Answers
use p101_audit.Base.{
  ◌<◌, Bool, true, false, not, ◌&&◌, ◌||◌, List, [], ◌∷◌, Option, none, some, ltb, if◌then◌else◌,
  length, drop, is_nil,
}
use p101_audit.Base.Text.{Text, codes, str_eq, starts_with}
use p101_audit.Base.Scan.{any, find}
use p101_audit.ModuleMap.{FunctionRecord, IncludeRecord, ProjectMap}
use p101_audit.ModuleMap.Strings.{path_basename}

unfoldable pub module_has_direct_include : ProjectMap → Text → Text → Bool
module_has_direct_include map from target =
    any (λ i. i.is_local && str_eq i.from_module from && str_eq i.target target) map.includes

unfoldable pub symbol_used_outside_module : ProjectMap → Text → Text → Bool
symbol_used_outside_module map module_name symbol_name =
    any (λ c. not (str_eq c.module_name module_name) && str_eq c.name symbol_name) map.calls

unfoldable pub include_target_exists : ProjectMap → Text → Bool
include_target_exists map target = any (λ m. str_eq m.name target) map.modules

unfoldable pub module_used_outside_module : ProjectMap → Text → Bool
module_used_outside_module map module_name =
    any (λ i. i.is_local && str_eq i.target module_name && not (str_eq i.from_module module_name))
      map.includes

unfoldable pub function_used_outside_module : ProjectMap → FunctionRecord → Bool
function_used_outside_module map function =
    any
      (λ c.
        not (str_eq c.module_name function.module_name)
        && not (is_nil function.usr)
        && str_eq c.usr function.usr)
      map.calls

unfoldable pub function_has_header_declaration : ProjectMap → FunctionRecord → Bool
function_has_header_declaration map function =
    any (λ f. f.is_header_declaration && not (is_nil function.usr) && str_eq f.usr function.usr)
      map.functions

unfoldable pub function_has_non_static_definition : ProjectMap → FunctionRecord → Bool
function_has_non_static_definition map function =
    any
      (λ f.
        not f.is_header_declaration
        && not f.is_static
        && not (is_nil function.usr)
        && str_eq f.usr function.usr)
      map.functions

-- The test of one round: no include is chosen yet, or it stands on a later line.
unfoldable pub is_earlier : IncludeRecord → Option IncludeRecord → Bool
is_earlier i none = true
is_earlier i (some chosen) = ltb i.line chosen.line

unfoldable pub first_local_include_from :
    Text → List IncludeRecord → Option IncludeRecord → Option IncludeRecord
first_local_include_from path [] chosen = chosen
first_local_include_from path (i ∷ includes) chosen =
    first_local_include_from path includes
      (if i.is_local && str_eq i.path path && is_earlier i chosen then some i else chosen)

unfoldable pub first_local_include : ProjectMap → Text → Option IncludeRecord
first_local_include map path = first_local_include_from path map.includes none

unfoldable pub target_matches_module : Text → Text → Bool
target_matches_module target module_name =
    let base = path_basename module_name in
    let last = path_basename target in
    let tail = if starts_with last (codes "p101_") then drop 5 last else last in
    let rest = drop (length base) tail in
    starts_with tail base && (is_nil rest || str_eq rest (codes "_internal"))

unfoldable pub source_includes_own : ProjectMap → Text → Text → Bool
source_includes_own map path module_name =
    any (λ i. i.is_local && str_eq i.path path && target_matches_module i.target module_name)
      map.includes

unfoldable pub module_has_header : ProjectMap → Text → Bool
module_has_header map module_name = elim (find (λ m. str_eq m.name module_name) map.modules) [
  | none ↦ false
  | some m ↦ ltb 0 m.header_count
]

-- ===== src/ModuleMap/Idioms.antt =====
-- components/module-map/src/idioms.c: the naming conventions that the report asks about.
use p101_audit.Base.{
  ℕ, zero, suc, ◌+◌, ◌-◌, ◌%◌, ◌^◌, Bool, true, not, ◌&&◌, List, [], ◌∷◌, ◌++◌, Option, none, some,
  ltb, ◌==◌, if◌then◌else◌, length, take, drop,
}
use p101_audit.Base.Text.{Text, codes, str_eq, starts_with}
use p101_audit.Base.Scan.{any}
use p101_audit.ModuleMap.{FunctionRecord, MacroRecord, ProjectMap}
use p101_audit.ModuleMap.Strings.{split_last}

abbrev pub wrapper_prefix_len : ℕ
wrapper_prefix_len = 5

unfoldable pub public_function_exists : ProjectMap → Text → Text → Bool
public_function_exists map module_name function_name =
    any (λ f. not f.is_static && str_eq f.module_name module_name && str_eq f.name function_name)
      map.functions

unfoldable pub public_function_anywhere : ProjectMap → Text → Bool
public_function_anywhere map function_name =
    any (λ f. not f.is_static && str_eq f.name function_name) map.functions

unfoldable pub name_ends_with : Text → Text → Bool
name_ends_with name suffix =
    ltb (length suffix) (length name) && str_eq (drop (length name - length suffix) name) suffix

-- The peer's name, where the function writes one to an array of the size.
unfoldable pub swap_suffix : Text → Text → Text → ℕ → Option Text
swap_suffix name suffix replacement peer_size =
    let stem_length = length name - length suffix in
    if name_ends_with name suffix && ltb ((stem_length + length replacement) % 2 ^ 64) peer_size
    then some (take stem_length name ++ replacement)
    else none

-- The loop over `shared`.
unfoldable pub shared_length : Text → Text → ℕ
shared_length [] name = 0
shared_length (x ∷ first) [] = 0
shared_length (x ∷ first) (y ∷ name) =
    let longer = suc (shared_length first name) in if x == y then longer else 0

unfoldable pub is_prefixed : Text → FunctionRecord → Bool
is_prefixed module_name f =
    not f.is_static
    && not f.is_header_declaration
    && str_eq f.module_name module_name
    && not (str_eq f.usr (codes "c:@F@main"))

-- `first` with `prefix_length`, and `public_count`.
unfoldable pub scan_prefix :
    Text → List FunctionRecord → Option (Text × ℕ) → ℕ → Option (Text × ℕ) × ℕ
scan_prefix module_name [] found public_count = (found, public_count)
scan_prefix module_name (f ∷ fs) found public_count =
    let met : Option (Text × ℕ) = elim found [
      | none ↦ some (f.name, length f.name)
      | some (first, prefix_length) ↦ some (first, shared_length (take prefix_length first) f.name)
    ] in
    scan_prefix module_name fs (if is_prefixed module_name f then met else found)
      (if is_prefixed module_name f then (public_count + 1) % 2 ^ 64 else public_count)

-- The loop that drops the bytes behind the last underscore.
unfoldable pub cut_prefix : Text → ℕ → ℕ
cut_prefix first zero = 0
cut_prefix first (suc n) =
    let shorter = cut_prefix first n in
    if str_eq (take 1 (drop n first)) (codes "_") then suc n else shorter

unfoldable pub owns_prefix : Bool → Text → ℕ → Bool
owns_prefix require_owner_prefix first prefix_length =
    not (prefix_length == 0)
    && not (
        require_owner_prefix
        && prefix_length == wrapper_prefix_len
        && starts_with first (codes "p101_"))

unfoldable pub module_shares_prefix : ProjectMap → Text → Bool → Bool
module_shares_prefix map module_name require_owner_prefix =
    let (found, public_count) = scan_prefix module_name map.functions none 0 in
    let shares : Bool = elim found [
      | none ↦ true
      | some (first, prefix_length) ↦
          owns_prefix require_owner_prefix first (cut_prefix first prefix_length)
    ] in
    if ltb public_count 2 then true else shares

unfoldable pub wraps_platform_name : ProjectMap → FunctionRecord → Bool
wraps_platform_name map f =
    starts_with f.name (codes "p101_")
    && any
        (λ c. str_eq c.module_name f.module_name && str_eq c.name (drop wrapper_prefix_len f.name))
        map.calls

unfoldable pub is_earlier_macro : MacroRecord → Option MacroRecord → Bool
is_earlier_macro m none = true
is_earlier_macro m (some best) = ltb m.line best.line

unfoldable pub guard_macro_from : Text → Option MacroRecord → List MacroRecord → Option MacroRecord
guard_macro_from path best [] = best
guard_macro_from path best (m ∷ macros) =
    guard_macro_from path (if str_eq m.path path && is_earlier_macro m best then some m else best)
      macros

unfoldable pub guard_macro : ProjectMap → Text → Option MacroRecord
guard_macro map path = guard_macro_from path none map.macros

-- `is_alnum` and `to_upper` are isalnum and toupper of <ctype.h>.
module _ (is_alnum : ℕ → Bool) (to_upper : ℕ → ℕ) where
  -- The loop, with what it has written.
  unfoldable pub guard_stem : ℕ → Text → Text → Text
  guard_stem expected_size [] written = written
  guard_stem expected_size (c ∷ base) written =
      let longer =
        guard_stem expected_size base (written ++ (if is_alnum c then to_upper c else b'_') ∷ []) in
      if not (c == b'.') && ltb ((length written + 3) % 2 ^ 64) expected_size
      then longer
      else written

  unfoldable pub guard_suffix : Text → ℕ → Option Text
  guard_suffix path expected_size =
      let base : Text = elim (split_last b'/' path) [
        | none ↦ path
        | some (directory, name) ↦ name
      ] in
      let written = guard_stem expected_size base [] in
      if ltb 0 (length written) && ltb ((length written + 3) % 2 ^ 64) expected_size
      then some (written ++ codes "_H")
      else none

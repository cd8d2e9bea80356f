-- ===== src/ModuleMap/Relative.antt =====
-- components/module-map/src/model_mutation.c: the lexical normalisation of a relative path, and the
-- module that a local include names.
pub mod Bounds
use p101_audit.Base.{
  ℕ, zero, suc, ◌+◌, ◌-◌, ◌≡◌, ◌≤◌, refl, Bool, true, false, not, ◌&&◌, ◌||◌, List, [], ◌∷◌, ◌++◌,
  Option, none, some, ltb, leb, ◌==◌, if◌then◌else◌, length, take, is_nil, length-append, arith,
  Bool-cases, inl, inr, ◌⊎◌,
}
use p101_audit.Base.Text.{Text, codes, str_eq, starts_with}
use p101_audit.ModuleMap.{SourceFile, max_name}
use p101_audit.ModuleMap.Strings.{split_last, append_string, include_to_module}

-- `while(*cursor == '/') cursor++;`
unfoldable pub skip_slashes : Text → Text
skip_slashes [] = []
skip_slashes (c ∷ cursor) = let rest = skip_slashes cursor in if c == b'/' then rest else c ∷ cursor

-- The bytes before the next slash, and the cursor behind them.
unfoldable pub next_component : Text → Text × Text
next_component [] = ([], [])
next_component (c ∷ cursor) =
    let (component, rest) = next_component cursor in
    if c == b'/' then ([], c ∷ cursor) else (c ∷ component, rest)

-- `..` behind a destination: its last component is taken off, unless that is `..` itself.
unfoldable pub parent : Text → Option Text
parent destination = elim (split_last b'/' destination) [
  | none ↦ if str_eq destination (codes "..") then none else some []
  | some (before, last) ↦ if str_eq last (codes "..") then none else some before
]

unfoldable pub append_component : Text → Text → Text
append_component destination component =
    if is_nil destination then component else destination ++ b'/' ∷ component

-- One round of the loop, for a component that it found.
unfoldable pub add_component : Text → Text → Text
add_component destination component =
    if is_nil component || str_eq component (codes ".")
    then destination
    else if str_eq component (codes "..") && not (is_nil destination)
    then elim (parent destination) [
      | some shorter ↦ shorter
      | none ↦ append_component destination component
    ]
    else append_component destination component

unfoldable pub normalize_loop : ℕ → Text → Text → Text
normalize_loop zero cursor destination = destination
normalize_loop (suc fuel) cursor destination =
    let (component, rest) = next_component (skip_slashes cursor) in
    let next = normalize_loop fuel rest (add_component destination component) in
    if is_nil cursor then destination else next

-- A round drops a byte of the path at least.
unfoldable pub normalize_relative_path : Text → Text
normalize_relative_path path = normalize_loop (length path) path []

unfoldable pub local_include_to_module : ℕ → SourceFile → Text → Text
local_include_to_module size file target =
    let directory : Text = elim (split_last b'/' file.module_name) [
      | none ↦ []
      | some (before, after) ↦ before
    ] in
    let joined = take (max_name - 1) directory in
    let slashed = if is_nil directory then joined else append_string joined max_name (codes "/") in
    if starts_with target (codes "./") || starts_with target (codes "../")
    then include_to_module size (normalize_relative_path (append_string slashed max_name target))
    else include_to_module size target

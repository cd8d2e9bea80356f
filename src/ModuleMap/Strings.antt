-- ===== src/ModuleMap/Strings.antt =====
-- components/module-map/src/strings.c: copies into bounded arrays, and the module names that paths and
-- includes stand for.
use p101_audit.Base.{
  ℕ, ◌+◌, ◌-◌, Bool, false, ◌||◌, [], ◌∷◌, ◌++◌, Option, none, some, ltb, leb, ◌==◌, if◌then◌else◌,
  length, take, drop,
}
use p101_audit.Base.Text.{Text, codes, starts_with, strchr}
use p101_audit.ModuleMap.{max_name}

-- strrchr: the text before and the text behind the last byte `c`.
unfoldable pub split_last : ℕ → Text → Option (Text × Text)
split_last c [] = none
split_last c (x ∷ s) = elim (split_last c s) [
  | none ↦ if x == c then some ([], s) else none
  | some (before, after) ↦ some (x ∷ before, after)
]

unfoldable pub copy_string : ℕ → Text → Text
copy_string size source = if ltb 0 size then take (size - 1) source else []

unfoldable pub append_string : Text → ℕ → Text → Text
unfolding copy_string
append_string destination size source =
    let used = length destination in
    if ltb (used + 1) size then destination ++ copy_string (size - used) source else destination

unfoldable pub path_basename : Text → Text
path_basename path = elim (split_last b'/' path) [ none ↦ path | some (before, after) ↦ after ]

-- The name behind the prefix that the project's files carry.
unfoldable pub without_prefix : Text → Text
without_prefix base = if starts_with base (codes "p101_") then drop 5 base else base

-- The bytes before the last dot, or all.
unfoldable pub stem_length : Text → ℕ
stem_length base = elim (split_last b'.' base) [
  | none ↦ length base
  | some (stem, suffix) ↦ length stem
]

unfoldable pub basename_no_suffix : ℕ → Text → Text
basename_no_suffix size path =
    let base = without_prefix (path_basename path) in
    let len = stem_length base in take (if leb size len then size - 1 else len) base

unfoldable pub normalize_module_name : ℕ → Text → Text
normalize_module_name size module_name = elim (split_last b'/' module_name) [
  | none ↦ append_string [] size (basename_no_suffix max_name module_name)
  | some (before, base) ↦
      let len = length before + 1 in
      let prefix_length = if leb size len then size - 1 else len in
      append_string (take prefix_length module_name) size (basename_no_suffix max_name base)
]

-- What is left of a name behind `p101_…/` or `p101/`.
unfoldable pub without_project : Text → Text
without_project normalized = elim (strchr b'/' normalized) [
  | none ↦ normalized
  | some slash ↦
      if starts_with normalized (codes "p101_") || starts_with normalized (codes "p101/")
      then drop 1 slash
      else normalized
]

unfoldable pub names_file : Text → Bool
names_file [] = false
names_file (c ∷ name) = c == b'@'

unfoldable pub include_to_module : ℕ → Text → Text
include_to_module size include_name =
    if names_file include_name
    then copy_string size (drop 1 include_name)
    else copy_string size (without_project (normalize_module_name max_name include_name))

-- `is_space` is isspace of the C library.
module _ (is_space : ℕ → Bool) where
  unfoldable pub trim_left : Text → Text
  trim_left [] = []
  trim_left (c ∷ text) = let rest = trim_left text in if is_space c then rest else c ∷ text

  -- The bytes are cut from the end on, as long as they are spaces.
  unfoldable pub trim_right : Text → Text
  trim_right [] = []
  trim_right (c ∷ text) = elim (trim_right text) [
    | [] ↦ if is_space c then [] else c ∷ []
    | d ∷ rest ↦ c ∷ d ∷ rest
  ]

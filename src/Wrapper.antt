-- ===== src/Wrapper.antt =====
-- include/model.h: the data of the wrapper audit, and the fields that src/model.c and src/judge.c
-- copy into it. An array with its count is a list, a `char` array is its text.
pub mod Support
pub mod Allow
pub mod Findings
pub mod Judge
pub mod Observer
pub mod Callers
pub mod Order
pub mod Scan
mod Tests
use p101_audit.Base.{
  ℕ, ◌-◌, Bool, true, false, List, Option, none, some, leb, if◌then◌else◌, length, take,
}
use p101_audit.Base.Text.{Text}

abbrev pub path_size : ℕ
path_size = 4096

abbrev pub name_size : ℕ
name_size = 256

abbrev pub type_size : ℕ
type_size = 512

-- `enum p101_c_analysis_kind` belongs to lib_c_facts: the kinds that the sources name, and the rest.
pub data Kind : Type 0 where
  file include function parameter call type enum enumerator macro mutation note diagnostic : Kind
  other : ℕ → Kind

unfoldable pub is_macro : Kind → Bool
is_macro Kind.macro = true
is_macro _ = false

unfoldable pub is_call : Kind → Bool
is_call Kind.call = true
is_call _ = false

unfoldable pub is_function : Kind → Bool
is_function Kind.function = true
is_function _ = false

unfoldable pub is_include : Kind → Bool
is_include Kind.include = true
is_include _ = false

pub record Fact : Type 0 where
  pub kind : Kind
  pub path : Text
  pub resolved : Text
  pub name : Text
  pub type : Text
  pub canonical_type : Text
  pub return_type : Text
  pub caller : Text
  pub usr : Text
  pub caller_usr : Text
  pub parent_usr : Text
  pub replacement : Text
  pub line : ℕ
  pub column : ℕ
  pub start : ℕ
  pub end : ℕ
  pub parameter_index : ℕ
  pub mutation : ℕ
  pub is_header : Bool
  pub is_definition : Bool
  pub is_static : Bool
  pub is_public : Bool
  pub is_variadic : Bool
  pub is_local_include : Bool
  pub is_indirect : Bool
  pub needs_env : Bool
  pub needs_error : Bool

pub record Inventory : Type 0 where
  pub original : Text
  pub original_usr : Text
  pub wrapper : Text
  pub wrapper_usr : Text

pub data FindingKind : Type 0 where
  missed external indirect portability : FindingKind

pub record Finding : Type 0 where
  pub kind : FindingKind
  pub path : Text
  pub name : Text
  pub caller : Text
  pub replacement : Text
  pub allow_identity : Text
  pub line : ℕ
  pub column : ℕ

pub record AllowRule : Type 0 where
  pub path : Text
  pub caller_usr : Text
  pub callee_usr : Text
  pub uses : ℕ

-- The fields of `struct p101_wrapper_arguments` that the judge reads and writes.
pub record Arguments : Type 0 where
  pub allowed_usrs : List Text
  pub allow_rules : List AllowRule
  pub check_portability : Bool

pub record Model : Type 0 where
  pub facts : List Fact
  pub fact_capacity : ℕ
  pub inventory : List Inventory
  pub inventory_capacity : ℕ
  pub findings : List Finding
  pub finding_capacity : ℕ
  pub parse_failures : ℕ

-- What the audit uses of code outside the repository: `grant n` says whether realloc gives an array
-- of `n` bytes, `printed size text` is the buffer of `size` bytes after snprintf of `text`, and
-- `fnmatch pattern path` whether fnmatch with no flags reports a match. The two sizes are `sizeof`.
pub record Platform : Type 0 where
  pub grant : ℕ → Bool
  pub printed : ℕ → Text → Text
  pub fnmatch : Text → Text → Bool
  pub fact_bytes : ℕ
  pub finding_bytes : ℕ

-- A copy into an array of `size` bytes, cut so that its NUL fits; `none` is a null pointer.
unfoldable pub copy_field : ℕ → Option Text → Text
copy_field size none = List.[]
copy_field size (some source) = if leb size (length source) then take (size - 1) source else source

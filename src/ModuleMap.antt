-- ===== src/ModuleMap.antt =====
-- components/module-map/include, model.h, constants.h and arguments.h: the data of the module map.
-- An array with its count is a list, a `char` array is its text.
pub mod Strings
pub mod Relative
pub mod Mutation
pub mod Query
pub mod Loader
pub mod Idioms
pub mod Report
mod Tests
use p101_audit.Base.{ℕ, Bool, List, []}
use p101_audit.Base.Text.{Text}

abbrev pub path_len : ℕ
path_len = 1024

abbrev pub max_name : ℕ
max_name = 128

abbrev pub max_modules : ℕ
max_modules = 512

abbrev pub max_files : ℕ
max_files = 1024

abbrev pub max_functions : ℕ
max_functions = 4096

abbrev pub max_includes : ℕ
max_includes = 4096

abbrev pub max_macros : ℕ
max_macros = 2048

abbrev pub max_types : ℕ
max_types = 2048

abbrev pub max_calls : ℕ
max_calls = 16_384

abbrev pub max_notes : ℕ
max_notes = 1024

pub record SourceFile : Type 0 where
  pub path : Text
  pub module_name : Text
  pub is_header : Bool

pub record Module : Type 0 where
  pub name : Text
  pub source_path : Text
  pub header_path : Text
  pub source_count : ℕ
  pub header_count : ℕ
  pub function_count : ℕ
  pub public_function_count : ℕ
  pub static_function_count : ℕ
  pub header_declaration_count : ℕ
  pub macro_count : ℕ
  pub type_count : ℕ
  pub local_include_count : ℕ
  pub external_include_count : ℕ
  pub uses_error_object : Bool
  pub checks_error_object : Bool

pub record FunctionRecord : Type 0 where
  pub name : Text
  pub usr : Text
  pub module_name : Text
  pub path : Text
  pub line : ℕ
  pub is_static : Bool
  pub is_header_declaration : Bool

pub record IncludeRecord : Type 0 where
  pub from_module : Text
  pub target : Text
  pub path : Text
  pub resolved : Text
  pub line : ℕ
  pub is_local : Bool

pub record MacroRecord : Type 0 where
  pub name : Text
  pub module_name : Text
  pub path : Text
  pub line : ℕ
  pub is_header : Bool

pub record TypeRecord : Type 0 where
  pub name : Text
  pub module_name : Text
  pub path : Text
  pub line : ℕ
  pub is_header : Bool

pub record NoteRecord : Type 0 where
  pub name : Text
  pub symbol : Text
  pub symbol_usr : Text
  pub module_name : Text
  pub path : Text
  pub line : ℕ
  pub is_header : Bool

pub record CallRecord : Type 0 where
  pub name : Text
  pub usr : Text
  pub caller_usr : Text
  pub module_name : Text
  pub path : Text
  pub line : ℕ
  pub is_header : Bool

pub record ProjectMap : Type 0 where
  pub files : List SourceFile
  pub modules : List Module
  pub functions : List FunctionRecord
  pub includes : List IncludeRecord
  pub macros : List MacroRecord
  pub types : List TypeRecord
  pub calls : List CallRecord
  pub notes : List NoteRecord
  pub calls_dropped : ℕ

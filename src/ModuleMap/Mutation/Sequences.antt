-- ===== src/ModuleMap/Mutation/Sequences.antt =====
-- Every sequence of the operations on the map, and what it keeps.
use p101_audit.Base.{ℕ, ◌<◌, refl, Bool, List, [], ◌∷◌, Option, Memᴰ, length}
use p101_audit.Base.Text.{Text}
use p101_audit.ModuleMap.{SourceFile, ProjectMap, max_name}
use p101_audit.ModuleMap.Strings.{basename_no_suffix}
use p101_audit.ModuleMap.Mutation.{
  Outcome, add_named_source_file, add_source_file, add_include, add_function, add_macro, add_type,
  add_call, add_note, note_error_use, note_error_check,
}
use p101_audit.ModuleMap.Mutation.Counters.{IsWell}
use p101_audit.ModuleMap.Mutation.Keeping.{
  length-basename, add_named_source_file-IsWell, add_include-IsWell, add_function-IsWell,
  add_macro-IsWell, add_type-IsWell, add_call-IsWell, add_note-IsWell, note_error_use-IsWell,
  note_error_check-IsWell,
}

-- A call of one of the operations.
pub data Operation : Type 0 where
  source_file : Text → Bool → Operation
  named_source_file : Text → Text → Bool → Operation
  include : SourceFile → Text → Option Text → ℕ → Bool → Operation
  function : SourceFile → Text → Option Text → ℕ → Bool → Bool → Operation
  macro : SourceFile → Text → ℕ → Operation
  type : SourceFile → Text → ℕ → Operation
  call : SourceFile → Option Text → Option Text → Option Text → ℕ → Operation
  note : SourceFile → Option Text → Option Text → Option Text → ℕ → Operation
  error_use error_check : SourceFile → Operation

unfoldable pub perform : Operation → ProjectMap → Outcome
perform (source_file path is_header) map = add_source_file map path is_header
perform (named_source_file path name is_header) map = add_named_source_file map path name is_header
perform (include file target resolved line is_local) map =
    add_include map file target resolved line is_local
perform (function file name usr line is_static is_header_declaration) map =
    add_function map file name usr line is_static is_header_declaration
perform (macro file name line) map = add_macro map file name line
perform (type file name line) map = add_type map file name line
perform (call file name usr caller_usr line) map = add_call map file name usr caller_usr line
perform (note file name symbol symbol_usr line) map = add_note map file name symbol symbol_usr line
perform (error_use file) map = note_error_use map file
perform (error_check file) map = note_error_check map file

-- Also behind an operation that raised.
unfoldable pub perform_all : List Operation → ProjectMap → ProjectMap
perform_all [] map = map
perform_all (o ∷ os) map = perform_all os (perform o map).0

-- The module's name that the operation is given fits into its array. That of a source file is always cut to fit.
abbrev pub FitsName : Operation → Type 0
FitsName (source_file path is_header) = Unit
FitsName (named_source_file path name is_header) = length name < max_name
FitsName (include file target resolved line is_local) = length file.module_name < max_name
FitsName (function file name usr line is_static is_header_declaration) =
    length file.module_name < max_name
FitsName (macro file name line) = length file.module_name < max_name
FitsName (type file name line) = length file.module_name < max_name
FitsName (call file name usr caller_usr line) = Unit
FitsName (note file name symbol symbol_usr line) = Unit
FitsName (error_use file) = length file.module_name < max_name
FitsName (error_check file) = length file.module_name < max_name

pub perform-IsWell :
    (o : Operation) (map : ProjectMap) → FitsName o → IsWell map → IsWell (perform o map).0
unfolding perform add_source_file
perform-IsWell (source_file path is_header) map fits well =
    add_named_source_file-IsWell map well path (basename_no_suffix max_name path) is_header
      (length-basename path)
perform-IsWell (named_source_file path name is_header) map fits well =
    add_named_source_file-IsWell map well path name is_header fits
perform-IsWell (include file target resolved line is_local) map fits well =
    add_include-IsWell map well file fits target resolved line is_local
perform-IsWell (function file name usr line is_static is_header_declaration) map fits well =
    add_function-IsWell map well file fits name usr line is_static is_header_declaration
perform-IsWell (macro file name line) map fits well = add_macro-IsWell map well file fits name line
perform-IsWell (type file name line) map fits well = add_type-IsWell map well file fits name line
perform-IsWell (call file name usr caller_usr line) map fits well =
    add_call-IsWell map well file name usr caller_usr line
perform-IsWell (note file name symbol symbol_usr line) map fits well =
    add_note-IsWell map well file name symbol symbol_usr line
perform-IsWell (error_use file) map fits well = note_error_use-IsWell map well file fits
perform-IsWell (error_check file) map fits well = note_error_check-IsWell map well file fits

-- Whatever operations are called, in any order, and also behind one that raised: if the module names
-- that they are given fit into their arrays, then a map that is well-formed stays so. No array is
-- written past its end, no two modules have one name, and each of the ten counters of a module is the
-- number of the records that it counts.
pub perform_all-IsWell :
    (os : List Operation) (map : ProjectMap)
    → ((o : Operation) → Memᴰ o os → FitsName o)
    → IsWell map
    → IsWell (perform_all os map)
unfolding perform_all
perform_all-IsWell [] map fits well = well
perform_all-IsWell (o ∷ os) map fits well =
    perform_all-IsWell os (perform o map).0 (λ x m. fits x (Memᴰ.tail m))
      (perform-IsWell o map (fits o (Memᴰ.head refl)) well)

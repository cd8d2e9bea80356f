-- ===== src/ModuleMap/Mutation/Counting.antt =====
-- What each operation writes to the counters of its module.
use p101_audit.Base.{◌≡◌, refl, Bool, true, false, if◌then◌else◌}
use p101_audit.Base.Text.{Text}
use p101_audit.ModuleMap.{
  SourceFile, Module, FunctionRecord, IncludeRecord, MacroRecord, TypeRecord,
}
use p101_audit.ModuleMap.Mutation.{increment, count_file, count_include, count_function}
use p101_audit.ModuleMap.Mutation.Counters.{Counter, value}
use p101_audit.ModuleMap.Mutation.Appending.{
  macro_counts, type_counts, file_counts, function_counts, include_counts,
}

pub macro_written :
    (new : MacroRecord) (c : Counter) (m : Module)
    → value c (record m { macro_count = increment m.macro_count })
      ≡ (if macro_counts new c then increment (value c m) else value c m)
unfolding value macro_counts
macro_written new Counter.macros m = refl
macro_written new _ m = refl

pub type_written :
    (new : TypeRecord) (c : Counter) (m : Module)
    → value c (record m { type_count = increment m.type_count })
      ≡ (if type_counts new c then increment (value c m) else value c m)
unfolding value type_counts
type_written new Counter.types m = refl
type_written new _ m = refl

file_written_as :
    (b : Bool) (path : Text) (new : SourceFile) (c : Counter) (m : Module)
    → new.is_header ≡ b
    → value c (count_file path b m)
      ≡ (if file_counts new c then increment (value c m) else value c m)
unfolding value file_counts count_file
file_written_as true path new Counter.sources m e = rw e refl
file_written_as true path new Counter.headers m e = rw e refl
file_written_as true path new _ m e = refl
file_written_as false path new Counter.sources m e = rw e refl
file_written_as false path new Counter.headers m e = rw e refl
file_written_as false path new _ m e = refl

pub file_written :
    (path : Text) (new : SourceFile) (c : Counter) (m : Module)
    → value c (count_file path new.is_header m)
      ≡ (if file_counts new c then increment (value c m) else value c m)
file_written path new c m = file_written_as new.is_header path new c m refl

include_written_as :
    (b : Bool) (new : IncludeRecord) (c : Counter) (m : Module)
    → new.is_local ≡ b
    → value c (count_include b m)
      ≡ (if include_counts new c then increment (value c m) else value c m)
unfolding value include_counts count_include
include_written_as true new Counter.locals m e = rw e refl
include_written_as true new Counter.externals m e = rw e refl
include_written_as true new _ m e = refl
include_written_as false new Counter.locals m e = rw e refl
include_written_as false new Counter.externals m e = rw e refl
include_written_as false new _ m e = refl

pub include_written :
    (new : IncludeRecord) (c : Counter) (m : Module)
    → value c (count_include new.is_local m)
      ≡ (if include_counts new c then increment (value c m) else value c m)
include_written new c m = include_written_as new.is_local new c m refl

function_written_as :
    (b d : Bool) (new : FunctionRecord) (c : Counter) (m : Module)
    → new.is_static ≡ b
    → new.is_header_declaration ≡ d
    → value c (count_function b d m)
      ≡ (if function_counts new c then increment (value c m) else value c m)
unfolding value function_counts count_function
function_written_as b true new Counter.functions m e k = rw k refl
function_written_as b true new Counter.publics m e k = rw k refl
function_written_as b true new Counter.statics m e k = rw k refl
function_written_as b true new Counter.declarations m e k = rw k refl
function_written_as b true new _ m e k = refl
function_written_as true false new Counter.functions m e k = rw k refl
function_written_as true false new Counter.publics m e k = rw (e, k) refl
function_written_as true false new Counter.statics m e k = rw (e, k) refl
function_written_as true false new Counter.declarations m e k = rw k refl
function_written_as true false new _ m e k = refl
function_written_as false false new Counter.functions m e k = rw k refl
function_written_as false false new Counter.publics m e k = rw (e, k) refl
function_written_as false false new Counter.statics m e k = rw (e, k) refl
function_written_as false false new Counter.declarations m e k = rw k refl
function_written_as false false new _ m e k = refl

pub function_written :
    (new : FunctionRecord) (c : Counter) (m : Module)
    → value c (count_function new.is_static new.is_header_declaration m)
      ≡ (if function_counts new c then increment (value c m) else value c m)
function_written new c m =
    function_written_as new.is_static new.is_header_declaration new c m refl refl

-- The writes leave the name alone.
pub count_file-name : (path : Text) (b : Bool) (m : Module) → (count_file path b m).name ≡ m.name
unfolding count_file
count_file-name path true m = refl
count_file-name path false m = refl

pub count_include-name : (b : Bool) (m : Module) → (count_include b m).name ≡ m.name
unfolding count_include
count_include-name true m = refl
count_include-name false m = refl

pub count_function-name : (b d : Bool) (m : Module) → (count_function b d m).name ≡ m.name
unfolding count_function
count_function-name b true m = refl
count_function-name true false m = refl
count_function-name false false m = refl

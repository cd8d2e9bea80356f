-- ===== src/Wrapper/Tests/Scanning.antt =====
-- The scan, the callers of macros and the order of facts, on a small program.
use Prim.Native.Nat.{Ordering}
use mathlib.Core.List.{map, Permᴰ}
use p101_audit.Base.{◌↔◌, ℕ, ◌≡◌, ◌≢◌, refl, true, false, List, [], ◌∷◌, ◌++◌, none, some, Memᴰ}
use p101_audit.Base.Text.{codes, str_eq}
use p101_audit.Base.Scan.{find}
use p101_audit.Wrapper.{Kind, Fact, Model, copy_field, is_macro, is_call, is_function}
use p101_audit.Wrapper.Findings.{next_capacity}
use p101_audit.Wrapper.Findings.Add.{Granting}
use p101_audit.Wrapper.Observer.{
  Record, is_diagnostic, is_enumerator, identity_fits, grow_facts, fact_of, count_failure,
  identities_fit, types_fit, make_room, analysis_observer, observe_all,
}
use p101_audit.Wrapper.Observer.Bounds.{
  IsBounded, IsAcceptable, IsUncut, observe_all-IsBounded, observe_all_lem, observe_all-granted,
}
use p101_audit.Wrapper.Callers.{
  is_lowered_to, adopt_call, covers, adopt, adopt_function, assign_caller, assign_from,
  assign_macro_callers,
}
use p101_audit.Wrapper.Callers.Independent.{assign_macro_callers-map}
use p101_audit.Wrapper.Order.{
  compare_facts, compare_text, compare_size, or_else, size_of_flag, deduplicate_facts,
  deduplicate_sorted, keep_changes, same_fact,
}
use p101_audit.Wrapper.Order.Comparison.{IsComparison, compare_facts-IsComparison}
use p101_audit.Wrapper.Order.Deduplicate.{Sorts, IsDeduplicated, deduplicate_facts-IsDeduplicated}
use p101_audit.Wrapper.Scan.{Analysis, model_scan}
use p101_audit.Wrapper.Scan.Complete.{attributed, model_scan-IsDeduplicated}
use p101_audit.Wrapper.Tests.Samples.{generous, main_function, puts_call, errno_macro, program}

-- All that a run of the scan computes with.
scanning : Unit {0}
unfolding str_eq find is_macro is_call is_function copy_field next_capacity is_diagnostic
    is_enumerator identity_fits grow_facts fact_of count_failure identities_fit types_fit make_room
    analysis_observer observe_all is_lowered_to adopt_call covers adopt adopt_function assign_caller
    assign_from assign_macro_callers compare_facts compare_text compare_size or_else size_of_flag
    deduplicate_facts deduplicate_sorted keep_changes same_fact
scanning = tt

-- A call of `puts` as the scan reports it.
abbrev puts_record : Record
puts_record = record {
  kind = Kind.call;
  path = some (codes "app.c");
  resolved_include = none;
  name = some (codes "puts");
  type = some (codes "int");
  canonical_type = none;
  return_type = none;
  caller = some (codes "main");
  usr = some (codes "c:@F@puts");
  caller_usr = some (codes "c:@F@main");
  replacement = none;
  line = 3;
  column = 5;
  start_offset = 40;
  end_offset = 50;
  parameter_index = 0;
  mutation = 0;
  is_header = false;
  is_definition = false;
  is_static = false;
  is_public = false;
  is_variadic = false;
  is_local_include = false;
  is_indirect = false;
  has_env_parameter = false;
  has_error_parameter = false;
}

abbrev empty : Model
empty = record program { facts = []; fact_capacity = 0; inventory = []; inventory_capacity = 0 }

abbrev records : List Record
records = puts_record ∷ []

scan_of_call :
    ((observe_all generous records empty).1 ≡ none)
    × ((observe_all generous records empty).0.fact_capacity ≡ 256)
unfolding scanning
scan_of_call = (refl, refl)

call_scanned : Memᴰ (fact_of puts_record) (observe_all generous records empty).0.facts
unfolding scanning
call_scanned = Memᴰ.head refl

observe_all-IsBounded_example : IsBounded (fact_of puts_record)
observe_all-IsBounded_example =
    observe_all-IsBounded generous records empty (λ f m. elim m [ ]) (fact_of puts_record)
      call_scanned

observe_all_lem_example :
    ((observe_all generous records empty).0.facts ≡ [] ++ map fact_of records)
    × ((r : Record) → Memᴰ r records → IsAcceptable r × IsUncut r)
observe_all_lem_example = observe_all_lem generous records empty scan_of_call.0

generous_grants : Granting generous
generous_grants n = refl

observe_all-granted_example :
    ((observe_all generous records empty).1 ≡ none)
    ↔ ((r : Record) → Memᴰ r records → IsAcceptable r)
observe_all-granted_example = observe_all-granted generous records empty generous_grants

abbrev with_macro : Model
with_macro = record program { facts = errno_macro ∷ main_function ∷ errno_macro ∷ [] }

-- The nearest function around the macro, by its name.
macro_in_main :
    map (λ f. f.caller) (assign_macro_callers with_macro).facts
    ≡ codes "main" ∷ [] ∷ codes "main" ∷ []
unfolding scanning
macro_in_main = refl

assign_macro_callers-map_example :
    (assign_macro_callers with_macro).facts ≡ map (assign_caller with_macro.facts) with_macro.facts
assign_macro_callers-map_example = assign_macro_callers-map with_macro

abbrev no_code : Kind → ℕ
no_code k = 0

compare_facts-IsComparison_example : IsComparison (compare_facts no_code)
compare_facts-IsComparison_example = compare_facts-IsComparison no_code

abbrev insert : Fact → List Fact → List Fact
insert x [] = x ∷ []
insert x (y ∷ ys) = elim (compare_facts no_code x y) [
  | Ordering.gt ↦ y ∷ insert x ys
  | _ ↦ x ∷ y ∷ ys
]

abbrev insertion_sort : List Fact → List Fact
insertion_sort [] = []
insertion_sort (x ∷ xs) = insert x (insertion_sort xs)

-- The call is listed before the function and stands behind it.
abbrev disordered : Model
disordered = record program { facts = puts_call ∷ main_function ∷ puts_call ∷ [] }

disordered-Sorts : Sorts no_code insertion_sort disordered.facts
unfolding scanning
disordered-Sorts = record {
  sorted = (in_place, (twice, ((λ y m. elim m [ ]), tt)));
  permuted = Permᴰ.swap refl refl;
}
  where
    in_place :
        (y : Fact)
        → Memᴰ y (puts_call ∷ puts_call ∷ [])
        → compare_facts no_code main_function y ≢ Ordering.gt
    in_place y (Memᴰ.head e) = rw e (λ h. cc)
    in_place y (Memᴰ.tail (Memᴰ.head e)) = rw e (λ h. cc)
    in_place y (Memᴰ.tail (Memᴰ.tail m)) = elim m [ ]

    twice : (y : Fact) → Memᴰ y (puts_call ∷ []) → compare_facts no_code puts_call y ≢ Ordering.gt
    twice y (Memᴰ.head e) = rw e (λ h. cc)
    twice y (Memᴰ.tail m) = elim m [ ]

deduplicated :
    (deduplicate_facts no_code insertion_sort disordered).facts ≡ main_function ∷ puts_call ∷ []
unfolding scanning
deduplicated = refl

deduplicate_facts-IsDeduplicated_example :
    IsDeduplicated no_code disordered.facts
      (deduplicate_facts no_code insertion_sort disordered).facts
deduplicate_facts-IsDeduplicated_example =
    deduplicate_facts-IsDeduplicated no_code insertion_sort disordered disordered-Sorts

abbrev one_call : Analysis
one_call = record {
  records = records;
  returned = λ refusal. elim refusal [ none ↦ true | some e ↦ false ];
}

one_call_scanned : (model_scan generous no_code insertion_sort one_call empty).0 ≡ true
unfolding scanning model_scan
one_call_scanned = refl

one_call-Sorts : Sorts no_code insertion_sort (attributed records)
unfolding scanning attributed
one_call-Sorts = record { sorted = ((λ y m. elim m [ ]), tt); permuted = Permᴰ.cons refl Permᴰ.nil }

model_scan-IsDeduplicated_example :
    ((r : Record) → Memᴰ r records → IsAcceptable r)
    × IsDeduplicated no_code
        (attributed records)
        (model_scan generous no_code insertion_sort one_call empty).1.facts
model_scan-IsDeduplicated_example =
    model_scan-IsDeduplicated generous no_code insertion_sort one_call empty (λ e. refl) refl
      one_call-Sorts one_call_scanned

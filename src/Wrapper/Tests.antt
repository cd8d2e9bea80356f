-- ===== src/Wrapper/Tests.antt =====
-- Runs of the wrapper audit on a small program, and its theorems at concrete inputs.
pub mod Samples
mod Scanning
use Prim.Native.Nat.{Ordering}
use mathlib.Core.List.{map, Permᴰ}
use p101_audit.Base.{
  ℕ, ◌≡◌, ◌≢◌, ◌↔◌, ◌⊎◌, inl, inr, ◌-◌, ◌≤◌, refl, Bool, true, false, ◌&&◌, List, [], ◌∷◌, ◌++◌,
  Option, none, some, Memᴰ, arith, length,
}
use p101_audit.Base.Text.{Text, codes, str_eq, starts_with, strstr, strchr}
use p101_audit.Base.Scan.{any, find}
use p101_audit.Wrapper.{
  Kind, Fact, Inventory, AllowRule, Arguments, Model, Platform, Finding, FindingKind, is_macro,
  is_call, is_function, is_include, copy_field,
}
use p101_audit.Wrapper.Support.{
  encloses, narrowest, semantic_caller_usr, caller_is_declared_wrapper, aliases,
  is_wrapper_implementation, defines, is_local, errno_providers, is_errno_use,
  is_errno_macro_lowering, path_has_directory_component, path_has_trailing_components, size_max,
}
use p101_audit.Wrapper.Support.Enclosing.{IsNarrowest, Encloses, semantic_caller_usr-IsNarrowest}
use p101_audit.Wrapper.Support.Membership.{
  IsDefinedHere, is_local_iff, IsErrnoLowering, is_errno_macro_lowering_iff,
}
use p101_audit.Wrapper.Support.Paths.{
  Occurs, Opens, path_has_directory_component_iff, EndsWithComponents,
  path_has_trailing_components_iff,
}
use p101_audit.Wrapper.Allow.{
  canonical_native_usr, is_wrapped_by, find_wrapper, call_is_inventory_wrapper, path_matches,
  path_matches_loop, direct_identity, wrapped_identity, fact_callee_identity, is_own_wrap,
  rule_matches, use_rule, is_allowed, is_expanded_from, lowering_step, lowering_loop,
  is_allowed_macro_lowering,
}
use p101_audit.Wrapper.Allow.Patterns.{MatchesTail, path_matches_iff}
use p101_audit.Wrapper.Allow.Rules.{IsHit}
use p101_audit.Wrapper.Allow.Permits.{Permitted, permits, is_allowed_iff}
use p101_audit.Wrapper.Allow.Lowering.{
  IsLowered, lowers_step, lowers, is_allowed_macro_lowering_iff,
}
use p101_audit.Wrapper.Findings.{
  next_capacity, grow_findings, is_at, finding_of, add_finding, platform_patterns, include_matches,
  include_is_platform_specific,
}
use p101_audit.Wrapper.Findings.Add.{IsAllocator, IsAllocated, Granting}
use p101_audit.Wrapper.Findings.Places.{Distinct, FitsFact, IsAt}
use p101_audit.Wrapper.Judge.{
  Progress, replacement_of, finding_kind, is_inside, report, is_excused, judge_unexcused,
  judge_operation, judge_fact, judge_facts, unused_rule, judge,
}
use p101_audit.Wrapper.Judge.Verdict.{
  Draft, reported_wrapper, draft_of, verdict_operation, verdict, verdict_iff, Breach,
}
use p101_audit.Wrapper.Judge.Reports.{
  start, FitsFacts, ComesFrom, judge-reports-Breach, judge-finding-ComesFrom, judge-Distinct,
  judge-IsAllocated,
}
use p101_audit.Wrapper.Judge.Rules.{judge-IsHit, judge_succeeds_iff, judge_fact_silenced}
use p101_audit.Wrapper.Observer.{Record, identity_fits, Refusal, observe_all, fact_of}
use p101_audit.Wrapper.Observer.Bounds.{
  IsBounded, IsAcceptable, observe_all-IsBounded, observe_all_lem, observe_all-granted,
}
use p101_audit.Wrapper.Callers.{
  is_lowered_to, adopt_call, covers, adopt, adopt_function, assign_caller, assign_from,
  assign_macro_callers,
}
use p101_audit.Wrapper.Callers.Independent.{assign_macro_callers-map}
use p101_audit.Wrapper.Order.{
  compare_facts, compare_text, compare_size, or_else, size_of_flag, deduplicate_facts,
  deduplicate_sorted, keep_changes, same_fact,
}
use p101_audit.Wrapper.Order.Comparison.{IsComparison, compare_facts-IsComparison}
use p101_audit.Wrapper.Order.Deduplicate.{
  IsSorted, Sorts, IsDeduplicated, deduplicate_facts-IsDeduplicated,
}
use Samples.{
  generous, bounded, blank, main_function, puts_call, errno_macro, puts_entry, program, puts_rule,
  strict, lenient,
}

-- All that a run of the judge computes with.
running : Unit {0}
unfolding str_eq starts_with strstr strchr any find is_macro is_call is_function is_include
    copy_field encloses narrowest semantic_caller_usr caller_is_declared_wrapper aliases
    is_wrapper_implementation defines is_local errno_providers is_errno_use is_errno_macro_lowering
    path_has_directory_component path_has_trailing_components canonical_native_usr is_wrapped_by
    find_wrapper call_is_inventory_wrapper path_matches path_matches_loop direct_identity
    wrapped_identity fact_callee_identity is_own_wrap rule_matches use_rule is_allowed
    is_expanded_from lowering_step lowering_loop is_allowed_macro_lowering permits lowers_step
    lowers next_capacity grow_findings is_at finding_of add_finding include_is_platform_specific
    include_matches replacement_of finding_kind is_inside report is_excused judge_unexcused
    judge_operation judge_fact judge_facts unused_rule judge reported_wrapper draft_of
    verdict_operation verdict
running = tt

abbrev missed_puts : Draft
missed_puts = record {
  kind = FindingKind.missed;
  replacement = codes "p101_puts";
  identity = codes "c:@F@puts";
}

judge-program :
    ((judge generous strict program).judged ≡ true)
    × (length (judge generous strict program).model.findings ≡ 1)
unfolding running
judge-program = (refl, refl)

judge-lenient :
    ((judge generous lenient program).judged ≡ true)
    × ((judge generous lenient program).model.findings ≡ [])
unfolding running
judge-lenient = (refl, refl)

puts-Breach : Breach generous strict program puts_call missed_puts
unfolding running
puts-Breach = (verdict_iff generous strict program puts_call _).0 refl

program-FitsFacts : FitsFacts program
program-FitsFacts f (Memᴰ.head e) = rw e (record { path = omega arith; name = omega arith })
program-FitsFacts f (Memᴰ.tail (Memᴰ.head e)) =
    rw e (record { path = omega arith; name = omega arith })
program-FitsFacts f (Memᴰ.tail (Memᴰ.tail m)) = elim m [ ]

puts_listed : Memᴰ puts_call program.facts
puts_listed = Memᴰ.tail (Memᴰ.head refl)

generous-Granting : Granting generous
generous-Granting n = refl

judge-reports-Breach_example :
    (g : Finding) × Memᴰ g (judge generous strict program).model.findings
    × IsAt puts_call puts_call.name g
judge-reports-Breach_example =
    judge-reports-Breach generous strict program puts_call missed_puts generous-Granting
      program-FitsFacts puts_listed puts-Breach

abbrev puts_finding : Finding
puts_finding = record {
  kind = FindingKind.missed;
  path = codes "app.c";
  name = codes "puts";
  caller = codes "main";
  replacement = codes "p101_puts";
  allow_identity = codes "c:@F@puts";
  line = 3;
  column = 5;
}

puts_found : Memᴰ puts_finding (judge generous strict program).model.findings
unfolding running
puts_found = Memᴰ.head refl

judge-finding-ComesFrom_example : ComesFrom generous strict program puts_finding
judge-finding-ComesFrom_example =
    judge-finding-ComesFrom generous strict program puts_finding puts_found

judge-Distinct_example : Distinct (judge generous strict program).model.findings
judge-Distinct_example = judge-Distinct generous strict program program-FitsFacts tt

lenient_judged : (judge generous lenient program).judged ≡ true
unfolding running
lenient_judged = refl

judge-IsHit_example : IsHit generous program puts_rule
judge-IsHit_example =
    judge-IsHit generous lenient program puts_rule lenient_judged (Memᴰ.head refl) refl

judge_succeeds_iff_example :
    ((judge generous lenient program).judged ≡ true)
    ↔ ((r : AllowRule) → Memᴰ r (judge generous lenient program).rules → r.uses ≢ 0)
judge_succeeds_iff_example = judge_succeeds_iff generous lenient program generous-Granting

call_is_direct : (is_macro puts_call.kind && puts_call.is_indirect) ≡ false
unfolding is_macro
call_is_direct = refl

star_matches : MatchesTail generous puts_rule.path puts_call.path
unfolding running
star_matches = inl refl

abbrev behind_main : Progress
behind_main = judge_facts generous lenient (main_function ∷ []) (start generous lenient program)

main_judged : behind_main.judged ≡ true
unfolding running
main_judged = refl

judge_fact_silenced_example :
    ((judge_fact generous lenient puts_call behind_main).model ≡ behind_main.model)
    × ((judge_fact generous lenient puts_call behind_main).judged ≡ true)
judge_fact_silenced_example =
    judge_fact_silenced generous strict lenient program puts_call missed_puts puts_rule
      (main_function ∷ []) puts-Breach (λ e. cc) call_is_direct (Memᴰ.head refl) star_matches refl
      refl puts_listed (λ g k. elim k [ Memᴰ.head e ↦ Memᴰ.head e | Memᴰ.tail l ↦ elim l [ ] ])
      main_judged

bounded-IsAllocator : IsAllocator bounded
bounded-IsAllocator = record {
  bounded = λ n h. ground arith;
  positive = omega arith;
  moderate = omega arith;
}

judge-IsAllocated_example : IsAllocated bounded (judge bounded strict program).model
judge-IsAllocated_example =
    judge-IsAllocated bounded strict program bounded-IsAllocator
      (record { room = omega arith; size = omega arith })

is_allowed_iff_example :
    ((is_allowed generous lenient puts_call (some puts_entry) lenient.allow_rules).0 ≡ true)
    ↔ Permitted generous lenient puts_call (some puts_entry)
is_allowed_iff_example = is_allowed_iff generous lenient puts_call (some puts_entry)

is_allowed_macro_lowering_iff_example :
    ((is_allowed_macro_lowering generous lenient program puts_call lenient.allow_rules).0 ≡ true)
    ↔ IsLowered generous lenient program puts_call
is_allowed_macro_lowering_iff_example =
    is_allowed_macro_lowering_iff generous lenient program puts_call

path_matches_iff_example :
    (path_matches generous (codes "app.c") (codes "src/app.c") ≡ true)
    ↔ MatchesTail generous (codes "app.c") (codes "src/app.c")
path_matches_iff_example = path_matches_iff generous (codes "app.c") (codes "src/app.c")

-- The macro stands in `main` and does not know it.
semantic_caller_usr-IsNarrowest_example :
    ((errno_macro.caller_usr ≢ [])
      × (semantic_caller_usr program errno_macro ≡ errno_macro.caller_usr))
    ⊎ ((errno_macro.caller_usr ≡ [])
        × ((f : Fact) × IsNarrowest errno_macro program.facts f
            × (semantic_caller_usr program errno_macro ≡ f.usr)))
    ⊎ ((errno_macro.caller_usr ≡ [])
        × (semantic_caller_usr program errno_macro ≡ [])
        × ((g : Fact) → Memᴰ g program.facts → Encloses errno_macro g → size_max ≤ g.end - g.start))
semantic_caller_usr-IsNarrowest_example = semantic_caller_usr-IsNarrowest program errno_macro

errno_in_main : semantic_caller_usr program errno_macro ≡ codes "c:@F@main"
unfolding running
errno_in_main = refl

is_local_iff_example : (is_local program puts_call ≡ true) ↔ IsDefinedHere program puts_call
is_local_iff_example = is_local_iff program puts_call

is_errno_macro_lowering_iff_example :
    (is_errno_macro_lowering program puts_call ≡ true) ↔ IsErrnoLowering program puts_call
is_errno_macro_lowering_iff_example = is_errno_macro_lowering_iff program puts_call

path_has_directory_component_iff_example :
    (path_has_directory_component (codes "linux/if.h") (codes "/linux/") ≡ true)
    ↔ (Occurs (codes "/linux/") (codes "linux/if.h") ⊎ Opens (codes "linux/") (codes "linux/if.h"))
path_has_directory_component_iff_example =
    path_has_directory_component_iff (codes "linux/if.h") (codes "linux/")

path_has_trailing_components_iff_example :
    (path_has_trailing_components (codes "/usr/include/sys/event.h") (codes "sys/event.h") ≡ true)
    ↔ EndsWithComponents (codes "sys/event.h") (codes "/usr/include/sys/event.h")
path_has_trailing_components_iff_example =
    path_has_trailing_components_iff (codes "/usr/include/sys/event.h") (codes "sys/event.h")

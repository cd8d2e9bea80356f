-- ===== src/Wrapper/Judge.antt =====
-- src/judge.c: `p101_wrapper_model_judge`.
pub mod Verdict
pub mod Loop
pub mod Rules
pub mod Reports
pub mod Step
use p101_audit.Base.{
  Bool, true, not, ◌&&◌, ◌||◌, List, [], ◌∷◌, Option, none, some, ◌==◌, if◌then◌else◌, is_nil,
  is_some,
}
use p101_audit.Base.Text.{Text}
use p101_audit.Wrapper.{
  Fact, Inventory, AllowRule, Arguments, Model, Platform, FindingKind, is_macro, is_call,
  is_include,
}
use p101_audit.Wrapper.Support.{
  semantic_caller_usr, is_wrapper_implementation, is_local, is_errno_macro_lowering,
}
use p101_audit.Wrapper.Allow.{
  find_wrapper, call_is_inventory_wrapper, fact_callee_identity, is_allowed,
  is_allowed_macro_lowering,
}
use p101_audit.Wrapper.Findings.{add_finding, include_is_platform_specific}

-- What the loop changes: the findings with their capacity, the rules' counters and the result.
pub record Progress : Type 0 where
  pub model : Model
  pub rules : List AllowRule
  pub judged : Bool

-- `inventory[…].wrapper`, or an empty text.
unfoldable pub replacement_of : Option Inventory → Text
replacement_of none = []
replacement_of (some w) = w.wrapper

unfoldable pub finding_kind : Fact → Option Inventory → FindingKind
finding_kind f w =
    if f.is_indirect
    then FindingKind.indirect
    else if is_some w
    then FindingKind.missed
    else FindingKind.external

-- The tests that ask neither the rules nor the allowed names.
unfoldable pub is_inside : Model → Fact → Bool
is_inside m f =
    is_nil f.name || call_is_inventory_wrapper m f || is_local m f || is_errno_macro_lowering m f

module _ (p : Platform) (args : Arguments) where
  unfoldable pub report : FindingKind → Fact → Text → Text → Progress → Progress
  report kind f replacement identity s =
      let (added, m) = add_finding p kind f f.name replacement identity s.model in
      record s { model = m; judged = s.judged && added }

  -- The nested tests of the judge, as one: may the call stand?
  unfoldable pub is_excused :
      Model → Fact → Option Inventory → List AllowRule → Bool × List AllowRule
  is_excused m f w rules =
      let (allowed, rules') = is_allowed p args f w rules in
      let lowered = is_allowed_macro_lowering p args m f rules' in
      if is_inside m f then (true, rules) else if allowed then (true, rules') else lowered

  -- What is left once the call is not excused.
  unfoldable pub judge_unexcused : Fact → Option Inventory → Progress → Progress
  unfolding report replacement_of finding_kind
  judge_unexcused f found s =
      let w = if f.is_indirect then none else found in
      if is_wrapper_implementation s.model f w
      then s
      else report (finding_kind f w) f (replacement_of w) (fact_callee_identity p f w) s

  -- A call, or the use of a macro. The first test joins those of the two `continue` statements: no
  -- function is around the macro, or the inventory does not know it.
  unfoldable pub judge_operation : Fact → Progress → Progress
  judge_operation f s =
      let w = find_wrapper s.model f in
      let (excused, rules) = is_excused s.model f w s.rules in
      if is_macro f.kind && (is_nil (semantic_caller_usr s.model f) || not (is_some w))
      then s
      else if excused
      then record s { rules = rules }
      else judge_unexcused f w (record s { rules = rules })

  -- The body of the first loop.
  unfoldable pub judge_fact : Fact → Progress → Progress
  judge_fact f s =
      if is_include f.kind
        && args.check_portability
        && include_is_platform_specific f.name f.resolved
      then report FindingKind.portability f [] [] s
      else if is_call f.kind || is_macro f.kind && not f.is_definition
      then judge_operation f s
      else s

  unfoldable pub judge_facts : List Fact → Progress → Progress
  judge_facts [] s = s
  judge_facts (f ∷ fs) s = if s.judged then judge_facts fs (judge_fact f s) else s

-- The second loop: the first rule that no call used is the error that is raised.
unfoldable pub unused_rule : List AllowRule → Option AllowRule
unused_rule [] = none
unused_rule (r ∷ rs) = let later = unused_rule rs in if r.uses == 0 then some r else later

pub record Judged : Type 0 where
  pub model : Model
  pub rules : List AllowRule
  pub unused : Option AllowRule
  pub judged : Bool

unfoldable pub judge : Platform → Arguments → Model → Judged
judge p args m =
    let s =
      judge_facts p args m.facts (record { model = m; rules = args.allow_rules; judged = true }) in
    let unused = if s.judged then unused_rule s.rules else none in
    record {
      model = s.model;
      rules = s.rules;
      unused = unused;
      judged = s.judged && not (is_some unused);
    }

-- ===== src/Wrapper/Judge/Step.antt =====
-- One round of the judge computes the verdict of its fact.
use p101_audit.Base.{
  ◌≡◌, refl, ◌∙◌, ap, inl, inr, Bool, true, not, ◌&&◌, ◌||◌, List, [], ◌∷◌, Option, none, some,
  arith, Bool-cases, Memᴰ, if◌then◌else◌, is_nil, is_some,
}
use p101_audit.Wrapper.{
  Platform, Fact, Inventory, AllowRule, Arguments, Model, is_macro, is_call, is_include,
}
use p101_audit.Wrapper.Support.{
  semantic_caller_usr, is_wrapper_implementation, caller_is_declared_wrapper, is_local,
  is_errno_macro_lowering,
}
use p101_audit.Wrapper.Allow.{
  fact_callee_identity, find_wrapper, call_is_inventory_wrapper, is_allowed,
  is_allowed_macro_lowering, lowering_loop, lowering_step,
}
use p101_audit.Wrapper.Allow.Rules.{Traced, any-Traced, is_allowed-Traced}
use p101_audit.Wrapper.Allow.Permits.{permits, is_allowed-permits}
use p101_audit.Wrapper.Allow.Lowering.{lowers, is_allowed_macro_lowering_lem}
use p101_audit.Wrapper.Findings.{include_is_platform_specific, add_finding}
use p101_audit.Wrapper.Judge.{
  Progress, is_inside, report, is_excused, judge_unexcused, judge_operation, judge_fact,
}
use p101_audit.Wrapper.Judge.Verdict.{
  Draft, verdict, verdict_operation, reported_wrapper, draft_of, portability_draft,
}

-- The judge changes neither the facts nor the inventory.
pub record SameInputs (m m' : Model) : Type 0 where
  pub facts : m'.facts ≡ m.facts
  pub inventory : m'.inventory ≡ m.inventory

module _ (m m' : Model) (e : SameInputs m m') (f : Fact) where
  find_wrapper-SameInputs : find_wrapper m' f ≡ find_wrapper m f
  unfolding find_wrapper
  find_wrapper-SameInputs = rw e.inventory refl

  semantic_caller_usr-SameInputs : semantic_caller_usr m' f ≡ semantic_caller_usr m f
  unfolding semantic_caller_usr
  semantic_caller_usr-SameInputs = rw e.facts refl

  is_wrapper_implementation-SameInputs :
      (w : Option Inventory) → is_wrapper_implementation m' f w ≡ is_wrapper_implementation m f w
  unfolding is_wrapper_implementation caller_is_declared_wrapper
  is_wrapper_implementation-SameInputs none = simp semantic_caller_usr-SameInputs
  is_wrapper_implementation-SameInputs (some w) = simp semantic_caller_usr-SameInputs

  is_inside-SameInputs : is_inside m' f ≡ is_inside m f
  unfolding is_inside call_is_inventory_wrapper is_local is_errno_macro_lowering
  is_inside-SameInputs = rw (e.facts, e.inventory) refl

module _ (p : Platform) (args : Arguments) (m m' : Model) (e : SameInputs m m') (f : Fact) where
  lowering_loop-SameInputs :
      (fs : List Fact) (rs : List AllowRule)
      → lowering_loop p args m' f fs rs ≡ lowering_loop p args m f fs rs
  unfolding lowering_loop lowering_step
  lowering_loop-SameInputs [] rs = refl
  lowering_loop-SameInputs (g ∷ fs) rs =
      simp (find_wrapper-SameInputs m m' e g, lowering_loop-SameInputs fs)

  is_allowed_macro_lowering-SameInputs :
      (rs : List AllowRule)
      → is_allowed_macro_lowering p args m' f rs ≡ is_allowed_macro_lowering p args m f rs
  unfolding is_allowed_macro_lowering
  is_allowed_macro_lowering-SameInputs rs =
      lowering_loop-SameInputs m'.facts rs ∙ ap (λ fs. lowering_loop p args m f fs rs) e.facts

  is_excused-SameInputs :
      (w : Option Inventory) (rs : List AllowRule)
      → is_excused p args m' f w rs ≡ is_excused p args m f w rs
  unfolding is_excused
  is_excused-SameInputs w rs =
      rw
        (
          is_inside-SameInputs m m' e f,
          is_allowed_macro_lowering-SameInputs (is_allowed p args f w rs).1,
        )
        refl

module _ (p : Platform) (args : Arguments) (m : Model) (f : Fact) (listed : Memᴰ f m.facts) where
  -- The tests with their counters answer as the tests without.
  is_excused_lem :
      (rs : List AllowRule)
      → Traced p m args.allow_rules rs
      → ((is_excused p args m f (find_wrapper m f) rs).0
          ≡ (is_inside m f || permits p args f (find_wrapper m f) || lowers p args m f))
        × Traced p m args.allow_rules (is_excused p args m f (find_wrapper m f) rs).1
  unfolding is_excused
  is_excused_lem rs t =
      let w = find_wrapper m f in
      let answer =
        is_allowed-permits p args f w rs
          (any-Traced p f (fact_callee_identity p f w) m args.allow_rules rs t) in
      let t' = is_allowed-Traced p m f listed args args.allow_rules rs t in
      let (answer', t'') =
        is_allowed_macro_lowering_lem p args m f (is_allowed p args f w rs).1 t' in
      elim (Bool-cases (is_inside m f)) [
        | inl i ↦ rw i (refl, t)
        | inr i ↦ elim (Bool-cases (is_allowed p args f w rs).0) [
          | inl a ↦ rw (i, a) (ground arith, t')
          | inr a ↦ rw (i, a) (ground arith, t'')
        ]
      ]

-- Adding what a verdict says.
unfoldable pub add_verdict : Platform → Fact → Option Draft → Model → Bool × Model
add_verdict p f none m = (true, m)
add_verdict p f (some d) m = add_finding p d.kind f f.name d.replacement d.identity m

-- What holds between two rounds.
pub record Invariant (p : Platform) (args : Arguments) (m : Model) (s : Progress) : Type 0 where
  pub same : SameInputs m s.model
  pub traced : Traced p m args.allow_rules s.rules

-- A round: the verdict is added, and only the rules' counters change besides.
pub record Round (p : Platform) (args : Arguments) (m : Model) (f : Fact) (s s' : Progress)
    : Type 0 where
  pub model : s'.model ≡ (add_verdict p f (verdict p args m f) s.model).1
  pub judged : s'.judged ≡ (s.judged && (add_verdict p f (verdict p args m f) s.model).0)
  pub traced : Traced p m args.allow_rules s'.rules

module _ (p : Platform) (args : Arguments) (m : Model) (f : Fact) where
  -- What the round makes of a verdict `v` that is known.
  record Outcome (v : Option Draft) (rules : List AllowRule) (s s' : Progress) : Type 0 where
    model : s'.model ≡ (add_verdict p f v s.model).1
    judged : s'.judged ≡ (s.judged && (add_verdict p f v s.model).0)
    rules_kept : s'.rules ≡ rules

  Outcome-none : (s : Progress) → s.judged ≡ true → Outcome none s.rules s s
  unfolding add_verdict
  Outcome-none s on = record { model = refl; judged = rw on refl; rules_kept = refl }

  report_lem :
      (d : Draft) (s : Progress)
      → Outcome (some d) s.rules s (report p args d.kind f d.replacement d.identity s)
  unfolding report add_verdict
  report_lem d s = record { model = refl; judged = refl; rules_kept = refl }

  verdict_unexcused : Option Draft
  verdict_unexcused =
      if is_wrapper_implementation m f (reported_wrapper m f)
      then none
      else some (draft_of p f (reported_wrapper m f))

  judge_unexcused_lem :
      (s : Progress)
      → SameInputs m s.model
      → s.judged ≡ true
      → Outcome verdict_unexcused s.rules s (judge_unexcused p args f (find_wrapper m f) s)
  unfolding judge_unexcused verdict_unexcused reported_wrapper
  judge_unexcused_lem s same on =
      rw (is_wrapper_implementation-SameInputs m s.model same f (reported_wrapper m f))
        (elim (Bool-cases (is_wrapper_implementation m f (reported_wrapper m f))) [
          | inl e ↦ rw e (Outcome-none s on)
          | inr e ↦ rw e (unfold draft_of in report_lem (draft_of p f (reported_wrapper m f)) s)
        ])

  abbrev Ends : Option Draft → Progress → Progress → Type 0
  Ends v s s' = (rules : List AllowRule) × Traced p m args.allow_rules rules × Outcome v rules s s'

  excused-Outcome :
      (rules : List AllowRule) (s : Progress)
      → s.judged ≡ true
      → Outcome none rules s (record s { rules = rules })
  unfolding add_verdict
  excused-Outcome rules s on = record { model = refl; judged = rw on refl; rules_kept = refl }

  with_rules :
      (v : Option Draft) (rules : List AllowRule) (s s' : Progress)
      → Outcome v rules (record s { rules = rules }) s'
      → Outcome v rules s s'
  with_rules v rules s s' o = record {
    model = o.model;
    judged = o.judged;
    rules_kept = o.rules_kept;
  }

  judge_operation_lem :
      (s : Progress)
      → Memᴰ f m.facts
      → Invariant p args m s
      → s.judged ≡ true
      → Ends (verdict_operation p args m f) s (judge_operation p args f s)
  unfolding judge_operation verdict_operation verdict_unexcused
  judge_operation_lem s listed inv on =
      let w = find_wrapper m f in
      let excused = is_excused p args m f w s.rules in
      let (answer, traced) = is_excused_lem p args m f listed s.rules inv.traced in
      rw
        (
          find_wrapper-SameInputs m s.model inv.same f,
          semantic_caller_usr-SameInputs m s.model inv.same f,
          is_excused-SameInputs p args m s.model inv.same f w s.rules,
        )
        (elim (Bool-cases
          (is_macro f.kind && (is_nil (semantic_caller_usr m f) || not (is_some w)))) [
            | inl e ↦ rw e (s.rules, inv.traced, Outcome-none s on)
            | inr e ↦
                rw (e, ← answer)
                  (elim (Bool-cases excused.0) [
                    | inl x ↦ rw x (excused.1, traced, excused-Outcome excused.1 s on)
                    | inr x ↦ rw x (
                      excused.1,
                      traced,
                      with_rules verdict_unexcused excused.1 s _
                          (judge_unexcused_lem (record s { rules = excused.1 }) inv.same on),
                    )
                  ])
          ])

  Round-of_Ends : (s s' : Progress) → Ends (verdict p args m f) s s' → Round p args m f s s'
  Round-of_Ends s s' (rules, traced, o) = record {
    model = o.model;
    judged = o.judged;
    traced = rw o.rules_kept traced;
  }

  judge_fact-Ends :
      (s : Progress)
      → Memᴰ f m.facts
      → Invariant p args m s
      → s.judged ≡ true
      → Ends (verdict p args m f) s (judge_fact p args f s)
  unfolding judge_fact verdict
  judge_fact-Ends s listed inv on =
      elim (Bool-cases (
        is_include f.kind
        && args.check_portability
        && include_is_platform_specific f.name f.resolved)) [
          | inl e ↦ rw e (s.rules, inv.traced, report_lem portability_draft s)
          | inr e ↦ elim (Bool-cases (is_call f.kind || is_macro f.kind && not f.is_definition)) [
            | inl o ↦ rw (e, o) (judge_operation_lem s listed inv on)
            | inr o ↦ rw (e, o) (s.rules, inv.traced, Outcome-none s on)
          ]
        ]

-- The round computes the verdict, whatever the earlier rounds left.
pub judge_fact-Round :
    (p : Platform) (args : Arguments) (m : Model) (f : Fact) (s : Progress)
    → Memᴰ f m.facts
    → Invariant p args m s
    → s.judged ≡ true
    → Round p args m f s (judge_fact p args f s)
judge_fact-Round p args m f s listed inv on =
    Round-of_Ends p args m f s (judge_fact p args f s) (judge_fact-Ends p args m f s listed inv on)

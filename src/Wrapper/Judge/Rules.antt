-- ===== src/Wrapper/Judge/Rules.antt =====
-- The second loop of the judge: allow rules that no call used; and the identity that a report
-- prints for an allow file.
use p101_audit.Base.{
  ◌≡◌, ◌≢◌, refl, sym, ◌∙◌, ap, ◌↔◌, inl, inr, true, false, ◌&&◌, List, [], ◌∷◌, none, arith,
  Option-cases, Memᴰ, subst,
}
use p101_audit.Wrapper.{
  Platform, Fact, AllowRule, Arguments, Model, FindingKind, is_macro, is_include,
}
use p101_audit.Wrapper.Findings.Add.{Granting}
use p101_audit.Wrapper.Allow.{fact_callee_identity, wrapped_identity, find_wrapper}
use p101_audit.Wrapper.Allow.Patterns.{MatchesTail}
use p101_audit.Wrapper.Allow.Permits.{ruled}
use p101_audit.Wrapper.Allow.Rules.{IsHit, Traced}
use p101_audit.Wrapper.Judge.{Progress, judge, judge_fact, judge_facts, unused_rule}
use p101_audit.Wrapper.Judge.Verdict.{
  Draft, draft_of, reported_wrapper, IsOperation, Breach, platform_include, boundary, call,
  macro_use, kinds_apart, verdict, verdict_iff,
}
use p101_audit.Wrapper.Judge.Step.{Round, add_verdict, judge_fact-Round}
use p101_audit.Wrapper.Judge.Loop.{judge_facts_inv}
use p101_audit.Wrapper.Judge.Reports.{start, start-Invariant, granted}

all_used : (rs : List AllowRule) → unused_rule rs ≡ none → (r : AllowRule) → Memᴰ r rs → r.uses ≢ 0
unfolding unused_rule
all_used [] h r listed = elim listed [ ]
all_used (s ∷ rs) h r (Memᴰ.head e) = λ zero_uses. ground (arith, ap (λ x. x.uses) e)
all_used (s ∷ rs) h r (Memᴰ.tail k) = all_used rs (ground arith) r k

unused_none :
    (rs : List AllowRule) → ((r : AllowRule) → Memᴰ r rs → r.uses ≢ 0) → unused_rule rs ≡ none
unfolding unused_rule
unused_none [] h = refl
unused_none (s ∷ rs) h =
    ground (arith, h s (Memᴰ.head refl), unused_none rs (λ r k. h r (Memᴰ.tail k)))

IsHit-of_used :
    (p : Platform) (m : Model) (rs rs' : List AllowRule)
    → Traced p m rs rs'
    → unused_rule rs' ≡ none
    → (r : AllowRule) → Memᴰ r rs
    → r.uses ≡ 0
    → IsHit p m r
unfolding unused_rule
IsHit-of_used p m [] rs' t h r listed z = elim listed [ ]
IsHit-of_used p m (s ∷ rs) [] t h r listed z = elim t [ ]
IsHit-of_used p m (s ∷ rs) (s' ∷ rs') (same, inl kept, t) h r (Memᴰ.head e) z =
    absurd (ground (arith, ap (λ x. x.uses) e))
IsHit-of_used p m (s ∷ rs) (s' ∷ rs') (same, inr hit, t) h r (Memᴰ.head e) z =
    subst (λ x. IsHit p m x) (sym e) hit
IsHit-of_used p m (s ∷ rs) (s' ∷ rs') (same, used, t) h r (Memᴰ.tail k) z =
    IsHit-of_used p m rs rs' t (ground arith) r k z

-- If the judge succeeds, then each allow rule that came with no use agrees with a fact of the model:
-- its pattern matches the fact's path or a tail of it behind a slash, its caller is empty or the
-- fact's, and its callee is the identity that the fact has by the inventory entry that is found for
-- it. So a rule that agrees with no fact is refused.
pub judge-IsHit :
    (p : Platform) (args : Arguments) (m : Model) (r : AllowRule)
    → (judge p args m).judged ≡ true
    → Memᴰ r args.allow_rules
    → r.uses ≡ 0
    → IsHit p m r
unfolding judge
judge-IsHit p args m r h listed z =
    let s = judge_facts p args m.facts (start p args m) in
    let inv =
      judge_facts_inv p args m (λ _. Unit {0}) (λ _ _ _ _. tt) m.facts (start p args m) (λ f k. k)
        (start-Invariant p args m) tt in
    IsHit-of_used p m args.allow_rules s.rules inv.0.traced (ground arith) r listed z

-- Where memory never runs out, the judge ends, and succeeds exactly if every rule behind it counts a
-- use.
pub judge_succeeds_iff :
    (p : Platform) (args : Arguments) (m : Model)
    → Granting p
    → ((judge p args m).judged ≡ true)
      ↔ ((r : AllowRule) → Memᴰ r (judge p args m).rules → r.uses ≢ 0)
unfolding judge
judge_succeeds_iff p args m g =
    let s = judge_facts p args m.facts (start p args m) in
    let on : s.judged ≡ true =
      granted p args m m.facts (start p args m) (λ f k. k) g (start-Invariant p args m) refl in
    (λ h. all_used s.rules (ground arith), λ h. ground (arith, on, unused_none s.rules h))

-- The identity in a report is the one that the rules are compared with.
identity_of_report :
    (p : Platform) (m : Model) (f : Fact)
    → (is_macro f.kind && f.is_indirect) ≡ false
    → fact_callee_identity p f (reported_wrapper m f) ≡ fact_callee_identity p f (find_wrapper m f)
unfolding fact_callee_identity reported_wrapper wrapped_identity
identity_of_report p m f h = elim (Option-cases (find_wrapper m f)) [
  | inl q ↦ rw q (ground arith)
  | inr (w, q) ↦ rw q (ground arith)
]

not_include : (m : Model) (f : Fact) → IsOperation m f → is_include f.kind ≡ false
not_include m f (call c) = ((kinds_apart f.kind).0 c).0
not_include m f (macro_use w k u n q) = ((kinds_apart f.kind).1 k).0

-- With the printed identity as its callee, no caller and a pattern for the path, a rule permits.
Breach-silenced :
    (p : Platform) (args args' : Arguments) (m : Model) (f : Fact) (d : Draft) (r : AllowRule)
    → Breach p args m f d
    → d.kind ≢ FindingKind.portability
    → (is_macro f.kind && f.is_indirect) ≡ false
    → Memᴰ r args'.allow_rules
    → MatchesTail p r.path f.path
    → r.caller_usr ≡ []
    → r.callee_usr ≡ d.identity
    → (d' : Draft) → ¬ Breach p args' m f d'
unfolding draft_of
Breach-silenced p args args' m f d r (platform_include i c s e) k direct listed path caller callee
      d' b =
    absurd (k (ap (λ x. x.kind) e))
Breach-silenced p args args' m f d r (boundary op o e) k direct listed path caller callee d' b =
    let same = identity_of_report p m f direct in
    let permit = ruled r listed path (inl caller) (callee ∙ ap (λ x. x.identity) e ∙ same) in
    elim b [
      | platform_include i c s e' ↦ absurd (ground (arith, not_include m f op))
      | boundary op' o' e' ↦ o'.no_permit permit
    ]

add_verdict-none :
    (p : Platform) (args : Arguments) (m : Model) (f : Fact) (s s' : Progress)
    → Round p args m f s s'
    → s.judged ≡ true
    → ((d : Draft) → ¬ Breach p args m f d)
    → (s'.model ≡ s.model) × (s'.judged ≡ true)
unfolding add_verdict
add_verdict-none p args m f s s' round on no_breach = elim (Option-cases (verdict p args m f)) [
  | inl q ↦ (rw q at round.model, rw (q, on) at round.judged)
  | inr (d, q) ↦ absurd (no_breach d ((verdict_iff p args m f d).0 q))
]

-- The identity that a report prints serves in an allow file. Let a call or a macro use of the model,
-- that is not a macro use marked as indirect, break the boundary under some arguments, with the
-- identity that its report prints. Under arguments with a rule of that callee, no caller, and a
-- pattern that matches the path, the judge's round for it, behind the rounds for any facts of the
-- model as long as they fail not, adds no finding, changes nothing else of the model, and does not
-- fail.
pub judge_fact_silenced :
    (p : Platform) (args args' : Arguments) (m : Model) (f : Fact) (d : Draft) (r : AllowRule)
    (before : List Fact)
    → Breach p args m f d
    → d.kind ≢ FindingKind.portability
    → (is_macro f.kind && f.is_indirect) ≡ false
    → Memᴰ r args'.allow_rules
    → MatchesTail p r.path f.path
    → r.caller_usr ≡ []
    → r.callee_usr ≡ d.identity
    → Memᴰ f m.facts
    → ((g : Fact) → Memᴰ g before → Memᴰ g m.facts)
    → (judge_facts p args' before (start p args' m)).judged ≡ true
    → ((judge_fact p args' f (judge_facts p args' before (start p args' m))).model
        ≡ (judge_facts p args' before (start p args' m)).model)
      × ((judge_fact p args' f (judge_facts p args' before (start p args' m))).judged ≡ true)
judge_fact_silenced p args args' m f d r before b k direct listed path caller callee here inner on =
    let s = judge_facts p args' before (start p args' m) in
    let inv =
      judge_facts_inv p args' m (λ _. Unit {0}) (λ _ _ _ _. tt) before (start p args' m) inner
        (start-Invariant p args' m) tt in
    add_verdict-none p args' m f s (judge_fact p args' f s)
      (judge_fact-Round p args' m f s here inv.0 on) on
      (Breach-silenced p args args' m f d r b k direct listed path caller callee)

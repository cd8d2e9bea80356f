-- ===== src/Wrapper/Judge/Reports.antt =====
-- What `judge` reports: every breach, nothing else, and no place twice.
use p101_audit.Base.{
  ◌≡◌, refl, sym, ◌⊎◌, inl, inr, true, ◌&&◌, List, [], ◌∷◌, some, arith, Bool-cases, Memᴰ, subst,
}
use p101_audit.Base.Scan.{any, any_sound}
use p101_audit.Wrapper.{Platform, Fact, Arguments, Model, Finding}
use p101_audit.Wrapper.Findings.{add_finding, is_at}
use p101_audit.Wrapper.Findings.Add.{IsAllocator, IsAllocated, Granting}
use p101_audit.Wrapper.Findings.Places.{Distinct, FitsFact, IsAt, is_at_iff, add_finding-any}
use p101_audit.Wrapper.Allow.Rules.{Traced-refl}
use p101_audit.Wrapper.Judge.{Progress, judge_fact, judge_facts, judge}
use p101_audit.Wrapper.Judge.Verdict.{Draft, verdict, Breach, verdict_iff}
use p101_audit.Wrapper.Judge.Step.{Invariant, add_verdict, judge_fact-Round}
use p101_audit.Wrapper.Judge.Loop.{
  finding_on, add_verdict-Distinct, add_verdict-IsAllocated, add_verdict-any, add_verdict-mem,
  add_verdict-granted, next-Invariant, judge_facts_on, judge_facts_off, judge_facts_inv,
}

-- The texts that place the facts fit into a finding.
abbrev pub FitsFacts : Model → Type 0
FitsFacts m = (f : Fact) → Memᴰ f m.facts → FitsFact f

module _ (p : Platform) (args : Arguments) where
  judged_before :
      (fs : List Fact) (s : Progress) → (judge_facts p args fs s).judged ≡ true → s.judged ≡ true
  judged_before [] s h = unfold judge_facts in h
  judged_before (f ∷ fs) s h = elim (Bool-cases s.judged) [
    | inl on ↦ on
    | inr off ↦ rw (judge_facts_off p args f fs s off) at h
  ]

module _ (p : Platform) (args : Arguments) (m : Model) where
  abbrev pub start : Progress
  start = record { model = m; rules = args.allow_rules; judged = true }

  pub start-Invariant : Invariant p args m start
  start-Invariant = record {
    same = record { facts = refl; inventory = refl };
    traced = Traced-refl p m args.allow_rules;
  }

  reported_at :
      (f : Fact) (d : Draft) (s : Progress)
      → FitsFact f
      → Memᴰ f m.facts
      → Invariant p args m s
      → s.judged ≡ true
      → (judge_fact p args f s).judged ≡ true
      → verdict p args m f ≡ some d
      → any (is_at f f.name) (judge_fact p args f s).model.findings ≡ true
  unfolding add_verdict
  reported_at f d s fits here inv on h v =
      let round = judge_fact-Round p args m f s here inv on in
      let model : (judge_fact p args f s).model
          ≡ (add_finding p d.kind f f.name d.replacement d.identity s.model).1 =
        rw v at round.model in
      let judged : (judge_fact p args f s).judged
          ≡ (s.judged && (add_finding p d.kind f f.name d.replacement d.identity s.model).0) =
        rw v at round.judged in
      rw model (add_finding-any p d.kind f d.replacement d.identity fits s.model (ground arith))

  reports :
      (fs : List Fact) (s : Progress)
      → ((f : Fact) → Memᴰ f fs → Memᴰ f m.facts)
      → FitsFacts m
      → Invariant p args m s
      → (judge_facts p args fs s).judged ≡ true
      → (f : Fact) (d : Draft) → Memᴰ f fs
      → verdict p args m f ≡ some d
      → any (is_at f f.name) (judge_facts p args fs s).model.findings ≡ true
  reports [] s listed fits inv h f d here v = elim here [ ]
  reports (g ∷ fs) s listed fits inv h f d (Memᴰ.head e) v =
      let on = judged_before p args (g ∷ fs) s h in
      let same = judge_facts_on p args g fs s on in
      let s' = judge_fact p args g s in
      let at_g = listed g (Memᴰ.head refl) in
      let h' : (judge_facts p args fs s').judged ≡ true = rw same at h in
      let found =
        reported_at g d s (fits g at_g) at_g inv on (judged_before p args fs s' h')
          (subst (λ x. verdict p args m x ≡ some d) e v) in
      let kept =
        judge_facts_inv p args m (λ m'. any (is_at g g.name) m'.findings ≡ true)
          (λ x m' _. add_verdict-any p x (is_at g g.name) (verdict p args m x) m') fs s'
          (λ x k. listed x (Memᴰ.tail k)) (next-Invariant p args m g s at_g inv on) found in
      subst (λ x. any (is_at x x.name) (judge_facts p args (g ∷ fs) s).model.findings ≡ true)
        (sym e) (rw same kept.1)
  reports (g ∷ fs) s listed fits inv h f d (Memᴰ.tail k) v =
      let on = judged_before p args (g ∷ fs) s h in
      let same = judge_facts_on p args g fs s on in
      let at_g = listed g (Memᴰ.head refl) in
      let h' : (judge_facts p args fs (judge_fact p args g s)).judged ≡ true = rw same at h in
      let found =
        reports fs (judge_fact p args g s) (λ x l. listed x (Memᴰ.tail l)) fits
          (next-Invariant p args m g s at_g inv on) h' f d k v in
      rw same found

  pub granted :
      (fs : List Fact) (s : Progress)
      → ((f : Fact) → Memᴰ f fs → Memᴰ f m.facts)
      → Granting p
      → Invariant p args m s
      → s.judged ≡ true
      → (judge_facts p args fs s).judged ≡ true
  granted [] s listed g inv on = unfold judge_facts in on
  granted (f ∷ fs) s listed g inv on =
      let here = listed f (Memᴰ.head refl) in
      let round = judge_fact-Round p args m f s here inv on in
      let more = add_verdict-granted p f (verdict p args m f) s.model g in
      let on' : (judge_fact p args f s).judged ≡ true = ground (arith, round.judged, more) in
      let rest =
        granted fs (judge_fact p args f s) (λ x k. listed x (Memᴰ.tail k)) g
          (next-Invariant p args m f s here inv on) on' in
      rw (judge_facts_on p args f fs s on) rest

  ends :
      (P : Model → Type 0)
      → ((f : Fact) (m' : Model)
          → Memᴰ f m.facts
          → P m'
          → P (add_verdict p f (verdict p args m f) m').1)
      → P m
      → P (judge p args m).model
  unfolding judge
  ends P keep h = (judge_facts_inv p args m P keep m.facts start (λ f k. k) start-Invariant h).1

-- If memory never runs out and the facts' paths and names fit into a finding, then for each breach
-- of the wrapper boundary by a fact of the model the judge reports a finding at the fact's line,
-- column, path and name. A breach is an include specific to a platform, where portability is
-- checked, or a call or macro use that no rule, name, lowering or wrapper excuses.
pub judge-reports-Breach :
    (p : Platform) (args : Arguments) (m : Model) (f : Fact) (d : Draft)
    → Granting p
    → FitsFacts m
    → Memᴰ f m.facts
    → Breach p args m f d
    → (g : Finding) × Memᴰ g (judge p args m).model.findings × IsAt f f.name g
unfolding judge
judge-reports-Breach p args m f d g fits listed b =
    let on =
      granted p args m m.facts (start p args m) (λ x k. k) g (start-Invariant p args m) refl in
    let found =
      reports p args m m.facts (start p args m) (λ x k. k) fits (start-Invariant p args m) on f d
        listed ((verdict_iff p args m f d).1 b) in
    let (h, there, placed) = any_sound (is_at f f.name) _ found in
    (h, there, (is_at_iff f f.name h).0 placed)

-- Where the finding of a judged model comes from.
abbrev pub ComesFrom : Platform → Arguments → Model → Finding → Type 0
ComesFrom p args m g =
    Memᴰ g m.findings
    ⊎ ((f : Fact) × (d : Draft) × Memᴰ f m.facts × Breach p args m f d × (g ≡ finding_on f d))

-- Every finding behind the judge stood in the model before, or is the report of a breach by a fact
-- of the model: its kind, replacement and identity are those of the breach, and its texts those of
-- the fact, cut to the size of a finding.
pub judge-finding-ComesFrom :
    (p : Platform) (args : Arguments) (m : Model) (g : Finding)
    → Memᴰ g (judge p args m).model.findings
    → ComesFrom p args m g
judge-finding-ComesFrom p args m =
    ends p args m (λ m'. (g : Finding) → Memᴰ g m'.findings → ComesFrom p args m g)
      (λ f m' listed before g k. elim (add_verdict-mem p f (verdict p args m f) m' g k) [
        | inl old ↦ before g old
        | inr (d, v, e) ↦ inr (f, d, listed, (verdict_iff p args m f d).0 v, e)
      ])
      (λ g k. inl k)

-- If no two findings of the model stand at one place, and the facts' paths and names fit into a
-- finding, then no two findings behind the judge stand at one place.
pub judge-Distinct :
    (p : Platform) (args : Arguments) (m : Model)
    → FitsFacts m
    → Distinct m.findings
    → Distinct (judge p args m).model.findings
judge-Distinct p args m fits =
    ends p args m (λ m'. Distinct m'.findings)
      (λ f m' listed. add_verdict-Distinct p f (verdict p args m f) m' (fits f listed))

-- Where memory is given as the C library promises, the judge writes its findings within their
-- array, also where memory runs out.
pub judge-IsAllocated :
    (p : Platform) (args : Arguments) (m : Model)
    → IsAllocator p
    → IsAllocated p m
    → IsAllocated p (judge p args m).model
judge-IsAllocated p args m a =
    ends p args m (IsAllocated p)
      (λ f m' listed. add_verdict-IsAllocated p f (verdict p args m f) m' a)

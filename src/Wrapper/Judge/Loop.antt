-- ===== src/Wrapper/Judge/Loop.antt =====
-- The first loop of the judge: what every round keeps, and what all rounds together report.
use p101_audit.Base.{
  ◌≡◌, refl, ap, ◌⊎◌, inl, inr, Bool, true, false, List, [], ◌∷◌, Option, none, some, arith,
  Bool-cases, Memᴰ, if◌then◌else◌,
}
use p101_audit.Base.Scan.{any, any-append, mem_snoc_cases}
use p101_audit.Wrapper.{Platform, Fact, Arguments, Model, Finding}
use p101_audit.Wrapper.Findings.{finding_of}
use p101_audit.Wrapper.Findings.Add.{
  known, refused, appended, add_finding_cases, IsAllocator, IsAllocated, add_finding-IsAllocated,
  Granting, add_finding-granted,
}
use p101_audit.Wrapper.Findings.Places.{Distinct, FitsFact, add_finding-Distinct}
use p101_audit.Wrapper.Judge.{Progress, judge_fact, judge_facts}
use p101_audit.Wrapper.Judge.Verdict.{Draft, verdict}
use p101_audit.Wrapper.Judge.Step.{SameInputs, Invariant, add_verdict, judge_fact-Round}

-- The finding that a verdict on a fact adds.
abbrev pub finding_on : Fact → Draft → Finding
finding_on f d = finding_of d.kind f f.name d.replacement d.identity

module _ (p : Platform) (f : Fact) where
  add_verdict-SameInputs :
      (v : Option Draft) (m m' : Model) → SameInputs m m' → SameInputs m (add_verdict p f v m').1
  unfolding add_verdict
  add_verdict-SameInputs none m m' e = e
  add_verdict-SameInputs (some d) m m' e =
      elim (add_finding_cases p d.kind f f.name d.replacement d.identity m') [
        | known _ q ↦ rw q e
        | refused _ q ↦ rw q e
        | appended capacity _ q ↦ rw q (record { facts = e.facts; inventory = e.inventory })
      ]

  pub add_verdict-Distinct :
      (v : Option Draft) (m : Model)
      → FitsFact f
      → Distinct m.findings
      → Distinct (add_verdict p f v m).1.findings
  unfolding add_verdict
  add_verdict-Distinct none m fits h = h
  add_verdict-Distinct (some d) m fits h =
      add_finding-Distinct p d.kind f d.replacement d.identity fits m h

  pub add_verdict-IsAllocated :
      (v : Option Draft) (m : Model)
      → IsAllocator p
      → IsAllocated p m
      → IsAllocated p (add_verdict p f v m).1
  unfolding add_verdict
  add_verdict-IsAllocated none m a h = h
  add_verdict-IsAllocated (some d) m a h =
      add_finding-IsAllocated p d.kind f f.name d.replacement d.identity m a h

  -- Findings are never taken away.
  pub add_verdict-any :
      (test : Finding → Bool) (v : Option Draft) (m : Model)
      → any test m.findings ≡ true
      → any test (add_verdict p f v m).1.findings ≡ true
  unfolding add_verdict
  add_verdict-any test none m h = h
  add_verdict-any test (some d) m h =
      elim (add_finding_cases p d.kind f f.name d.replacement d.identity m) [
        | known _ q ↦ rw q h
        | refused _ q ↦ rw q h
        | appended capacity _ q ↦ rw (q, any-append test m.findings _) (ground arith)
      ]

  pub add_verdict-mem :
      (v : Option Draft) (m : Model) (g : Finding)
      → Memᴰ g (add_verdict p f v m).1.findings
      → Memᴰ g m.findings ⊎ ((d : Draft) × (v ≡ some d) × (g ≡ finding_on f d))
  unfolding add_verdict
  add_verdict-mem none m g listed = inl listed
  add_verdict-mem (some d) m g listed =
      elim (add_finding_cases p d.kind f f.name d.replacement d.identity m) [
        | known _ q ↦ inl (rw q at listed)
        | refused _ q ↦ inl (rw q at listed)
        | appended capacity _ q ↦ elim (mem_snoc_cases m.findings (rw q at listed)) [
          | inl old ↦ inl old
          | inr last ↦ inr (d, refl, last)
        ]
      ]

  pub add_verdict-granted :
      (v : Option Draft) (m : Model) → Granting p → (add_verdict p f v m).0 ≡ true
  unfolding add_verdict
  add_verdict-granted none m g = refl
  add_verdict-granted (some d) m g =
      add_finding-granted p d.kind f f.name d.replacement d.identity m g

module _ (p : Platform) (args : Arguments) (f : Fact) (fs : List Fact) (s : Progress) where
  pub judge_facts_on :
      s.judged ≡ true
      → judge_facts p args (f ∷ fs) s ≡ judge_facts p args fs (judge_fact p args f s)
  unfolding judge_facts
  judge_facts_on e = ap (λ b. if b then judge_facts p args fs (judge_fact p args f s) else s) e

  pub judge_facts_off : s.judged ≡ false → judge_facts p args (f ∷ fs) s ≡ s
  unfolding judge_facts
  judge_facts_off e = ap (λ b. if b then judge_facts p args fs (judge_fact p args f s) else s) e

module _ (p : Platform) (args : Arguments) (m : Model) where
  pub next-Invariant :
      (f : Fact) (s : Progress)
      → Memᴰ f m.facts
      → Invariant p args m s
      → s.judged ≡ true
      → Invariant p args m (judge_fact p args f s)
  next-Invariant f s here inv on =
      let round = judge_fact-Round p args m f s here inv on in
      record {
        same = rw round.model (add_verdict-SameInputs p f (verdict p args m f) m s.model inv.same);
        traced = round.traced;
      }

-- A property of the model that each verdict keeps holds behind the loop.
module _ (p : Platform) (args : Arguments) (m : Model) (P : Model → Type 0)
    (keep : (f : Fact) (m' : Model)
      → Memᴰ f m.facts
      → P m'
      → P (add_verdict p f (verdict p args m f) m').1) where
  pub judge_facts_inv :
      (fs : List Fact) (s : Progress)
      → ((f : Fact) → Memᴰ f fs → Memᴰ f m.facts)
      → Invariant p args m s
      → P s.model
      → Invariant p args m (judge_facts p args fs s) × P (judge_facts p args fs s).model
  judge_facts_inv [] s listed inv h = unfold judge_facts in (inv, h)
  judge_facts_inv (f ∷ fs) s listed inv h = elim (Bool-cases s.judged) [
    | inr off ↦ rw (judge_facts_off p args f fs s off) (inv, h)
    | inl on ↦
        let here = listed f (Memᴰ.head refl) in
        let round = judge_fact-Round p args m f s here inv on in
        rw (judge_facts_on p args f fs s on) (
          judge_facts_inv fs (judge_fact p args f s) (λ g h. listed g (Memᴰ.tail h))
            (next-Invariant p args m f s here inv on) (rw round.model (keep f s.model here h)))
  ]

-- ===== src/Wrapper/Findings/Places.antt =====
-- One finding to a place: line, column, path and name.
use p101_audit.Base.{
  ◌≡◌, refl, ◌∙◌, ◌↔◌, inl, inr, Bool, true, false, List, [], ◌∷◌, ◌++◌, arith, Memᴰ, ==_iff, subst,
}
use p101_audit.Base.Text.{Text, str_eq_sound, str_eq_complete}
use p101_audit.Base.Scan.{any, any_complete, any-append, mem_snoc_cases}
use p101_audit.Wrapper.{Platform, Fact, Model, Finding, FindingKind, path_size, name_size}
use p101_audit.Wrapper.Findings.{add_finding, is_at, finding_of}
use p101_audit.Wrapper.Findings.Add.{
  Fits, known, refused, appended, add_finding_cases, finding_of-is_at,
}

-- The finding is reported at the fact, under the name.
pub record IsAt (f : Fact) (label : Text) (g : Finding) : Type 0 where
  pub line : g.line ≡ f.line
  pub column : g.column ≡ f.column
  pub path : g.path ≡ f.path
  pub name : g.name ≡ label

pub is_at_iff : (f : Fact) (name : Text) (g : Finding) → (is_at f name g ≡ true) ↔ IsAt f name g
unfolding is_at
is_at_iff f name g = (sound, complete)
  where
    sound : is_at f name g ≡ true → IsAt f name g
    sound h = record {
      line = (==_iff _ _).0 (ground arith);
      column = (==_iff _ _).0 (ground arith);
      path = str_eq_sound _ _ (ground arith);
      name = str_eq_sound _ _ (ground arith);
    }

    complete : IsAt f name g → is_at f name g ≡ true
    complete e = ground (
      arith,
      e,
      ==_iff g.line f.line,
      ==_iff g.column f.column,
      str_eq_complete g.path f.path,
      str_eq_complete g.name name,
    )

pub record SamePlace (g h : Finding) : Type 0 where
  pub line : g.line ≡ h.line
  pub column : g.column ≡ h.column
  pub path : g.path ≡ h.path
  pub name : g.name ≡ h.name

-- No two findings of the list stand at one place.
abbrev pub Distinct : List Finding → Type 0
Distinct [] = Unit
Distinct (g ∷ gs) = ((h : Finding) → Memᴰ h gs → ¬ SamePlace g h) × Distinct gs

Distinct-snoc :
    (gs : List Finding) (new : Finding)
    → Distinct gs
    → ((g : Finding) → Memᴰ g gs → ¬ SamePlace g new)
    → Distinct (gs ++ new ∷ [])
Distinct-snoc [] new d apart = ((λ h m. elim m [ ]), tt)
Distinct-snoc (g ∷ gs) new (first, d) apart = (
  λ h m. elim (mem_snoc_cases gs m) [
    | inl old ↦ first h old
    | inr last ↦ λ same. apart g (Memᴰ.head refl) (subst (λ x. SamePlace g x) last same)
  ],
  Distinct-snoc gs new d (λ h m. apart h (Memᴰ.tail m)),
)

-- The texts that place a fact fit into a finding.
pub record FitsFact (f : Fact) : Type 0 where
  pub path : Fits path_size f.path
  pub name : Fits name_size f.name

module _ (p : Platform) (kind : FindingKind) (f : Fact) (replacement identity : Text)
    (fits : FitsFact f) (m : Model) where
  -- `add_finding` as the judge calls it, with the fact's own name.
  abbrev outcome : Bool × Model
  outcome = add_finding p kind f f.name replacement identity m

  new_is_at : is_at f f.name (finding_of kind f f.name replacement identity) ≡ true
  new_is_at = finding_of-is_at kind f f.name replacement identity fits.path fits.name

  apart_of_absent :
      any (is_at f f.name) m.findings ≡ false
      → (g : Finding) → Memᴰ g m.findings
      → ¬ SamePlace g (finding_of kind f f.name replacement identity)
  apart_of_absent absent g listed same =
      let placed = (is_at_iff f f.name _).0 new_is_at in
      let there = (is_at_iff f f.name g).1 (record {
        line = same.line ∙ placed.line;
        column = same.column ∙ placed.column;
        path = same.path ∙ placed.path;
        name = same.name ∙ placed.name;
      }) in
      let found = any_complete (is_at f f.name) listed there in ground arith

  pub add_finding-Distinct : Distinct m.findings → Distinct outcome.1.findings
  add_finding-Distinct d = elim (add_finding_cases p kind f f.name replacement identity m) [
    | known e q ↦ rw q d
    | refused e q ↦ rw q d
    | appended capacity e q ↦ rw q (Distinct-snoc m.findings _ d (apart_of_absent e))
  ]

  -- If it says so, a finding stands at the fact's place.
  pub add_finding-any : outcome.0 ≡ true → any (is_at f f.name) outcome.1.findings ≡ true
  add_finding-any h = elim (add_finding_cases p kind f f.name replacement identity m) [
    | known e q ↦ rw q e
    | refused e q ↦ absurd (ground arith)
    | appended capacity e q ↦
        rw (q, any-append (is_at f f.name) m.findings _) (unfold any in ground (arith, new_is_at))
  ]

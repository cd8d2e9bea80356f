-- ===== src/ModuleMap/Report/Loops.antt =====
-- Whether the loops over the map write a finding.
use p101_audit.Base.{
  ◌≡◌, sym, ◌∙◌, ap, inl, inr, Bool, true, false, not, ◌&&◌, ◌||◌, List, [], ◌∷◌, Option, none,
  some, arith, Bool-cases, Option-cases, is_some,
}
use p101_audit.Base.Text.{Text}
use p101_audit.Base.Scan.{any}
use p101_audit.ModuleMap.{IncludeRecord, ProjectMap}
use p101_audit.ModuleMap.Report.{
  ModuleRule, ModuleFinding, LayerFile, ReportArguments, ReportPlatform, Findings, finding_if,
  write_finding, write_each, write_loop, include_rules, layer_allows_include, write_include,
  write_includes,
}

-- One of the rules is broken.
abbrev pub breaks : List (Option ModuleFinding) → Bool
breaks fs = any is_some fs

-- The configuration, if one can be opened, can be closed.
abbrev pub Closes : ReportArguments → Type 0
Closes args = (file : LayerFile) → args.layer_config ≡ some (some file) → file.close_fails ≡ false

-- An error is only raised behind a finding.
abbrev pub IsSound : Findings → Type 0
IsSound s = s.has_error ≡ true → s.wrote ≡ true

module _ (accepts : List ModuleFinding → ModuleFinding → Bool) where
  wrote-finding :
      (o : Option ModuleFinding) (s : Findings)
      → (write_finding accepts o s).wrote ≡ (s.wrote || is_some o)
  unfolding write_finding
  wrote-finding none s = ground arith
  wrote-finding (some f) s = ground arith

  finding-IsSound :
      (o : Option ModuleFinding) (s : Findings) → IsSound s → IsSound (write_finding accepts o s)
  unfolding write_finding
  finding-IsSound none s h e = h e
  finding-IsSound (some f) s h e = ground arith

  pub wrote-each :
      (fs : List (Option ModuleFinding)) (s : Findings)
      → (write_each accepts fs s).wrote ≡ (s.wrote || breaks fs)
  unfolding write_each any
  wrote-each [] s = ground arith
  wrote-each (f ∷ fs) s =
      ground (arith, wrote-each fs (write_finding accepts f s), wrote-finding f s)

  each-IsSound :
      (fs : List (Option ModuleFinding)) (s : Findings)
      → IsSound s
      → IsSound (write_each accepts fs s)
  unfolding write_each
  each-IsSound [] s h = h
  each-IsSound (f ∷ fs) s h = each-IsSound fs (write_finding accepts f s) (finding-IsSound f s h)

  module _ {ℓ} {A : Type ℓ} (rules : A → List (Option ModuleFinding)) where
    pub wrote-loop :
        (xs : List A) (s : Findings)
        → (write_loop accepts rules xs s).wrote ≡ (s.wrote || any (λ x. breaks (rules x)) xs)
    unfolding write_loop any
    wrote-loop [] s = ground arith
    wrote-loop (x ∷ xs) s =
        ground (arith, wrote-loop xs (write_each accepts (rules x) s), wrote-each (rules x) s)

    pub loop-IsSound :
        (xs : List A) (s : Findings) → IsSound s → IsSound (write_loop accepts rules xs s)
    unfolding write_loop
    loop-IsSound [] s h = h
    loop-IsSound (x ∷ xs) s h =
        loop-IsSound xs (write_each accepts (rules x) s) (each-IsSound (rules x) s h)

  module _ (p : ReportPlatform) (args : ReportArguments) (map : ProjectMap) where
    abbrev pub include_breaks : IncludeRecord → Bool
    include_breaks i =
        breaks (include_rules args map i)
        || i.is_local && not (layer_allows_include p args i.from_module i.target false).0

  module _ (p : ReportPlatform) (args : ReportArguments) (map : ProjectMap)
      (closes : Closes args) where
    -- An error of the configuration comes with the answer no.
    layer_refused :
        (from_module target : Text)
        → (layer_allows_include p args from_module target false).1 ≡ true
        → (layer_allows_include p args from_module target false).0 ≡ false
    unfolding layer_allows_include
    layer_refused from_module target h = elim (Option-cases args.layer_config) [
      | inl q ↦ let quiet = rw q at h in ground arith
      | inr (none, q) ↦ let raised = rw q at h in rw q (ground arith)
      | inr (some file, q) ↦ let ok = closes file q in let raised = rw q at h in rw q (ground arith)
    ]

    layer_keeps :
        (from_module target : Text) → (layer_allows_include p args from_module target true).1 ≡ true
    unfolding layer_allows_include
    layer_keeps from_module target = ground arith

    module _ (i : IncludeRecord) (s : Findings) (sound : IsSound s) where
      wrote-include :
          (write_include p accepts args map i s).wrote ≡ (s.wrote || include_breaks p args map i)
      unfolding write_include
      wrote-include =
          let written = write_each accepts (include_rules args map i) s in
          let layer = layer_allows_include p args i.from_module i.target written.has_error in
          let refused = finding_if (not layer.0) ModuleRule.layer_violation i.path i.line in
          let first = wrote-each (include_rules args map i) s in
          let second = wrote-finding refused (record written { has_error = layer.1 }) in
          elim (Bool-cases written.has_error) [
            | inl e ↦ let wrote = each-IsSound (include_rules args map i) s sound e in ground arith
            | inr e ↦
                let same = ap (layer_allows_include p args i.from_module i.target) e in
                let no_error = ap (λ (r : Bool × Bool). r.0) same in ground arith
          ]

      include-IsSound : IsSound (write_include p accepts args map i s)
      unfolding write_include
      include-IsSound =
          let written = write_each accepts (include_rules args map i) s in
          let layer = layer_allows_include p args i.from_module i.target written.has_error in
          let refused = finding_if (not layer.0) ModuleRule.layer_violation i.path i.line in
          let first = wrote-each (include_rules args map i) s in
          let second = wrote-finding refused (record written { has_error = layer.1 }) in
          let kept = each-IsSound (include_rules args map i) s sound in
          let step : IsSound (record written { has_error = layer.1 })
              → IsSound (write_finding accepts refused (record written { has_error = layer.1 })) =
            finding-IsSound refused (record written { has_error = layer.1 }) in
          λ h. elim (Bool-cases i.is_local) [
            | inr e ↦
                let error_before : written.has_error ≡ true = ground arith in
                let wrote = kept error_before in ground arith
            | inl e ↦ elim (Bool-cases written.has_error) [
              | inl f ↦ let wrote = kept f in ground arith
              | inr f ↦
                  let same = ap (layer_allows_include p args i.from_module i.target) f in
                  let answer = ap (λ (r : Bool × Bool). r.0) same in
                  let raised = ap (λ (r : Bool × Bool). r.1) same in
                  elim (Bool-cases layer.1) [
                    | inl g ↦
                        let no = layer_refused i.from_module i.target (sym raised ∙ g) in
                        ground arith
                    | inr g ↦
                        let error_behind : (write_finding accepts refused
                              (record written { has_error = layer.1 })).has_error
                            ≡ true =
                          ground arith in
                        let wrote = step (λ q. ground arith) error_behind in ground arith
                  ]
            ]
          ]

    pub wrote-includes :
        (is : List IncludeRecord) (s : Findings)
        → IsSound s
        → ((write_includes p accepts args map is s).wrote
            ≡ (s.wrote || any (include_breaks p args map) is))
          × IsSound (write_includes p accepts args map is s)
    unfolding write_includes any
    wrote-includes [] s h = (ground arith, h)
    wrote-includes (i ∷ is) s h =
        let (rest, sound) =
          wrote-includes is (write_include p accepts args map i s) (include-IsSound i s h) in
        (ground (arith, wrote-include i s h), sound)

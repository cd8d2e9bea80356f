-- ===== src/ModuleMap/Report/FileRules.antt =====
-- Each rule of macros, types, notes and files, and what it asks for.
use p101_audit.Base.{
  ◌≡◌, refl, sym, ◌∙◌, subst, ◌↔◌, inl, inr, true, false, not, ◌||◌, Option, none, some, arith,
  Bool-cases, Option-cases, is_some,
}
use p101_audit.Base.Text.{Text}
use p101_audit.Base.Scan.{any}
use p101_audit.ModuleMap.{
  SourceFile, Module, IncludeRecord, MacroRecord, TypeRecord, NoteRecord, ProjectMap, max_name,
}
use p101_audit.ModuleMap.Query.{
  first_local_include, target_matches_module, source_includes_own, module_has_header,
}
use p101_audit.ModuleMap.Idioms.{name_ends_with, module_shares_prefix, guard_macro, guard_suffix}
use p101_audit.ModuleMap.Report.{
  ModuleRule, ModuleFinding, ReportArguments, ReportPlatform, finding_if, macro_rules, type_rules,
  prefix_rules, leading_rule, own_header_rules, suffix_rules, note_rules, guard_rules,
}
use p101_audit.ModuleMap.Report.Tidy.{IsTidyMacro, IsTidyType, IsTidyNote, IsGuard, IsTidyFile}
use p101_audit.ModuleMap.Report.Loops.{breaks}

module _ (args : ReportArguments) (map : ProjectMap) where
  pub prefix_iff :
      (m : Module)
      → (breaks (prefix_rules args map m) ≡ false)
        ↔ (module_shares_prefix map m.name (not args.library_mode) ≡ true)
  unfolding prefix_rules any
  prefix_iff m = (λ h. ground arith, λ h. ground arith)

  pub macro_iff :
      (m : MacroRecord) → (breaks (macro_rules args map m) ≡ false) ↔ IsTidyMacro args map m
  unfolding macro_rules any
  macro_iff m =
      (λ h. record { used = λ a b c. ground arith }, λ t. let used = t.used in ground arith)

  pub type_iff :
      (t : TypeRecord)
      → ((breaks (type_rules args map t) ≡ false) × (breaks (suffix_rules args map t) ≡ false))
        ↔ IsTidyType args map t
  unfolding type_rules suffix_rules any
  type_iff t = (
    λ (h, k). record { used = λ a b. ground arith; suffix = λ a. ground arith },
    λ r. let used = r.used in let suffix = r.suffix in (ground arith, ground arith),
  )

  pub note_iff : (n : NoteRecord) → (breaks (note_rules args map n) ≡ false) ↔ IsTidyNote n
  unfolding note_rules any
  note_iff n = (
    λ h. record { order = λ a. ground arith; allocation = ground arith },
    λ t. let order = t.order in let allocation = t.allocation in ground arith,
  )

  leading_iff :
      (file : SourceFile)
      → (is_some (leading_rule args map file) ≡ false) ↔ (
          (i : IncludeRecord)
          → first_local_include map file.path ≡ some i
          → target_matches_module i.target file.module_name ≡ true)
  unfolding leading_rule
  leading_iff file = elim (Option-cases (first_local_include map file.path)) [
    | inl e ↦ (λ h i q. let wrong : none ≡ some i = sym e ∙ q in cc, λ h. rw (e, leading_rule) refl)
    | inr (i, e) ↦ (
      λ h i' q.
          let same : some i ≡ some i' = sym e ∙ q in
          let found = rw (e, leading_rule) at h in ground arith,
      λ h. let found = h i e in rw (e, leading_rule) (ground arith),
    )
  ]

  suffix_guard_iff :
      (p : ReportPlatform) (path : Text) (guard : MacroRecord)
      → (is_some
            (elim (guard_suffix p.is_alnum p.to_upper path max_name)
              as (λ o. Option ModuleFinding) [
                | none ↦ none
                | some expected ↦
                    finding_if
                      (not (name_ends_with guard.name expected))
                      ModuleRule.include_guard
                      path
                      guard.line
              ])
          ≡ false)
        ↔ IsGuard p path guard
  suffix_guard_iff p path guard =
      elim (Option-cases (guard_suffix p.is_alnum p.to_upper path max_name)) [
        | inl e ↦ (λ h x q. let wrong : none ≡ some x = sym e ∙ q in cc, λ h. rw e refl)
        | inr (x, e) ↦ (
          λ h x' q.
              let same : some x ≡ some x' = sym e ∙ q in let found = rw e at h in ground arith,
          λ h. let found = h x e in rw e (ground arith),
        )
      ]

  guard_iff :
      (p : ReportPlatform) (file : SourceFile)
      → (breaks (guard_rules p map file) ≡ false) ↔ (
          file.is_header ≡ true
          → (g : MacroRecord) × (guard_macro map file.path ≡ some g) × IsGuard p file.path g)
  unfolding guard_rules any
  guard_iff p file = elim (Bool-cases file.is_header) [
    | inr e ↦ (λ h q. absurd (ground arith), λ h. ground arith)
    | inl e ↦ elim (Option-cases (guard_macro map file.path)) [
      | inl n ↦ (λ h q. absurd (ground arith), λ h. let (g, m, k) = h e in absurd (ground arith))
      | inr (g, m) ↦
          let (sound, complete) = suffix_guard_iff p file.path g in
          (
            λ h q. (g, m, sound (ground arith)),
            λ h.
                let (g', m', k) = h e in
                let same : some g' ≡ some g = sym m' ∙ m in
                let one : g' ≡ g = cc in
                let c = complete (subst (IsGuard p file.path) one k) in ground arith,
          )
    ]
  ]

  own_iff :
      (file : SourceFile)
      → (breaks (own_header_rules args map file) ≡ false) ↔ (
          (file.is_header ≡ false
            → module_has_header map file.module_name ≡ true
            → source_includes_own map file.path file.module_name ≡ true)
          × (args.library_mode ≡ false
              → file.is_header ≡ false
              → module_has_header map file.module_name ≡ true
              → is_some (leading_rule args map file) ≡ false))
  unfolding own_header_rules any
  own_iff file = (
    λ h. (λ a b. ground arith, λ a b c. ground arith),
    λ (a, b). elim (Bool-cases (file.is_header || not (module_has_header map file.module_name))) [
      | inl e ↦ ground arith
      | inr e ↦
          let own = a (ground arith) (ground arith) in
          elim (Bool-cases args.library_mode) [
            | inl l ↦ ground arith
            | inr l ↦ let lead = b l (ground arith) (ground arith) in ground arith
          ]
    ],
  )

  pub file_iff :
      (p : ReportPlatform) (file : SourceFile)
      → ((breaks (own_header_rules args map file) ≡ false)
          × (breaks (guard_rules p map file) ≡ false))
        ↔ IsTidyFile p args map file
  file_iff p file =
      let (own, own') = own_iff file in
      let (leading, leading') = leading_iff file in
      let (guard, guard') = guard_iff p file in
      (
        λ (h, k).
            let (o, l) = own h in
            record { own = o; leading = λ a b c. leading (l a b c); guard = guard k },
        λ t. (own' (t.own, λ a b c. leading' (t.leading a b c)), guard' t.guard),
      )

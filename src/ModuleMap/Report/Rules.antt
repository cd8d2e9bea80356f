-- ===== src/ModuleMap/Report/Rules.antt =====
-- Each rule of modules, functions and includes, and what it asks for.
use p101_audit.Base.{
  ◌≡◌, refl, sym, ◌∙◌, ◌↔◌, inl, inr, Bool, true, false, not, ◌&&◌, List, [], ◌∷◌, none, some, Memᴰ,
  arith, Bool-cases, Option-cases,
}
use p101_audit.Base.Text.{Text, codes, str_eq, str_eq_sound, str_eq_complete}
use p101_audit.Base.Scan.{any, any_sound, any_complete}
use p101_audit.ModuleMap.{Module, FunctionRecord, IncludeRecord, ProjectMap, max_name}
use p101_audit.ModuleMap.Idioms.{
  public_function_exists, public_function_anywhere, swap_suffix, wraps_platform_name,
}
use p101_audit.ModuleMap.Report.{
  ModuleFinding, ReportArguments, ReportPlatform, module_rules, function_rules, lacks_peer,
  has_peer, naming_rules, include_rules, layer_allows_include, layer_line_allows,
}
use p101_audit.ModuleMap.Report.Tidy.{
  Paired, IsTidyModule, IsTidyFunction, IsNamed, IsPaired, IsTidyInclude, Layered, same_module,
  unlayered, declared,
}
use p101_audit.ModuleMap.Report.Loops.{breaks, include_breaks}

pub any-eq-false {ℓ} :
    {A : Type ℓ} (test : A → Bool) (xs : List A)
    → (any test xs ≡ false) ↔ ((x : A) → Memᴰ x xs → test x ≡ false)
unfolding any
any-eq-false test [] = (λ h x m. elim m [ ], λ h. refl)
any-eq-false test (x ∷ xs) =
    let (sound, complete) = any-eq-false test xs in
    (
      λ h y m. elim m [
        | Memᴰ.head e ↦ rw e (ground arith)
        | Memᴰ.tail k ↦ sound (ground arith) y k
      ],
      λ h.
          let first = h x (Memᴰ.head refl) in
          let rest = complete (λ y m. h y (Memᴰ.tail m)) in ground arith,
    )

module _ (args : ReportArguments) (map : ProjectMap) where
  pub module_iff :
      (m : Module) → (breaks (module_rules args map m) ≡ false) ↔ IsTidyModule args map m
  unfolding module_rules any
  module_iff m = (
    λ h. record { size = λ a. ground arith; api = λ a. ground arith; entry = λ a b. ground arith },
    λ t. let size = t.size in let api = t.api in let entry = t.entry in ground arith,
  )

  pub function_iff :
      (f : FunctionRecord)
      → (breaks (function_rules args map f) ≡ false) ↔ IsTidyFunction args map f
  unfolding function_rules any
  function_iff f = (
    λ h. record {
      private_if_unused = λ a b c d e. ground arith;
      defined = λ a b. ground arith;
      interface = λ a b c. ground arith;
    },
    λ t.
        let private_if_unused = t.private_if_unused in
        let defined = t.defined in let interface = t.interface in ground arith,
  )

  lacks_peer_iff :
      (exists : Text → Bool) (name suffix replacement : Text)
      → (lacks_peer args map exists name suffix replacement ≡ false)
        ↔ Paired exists name suffix replacement
  unfolding lacks_peer
  lacks_peer_iff exists name suffix replacement =
      elim (Option-cases (swap_suffix name suffix replacement max_name)) [
        | inl e ↦ (
          λ h peer q. let wrong : none ≡ some peer = sym e ∙ q in cc,
          λ h. rw (e, lacks_peer) refl,
        )
        | inr (peer, e) ↦ (
          λ h peer' q.
              let same : some peer ≡ some peer' = sym e ∙ q in
              let found = rw (e, lacks_peer) at h in ground arith,
          λ h. let found = h peer e in rw (e, lacks_peer) (ground arith),
        )
      ]

  pub naming_iff :
      (f : FunctionRecord)
      → (breaks (naming_rules args map f) ≡ false) ↔ (IsNamed map f → IsPaired args map f)
  unfolding naming_rules any
  naming_iff f =
      let (create, create') =
        lacks_peer_iff (public_function_exists map f.module_name) f.name (codes "_create")
          (codes "_destroy") in
      let (count, count') =
        lacks_peer_iff (public_function_exists map f.module_name) f.name (codes "_count")
          (codes "_at") in
      let (init, init') =
        lacks_peer_iff (public_function_anywhere map) f.name (codes "_init") (codes "_deinit") in
      let (opened, opened') =
        lacks_peer_iff (public_function_anywhere map) f.name (codes "_open") (codes "_close") in
      let (from, from') =
        lacks_peer_iff (public_function_exists map f.module_name) f.name (codes "_from_name")
          (codes "_name") in
      (
        λ h n.
            let a = n.public_function in
            let b = n.definition in
            let c = n.own_name in
            record {
              create = create (ground arith);
              count = λ d. count (ground arith);
              init = λ d e. init (ground arith);
              opened = opened (ground arith);
              from_name = from (ground arith);
            },
        λ h.
            elim (Bool-cases
              (not f.is_static && not f.is_header_declaration && not (wraps_platform_name map f))) [
                | inr e ↦ rw e refl
                | inl e ↦
                    let t = h (record {
                      public_function = ground arith;
                      definition = ground arith;
                      own_name = ground arith;
                    }) in
                    let a = create' t.create in
                    let b = λ (l : args.library_mode ≡ false). count' (t.count l) in
                    let c =
                      λ (d : has_peer args map f.name (codes "_init") (codes "_destroy") ≡ false)
                          (g : has_peer args map f.name (codes "_init") (codes "_fini") ≡ false).
                        init' (t.init d g) in
                    let d = opened' t.opened in let g = from' t.from_name in ground arith
              ],
      )

  layer_sound :
      (p : ReportPlatform) (from_module target : Text)
      → (layer_allows_include p args from_module target false).0 ≡ true
      → Layered p args from_module target
  unfolding layer_allows_include
  layer_sound p from_module target h = elim (Bool-cases (str_eq from_module target)) [
    | inl e ↦ same_module (str_eq_sound from_module target e)
    | inr e ↦ elim (Option-cases args.layer_config) [
      | inl q ↦ unlayered q
      | inr (none, q) ↦ let answer = rw (e, q) at h in absurd (ground arith)
      | inr (some file, q) ↦
          let found : any (layer_line_allows p from_module target) file.lines ≡ true =
            rw (e, q) at h in
          let (line, listed, allows) =
            any_sound (layer_line_allows p from_module target) file.lines found in
          declared file line q listed allows
    ]
  ]

  layer_complete :
      (p : ReportPlatform) (from_module target : Text)
      → Layered p args from_module target
      → (layer_allows_include p args from_module target false).0 ≡ true
  unfolding layer_allows_include
  layer_complete p from_module target (same_module e) =
      rw (str_eq_complete from_module target e) refl
  layer_complete p from_module target (unlayered q) = rw q (ground arith)
  layer_complete p from_module target (declared file line q listed allows) =
      let found = any_complete (layer_line_allows p from_module target) listed allows in
      rw q (ground arith)

  pub include_iff :
      (p : ReportPlatform) (accepts : List ModuleFinding → ModuleFinding → Bool) (i : IncludeRecord)
      → (include_breaks accepts p args map i ≡ false)
        ↔ (i.is_local ≡ true → IsTidyInclude p args map i)
  unfolding include_rules any
  include_iff p accepts i = (
    λ h l. record {
      acyclic = λ a. ground arith;
      target_exists = ground arith;
      layered = layer_sound p i.from_module i.target (ground arith);
    },
    λ h. elim (Bool-cases i.is_local) [
      | inr e ↦ ground arith
      | inl e ↦
          let t = h e in
          let acyclic = t.acyclic in
          let target_exists = t.target_exists in
          let layered = layer_complete p i.from_module i.target t.layered in ground arith
    ],
  )

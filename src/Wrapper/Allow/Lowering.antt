-- ===== src/Wrapper/Allow/Lowering.antt =====
-- Calls to which an allowed macro lowers.
use p101_audit.Base.{
  ◌≡◌, ◌≤◌, refl, sym, ◌∙◌, ◌↔◌, inl, inr, Bool, true, false, ◌&&◌, List, [], ◌∷◌, none, some,
  arith, Bool-cases, Option-cases, Memᴰ,
}
use p101_audit.Base.Text.{str_eq_sound, str_eq_complete}
use p101_audit.Base.Scan.{any, any_sound, any_complete}
use p101_audit.Wrapper.{Platform, Fact, Inventory, AllowRule, Arguments, Model, is_macro}
use p101_audit.Wrapper.Allow.{
  fact_callee_identity, find_wrapper, is_expanded_from, lowering_step, lowering_loop,
  is_allowed_macro_lowering,
}
use p101_audit.Wrapper.Allow.Rules.{Traced, Traced-refl, any-Traced, is_allowed-Traced}
use p101_audit.Wrapper.Allow.Permits.{Permitted, permits, is_allowed-permits, permits_iff}

-- `f` is a use of a macro in the caller of the call `c`, and the text of `c` lies around its own.
pub record Expands (c f : Fact) : Type 0 where
  pub of_macro : is_macro f.kind ≡ true
  pub used : f.is_definition ≡ false
  pub same_path : f.path ≡ c.path
  pub same_caller : f.caller_usr ≡ c.caller_usr
  pub begins : c.start ≤ f.start
  pub ends : f.end ≤ c.end

is_expanded_from_iff : (c f : Fact) → (is_expanded_from c f ≡ true) ↔ Expands c f
unfolding is_expanded_from
is_expanded_from_iff c f = (sound, complete)
  where
    sound : is_expanded_from c f ≡ true → Expands c f
    sound h = record {
      of_macro = ground arith;
      used = ground arith;
      same_path = str_eq_sound _ _ (ground arith);
      same_caller = str_eq_sound _ _ (ground arith);
      begins = ground arith;
      ends = ground arith;
    }

    complete : Expands c f → is_expanded_from c f ≡ true
    complete e =
        ground (arith, e, str_eq_complete f.path c.path, str_eq_complete f.caller_usr c.caller_usr)

-- A use of a macro of the inventory, within the text of the call, is permitted.
pub record IsLowered (p : Platform) (args : Arguments) (m : Model) (c : Fact) : Type 0 where
  pub expanded : Fact
  pub wrapper : Inventory
  pub listed : Memᴰ expanded m.facts
  pub within : Expands c expanded
  pub known : find_wrapper m expanded ≡ some wrapper
  pub allowed : Permitted p args expanded (some wrapper)

unfoldable pub lowers_step : Platform → Arguments → Model → Fact → Fact → Bool
lowers_step p args m c f =
    is_expanded_from c f
    && (elim (find_wrapper m f) [ none ↦ false | some w ↦ permits p args f (some w) ])

unfoldable pub lowers : Platform → Arguments → Model → Fact → Bool
lowers p args m c = any (lowers_step p args m c) m.facts

module _ (p : Platform) (args : Arguments) (m : Model) (c : Fact) where
  lowering_step_lem :
      (f : Fact) (rs : List AllowRule)
      → Memᴰ f m.facts
      → Traced p m args.allow_rules rs
      → ((lowering_step p args m c f rs).0 ≡ lowers_step p args m c f)
        × Traced p m args.allow_rules (lowering_step p args m c f rs).1
  unfolding lowering_step lowers_step
  lowering_step_lem f rs listed t = elim (Bool-cases (is_expanded_from c f)) [
    | inr e ↦ rw e (refl, t)
    | inl e ↦ elim (Option-cases (find_wrapper m f)) [
      | inl q ↦ rw (e, q) (refl, t)
      | inr (w, q) ↦
          rw (e, q)
            (
              is_allowed-permits p args f (some w) rs
                  (any-Traced p f (fact_callee_identity p f (some w)) m args.allow_rules rs t),
              rw q at (is_allowed-Traced p m f listed args args.allow_rules rs t),
            )
    ]
  ]

  lowering_loop_lem :
      (fs : List Fact) (rs : List AllowRule)
      → ((f : Fact) → Memᴰ f fs → Memᴰ f m.facts)
      → Traced p m args.allow_rules rs
      → ((lowering_loop p args m c fs rs).0 ≡ any (lowers_step p args m c) fs)
        × Traced p m args.allow_rules (lowering_loop p args m c fs rs).1
  unfolding lowering_loop any
  lowering_loop_lem [] rs listed t = (refl, t)
  lowering_loop_lem (f ∷ fs) rs listed t =
      let (same, t') = lowering_step_lem f rs (listed f (Memᴰ.head refl)) t in
      let rs' = (lowering_step p args m c f rs).1 in
      let (same', t'') = lowering_loop_lem fs rs' (λ g h. listed g (Memᴰ.tail h)) t' in
      elim (Bool-cases (lowering_step p args m c f rs).0) [
        | inl e ↦ rw e (ground arith, t')
        | inr e ↦ rw e (ground arith, t'')
      ]

  pub is_allowed_macro_lowering_lem :
      (rs : List AllowRule)
      → Traced p m args.allow_rules rs
      → ((is_allowed_macro_lowering p args m c rs).0 ≡ lowers p args m c)
        × Traced p m args.allow_rules (is_allowed_macro_lowering p args m c rs).1
  unfolding is_allowed_macro_lowering lowers
  is_allowed_macro_lowering_lem rs t = lowering_loop_lem m.facts rs (λ f h. h) t

  lowers_step_sound :
      (f : Fact) → Memᴰ f m.facts → lowers_step p args m c f ≡ true → IsLowered p args m c
  unfolding lowers_step
  lowers_step_sound f listed h = elim (Option-cases (find_wrapper m f)) [
    | inl q ↦ absurd (ground arith)
    | inr (w, q) ↦ record {
      expanded = f;
      wrapper = w;
      listed = listed;
      within = (is_expanded_from_iff c f).0 (ground arith);
      known = q;
      allowed = (permits_iff p args f (some w)).0 (ground arith);
    }
  ]

  lowers_sound : lowers p args m c ≡ true → IsLowered p args m c
  unfolding lowers
  lowers_sound h =
      let (f, listed, t) = any_sound (lowers_step p args m c) m.facts h in
      lowers_step_sound f listed t

  lowers_complete : IsLowered p args m c → lowers p args m c ≡ true
  unfolding lowers lowers_step
  lowers_complete l =
      let allowed = (permits_iff p args l.expanded (some l.wrapper)).1 l.allowed in
      any_complete (lowers_step p args m c) l.listed
        (rw l.known (ground (arith, (is_expanded_from_iff c l.expanded).1 l.within, allowed)))

  pub lowers_iff : (lowers p args m c ≡ true) ↔ IsLowered p args m c
  lowers_iff = (lowers_sound, lowers_complete)

-- A call is allowed as the lowering of a macro exactly if the call's text lies around that of a use
-- of a macro in the same file and caller, from its first to its last byte, the inventory knows the
-- macro, and the use of the macro is permitted.
pub is_allowed_macro_lowering_iff :
    (p : Platform) (args : Arguments) (m : Model) (c : Fact)
    → ((is_allowed_macro_lowering p args m c args.allow_rules).0 ≡ true) ↔ IsLowered p args m c
is_allowed_macro_lowering_iff p args m c =
    let (same, _) =
      is_allowed_macro_lowering_lem p args m c args.allow_rules
        (Traced-refl p m args.allow_rules) in
    (λ h. (lowers_iff p args m c).0 (sym same ∙ h), λ l. same ∙ (lowers_iff p args m c).1 l)

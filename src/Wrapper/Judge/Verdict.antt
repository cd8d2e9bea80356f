-- ===== src/Wrapper/Judge/Verdict.antt =====
-- What the judge must report, said of each fact by itself: without the order of the facts, the
-- findings so far and the counters of the rules.
use p101_audit.Base.{
  ◌≡◌, ◌≢◌, refl, sym, ◌∙◌, ap, ◌↔◌, inl, inr, Bool, true, false, not, ◌&&◌, ◌||◌, [], Option, none,
  some, arith, Bool-cases, Option-cases, if◌then◌else◌, is_nil, is_some,
}
use p101_audit.Base.Text.{Text}
use p101_audit.Wrapper.{
  Kind, Platform, Fact, Inventory, Arguments, Model, FindingKind, is_macro, is_call, is_include,
}
use p101_audit.Wrapper.Support.{semantic_caller_usr, is_wrapper_implementation}
use p101_audit.Wrapper.Support.Membership.{
  IsDefinedHere, is_local_iff, IsErrnoLowering, is_errno_macro_lowering_iff,
}
use p101_audit.Wrapper.Allow.{find_wrapper, call_is_inventory_wrapper, fact_callee_identity}
use p101_audit.Wrapper.Allow.Permits.{Permitted, permits, permits_iff}
use p101_audit.Wrapper.Allow.Lowering.{IsLowered, lowers, lowers_iff}
use p101_audit.Wrapper.Findings.{include_is_platform_specific}
use p101_audit.Wrapper.Judge.{is_inside, replacement_of, finding_kind}

-- What a report says besides the fact.
pub record Draft : Type 0 where
  pub kind : FindingKind
  pub replacement : Text
  pub identity : Text

-- An indirect call is reported without a wrapper.
unfoldable pub reported_wrapper : Model → Fact → Option Inventory
reported_wrapper m f = if f.is_indirect then none else find_wrapper m f

unfoldable pub draft_of : Platform → Fact → Option Inventory → Draft
draft_of p f w = record {
  kind = finding_kind f w;
  replacement = replacement_of w;
  identity = fact_callee_identity p f w;
}

abbrev pub portability_draft : Draft
portability_draft = record { kind = FindingKind.portability; replacement = []; identity = [] }

-- A call, or the use inside a function of a macro that the inventory knows.
pub data IsOperation (m : Model) (f : Fact) : Type 0 where
  call : is_call f.kind ≡ true → IsOperation m f
  macro_use :
      (w : Inventory)
      → is_macro f.kind ≡ true
      → f.is_definition ≡ false
      → semantic_caller_usr m f ≢ []
      → find_wrapper m f ≡ some w
      → IsOperation m f

-- Nothing lets the operation cross the boundary.
pub record IsOutside (p : Platform) (args : Arguments) (m : Model) (f : Fact) : Type 0 where
  pub is_named : f.name ≢ []
  pub no_wrapper : call_is_inventory_wrapper m f ≡ false
  pub no_local : ¬ IsDefinedHere m f
  pub no_errno : ¬ IsErrnoLowering m f
  pub no_permit : ¬ Permitted p args f (find_wrapper m f)
  pub no_lowering : ¬ IsLowered p args m f
  pub no_wrap : is_wrapper_implementation m f (reported_wrapper m f) ≡ false

pub data Breach (p : Platform) (args : Arguments) (m : Model) (f : Fact) (d : Draft) : Type 0 where
  platform_include :
      is_include f.kind ≡ true
      → args.check_portability ≡ true
      → include_is_platform_specific f.name f.resolved ≡ true
      → d ≡ portability_draft
      → Breach p args m f d
  boundary :
      IsOperation m f
      → IsOutside p args m f
      → d ≡ draft_of p f (reported_wrapper m f)
      → Breach p args m f d

unfoldable pub verdict_operation : Platform → Arguments → Model → Fact → Option Draft
verdict_operation p args m f =
    if is_macro f.kind && (is_nil (semantic_caller_usr m f) || not (is_some (find_wrapper m f)))
    then none
    else if is_inside m f || permits p args f (find_wrapper m f) || lowers p args m f
    then none
    else if is_wrapper_implementation m f (reported_wrapper m f)
    then none
    else some (draft_of p f (reported_wrapper m f))

unfoldable pub verdict : Platform → Arguments → Model → Fact → Option Draft
verdict p args m f =
    if is_include f.kind && args.check_portability && include_is_platform_specific f.name f.resolved
    then some portability_draft
    else if is_call f.kind || is_macro f.kind && not f.is_definition
    then verdict_operation p args m f
    else none

pub kinds_apart :
    (k : Kind)
    → (is_call k ≡ true → (is_include k ≡ false) × (is_macro k ≡ false))
      × (is_macro k ≡ true → (is_include k ≡ false) × (is_call k ≡ false))
unfolding is_call is_macro is_include
kinds_apart Kind.call = ((λ h. (refl, refl)), (λ h. cc))
kinds_apart Kind.macro = ((λ h. cc), (λ h. (refl, refl)))
kinds_apart _ = ((λ h. cc), (λ h. cc))

not_true : {b : Bool} {P : Type 0} → (b ≡ true) ↔ P → b ≡ false → ¬ P
not_true iff off x = ground (arith, iff.1 x)

true_not : {b : Bool} {P : Type 0} → (b ≡ true) ↔ P → ¬ P → b ≡ false
true_not {b} iff n = elim (Bool-cases b) [ inl e ↦ absurd (n (iff.0 e)) | inr e ↦ e ]

module _ (p : Platform) (args : Arguments) (m : Model) (f : Fact) where
  IsOutside-sound :
      (is_inside m f || permits p args f (find_wrapper m f) || lowers p args m f) ≡ false
      → is_wrapper_implementation m f (reported_wrapper m f) ≡ false
      → IsOutside p args m f
  unfolding is_inside
  IsOutside-sound h h' = record {
    is_named = ground arith;
    no_wrapper = ground arith;
    no_local = not_true (is_local_iff m f) (ground arith);
    no_errno = not_true (is_errno_macro_lowering_iff m f) (ground arith);
    no_permit = not_true (permits_iff p args f (find_wrapper m f)) (ground arith);
    no_lowering = not_true (lowers_iff p args m f) (ground arith);
    no_wrap = h';
  }

  outside_complete :
      IsOutside p args m f
      → (is_inside m f || permits p args f (find_wrapper m f) || lowers p args m f) ≡ false
  unfolding is_inside
  outside_complete o = ground (
    arith,
    o.is_named,
    o.no_wrapper,
    true_not (is_local_iff m f) o.no_local,
    true_not (is_errno_macro_lowering_iff m f) o.no_errno,
    true_not (permits_iff p args f (find_wrapper m f)) o.no_permit,
    true_not (lowers_iff p args m f) o.no_lowering,
  )

  operation_sound :
      IsOperation m f → (d : Draft) → verdict_operation p args m f ≡ some d → Breach p args m f d
  unfolding verdict_operation
  operation_sound op d h =
      boundary op (IsOutside-sound (ground arith) (ground arith)) (ground arith)

  unwrapped :
      is_macro f.kind ≡ true
      → find_wrapper m f ≡ none
      → (d : Draft) → verdict_operation p args m f ≡ some d
      → ⊥
  unfolding verdict_operation
  unwrapped k q d h = ground arith

  enclosed :
      is_macro f.kind ≡ true
      → (d : Draft) → verdict_operation p args m f ≡ some d
      → semantic_caller_usr m f ≢ []
  unfolding verdict_operation
  enclosed k d h e = ground arith

  verdict_sound : (d : Draft) → verdict p args m f ≡ some d → Breach p args m f d
  unfolding verdict
  verdict_sound d h =
      elim (Bool-cases (
        is_include f.kind
        && args.check_portability
        && include_is_platform_specific f.name f.resolved)) [
          | inl e ↦ platform_include (ground arith) (ground arith) (ground arith) (ground arith)
          | inr e ↦ elim (Bool-cases (is_call f.kind)) [
            | inl c ↦ operation_sound (call c) d (ground arith)
            | inr c ↦ macro_sound d (ground arith) (ground arith) (ground arith)
          ]
        ]
    where
      macro_sound :
          (d : Draft)
          → is_macro f.kind ≡ true
          → f.is_definition ≡ false
          → verdict_operation p args m f ≡ some d
          → Breach p args m f d
      macro_sound d k u h = elim (Option-cases (find_wrapper m f)) [
        | inl q ↦ absurd (unwrapped k q d h)
        | inr (w, q) ↦ operation_sound (macro_use w k u (enclosed k d h) q) d h
      ]

  operation_complete :
      IsOperation m f
      → IsOutside p args m f
      → verdict p args m f ≡ some (draft_of p f (reported_wrapper m f))
  unfolding verdict verdict_operation
  operation_complete (call c) o =
      ground (arith, (kinds_apart f.kind).0 c, outside_complete o, o.no_wrap)
  operation_complete (macro_use w k u n q) o =
      ground (arith, (kinds_apart f.kind).1 k, outside_complete o, o.no_wrap, u, n, q)

  verdict_complete : (d : Draft) → Breach p args m f d → verdict p args m f ≡ some d
  verdict_complete d (platform_include i c s e) = unfold verdict in ground arith
  verdict_complete d (boundary op o e) = operation_complete op o ∙ ap some (sym e)

  pub verdict_iff : (d : Draft) → (verdict p args m f ≡ some d) ↔ Breach p args m f d
  verdict_iff d = (verdict_sound d, verdict_complete d)

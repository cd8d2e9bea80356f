-- ===== src/Wrapper/Scan/Complete.antt =====
-- What `p101_wrapper_model_scan` leaves in the model when it succeeds.
use mathlib.Core.List.{map}
use p101_audit.Base.{
  ℕ, ◌≡◌, refl, sym, ◌∙◌, ap, subst, true, false, List, [], ◌++◌, none, some, Memᴰ, inl, inr,
  Option-cases,
}
use p101_audit.Wrapper.{Kind, Fact, Model, Platform}
use p101_audit.Wrapper.Observer.{Record, Refusal, fact_of, observe_all}
use p101_audit.Wrapper.Observer.Bounds.{IsAcceptable, observe_all_lem}
use p101_audit.Wrapper.Callers.{assign_caller, assign_macro_callers}
use p101_audit.Wrapper.Callers.Independent.{assign_macro_callers-map}
use p101_audit.Wrapper.Order.{deduplicate_facts}
use p101_audit.Wrapper.Order.Deduplicate.{Sorts, IsDeduplicated, deduplicate_facts-IsDeduplicated}
use p101_audit.Wrapper.Scan.{Analysis, model_scan}

-- The facts of the records, each macro with its caller.
unfoldable pub attributed : List Record → List Fact
attributed rs = map (assign_caller (map fact_of rs)) (map fact_of rs)

module _ (p : Platform) (code : Kind → ℕ) (sort : List Fact → List Fact) (analysis : Analysis)
    (m : Model) where
  not_refused :
      ((e : Refusal) → analysis.returned (some e) ≡ false)
      → (model_scan p code sort analysis m).0 ≡ true
      → (observe_all p analysis.records m).1 ≡ none
  unfolding model_scan
  not_refused stops h = elim (Option-cases (observe_all p analysis.records m).1) [
    | inl e ↦ e
    | inr (e, q) ↦ absurd (clash e q)
  ]
    where
      clash : (e : Refusal) → (observe_all p analysis.records m).1 ≡ some e → ⊥
      clash e q = let s = stops e in cc

  scanned_facts :
      (model_scan p code sort analysis m).0 ≡ true
      → (model_scan p code sort analysis m).1
        ≡ deduplicate_facts code sort (assign_macro_callers (observe_all p analysis.records m).0)
  unfolding model_scan
  scanned_facts h = rw h refl

-- Let a scan that refuses a record fail, let qsort sort and permute, and let the model hold no fact
-- before. If the scan succeeds, then each record's identities and types fitted, and the facts of
-- the model are the records' copies with the callers of macros filled in: in strictly ascending
-- order, none that is not such a copy, and each copy equal in the comparison to one of them.
pub model_scan-IsDeduplicated :
    (p : Platform) (code : Kind → ℕ) (sort : List Fact → List Fact) (analysis : Analysis)
    (m : Model)
    → ((e : Refusal) → analysis.returned (some e) ≡ false)
    → m.facts ≡ []
    → Sorts code sort (attributed analysis.records)
    → (model_scan p code sort analysis m).0 ≡ true
    → ((r : Record) → Memᴰ r analysis.records → IsAcceptable r)
      × IsDeduplicated code
          (attributed analysis.records)
          (model_scan p code sort analysis m).1.facts
unfolding attributed
model_scan-IsDeduplicated p code sort analysis m stops empty sorts h =
    let m' = (observe_all p analysis.records m).0 in
    let (facts, fitted) =
      observe_all_lem p analysis.records m (not_refused p code sort analysis m stops h) in
    let known : m'.facts ≡ map fact_of analysis.records =
      facts ∙ ap (λ fs. fs ++ map fact_of analysis.records) empty in
    let done : (assign_macro_callers m').facts ≡ attributed analysis.records =
      assign_macro_callers-map m' ∙ ap (λ fs. map (assign_caller fs) fs) known in
    (
      λ r k. (fitted r k).0,
      rw (scanned_facts p code sort analysis m h) (
          subst
            (λ fs.
              IsDeduplicated code fs (deduplicate_facts code sort (assign_macro_callers m')).facts)
            done
            (deduplicate_facts-IsDeduplicated code sort (assign_macro_callers m')
              (subst (λ fs. Sorts code sort fs) (sym done) sorts))),
    )

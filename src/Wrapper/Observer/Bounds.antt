-- ===== src/Wrapper/Observer/Bounds.antt =====
-- What the observer leaves in the model: texts that fit into their arrays, identities and types in
-- full, and one fact to each record.
use mathlib.Core.Option.{some-injective}
use mathlib.Core.List.{map, append_assoc, append-nil}
use p101_audit.Base.{
  ℕ, ◌-◌, ◌<◌, ◌≡◌, ◌≢◌, refl, sym, ◌∙◌, ◌↔◌, ap, inl, inr, true, List, [], ◌∷◌, ◌++◌, Option, none,
  some, arith, Bool-cases, Option-cases, Memᴰ, leb, length, length-take, ◌==◌,
}
use p101_audit.Base.Text.{Text}
use p101_audit.Base.Scan.{mem_snoc_cases, mem_cons_cases}
use p101_audit.Wrapper.{Fact, Model, Platform, copy_field, path_size, name_size, type_size}
use p101_audit.Wrapper.Findings.Add.{Fits, Granting}
use p101_audit.Wrapper.Observer.{
  Record, is_enumerator, identity_fits, grow_facts, Refusal, identity_too_long, type_too_long,
  out_of_memory, fact_of, count_failure, identities_fit, types_fit, make_room, analysis_observer,
  observe_all,
}

-- A cut copy fits.
copy_field-Fits : (size : ℕ) (t : Option Text) → 0 < size → Fits size (copy_field size t)
unfolding copy_field
copy_field-Fits size none h = h
copy_field-Fits size (some t) h = elim (Bool-cases (leb size (length t))) [
  | inl e ↦ rw e (omega (arith, length-take (size - 1) t))
  | inr e ↦ rw e (ground arith)
]

-- Every text of the fact fits into its array, with its NUL.
pub record IsBounded (f : Fact) : Type 0 where
  pub path : Fits path_size f.path
  pub resolved : Fits path_size f.resolved
  pub name : Fits name_size f.name
  pub type : Fits type_size f.type
  pub canonical_type : Fits type_size f.canonical_type
  pub return_type : Fits name_size f.return_type
  pub caller : Fits name_size f.caller
  pub usr : Fits name_size f.usr
  pub caller_usr : Fits name_size f.caller_usr
  pub parent_usr : Fits name_size f.parent_usr
  pub replacement : Fits name_size f.replacement

fact_of-IsBounded : (r : Record) → IsBounded (fact_of r)
unfolding fact_of
fact_of-IsBounded r = record {
  path = copy_field-Fits path_size r.path (omega arith);
  resolved = copy_field-Fits path_size r.resolved_include (omega arith);
  name = copy_field-Fits name_size r.name (omega arith);
  type = copy_field-Fits type_size r.type (omega arith);
  canonical_type = copy_field-Fits type_size r.canonical_type (omega arith);
  return_type = copy_field-Fits name_size r.return_type (omega arith);
  caller = copy_field-Fits name_size r.caller (omega arith);
  usr = copy_field-Fits name_size r.usr (omega arith);
  caller_usr = copy_field-Fits name_size r.caller_usr (omega arith);
  parent_usr = elim (Bool-cases (is_enumerator r.kind)) [
    | inl e ↦ rw e (copy_field-Fits name_size r.caller_usr (omega arith))
    | inr e ↦ rw e (omega arith)
  ];
  replacement = copy_field-Fits name_size r.replacement (omega arith);
}

-- If there is a text, it fits into an array of `size` bytes, with its NUL.
abbrev pub Within : ℕ → Option Text → Type 0
Within size o = (t : Text) → o ≡ some t → Fits size t

-- The texts that may not be cut fit: the identities and the types of the record.
pub record IsAcceptable (r : Record) : Type 0 where
  pub usr : Within name_size r.usr
  pub caller_usr : Within name_size r.caller_usr
  pub type : Within type_size r.type
  pub canonical_type : Within type_size r.canonical_type
  pub return_type : Within name_size r.return_type

-- The text, or an empty one for a null pointer.
abbrev pub whole : Option Text → Text
whole none = []
whole (some t) = t

-- The fact of the record has its identities and types in full.
pub record IsUncut (r : Record) : Type 0 where
  pub usr : (fact_of r).usr ≡ whole r.usr
  pub caller_usr : (fact_of r).caller_usr ≡ whole r.caller_usr
  pub type : (fact_of r).type ≡ whole r.type
  pub canonical_type : (fact_of r).canonical_type ≡ whole r.canonical_type
  pub return_type : (fact_of r).return_type ≡ whole r.return_type

copy_field-whole : (size : ℕ) (o : Option Text) → Within size o → copy_field size o ≡ whole o
unfolding copy_field
copy_field-whole size none h = refl
copy_field-whole size (some t) h = let fits = h t refl in ground arith

IsUncut-of_acceptable : (r : Record) → IsAcceptable r → IsUncut r
unfolding fact_of
IsUncut-of_acceptable r a = record {
  usr = copy_field-whole name_size r.usr a.usr;
  caller_usr = copy_field-whole name_size r.caller_usr a.caller_usr;
  type = copy_field-whole type_size r.type a.type;
  canonical_type = copy_field-whole type_size r.canonical_type a.canonical_type;
  return_type = copy_field-whole name_size r.return_type a.return_type;
}

identity_fits_iff : (o : Option Text) (size : ℕ) → (identity_fits o size ≡ true) ↔ Within size o
unfolding identity_fits
identity_fits_iff none size = (λ h t e. cc, λ h. refl)
identity_fits_iff (some s) size =
    (λ h t e. rw (← some-injective s t e) (ground arith), λ h. let fits = h s refl in ground arith)

-- What the observer does with a record.
pub data Observed (r : Record) (m : Model) (o : Model × Option Refusal) : Type 0 where
  stopped : (e : Refusal) → o.1 ≡ some e → o.0.facts ≡ m.facts → Observed r m o
  copied : IsAcceptable r → o.1 ≡ none → o.0.facts ≡ m.facts ++ fact_of r ∷ [] → Observed r m o

count_failure-facts : (r : Record) (m : Model) → (count_failure r m).facts ≡ m.facts
unfolding count_failure
count_failure-facts r m = ground arith

make_room-facts : (p : Platform) (m m' : Model) → make_room p m ≡ some m' → m'.facts ≡ m.facts
unfolding make_room grow_facts
make_room-facts p m m' h = ground arith

make_room-granted : (p : Platform) (m : Model) → Granting p → make_room p m ≢ none
unfolding make_room grow_facts
make_room-granted p m g = elim (Bool-cases (length m.facts == m.fact_capacity)) [
  | inl e ↦ rw (e, g) (λ h. cc)
  | inr e ↦ rw e (λ h. cc)
]

IsAcceptable-sound : (r : Record) → identities_fit r ≡ true → types_fit r ≡ true → IsAcceptable r
unfolding identities_fit types_fit
IsAcceptable-sound r h k = record {
  usr = (identity_fits_iff r.usr name_size).0 (ground arith);
  caller_usr = (identity_fits_iff r.caller_usr name_size).0 (ground arith);
  type = (identity_fits_iff r.type type_size).0 (ground arith);
  canonical_type = (identity_fits_iff r.canonical_type type_size).0 (ground arith);
  return_type = (identity_fits_iff r.return_type name_size).0 (ground arith);
}

IsAcceptable-complete :
    (r : Record) → IsAcceptable r → (identities_fit r ≡ true) × (types_fit r ≡ true)
unfolding identities_fit types_fit
IsAcceptable-complete r a =
    let usr = (identity_fits_iff r.usr name_size).1 a.usr in
    let caller_usr = (identity_fits_iff r.caller_usr name_size).1 a.caller_usr in
    let type = (identity_fits_iff r.type type_size).1 a.type in
    let canonical_type = (identity_fits_iff r.canonical_type type_size).1 a.canonical_type in
    let return_type = (identity_fits_iff r.return_type name_size).1 a.return_type in
    (rw (usr, caller_usr) refl, rw (type, canonical_type, return_type) refl)

module _ (p : Platform) (r : Record) (m : Model) where
  observer_cases : Observed r m (analysis_observer p r m)
  unfolding analysis_observer
  observer_cases = elim (Bool-cases (identities_fit r)) [
    | inr e ↦ rw e (stopped identity_too_long refl (count_failure-facts r m))
    | inl e ↦ elim (Bool-cases (types_fit r)) [
      | inr t ↦ rw (e, t) (stopped type_too_long refl (count_failure-facts r m))
      | inl t ↦ elim (Option-cases (make_room p (count_failure r m))) [
        | inl q ↦ rw (e, t, q) (stopped out_of_memory refl (count_failure-facts r m))
        | inr (m', q) ↦
            let same = make_room-facts p (count_failure r m) m' q ∙ count_failure-facts r m in
            rw (e, t, q)
              (copied (IsAcceptable-sound r e t) refl (ap (λ fs. fs ++ fact_of r ∷ []) same))
      ]
    ]
  ]

  observer-granted : Granting p → IsAcceptable r → (analysis_observer p r m).1 ≡ none
  unfolding analysis_observer
  observer-granted g a =
      let (e, t) = IsAcceptable-complete r a in
      elim (Option-cases (make_room p (count_failure r m))) [
        | inl q ↦ absurd (make_room-granted p (count_failure r m) g q)
        | inr (m', q) ↦ rw (e, t, q) refl
      ]

observe_all_refused :
    (p : Platform) (r : Record) (rs : List Record) (m : Model) (e : Refusal)
    → (analysis_observer p r m).1 ≡ some e
    → observe_all p (r ∷ rs) m ≡ ((analysis_observer p r m).0, some e)
unfolding observe_all
observe_all_refused p r rs m e h = rw (h, observe_all) refl

observe_all_copied :
    (p : Platform) (r : Record) (rs : List Record) (m : Model)
    → (analysis_observer p r m).1 ≡ none
    → observe_all p (r ∷ rs) m ≡ observe_all p rs (analysis_observer p r m).0
unfolding observe_all
observe_all_copied p r rs m h = rw (h, observe_all) refl

-- Whatever the records hold, and also where the scan stops early: if the texts of all facts fit into
-- their arrays before the scan, they fit behind it.
pub observe_all-IsBounded :
    (p : Platform) (rs : List Record) (m : Model)
    → ((f : Fact) → Memᴰ f m.facts → IsBounded f)
    → (f : Fact) → Memᴰ f (observe_all p rs m).0.facts
    → IsBounded f
observe_all-IsBounded p [] m h f k = h f (unfold observe_all in k)
observe_all-IsBounded p (r ∷ rs) m h f k = elim (observer_cases p r m) [
  | stopped e q same ↦ h f (rw (observe_all_refused p r rs m e q, same) at k)
  | copied a q same ↦
      observe_all-IsBounded p rs (analysis_observer p r m).0
        (λ g l. elim (mem_snoc_cases m.facts (rw same at l)) [
          | inl old ↦ h g old
          | inr last ↦ rw last (fact_of-IsBounded r)
        ])
        f (rw (observe_all_copied p r rs m q) at k)
]

-- If the scan ends without a refusal, then behind the model's facts stands one fact for each record,
-- in order; the identities and types of every record are shorter than their arrays, and its fact
-- has them in full.
pub observe_all_lem :
    (p : Platform) (rs : List Record) (m : Model)
    → (observe_all p rs m).1 ≡ none
    → ((observe_all p rs m).0.facts ≡ m.facts ++ map fact_of rs)
      × ((r : Record) → Memᴰ r rs → IsAcceptable r × IsUncut r)
observe_all_lem p [] m h = unfold observe_all in (sym (append-nil m.facts), λ r k. elim k [ ])
observe_all_lem p (r ∷ rs) m h = elim (observer_cases p r m) [
  | stopped e q same ↦ absurd (refused e (rw (observe_all_refused p r rs m e q) at h))
  | copied a q same ↦
      let step = observe_all_copied p r rs m q in
      let (facts, rest) = observe_all_lem p rs (analysis_observer p r m).0 (rw step at h) in
      (
        rw step (facts ∙ (rw same (append_assoc m.facts (fact_of r ∷ []) (map fact_of rs)))),
        λ x k. elim (mem_cons_cases k) [
          | inl e ↦ rw e (a, IsUncut-of_acceptable r a)
          | inr l ↦ rest x l
        ],
      )
]
  where
    refused : (e : Refusal) → some e ≡ none → ⊥
    refused e q = cc

scan_granted :
    (p : Platform) (rs : List Record) (m : Model)
    → Granting p
    → ((r : Record) → Memᴰ r rs → IsAcceptable r)
    → (observe_all p rs m).1 ≡ none
scan_granted p [] m g a = unfold observe_all in refl
scan_granted p (r ∷ rs) m g a =
    let rest = scan_granted p rs (analysis_observer p r m).0 g (λ x k. a x (Memᴰ.tail k)) in
    rw (observe_all_copied p r rs m (observer-granted p r m g (a r (Memᴰ.head refl)))) rest

-- Where memory never runs out, the scan ends without a refusal exactly if the identities and types
-- of every record are shorter than their arrays.
pub observe_all-granted :
    (p : Platform) (rs : List Record) (m : Model)
    → Granting p
    → ((observe_all p rs m).1 ≡ none) ↔ ((r : Record) → Memᴰ r rs → IsAcceptable r)
observe_all-granted p rs m g =
    (λ h r k. ((observe_all_lem p rs m h).1 r k).0, scan_granted p rs m g)

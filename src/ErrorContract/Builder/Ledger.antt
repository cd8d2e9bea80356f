-- ===== src/ErrorContract/Builder/Ledger.antt =====
-- The array of ownership files as a ledger: how often each kind of note was recorded for each path.
use p101_audit.Base.{
  ℕ, ◌+◌, ◌-◌, ◌^◌, ◌≡◌, ◌≢◌, ◌<◌, refl, ◌∙◌, ap, subst, inl, inr, ◌⊎◌, Bool, true, false, ◌&&◌,
  List, [], ◌∷◌, ◌++◌, Option, none, some, leb, if◌then◌else◌, arith, Bool-cases, length, take_all,
}
use p101_audit.Base.Text.{Text, str_eq, str_eq_sound}
use p101_audit.Base.Scan.{any, find}
use p101_audit.ErrorContract.{
  OwnershipKind, OwnershipFile, ContractModel, contract_path_len, max_fact_functions,
}
use p101_audit.ErrorContract.Builder.{
  copy_text, update_first, is_owner, count_ownership, new_owner, record_ownership,
}

-- The counter of the kind.
unfoldable pub recorded : OwnershipKind → OwnershipFile → ℕ
recorded OwnershipKind.error_acquire o = o.error_create_count
recorded OwnershipKind.error_release o = o.error_destroy_count
recorded OwnershipKind.env_acquire o = o.env_create_count
recorded OwnershipKind.env_release o = o.env_destroy_count

unfoldable pub same_ownership : OwnershipKind → OwnershipKind → Bool
same_ownership OwnershipKind.error_acquire OwnershipKind.error_acquire = true
same_ownership OwnershipKind.error_release OwnershipKind.error_release = true
same_ownership OwnershipKind.env_acquire OwnershipKind.env_acquire = true
same_ownership OwnershipKind.env_release OwnershipKind.env_release = true
same_ownership _ _ = false

-- What the array holds for the kind and the path.
unfoldable pub recorded_in : OwnershipKind → Option OwnershipFile → ℕ
recorded_in kind none = 0
recorded_in kind (some o) = recorded kind o

unfoldable pub lookup : OwnershipKind → Text → List OwnershipFile → ℕ
lookup kind path owners = recorded_in kind (find (is_owner path) owners)

count_ownership-path :
    (kind : OwnershipKind) (line : ℕ) (o : OwnershipFile)
    → (count_ownership kind line o).path ≡ o.path
unfolding count_ownership
count_ownership-path OwnershipKind.error_acquire line o = refl
count_ownership-path _ line o = refl

count_ownership-recorded :
    (kind j : OwnershipKind) (line : ℕ) (o : OwnershipFile)
    → recorded j o < 2 ^ 64 - 1
    → recorded j (count_ownership kind line o)
      ≡ recorded j o + (if same_ownership kind j then 1 else 0)
unfolding recorded count_ownership same_ownership
count_ownership-recorded OwnershipKind.error_acquire OwnershipKind.error_acquire line o h =
    omega arith
count_ownership-recorded OwnershipKind.error_release OwnershipKind.error_release line o h =
    omega arith
count_ownership-recorded OwnershipKind.env_acquire OwnershipKind.env_acquire line o h = omega arith
count_ownership-recorded OwnershipKind.env_release OwnershipKind.env_release line o h = omega arith
count_ownership-recorded _ _ line o h = omega arith

module _ (write : OwnershipFile → OwnershipFile)
    (kept : (o : OwnershipFile) → (write o).path ≡ o.path) where
  find-update_first_same :
      (path : Text) (owners : List OwnershipFile)
      → find (is_owner path) (update_first (is_owner path) write owners)
        ≡ (elim (find (is_owner path) owners) as (λ o. Option OwnershipFile) [
          | none ↦ none
          | some o ↦ some (write o)
        ])
  unfolding find update_first is_owner
  find-update_first_same path [] = refl
  find-update_first_same path (o ∷ owners) = elim (Bool-cases (str_eq o.path path)) [
    | inl e ↦ let e' : str_eq (write o).path path ≡ true = rw (kept o) e in rw (e, e') refl
    | inr e ↦ rw (e, e) (find-update_first_same path owners)
  ]

  find-update_first_other :
      (path other : Text) (owners : List OwnershipFile)
      → str_eq path other ≡ false
      → find (is_owner other) (update_first (is_owner path) write owners)
        ≡ find (is_owner other) owners
  unfolding find update_first is_owner
  find-update_first_other path other [] h = refl
  find-update_first_other path other (o ∷ owners) h = elim (Bool-cases (str_eq o.path path)) [
    | inl e ↦
        let off : str_eq o.path other ≡ false = rw (str_eq_sound o.path path e) h in
        let off' : str_eq (write o).path other ≡ false = rw (kept o) off in rw (e, off, off') refl
    | inr e ↦ rw e (
        ap (λ rest. if str_eq o.path other then some o else rest)
          (find-update_first_other path other owners h))
  ]

find-snoc :
    (path : Text) (owners : List OwnershipFile) (new : OwnershipFile)
    → any (is_owner path) owners ≡ false
    → find (is_owner path) (owners ++ new ∷ []) ≡ (if is_owner path new then some new else none)
unfolding find any
find-snoc path [] new h = refl
find-snoc path (o ∷ owners) new h =
    let off : is_owner path o ≡ false = ground arith in
    rw off (find-snoc path owners new (ground arith))

find-snoc_other :
    (path : Text) (owners : List OwnershipFile) (new : OwnershipFile)
    → is_owner path new ≡ false
    → find (is_owner path) (owners ++ new ∷ []) ≡ find (is_owner path) owners
unfolding find
find-snoc_other path [] new h = rw h refl
find-snoc_other path (o ∷ owners) new h =
    ap (λ rest. if is_owner path o then some o else rest) (find-snoc_other path owners new h)

find-any :
    (path : Text) (owners : List OwnershipFile)
    → any (is_owner path) owners ≡ false
    → find (is_owner path) owners ≡ none
unfolding find any
find-any path [] h = refl
find-any path (o ∷ owners) h =
    let off : is_owner path o ≡ false = ground arith in rw off (find-any path owners (ground arith))

find-ne_none :
    (path : Text) (owners : List OwnershipFile)
    → any (is_owner path) owners ≡ true
    → find (is_owner path) owners ≢ none
unfolding find any
find-ne_none path [] a b = absurd (ground arith)
find-ne_none path (x ∷ xs) a b = elim (Bool-cases (is_owner path x)) [
  | inl t ↦ absurd (ground arith)
  | inr t ↦ find-ne_none path xs (ground arith) (ground arith)
]

new_owner-path : (path : Text) → length path < contract_path_len → (new_owner path).path ≡ path
unfolding new_owner copy_text
new_owner-path path fits = take_all (contract_path_len - 1) path (omega arith)

new_owner-recorded : (j : OwnershipKind) (path : Text) → recorded j (new_owner path) ≡ 0
unfolding recorded new_owner
new_owner-recorded OwnershipKind.error_acquire path = refl
new_owner-recorded _ path = refl

-- One more is expected of the kind at the path.
abbrev pub step : OwnershipKind → Text → OwnershipKind → Text → ℕ
step kind path j q = if same_ownership kind j && str_eq path q then 1 else 0

module _ (path : Text) (line : ℕ) (kind j : OwnershipKind) (q : Text)
    (owners : List OwnershipFile) where
  lookup-updated :
      lookup j q owners < 2 ^ 64 - 1
      → any (is_owner path) owners ≡ true
      → lookup j q (update_first (is_owner path) (count_ownership kind line) owners)
        ≡ lookup j q owners + step kind path j q
  unfolding lookup recorded_in
  lookup-updated small known = elim (Bool-cases (str_eq path q)) [
    | inr off ↦
        ap (recorded_in j) (
          find-update_first_other (count_ownership kind line) (count_ownership-path kind line) path
            q owners off)
        ∙ ground arith
    | inl on ↦
        let same = str_eq_sound path q on in
        let found =
          find-update_first_same (count_ownership kind line) (count_ownership-path kind line) path
            owners in
        let there : any (is_owner q) owners ≡ true =
          subst (λ t. any (is_owner t) owners ≡ true) same known in
        by_find (find (is_owner q) owners) (find-ne_none q owners there) small on (
          ap (recorded_in j) (
            subst
              (λ t.
                find (is_owner t) (update_first (is_owner path) (count_ownership kind line) owners)
                ≡ (elim (find (is_owner t) owners) as (λ o. Option OwnershipFile) [
                  | none ↦ none
                  | some o ↦ some (count_ownership kind line o)
                ]))
              same found))
  ]
    where
      by_find :
          (o : Option OwnershipFile)
          → o ≢ none
          → recorded_in j o < 2 ^ 64 - 1
          → str_eq path q ≡ true
          → {n : ℕ}
          → n
            ≡ recorded_in j (elim o as (λ o. Option OwnershipFile) [
              | none ↦ none
              | some o ↦ some (count_ownership kind line o)
            ])
          → n ≡ recorded_in j o + step kind path j q
      by_find none ne bound on h = absurd (ne refl)
      by_find (some o) ne bound on h =
          let one = count_ownership-recorded kind j line o bound in h ∙ one ∙ ground arith

  lookup-appended :
      length path < contract_path_len
      → any (is_owner path) owners ≡ false
      → lookup j q (owners ++ count_ownership kind line (new_owner path) ∷ [])
        ≡ lookup j q owners + step kind path j q
  unfolding lookup recorded_in is_owner
  lookup-appended fits absent =
      let new = count_ownership kind line (new_owner path) in
      let named : new.path ≡ path =
        count_ownership-path kind line (new_owner path) ∙ new_owner-path path fits in
      let zero_before = new_owner-recorded j path in
      let one = count_ownership-recorded kind j line (new_owner path) (omega arith) in
      elim (Bool-cases (str_eq path q)) [
        | inr off ↦
            let other : is_owner q new ≡ false = unfold is_owner in rw named off in
            ap (recorded_in j) (find-snoc_other q owners new other) ∙ ground arith
        | inl on ↦
            let same = str_eq_sound path q on in
            let absent_q : any (is_owner q) owners ≡ false =
              subst (λ t. any (is_owner t) owners ≡ false) same absent in
            let here : str_eq new.path q ≡ true = rw named on in
            let chosen : (if is_owner q new then some new else none) ≡ some new = rw here refl in
            let before = ap (recorded_in j) (find-any q owners absent_q) in
            ap (recorded_in j) (find-snoc q owners new absent_q ∙ chosen) ∙ one ∙ ground arith
      ]

-- The operation implements a ledger, an abstract map from kinds and paths to numbers: for a path that
-- fits into its array, and below the largest size_t, `record_ownership` either raises an error and
-- leaves the model alone, or adds one to what is recorded for the kind and the path, and to nothing else.
pub record_ownership_refines :
    (model : ContractModel) (path : Text) (line : ℕ) (kind : OwnershipKind)
    → length path < contract_path_len
    → ((j : OwnershipKind) (q : Text) → lookup j q model.ownership_files < 2 ^ 64 - 1)
    → (((record_ownership model path line kind).1 ≢ none)
        × ((record_ownership model path line kind).0 ≡ model))
      ⊎ (((record_ownership model path line kind).1 ≡ none)
          × ((j : OwnershipKind) (q : Text)
              → lookup j q (record_ownership model path line kind).0.ownership_files
                ≡ lookup j q model.ownership_files + step kind path j q))
unfolding record_ownership
record_ownership_refines model path line kind fits small =
    elim (Bool-cases (any (is_owner path) model.ownership_files)) [
      | inl known ↦ rw known (
          inr (
            refl,
            λ j q. lookup-updated path line kind j q model.ownership_files (small j q) known,
          ))
      | inr absent ↦ elim (Bool-cases (leb max_fact_functions (length model.ownership_files))) [
        | inl full ↦ rw (absent, full) (inl (λ h. cc, refl))
        | inr room ↦
            rw (absent, room)
              (inr
                (refl, λ j q. lookup-appended path line kind j q model.ownership_files fits absent))
      ]
    ]

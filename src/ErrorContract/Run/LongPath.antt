-- ===== src/ErrorContract/Run/LongPath.antt =====
-- Ownership notes in a file whose path is cut when it is stored.
use p101_audit.Base.{
  ℕ, ◌+◌, ◌-◌, ◌≡◌, ◌≤◌, ◌<◌, refl, ◌∙◌, ap, subst, inl, inr, Bool, false, List, [], ◌∷◌, ◌++◌,
  Memᴰ, leb, arith, Bool-cases, length, length-take, length-append,
}
use p101_audit.Base.Text.{Text, str_eq_sound}
use p101_audit.Base.Scan.{any, any_sound, mem_snoc_cases, mem_append_left}
use p101_audit.ErrorContract.{
  OwnershipKind, OwnershipFile, ContractModel, contract_path_len, max_fact_functions,
}
use p101_audit.ErrorContract.Builder.{
  copy_text, is_owner, count_ownership, new_owner, record_ownership,
}
use p101_audit.ErrorContract.Run.Clean.{IsClean}

-- The stored paths fit into their arrays.
abbrev pub IsStored : List OwnershipFile → Type 0
IsStored owners = (o : OwnershipFile) → Memᴰ o owners → length o.path < contract_path_len

module _ (path : Text) (long : contract_path_len ≤ length path) where
  no_owner : (owners : List OwnershipFile) → IsStored owners → any (is_owner path) owners ≡ false
  unfolding is_owner
  no_owner owners stored = elim (Bool-cases (any (is_owner path) owners)) [
    | inr e ↦ e
    | inl e ↦
        let (o, m, q) = any_sound (is_owner path) owners e in
        let same = ap length (str_eq_sound o.path path q) in
        let short = stored o m in absurd (omega arith)
  ]

  record_ownership_appends :
      (model : ContractModel) (line : ℕ) (kind : OwnershipKind)
      → IsStored model.ownership_files
      → length model.ownership_files < max_fact_functions
      → (record_ownership model path line kind).0 ≡ record model {
        ownership_files = model.ownership_files ++ count_ownership kind line (new_owner path) ∷ [];
      }
  unfolding record_ownership
  record_ownership_appends model line kind stored room =
      let absent = no_owner model.ownership_files stored in
      let fits : leb max_fact_functions (length model.ownership_files) ≡ false = ground arith in
      rw (absent, fits) refl

  new_owner-IsStored :
      (owners : List OwnershipFile) (line : ℕ)
      → IsStored owners
      → IsStored (owners ++ count_ownership OwnershipKind.error_acquire line (new_owner path) ∷ [])
  unfolding count_ownership new_owner copy_text
  new_owner-IsStored owners line stored o m = elim (mem_snoc_cases owners m) [
    | inl old ↦ stored o old
    | inr new ↦
        let size = ap (λ (x : OwnershipFile). length x.path) new in
        ground (arith, length-take (contract_path_len - 1) path)
  ]

mem_last {ℓ} : {A : Type ℓ} (xs : List A) (x : A) → Memᴰ x (xs ++ x ∷ [])
mem_last [] x = Memᴰ.head refl
mem_last (y ∷ xs) x = Memᴰ.tail (mem_last xs x)

acquire-unbalanced :
    (path : Text) (line : ℕ)
    → (count_ownership OwnershipKind.error_acquire line (new_owner path)).error_destroy_count
      < (count_ownership OwnershipKind.error_acquire line (new_owner path)).error_create_count
unfolding count_ownership new_owner
acquire-unbalanced path line = omega arith

-- In a file whose path does not fit into its array, and with room for two more files: an error object
-- that is acquired and released again leaves a model that is not clean, since the note of the release
-- does not find the cut path that the note of the acquisition stored. The paths stored before fit.
pub long_path-IsClean :
    (strict_sequence : Bool) (model : ContractModel) (path : Text) (line release_line : ℕ)
    → contract_path_len ≤ length path
    → IsStored model.ownership_files
    → length model.ownership_files + 1 < max_fact_functions
    → ¬ IsClean strict_sequence
        (record_ownership
          (record_ownership model path line OwnershipKind.error_acquire).0
          path
          release_line
          OwnershipKind.error_release).0
long_path-IsClean strict_sequence model path line release_line long stored room clean =
    let owner = count_ownership OwnershipKind.error_acquire line (new_owner path) in
    let acquired : ContractModel = record model {
      ownership_files = model.ownership_files ++ owner ∷ [];
    } in
    let first =
      record_ownership_appends path long model line OwnershipKind.error_acquire stored
        (omega arith) in
    let second =
      record_ownership_appends path long acquired release_line OwnershipKind.error_release
        (new_owner-IsStored path long model.ownership_files line stored)
        (omega (arith, length-append model.ownership_files (owner ∷ []))) in
    let both =
      ap (λ m. (record_ownership m path release_line OwnershipKind.error_release).0) first
      ∙ second in
    let final = subst (λ m. IsClean strict_sequence m) both clean in
    let (balanced, _) =
      final.owners owner (mem_append_left _ _ (mem_last model.ownership_files owner)) in
    let more = acquire-unbalanced path line in absurd (omega arith)

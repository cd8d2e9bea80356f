-- ===== src/ModuleMap/Loader/Invariant.antt =====
-- What the loading of facts or records leaves in the map.
use p101_audit.Base.{
  ℕ, ◌≡◌, ◌<◌, refl, sym, ◌∙◌, ap, subst, inl, inr, Bool, not, ◌||◌, List, [], ◌∷◌, Option, none,
  some, arith, Bool-cases, Option-cases, length,
}
use p101_audit.Base.Text.{Text, str_eq}
use p101_audit.Base.Scan.{find_sound}
use p101_audit.Wrapper.{Kind}
use p101_audit.ErrorContract.Event.{NoteKind}
use p101_audit.ErrorContract.Loader.{FactKind}
use p101_audit.ModuleMap.{SourceFile, ProjectMap, max_name}
use p101_audit.ModuleMap.Strings.{basename_no_suffix, normalize_module_name}
use p101_audit.ModuleMap.Mutation.{
  Failure, Outcome, add_named_source_file, note_error_use, note_error_check,
}
use p101_audit.ModuleMap.Mutation.Counters.{IsWell}
use p101_audit.ModuleMap.Mutation.Keeping.{
  length-basename, add_named_source_file-IsWell, add_include-IsWell, add_function-IsWell,
  add_macro-IsWell, add_type-IsWell, add_call-IsWell, add_note-IsWell, note_error_use-IsWell,
  note_error_check-IsWell,
}
use p101_audit.ModuleMap.Loader.{
  ModuleFact, ModuleRecord, find_fact_file, behind, file_for, file_for_fact, file_for_record,
  apply_module_note, apply_fact_kind, apply_module_fact, apply_module_facts, apply_record_kind,
  apply_source_record, is_diagnostic, apply_module_record, apply_module_records,
}
use p101_audit.ModuleMap.Loader.Files.{
  FitNames, add_include-files, add_function-files, add_macro-files, add_type-files, add_call-files,
  add_note-files, note_error_use-files, note_error_check-files, add_named_source_file-FitNames,
  length-normalize,
}

-- A well-formed map whose files have module names that fit.
pub record IsFilled (map : ProjectMap) : Type 0 where
  pub well : IsWell map
  pub fit : FitNames map.files

filled :
    (map map' : ProjectMap) → IsFilled map → IsWell map' → map'.files ≡ map.files → IsFilled map'
filled map map' h well same = record { well = well; fit = subst FitNames (sym same) h.fit }

behind-first : (e : Option Failure) (o : Outcome) → (behind e o).0 ≡ o.0
behind-first none o = refl
behind-first (some e) o = refl

module _ (map : ProjectMap) (h : IsFilled map) where
  file_for-IsFilled :
      (path module_name : Text) (is_header : Bool)
      → length module_name < max_name
      → IsFilled (file_for map path module_name is_header).0.0
        × ((f : SourceFile)
            → (file_for map path module_name is_header).1 ≡ some f
            → length f.module_name < max_name)
  unfolding file_for find_fact_file
  file_for-IsFilled path module_name is_header small =
      let added = add_named_source_file map path module_name is_header in
      let next : IsFilled added.0 = record {
        well = add_named_source_file-IsWell map h.well path module_name is_header small;
        fit = add_named_source_file-FitNames map path module_name is_header h.fit;
      } in
      elim (Option-cases (find_fact_file map path)) [
        | inl e ↦
            rw (e, file_for, find_fact_file)
              (
                next,
                λ f q.
                    next.fit f
                      (find_sound (λ (x : SourceFile). str_eq x.path path) added.0.files f q).0,
              )
        | inr (f, e) ↦
            rw (e, file_for, find_fact_file)
              (
                h,
                λ g q.
                    let same : some f ≡ some g = q in
                    h.fit g
                      (find_sound (λ (x : SourceFile). str_eq x.path path) map.files g
                        (e ∙ same)).0,
              )
      ]

  module _ (file : SourceFile) (fits : length file.module_name < max_name) where
    note-IsFilled :
        (role : NoteKind) (name : Text) (caller caller_usr : Option Text) (line : ℕ)
        → IsFilled (apply_module_note map file role name caller caller_usr line).0
    unfolding apply_module_note
    note-IsFilled NoteKind.error_use name caller caller_usr line =
        filled map _ h (note_error_use-IsWell map h.well file fits) (note_error_use-files map file)
    note-IsFilled NoteKind.error_check name caller caller_usr line =
        let used = note_error_use map file in
        let well = note_error_use-IsWell map h.well file fits in
        let same = behind-first used.1 (note_error_check used.0 file) in
        filled map _ h (subst IsWell (sym same) (note_error_check-IsWell used.0 well file fits)) (
          ap (λ (m : ProjectMap). m.files) same
          ∙ note_error_check-files used.0 file
          ∙ note_error_use-files map file)
    note-IsFilled NoteKind.signature_env_order name caller caller_usr line =
        filled map _ h (add_note-IsWell map h.well file (some name) caller caller_usr line)
          (add_note-files map file (some name) caller caller_usr line)
    note-IsFilled NoteKind.alloc_sizeof_type name caller caller_usr line =
        filled map _ h (add_note-IsWell map h.well file (some name) caller caller_usr line)
          (add_note-files map file (some name) caller caller_usr line)
    note-IsFilled _ name caller caller_usr line = h

    fact_kind-IsFilled :
        (note_kind : Text → NoteKind) (x : ModuleFact) (k : FactKind)
        → IsFilled (apply_fact_kind note_kind map file x k).0
    unfolding apply_fact_kind
    fact_kind-IsFilled note_kind x FactKind.include =
        filled map _ h
          (add_include-IsWell map h.well file fits x.value x.resolved x.line x.is_local)
          (add_include-files map file x.value x.resolved x.line x.is_local)
    fact_kind-IsFilled note_kind x FactKind.function =
        elim (Bool-cases (not x.is_declaration || file.is_header)) [
          | inr e ↦ rw (e, apply_fact_kind) h
          | inl e ↦
              rw (e, apply_fact_kind)
                (filled map _ h
                  (add_function-IsWell map h.well file fits x.value x.usr x.line x.is_static
                    x.is_declaration)
                  (add_function-files map file x.value x.usr x.line x.is_static x.is_declaration))
        ]
    fact_kind-IsFilled note_kind x FactKind.call =
        filled map _ h (add_call-IsWell map h.well file (some x.value) x.usr x.caller_usr x.line)
          (add_call-files map file (some x.value) x.usr x.caller_usr x.line)
    fact_kind-IsFilled note_kind x FactKind.type =
        filled map _ h (add_type-IsWell map h.well file fits x.value x.line)
          (add_type-files map file x.value x.line)
    fact_kind-IsFilled note_kind x FactKind.enum =
        filled map _ h (add_type-IsWell map h.well file fits x.value x.line)
          (add_type-files map file x.value x.line)
    fact_kind-IsFilled note_kind x FactKind.macro = elim (Bool-cases x.is_definition) [
      | inr e ↦ rw (e, apply_fact_kind) h
      | inl e ↦
          rw (e, apply_fact_kind)
            (filled map _ h (add_macro-IsWell map h.well file fits x.value x.line)
              (add_macro-files map file x.value x.line))
    ]
    fact_kind-IsFilled note_kind x FactKind.note =
        note-IsFilled (note_kind x.value) x.value x.caller x.caller_usr x.line
    fact_kind-IsFilled note_kind x _ = h

    record_kind-IsFilled :
        (note_kind : Text → NoteKind) (r : ModuleRecord) (k : Kind)
        → IsFilled (apply_record_kind note_kind map file r k).0
    unfolding apply_record_kind
    record_kind-IsFilled note_kind r Kind.include =
        filled map _ h
          (add_include-IsWell map h.well file fits r.name r.resolved_include r.line
            r.is_local_include)
          (add_include-files map file r.name r.resolved_include r.line r.is_local_include)
    record_kind-IsFilled note_kind r Kind.function =
        elim (Bool-cases (r.is_definition || file.is_header)) [
          | inr e ↦ rw (e, apply_record_kind) h
          | inl e ↦
              rw (e, apply_record_kind)
                (filled map _ h
                  (add_function-IsWell map h.well file fits r.name r.usr r.line r.is_static
                    (not r.is_definition))
                  (add_function-files map file r.name r.usr r.line r.is_static
                    (not r.is_definition)))
        ]
    record_kind-IsFilled note_kind r Kind.call =
        filled map _ h (add_call-IsWell map h.well file (some r.name) r.usr r.caller_usr r.line)
          (add_call-files map file (some r.name) r.usr r.caller_usr r.line)
    record_kind-IsFilled note_kind r Kind.type =
        filled map _ h (add_type-IsWell map h.well file fits r.name r.line)
          (add_type-files map file r.name r.line)
    record_kind-IsFilled note_kind r Kind.enum =
        filled map _ h (add_type-IsWell map h.well file fits r.name r.line)
          (add_type-files map file r.name r.line)
    record_kind-IsFilled note_kind r Kind.macro = elim (Bool-cases r.is_definition) [
      | inr e ↦ rw (e, apply_record_kind) h
      | inl e ↦
          rw (e, apply_record_kind)
            (filled map _ h (add_macro-IsWell map h.well file fits r.name r.line)
              (add_macro-files map file r.name r.line))
    ]
    record_kind-IsFilled note_kind r Kind.note =
        note-IsFilled (note_kind r.name) r.name r.caller r.caller_usr r.line
    record_kind-IsFilled note_kind r _ = h

-- The operation on the file that was found, if one was.
on_file-IsFilled :
    (found : Outcome) (file : Option SourceFile) (act : SourceFile → Outcome)
    → IsFilled found.0
    → ((f : SourceFile) → file ≡ some f → IsFilled (act f).0)
    → IsFilled (elim file as (λ o. Outcome) [ none ↦ found | some f ↦ behind found.1 (act f) ]).0
on_file-IsFilled found none act h next = h
on_file-IsFilled found (some f) act h next =
    subst IsFilled (sym (behind-first found.1 (act f))) (next f refl)

abbrev HasFitFile : Outcome × Option SourceFile → Type 0
HasFitFile (found, file) =
    IsFilled found.0 × ((f : SourceFile) → file ≡ some f → length f.module_name < max_name)

file_for_fact-HasFitFile :
    (map : ProjectMap) (x : ModuleFact) → IsFilled map → HasFitFile (file_for_fact map x)
unfolding file_for_fact
file_for_fact-HasFitFile map x h = elim (Option-cases x.path) [
  | inl e ↦ rw (e, file_for_fact) (h, λ f q. let wrong : none ≡ some f = q in cc)
  | inr (path, e) ↦
      rw (e, file_for_fact)
        (file_for-IsFilled map h path (normalize_module_name max_name x.module_name) x.is_header
          (length-normalize max_name x.module_name (omega arith)))
]

file_for_record-HasFitFile :
    (map : ProjectMap) (r : ModuleRecord) → IsFilled map → HasFitFile (file_for_record map r)
unfolding file_for_record
file_for_record-HasFitFile map r h = elim (Option-cases r.path) [
  | inl e ↦ rw (e, file_for_record) (h, λ f q. let wrong : none ≡ some f = q in cc)
  | inr (path, e) ↦
      rw (e, file_for_record)
        (file_for-IsFilled map h path (basename_no_suffix max_name path) r.is_header
          (length-basename path))
]

module _ (note_kind : Text → NoteKind) where
  fact-IsFilled :
      (map : ProjectMap) (x : ModuleFact)
      → IsFilled map
      → IsFilled (apply_module_fact note_kind map x).0
  unfolding apply_module_fact
  fact-IsFilled map x h =
      let (found, file) = file_for_fact map x in
      let (filled_map, fits) = file_for_fact-HasFitFile map x h in
      on_file-IsFilled found file (λ f. apply_fact_kind note_kind found.0 f x x.kind) filled_map
        (λ f q. fact_kind-IsFilled found.0 filled_map f (fits f q) note_kind x x.kind)

  record-IsFilled :
      (map : ProjectMap) (r : ModuleRecord)
      → IsFilled map
      → IsFilled (apply_module_record note_kind map r).0
  unfolding apply_module_record apply_source_record
  record-IsFilled map r h =
      let (found, file) = file_for_record map r in
      let (filled_map, fits) = file_for_record-HasFitFile map r h in
      let applied =
        on_file-IsFilled found file (λ f. apply_record_kind note_kind found.0 f r r.kind) filled_map
          (λ f q. record_kind-IsFilled found.0 filled_map f (fits f q) note_kind r r.kind) in
      elim (Bool-cases (is_diagnostic r.kind)) [
        | inl e ↦ rw (e, apply_module_record) h
        | inr e ↦ rw (e, apply_module_record) applied
      ]

  facts-IsFilled :
      (xs : List ModuleFact) (map : ProjectMap)
      → IsFilled map
      → IsFilled (apply_module_facts note_kind xs map).0
  unfolding apply_module_facts
  facts-IsFilled [] map h = h
  facts-IsFilled (x ∷ xs) map h =
      let next = fact-IsFilled map x h in
      let rest = facts-IsFilled xs (apply_module_fact note_kind map x).0 next in
      elim (Option-cases (apply_module_fact note_kind map x).1) [
        | inl e ↦ rw (e, apply_module_facts) rest
        | inr (failure, e) ↦ rw (e, apply_module_facts) next
      ]

  records-IsFilled :
      (rs : List ModuleRecord) (map : ProjectMap)
      → IsFilled map
      → IsFilled (apply_module_records note_kind rs map).0
  unfolding apply_module_records
  records-IsFilled [] map h = h
  records-IsFilled (r ∷ rs) map h =
      let next = record-IsFilled map r h in
      let rest = records-IsFilled rs (apply_module_record note_kind map r).0 next in
      elim (Option-cases (apply_module_record note_kind map r).1) [
        | inl e ↦ rw (e, apply_module_records) rest
        | inr (failure, e) ↦ rw (e, apply_module_records) next
      ]

-- Whatever facts or records are loaded, and also where one raises an error and ends the loading: a map
-- that is well-formed, with module names of its files that fit into their arrays, stays so. Nothing is
-- assumed of the facts and records: the loaders cut every module name that they hand on.
pub load-IsFilled :
    (note_kind : Text → NoteKind) (facts : List ModuleFact) (records : List ModuleRecord)
    (map : ProjectMap)
    → IsFilled map
    → IsFilled (apply_module_facts note_kind facts map).0
      × IsFilled (apply_module_records note_kind records map).0
load-IsFilled note_kind facts records map h =
    (facts-IsFilled note_kind facts map h, records-IsFilled note_kind records map h)

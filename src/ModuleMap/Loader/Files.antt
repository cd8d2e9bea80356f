-- ===== src/ModuleMap/Loader/Files.antt =====
-- The files of the map, whose module names fit into their arrays.
use p101_audit.Base.{
  ℕ, ◌+◌, ◌-◌, ◌≡◌, ◌<◌, refl, ◌∙◌, ap, subst, ◌⊎◌, inl, inr, Bool, not, List, [], ◌∷◌, ◌++◌,
  Option, none, some, Memᴰ, ltb, leb, if◌then◌else◌, arith, Bool-cases, Option-cases, length,
  length-append, length-take, take,
}
use p101_audit.Base.Text.{Text}
use p101_audit.Base.Scan.{any, mem_snoc_cases}
use p101_audit.ModuleMap.{
  SourceFile, ProjectMap, max_name, max_modules, max_files, max_includes, max_functions, max_macros,
  max_types,
}
use p101_audit.ModuleMap.Strings.{
  copy_string, append_string, split_last, basename_no_suffix, normalize_module_name,
}
use p101_audit.ModuleMap.Mutation.{
  usr_fits, same_declaration_site, new_module, module_index, get_module, update_module, with_module,
  add_named_source_file, add_include, add_function, add_macro, add_type, add_call, add_note,
  note_error_use, note_error_check,
}

abbrev pub FitNames : List SourceFile → Type 0
FitNames files = (f : SourceFile) → Memᴰ f files → length f.module_name < max_name

get_module_cases :
    (map : ProjectMap) (name : Text)
    → (get_module map name ≡ none)
      ⊎ ((index : ℕ) × (m : ProjectMap) × (get_module map name ≡ some (index, m))
          × (m.files ≡ map.files))
unfolding get_module
get_module_cases map name =
    elim (Bool-cases (ltb (module_index name map.modules) (length map.modules))) [
      | inl e ↦ inr (module_index name map.modules, map, rw (e, get_module) refl, refl)
      | inr e ↦ elim (Bool-cases (leb max_modules (length map.modules))) [
        | inl f ↦ inl (rw (e, f, get_module) refl)
        | inr f ↦ inr (
          module_index name map.modules,
          record map { modules = map.modules ++ new_module name ∷ [] },
          rw (e, f, get_module) refl,
          refl,
        )
      ]
    ]

-- An operation behind the search for a module keeps what does not depend on the modules.
with_module-files :
    (map : ProjectMap) (name : Text) (g : ℕ → ProjectMap → ProjectMap)
    → ((index : ℕ) (m : ProjectMap) → (g index m).files ≡ m.files)
    → (with_module map name g).0.files ≡ map.files
unfolding with_module
with_module-files map name g kept = elim (get_module_cases map name) [
  | inl e ↦ rw (e, with_module) refl
  | inr (index, m, e, same) ↦ rw (e, with_module) (kept index m ∙ same)
]

module _ (map : ProjectMap) (file : SourceFile) where
  pub add_include-files :
      (target : Text) (resolved : Option Text) (line : ℕ) (is_local : Bool)
      → (add_include map file target resolved line is_local).0.files ≡ map.files
  unfolding add_include update_module
  add_include-files target resolved line is_local =
      elim (Bool-cases (leb max_includes (length map.includes))) [
        | inl e ↦ rw e refl
        | inr e ↦ rw e (with_module-files map file.module_name _ (λ index m. refl))
      ]

  pub add_function-files :
      (name : Text) (usr : Option Text) (line : ℕ) (is_static is_header_declaration : Bool)
      → (add_function map file name usr line is_static is_header_declaration).0.files ≡ map.files
  unfolding add_function update_module
  add_function-files name usr line is_static is_header_declaration =
      elim (Bool-cases (leb max_functions (length map.functions))) [
        | inl e ↦ rw e refl
        | inr e ↦ elim (Bool-cases (not (usr_fits usr))) [
          | inl f ↦ rw (e, f) refl
          | inr f ↦
              elim (Bool-cases (
                any (λ f. same_declaration_site f.name f.path f.line name file.path line)
                  map.functions)) [
                    | inl g ↦ rw (e, f, g) refl
                    | inr g ↦
                        rw (e, f, g) (with_module-files map file.module_name _ (λ index m. refl))
                  ]
        ]
      ]

  pub add_macro-files :
      (name : Text) (line : ℕ) → (add_macro map file name line).0.files ≡ map.files
  unfolding add_macro update_module
  add_macro-files name line = elim (Bool-cases (leb max_macros (length map.macros))) [
    | inl e ↦ rw e refl
    | inr e ↦
        elim (Bool-cases
          (any (λ m. same_declaration_site m.name m.path m.line name file.path line) map.macros)) [
            | inl f ↦ rw (e, f) refl
            | inr f ↦ rw (e, f) (with_module-files map file.module_name _ (λ index m. refl))
          ]
  ]

  pub add_type-files : (name : Text) (line : ℕ) → (add_type map file name line).0.files ≡ map.files
  unfolding add_type update_module
  add_type-files name line = elim (Bool-cases (leb max_types (length map.types))) [
    | inl e ↦ rw e refl
    | inr e ↦ rw e (with_module-files map file.module_name _ (λ index m. ground arith))
  ]

  pub add_call-files :
      (name usr caller_usr : Option Text) (line : ℕ)
      → (add_call map file name usr caller_usr line).0.files ≡ map.files
  unfolding add_call
  add_call-files name usr caller_usr line = ground arith

  pub add_note-files :
      (name symbol symbol_usr : Option Text) (line : ℕ)
      → (add_note map file name symbol symbol_usr line).0.files ≡ map.files
  unfolding add_note
  add_note-files name symbol symbol_usr line = ground arith

  pub note_error_use-files : (note_error_use map file).0.files ≡ map.files
  unfolding note_error_use update_module
  note_error_use-files = with_module-files map file.module_name _ (λ index m. refl)

  pub note_error_check-files : (note_error_check map file).0.files ≡ map.files
  unfolding note_error_check update_module
  note_error_check-files = with_module-files map file.module_name _ (λ index m. refl)

abbrev FitsName : Text → Type 0
FitsName name = length name < max_name

length-copy : (name : Text) → length (copy_string max_name name) < max_name
unfolding copy_string
length-copy name = ground (arith, length-take (max_name - 1) name)

-- A file is added behind the others, or none is.
pub add_named_source_file-FitNames :
    (map : ProjectMap) (path module_name : Text) (is_header : Bool)
    → FitNames map.files
    → FitNames (add_named_source_file map path module_name is_header).0.files
unfolding add_named_source_file with_module update_module
add_named_source_file-FitNames map path module_name is_header fit =
    elim (Bool-cases (leb max_files (length map.files))) [
      | inl e ↦ rw (e, add_named_source_file) fit
      | inr e ↦ elim (get_module_cases map module_name) [
        | inl n ↦ rw (e, add_named_source_file, with_module, n) fit
        | inr (index, m, n, same) ↦
            rw (e, add_named_source_file, with_module, n)
              (λ f k. elim (mem_snoc_cases m.files k) [
                | inl old ↦ fit f (subst (λ fs. Memᴰ f fs) same old)
                | inr new ↦
                    let name = ap (λ (x : SourceFile). length x.module_name) new in
                    omega (arith, length-copy module_name)
              ])
      ]
    ]

length-append_string :
    (destination : Text) (size : ℕ) (source : Text)
    → length destination < size
    → length (append_string destination size source) < size
unfolding append_string copy_string
length-append_string destination size source h =
    let rest = size - length destination in
    ground
      (arith, length-append destination (take (rest - 1) source), length-take (rest - 1) source)

pub length-normalize :
    (size : ℕ) (name : Text) → 0 < size → length (normalize_module_name size name) < size
unfolding normalize_module_name
length-normalize size name h = elim (Option-cases (split_last b'/' name)) [
  | inl e ↦ rw (e, normalize_module_name) (length-append_string [] size _ h)
  | inr ((before, base), e) ↦
      let len = length before + 1 in
      let prefix_length : ℕ = if leb size len then size - 1 else len in
      let fits : length (take prefix_length name) < size =
        ground (arith, length-take prefix_length name) in
      rw (e, normalize_module_name)
        (length-append_string (take prefix_length name) size (basename_no_suffix max_name base)
          fits)
]

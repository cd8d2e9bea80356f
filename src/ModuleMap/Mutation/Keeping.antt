-- ===== src/ModuleMap/Mutation/Keeping.antt =====
-- Each operation on the map keeps it well-formed.
use p101_audit.Base.{
  ℕ, ◌-◌, ◌≡◌, ◌≤◌, ◌<◌, refl, sym, ◌∙◌, ap, subst, inl, inr, Bool, true, false, ◌||◌, List, [],
  ◌∷◌, ◌++◌, Option, leb, if◌then◌else◌, length, length-append, length-take, take, take_all, arith,
  Bool-cases, Option-cases,
}
use p101_audit.Base.Text.{Text}
use p101_audit.Base.Scan.{any}
use p101_audit.ModuleMap.{
  NoteRecord, CallRecord, SourceFile, Module, ProjectMap, max_name, max_files, max_functions,
  max_includes, max_macros, max_types, max_calls, max_notes,
}
use p101_audit.ModuleMap.Strings.{
  copy_string, path_basename, without_prefix, stem_length, basename_no_suffix,
}
use p101_audit.ModuleMap.Mutation.{
  increment, get_module, with_module, add_named_source_file, add_include, add_function, add_macro,
  add_type, add_call, add_note, note_error_use, note_error_check, same_declaration_site, or_empty,
  usr_fits, is_note_at,
}
use p101_audit.ModuleMap.Mutation.Counters.{
  Counter, value, expected, Within, IsWell, expected-modules,
}
use p101_audit.ModuleMap.Mutation.Writes.{
  Appends, with_module-IsWell, get_module-IsWell, written-IsWell,
}
use p101_audit.ModuleMap.Mutation.Appending.{
  macro-Appends, type-Appends, file-Appends, function-Appends, include-Appends,
}
use p101_audit.ModuleMap.Mutation.Counting.{
  macro_written, type_written, file_written, include_written, function_written, count_file-name,
  count_include-name, count_function-name,
}

copied_name : (name : Text) → length name < max_name → copy_string max_name name ≡ name
unfolding copy_string
copied_name name fits = take_all (max_name - 1) name (omega arith)

one_longer {ℓ} :
    {A : Type ℓ} (bound : ℕ) (xs : List A) (x : A)
    → leb bound (length xs) ≡ false
    → length (xs ++ x ∷ []) ≤ bound
one_longer bound xs x h = ground (arith, length-append xs (x ∷ []))

cut_name :
    (len : ℕ) (base : Text)
    → length (take (if leb max_name len then max_name - 1 else len) base) < max_name
cut_name len base = elim (Bool-cases (leb max_name len)) [
  | inl e ↦ rw e (omega (arith, length-take (max_name - 1) base))
  | inr e ↦ rw e (ground (arith, length-take len base))
]

pub length-basename : (path : Text) → length (basename_no_suffix max_name path) < max_name
unfolding basename_no_suffix
length-basename path =
    let base = without_prefix (path_basename path) in cut_name (stem_length base) base

-- The record's own module name is the one that was looked up.
renamed :
    {map : ProjectMap} {name : Text} {g : Module → Module} {append : ProjectMap → ProjectMap}
    → length name < max_name
    → Appends map (copy_string max_name name) g append
    → Appends map name g append
renamed {map} {name} {g} {append} fits a =
    subst (λ n. Appends map n g append) (copied_name name fits) a

idle-Appends :
    (map : ProjectMap) (name : Text) (g : Module → Module)
    → Within map
    → ((m : Module) → (g m).name ≡ m.name)
    → ((c : Counter) (m : Module) → value c (g m) ≡ value c m)
    → Appends map name g (λ m. m)
idle-Appends map name g within named written = record {
  named = named;
  within = λ m e.
      subst (λ x. Within x) (sym e)
        (record {
          files = within.files;
          functions = within.functions;
          includes = within.includes;
          macros = within.macros;
          types = within.types;
          calls = within.calls;
          notes = within.notes;
        });
  untouched = λ m. refl;
  counts = λ c. false;
  written = written;
  appended = λ c m n e.
      let same : expected c m n ≡ expected c map n =
        ap (λ x. expected c x n) e ∙ ap (λ x. x n) (expected-modules c map m.modules) in
      omega arith;
}

-- The calls and the notes concern no counter.
expected-calls :
    (c : Counter) (map : ProjectMap) (cs : List CallRecord) (dropped : ℕ)
    → expected c (record map { calls = cs; calls_dropped = dropped }) ≡ expected c map
unfolding expected
expected-calls Counter.sources map cs dropped = refl
expected-calls _ map cs dropped = refl

expected-notes :
    (c : Counter) (map : ProjectMap) (ns : List NoteRecord)
    → expected c (record map { notes = ns }) ≡ expected c map
unfolding expected
expected-notes Counter.sources map ns = refl
expected-notes _ map ns = refl

use_written :
    (c : Counter) (m : Module) → value c (record m { uses_error_object = true }) ≡ value c m
unfolding value
use_written Counter.sources m = refl
use_written _ m = refl

check_written :
    (c : Counter) (m : Module) → value c (record m { checks_error_object = true }) ≡ value c m
unfolding value
check_written Counter.sources m = refl
check_written _ m = refl

module _ (map : ProjectMap) (well : IsWell map) where
  calls-IsWell :
      (cs : List CallRecord) (dropped : ℕ)
      → length cs ≤ max_calls
      → IsWell (record map { calls = cs; calls_dropped = dropped })
  calls-IsWell cs dropped h = record {
    within = record {
      files = well.within.files;
      functions = well.within.functions;
      includes = well.within.includes;
      macros = well.within.macros;
      types = well.within.types;
      calls = h;
      notes = well.within.notes;
    };
    modules = well.modules;
    distinct = well.distinct;
    counted = λ c. rw (expected-calls c map cs dropped) (well.counted c);
    listed = λ c n a. rw (expected-calls c map cs dropped) (well.listed c n a);
  }

  notes-IsWell : (ns : List NoteRecord) → length ns ≤ max_notes → IsWell (record map { notes = ns })
  notes-IsWell ns h = record {
    within = record {
      files = well.within.files;
      functions = well.within.functions;
      includes = well.within.includes;
      macros = well.within.macros;
      types = well.within.types;
      calls = well.within.calls;
      notes = h;
    };
    modules = well.modules;
    distinct = well.distinct;
    counted = λ c. rw (expected-notes c map ns) (well.counted c);
    listed = λ c n a. rw (expected-notes c map ns) (well.listed c n a);
  }

  pub add_call-IsWell :
      (file : SourceFile) (name usr caller_usr : Option Text) (line : ℕ)
      → IsWell (add_call map file name usr caller_usr line).0
  unfolding add_call
  add_call-IsWell file name usr caller_usr line =
      elim (Bool-cases (leb max_calls (length map.calls))) [
        | inl full ↦
            rw full (calls-IsWell map.calls (increment map.calls_dropped) well.within.calls)
        | inr room ↦ elim (Option-cases name) [
          | inl e ↦ rw (room, e, add_call) well
          | inr (n, e) ↦ elim (Bool-cases (usr_fits usr)) [
            | inr u ↦ rw (room, e, u, add_call) well
            | inl u ↦
                rw (room, e, u, add_call)
                  (calls-IsWell _ map.calls_dropped (one_longer max_calls map.calls _ room))
          ]
        ]
      ]

  pub add_note-IsWell :
      (file : SourceFile) (name symbol symbol_usr : Option Text) (line : ℕ)
      → IsWell (add_note map file name symbol symbol_usr line).0
  unfolding add_note
  add_note-IsWell file name symbol symbol_usr line =
      elim (Bool-cases (
        leb max_notes (length map.notes)
        || any (is_note_at (or_empty name) (or_empty symbol) file.path line) map.notes)) [
          | inl e ↦ rw e well
          | inr e ↦
              let room : leb max_notes (length map.notes) ≡ false = ground arith in
              rw e (notes-IsWell _ (one_longer max_notes map.notes _ room))
        ]

  pub add_named_source_file-IsWell :
      (path name : Text) (is_header : Bool)
      → length name < max_name
      → IsWell (add_named_source_file map path name is_header).0
  unfolding add_named_source_file
  add_named_source_file-IsWell path name is_header fits =
      elim (Bool-cases (leb max_files (length map.files))) [
        | inl full ↦ rw full well
        | inr room ↦ rw room (
            with_module-IsWell map name fits well (
              renamed fits (
                file-Appends map _ _ well.within (ground arith) (count_file-name path is_header)
                  (file_written path _))))
      ]

  module _ (file : SourceFile) (fits : length file.module_name < max_name) where
    pub add_include-IsWell :
        (target : Text) (resolved : Option Text) (line : ℕ) (is_local : Bool)
        → IsWell (add_include map file target resolved line is_local).0
    unfolding add_include
    add_include-IsWell target resolved line is_local =
        elim (Bool-cases (leb max_includes (length map.includes))) [
          | inl full ↦ rw full well
          | inr room ↦ rw room (
              with_module-IsWell map file.module_name fits well (
                renamed fits (
                  include-Appends map _ _ well.within (ground arith) (count_include-name is_local)
                    (include_written _))))
        ]

    pub add_function-IsWell :
        (name : Text) (usr : Option Text) (line : ℕ) (is_static is_header_declaration : Bool)
        → IsWell (add_function map file name usr line is_static is_header_declaration).0
    unfolding add_function
    add_function-IsWell name usr line is_static is_header_declaration =
        elim (Bool-cases (leb max_functions (length map.functions))) [
          | inl full ↦ rw full well
          | inr room ↦ elim (Bool-cases (usr_fits usr)) [
            | inr u ↦ rw (room, u) well
            | inl u ↦
                elim (Bool-cases (
                  any (λ f. same_declaration_site f.name f.path f.line name file.path line)
                    map.functions)) [
                      | inl e ↦ rw (room, u, e) well
                      | inr e ↦
                          rw (room, u, e)
                            (with_module-IsWell map file.module_name fits well (
                              renamed fits (
                                function-Appends map _ _ well.within (ground arith)
                                  (count_function-name is_static is_header_declaration)
                                  (function_written _))))
                    ]
          ]
        ]

    pub add_macro-IsWell : (name : Text) (line : ℕ) → IsWell (add_macro map file name line).0
    unfolding add_macro
    add_macro-IsWell name line = elim (Bool-cases (leb max_macros (length map.macros))) [
      | inl full ↦ rw full well
      | inr room ↦
          elim (Bool-cases (
            any (λ m. same_declaration_site m.name m.path m.line name file.path line) map.macros)) [
              | inl e ↦ rw (room, e) well
              | inr e ↦
                  rw (room, e)
                    (with_module-IsWell map file.module_name fits well (
                      renamed fits (
                        macro-Appends map _ _ well.within (ground arith) (λ m. refl)
                          (macro_written _))))
            ]
    ]

    pub note_error_use-IsWell : IsWell (note_error_use map file).0
    unfolding note_error_use
    note_error_use-IsWell =
        with_module-IsWell map file.module_name fits well
          (idle-Appends map file.module_name _ well.within (λ m. refl) use_written)

    pub note_error_check-IsWell : IsWell (note_error_check map file).0
    unfolding note_error_check
    note_error_check-IsWell =
        with_module-IsWell map file.module_name fits well
          (idle-Appends map file.module_name _ well.within (λ m. refl) check_written)

    -- The look-up comes first, and may add the module of a type that is known already.
    pub add_type-IsWell : (name : Text) (line : ℕ) → IsWell (add_type map file name line).0
    unfolding add_type with_module
    add_type-IsWell name line = elim (Bool-cases (leb max_types (length map.types))) [
      | inl full ↦ rw full well
      | inr room ↦ elim (Option-cases (get_module map file.module_name)) [
        | inl e ↦ rw (room, e, with_module) well
        | inr ((index, map'), e) ↦
            elim (Bool-cases (
              any (λ t. same_declaration_site t.name t.path t.line name file.path line)
                map'.types)) [
                  | inl k ↦
                      rw (room, e, with_module, k)
                        (get_module-IsWell map file.module_name fits well e)
                  | inr k ↦
                      rw (room, e, with_module, k)
                        (written-IsWell map file.module_name fits well
                          (renamed fits (
                            type-Appends map _ _ well.within (ground arith) (λ m. refl)
                              (type_written _)))
                          e)
                ]
      ]
    ]

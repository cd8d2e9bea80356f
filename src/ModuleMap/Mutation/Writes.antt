-- ===== src/ModuleMap/Mutation/Writes.antt =====
-- A look-up of a module, a write through its pointer and an appended record keep the map well-formed.
use p101_audit.Base.{
  ℕ, ◌+◌, ◌≡◌, ◌<◌, sym, ◌∙◌, ap, subst, inl, inr, Bool, true, ◌&&◌, [], ◌∷◌, ◌++◌, some, ltb,
  if◌then◌else◌, length, length-append, arith, Option-cases,
}
use p101_audit.Base.Text.{Text, str_eq, str_eq_refl}
use p101_audit.ModuleMap.{Module, ProjectMap, max_name, max_modules}
use p101_audit.ModuleMap.Mutation.{
  increment, module_index, new_module, get_module, update_at, update_module, with_module,
}
use p101_audit.ModuleMap.Mutation.Modules.{
  Apart, Counted, Found, Steps, DistinctNames-update_at, length-update_at, get_module-Found,
  Counted-update_at, Counted-snoc, DistinctNames-snoc, new_name, Apart-inside, Apart-of_update,
  Apart-of_snoc,
}
use p101_audit.ModuleMap.Mutation.Counters.{
  Counter, value, expected, Within, IsWell, expected-modules, expected_moderate, new_module-value,
}

-- A look-up, a write through its pointer, and an appended record: what an operation must say of the
-- three to keep the map well-formed.
pub record Appends (map : ProjectMap) (name : Text) (g : Module → Module)
    (append : ProjectMap → ProjectMap) : Type 0 where
  pub named : (m : Module) → (g m).name ≡ m.name
  pub within : (m : ProjectMap) → m ≡ record map { modules = m.modules } → Within (append m)
  pub untouched : (m : ProjectMap) → (append m).modules ≡ m.modules
  pub counts : Counter → Bool
  pub written :
      (c : Counter) (m : Module)
      → value c (g m) ≡ (if counts c then increment (value c m) else value c m)
  pub appended :
      (c : Counter) (m : ProjectMap) (n : Text)
      → m ≡ record map { modules = m.modules }
      → expected c (append m) n ≡ expected c map n + (if counts c && str_eq name n then 1 else 0)

module _ (map : ProjectMap) (name : Text) (fits : length name < max_name) (well : IsWell map) where
  -- The map behind the look-up is well-formed as well.
  pub get_module-IsWell :
      {index : ℕ} {map' : ProjectMap} → get_module map name ≡ some (index, map') → IsWell map'
  get_module-IsWell {index} {map'} h =
      let (found, same) = get_module-Found map name fits h in
      elim found.kept [
        | inl e ↦ subst (λ m. IsWell m) (sym (same ∙ ap (λ ms. record map { modules = ms }) e)) well
        | inr (e, apart, room) ↦
            subst (λ m. IsWell m) (sym (same ∙ ap (λ ms. record map { modules = ms }) e))
              (grown apart room)
      ]
    where
      zero_new :
          (c : Counter)
          → Apart name map.modules
          → value c (new_module name) ≡ expected c map (new_module name).name
      zero_new c apart =
          new_module-value c name
          ∙ sym (well.listed c name apart)
          ∙ sym (ap (expected c map) (new_name name fits))

      grown :
          Apart name map.modules
          → length map.modules < max_modules
          → IsWell (record map { modules = map.modules ++ new_module name ∷ [] })
      grown apart room = record {
        within = record {
          files = well.within.files;
          functions = well.within.functions;
          includes = well.within.includes;
          macros = well.within.macros;
          types = well.within.types;
          calls = well.within.calls;
          notes = well.within.notes;
        };
        modules = omega (arith, length-append map.modules (new_module name ∷ []));
        distinct =
            DistinctNames-snoc map.modules (new_module name) well.distinct
              (subst (λ t. Apart t map.modules) (sym (new_name name fits)) apart);
        counted = λ c. rw (expected-modules c map (map.modules ++ new_module name ∷ [])) (
            Counted-snoc (value c) (expected c map) map.modules (new_module name) (well.counted c)
              (zero_new c apart));
        listed = λ c n a.
            rw (expected-modules c map (map.modules ++ new_module name ∷ []))
              (well.listed c n (Apart-of_snoc n map.modules (new_module name) a));
      }

  module _ {g : Module → Module} {append : ProjectMap → ProjectMap} (a : Appends map name g append)
      {index : ℕ} {map' : ProjectMap} (h : get_module map name ≡ some (index, map')) where
    same_records : map' ≡ record map { modules = map'.modules }
    same_records = (get_module-Found map name fits h).1

    steps :
        (c : Counter)
        → Steps (value c) g name (a.counts c) (expected c map) (expected c (append map'))
    steps c = record {
      written = a.written c;
      there =
          let e = a.appended c map' name same_records in let s = str_eq_refl name in ground arith;
      elsewhere = λ n off. let e = a.appended c map' n same_records in ground arith;
      moderate = expected_moderate c map name well.within;
    }

    expected_found : (c : Counter) → expected c map' ≡ expected c map
    expected_found c = ap (expected c) same_records ∙ expected-modules c map map'.modules

    pub written-IsWell : IsWell (update_module index g (append map'))
    unfolding update_module
    written-IsWell =
        let (found, same) = get_module-Found map name fits h in
        let before = get_module-IsWell h in
        let w = a.within map' same in
        let ms'' = update_at index g (append map').modules in
        let known : (append map').modules ≡ map'.modules = a.untouched map' in
        rw (known, found.place)
          (record {
            within = record {
              files = w.files;
              functions = w.functions;
              includes = w.includes;
              macros = w.macros;
              types = w.types;
              calls = w.calls;
              notes = w.notes;
            };
            modules =
                rw (length-update_at (module_index name map'.modules) g map'.modules)
                  before.modules;
            distinct =
                DistinctNames-update_at g a.named (module_index name map'.modules) map'.modules
                  before.distinct;
            counted = λ c.
                rw
                  (expected-modules c (append map')
                    (update_at (module_index name map'.modules) g map'.modules))
                  (Counted-update_at (steps c) a.named map'.modules before.distinct (inside found) (
                    subst (λ e. Counted (value c) e map'.modules) (expected_found c)
                      (before.counted c)));
            listed = λ c n off.
                rw
                  (expected-modules c (append map')
                    (update_at (module_index name map'.modules) g map'.modules))
                  (none_left c n found (
                    Apart-of_update g a.named n (module_index name map'.modules) map'.modules off));
          })
      where
        inside :
            Found name map.modules index map'.modules
            → ltb (module_index name map'.modules) (length map'.modules) ≡ true
        inside found = subst (λ i. ltb i (length map'.modules) ≡ true) found.place found.inside

        none_left :
            (c : Counter) (n : Text)
            → Found name map.modules index map'.modules
            → Apart n map'.modules
            → expected c (append map') n ≡ 0
        none_left c n found off =
            (steps c).elsewhere n (Apart-inside name n map'.modules (inside found) off)
            ∙ sym (ap (λ e. e n) (expected_found c))
            ∙ (get_module-IsWell h).listed c n off

  pub with_module-IsWell :
      {g : Module → Module} {append : ProjectMap → ProjectMap}
      → Appends map name g append
      → IsWell (with_module map name (λ index m. update_module index g (append m))).0
  unfolding with_module
  with_module-IsWell a = elim (Option-cases (get_module map name)) [
    | inl e ↦ rw (e, with_module) well
    | inr ((index, map'), e) ↦ rw (e, with_module) (written-IsWell a e)
  ]

-- ===== src/ModuleMap/Mutation/Modules.antt =====
-- The array of modules: one module to a name, and the pointer that `p101_module_map_get_module` gives.
use p101_audit.Base.{
  ℕ, zero, suc, ◌+◌, ◌-◌, ◌^◌, ◌≡◌, ◌<◌, refl, sym, ◌∙◌, ap, subst, ◌⊎◌, inl, inr, Bool, true,
  false, List, [], ◌∷◌, ◌++◌, Option, some, ltb, leb, if◌then◌else◌, length, take_all,
  length-append, arith, Bool-cases,
}
use p101_audit.Base.Text.{Text, str_eq, str_eq_sound, str_eq_complete}
use p101_audit.ModuleMap.{Module, ProjectMap, max_name, max_modules}
use p101_audit.ModuleMap.Strings.{copy_string}
use p101_audit.ModuleMap.Mutation.{increment, module_index, new_module, get_module, update_at}

-- The module does not have the name of any of the others.
abbrev pub Apart : Text → List Module → Type 0
Apart name [] = Unit
Apart name (m ∷ ms) = (str_eq m.name name ≡ false) × Apart name ms

-- No two modules have one name.
abbrev pub DistinctNames : List Module → Type 0
DistinctNames [] = Unit
DistinctNames (m ∷ ms) = Apart m.name ms × DistinctNames ms

-- Each module's counter is what `expected` says for its name.
module _ (value : Module → ℕ) where
  abbrev pub Counted : (Text → ℕ) → List Module → Type 0
  Counted expected [] = Unit
  Counted expected (m ∷ ms) = (value m ≡ expected m.name) × Counted expected ms

str_eq_sym : (s t : Text) → str_eq s t ≡ false → str_eq t s ≡ false
str_eq_sym s t h = elim (Bool-cases (str_eq t s)) [
  | inr e ↦ e
  | inl e ↦ let same = str_eq_complete s t (sym (str_eq_sound t s e)) in absurd (ground arith)
]

module_index_absent :
    (name : Text) (ms : List Module)
    → ltb (module_index name ms) (length ms) ≡ false
    → Apart name ms × (module_index name ms ≡ length ms)
unfolding module_index
module_index_absent name [] h = (tt, refl)
module_index_absent name (m ∷ ms) h = elim (Bool-cases (str_eq m.name name)) [
  | inl e ↦ absurd (ground arith)
  | inr e ↦
      let (apart, end) = module_index_absent name ms (ground arith) in ((e, apart), ground arith)
]

module_index-snoc :
    (name : Text) (ms : List Module) (m : Module)
    → Apart name ms
    → m.name ≡ name
    → module_index name (ms ++ m ∷ []) ≡ length ms
unfolding module_index
module_index-snoc name [] m a e = let same = str_eq_complete m.name name e in ground arith
module_index-snoc name (x ∷ ms) m (off, a) e =
    let later = module_index-snoc name ms m a e in ground arith

Apart-snoc :
    (name : Text) (ms : List Module) (m : Module)
    → Apart name ms
    → str_eq m.name name ≡ false
    → Apart name (ms ++ m ∷ [])
Apart-snoc name [] m a off = (off, tt)
Apart-snoc name (x ∷ ms) m (first, a) off = (first, Apart-snoc name ms m a off)

pub DistinctNames-snoc :
    (ms : List Module) (m : Module)
    → DistinctNames ms
    → Apart m.name ms
    → DistinctNames (ms ++ m ∷ [])
DistinctNames-snoc [] m d a = (tt, tt)
DistinctNames-snoc (x ∷ ms) m (first, d) (off, a) =
    (Apart-snoc x.name ms m first (str_eq_sym x.name m.name off), DistinctNames-snoc ms m d a)

-- Writes that keep the name.
module _ (g : Module → Module) (named : (m : Module) → (g m).name ≡ m.name) where
  Apart-update_at :
      (name : Text) (index : ℕ) (ms : List Module)
      → Apart name ms
      → Apart name (update_at index g ms)
  unfolding update_at
  Apart-update_at name index [] a = a
  Apart-update_at name zero (m ∷ ms) (off, a) = (rw (named m) off, a)
  Apart-update_at name (suc index) (m ∷ ms) (off, a) = (off, Apart-update_at name index ms a)

  pub DistinctNames-update_at :
      (index : ℕ) (ms : List Module) → DistinctNames ms → DistinctNames (update_at index g ms)
  unfolding update_at
  DistinctNames-update_at index [] d = d
  DistinctNames-update_at zero (m ∷ ms) (a, d) = (subst (λ t. Apart t ms) (sym (named m)) a, d)
  DistinctNames-update_at (suc index) (m ∷ ms) (a, d) =
      (Apart-update_at m.name index ms a, DistinctNames-update_at index ms d)

pub length-update_at :
    (index : ℕ) (g : Module → Module) (ms : List Module) → length (update_at index g ms) ≡ length ms
unfolding update_at
length-update_at index g [] = refl
length-update_at zero g (m ∷ ms) = refl
length-update_at (suc index) g (m ∷ ms) = ap suc (length-update_at index g ms)

-- A successful look-up: the pointer is that of the one module of the name.
pub record Found (name : Text) (ms : List Module) (index : ℕ) (ms' : List Module) : Type 0 where
  pub place : index ≡ module_index name ms'
  pub inside : ltb index (length ms') ≡ true
  pub kept :
      (ms' ≡ ms) ⊎ ((ms' ≡ ms ++ new_module name ∷ []) × Apart name ms × (length ms < max_modules))

pub new_name : (name : Text) → length name < max_name → (new_module name).name ≡ name
unfolding new_module copy_string
new_name name fits = take_all (max_name - 1) name (omega arith)

pub get_module-Found :
    (map : ProjectMap) (name : Text) {index : ℕ} {map' : ProjectMap}
    → length name < max_name
    → get_module map name ≡ some (index, map')
    → Found name map.modules index map'.modules × (map' ≡ record map { modules = map'.modules })
unfolding get_module
get_module-Found map name {index} {map'} fits h =
    let i = module_index name map.modules in
    let grown = record map { modules = map.modules ++ new_module name ∷ [] } in
    elim (Bool-cases (ltb i (length map.modules))) [
      | inl inside ↦
          as_found i map (record { place = refl; inside = inside; kept = inl refl }) refl
            (ground arith)
      | inr e ↦ elim (Bool-cases (leb max_modules (length map.modules))) [
        | inl full ↦ absurd (ground arith)
        | inr room ↦
            let (apart, end) = module_index_absent name map.modules e in
            let place =
              module_index-snoc name map.modules (new_module name) apart (new_name name fits) in
            let longer = length-append map.modules (new_module name ∷ []) in
            as_found i grown
              (record {
                place = end ∙ sym place;
                inside = ground (arith, end, longer);
                kept = inr (refl, apart, ground arith);
              })
              refl (ground arith)
      ]
    ]
  where
    as_found :
        (i : ℕ) (m : ProjectMap)
        → Found name map.modules i m.modules
        → m ≡ record map { modules = m.modules }
        → ◌≡◌ {A = Option (ℕ × ProjectMap)} (some (i, m)) (some (index, map'))
        → Found name map.modules index map'.modules × (map' ≡ record map { modules = map'.modules })
    as_found i m found same e =
        let e_index : i ≡ index = ground arith in
        let e_map : m ≡ map' = ground arith in
        (
          subst (λ k. Found name map.modules k map'.modules) e_index
              (subst (λ x. Found name map.modules i x.modules) e_map found),
          subst (λ x. x ≡ record map { modules = x.modules }) e_map same,
        )

-- The counters behind a look-up: a module that is new counts nothing.
module _ (value : Module → ℕ) (expected : Text → ℕ) where
  pub Counted-snoc :
      (ms : List Module) (m : Module)
      → Counted value expected ms
      → value m ≡ expected m.name
      → Counted value expected (ms ++ m ∷ [])
  Counted-snoc [] m c e = (e, tt)
  Counted-snoc (x ∷ ms) m (first, c) e = (first, Counted-snoc ms m c e)

  Counted-Apart :
      (expected' : Text → ℕ) (name : Text) (ms : List Module)
      → ((n : Text) → str_eq name n ≡ false → expected' n ≡ expected n)
      → Apart name ms
      → Counted value expected ms
      → Counted value expected' ms
  Counted-Apart expected' name [] same a c = tt
  Counted-Apart expected' name (m ∷ ms) same (off, a) (first, c) = (
    first ∙ sym (same m.name (str_eq_sym m.name name off)),
    Counted-Apart expected' name ms same a c,
  )

-- One record more is expected of the module of the name, if `counts`.
pub record Steps (value : Module → ℕ) (g : Module → Module) (name : Text) (counts : Bool)
    (expected expected' : Text → ℕ) : Type 0 where
  pub written : (m : Module) → value (g m) ≡ (if counts then increment (value m) else value m)
  pub there : expected' name ≡ expected name + (if counts then 1 else 0)
  pub elsewhere : (n : Text) → str_eq name n ≡ false → expected' n ≡ expected n
  pub moderate : expected name < 2 ^ 63

module _ {value : Module → ℕ} {g : Module → Module} {name : Text} {counts : Bool}
    {expected expected' : Text → ℕ} (s : Steps value g name counts expected expected')
    (named : (m : Module) → (g m).name ≡ m.name) where
  written_at :
      (m : Module) → m.name ≡ name → value m ≡ expected m.name → value (g m) ≡ expected' (g m).name
  unfolding increment
  written_at m e first =
      let known : value m ≡ expected name = first ∙ ap expected e in
      let target : expected' (g m).name ≡ expected' name = ap expected' (named m ∙ e) in
      let w = s.written m in
      let t = s.there in
      let b = s.moderate in elim (Bool-cases counts) [ inl q ↦ ground arith | inr q ↦ ground arith ]

  pub Counted-update_at :
      (ms : List Module)
      → DistinctNames ms
      → ltb (module_index name ms) (length ms) ≡ true
      → Counted value expected ms
      → Counted value expected' (update_at (module_index name ms) g ms)
  unfolding module_index update_at
  Counted-update_at [] d h c = tt
  Counted-update_at (m ∷ ms) (a, d) h (first, c) = elim (Bool-cases (str_eq m.name name)) [
    | inl e ↦
        let same = str_eq_sound m.name name e in
        rw e (
          written_at m same first,
          Counted-Apart value expected expected' name ms s.elsewhere
              (subst (λ t. Apart t ms) same a) c,
        )
    | inr e ↦ rw e (
      first ∙ sym (s.elsewhere m.name (str_eq_sym m.name name e)),
      Counted-update_at ms d (ground arith) c,
    )
  ]

pub Apart-of_update :
    (g : Module → Module)
    → ((m : Module) → (g m).name ≡ m.name)
    → (name : Text) (index : ℕ) (ms : List Module) → Apart name (update_at index g ms)
    → Apart name ms
unfolding update_at
Apart-of_update g named name index [] a = tt
Apart-of_update g named name zero (m ∷ ms) (off, a) =
    (subst (λ t. str_eq t name ≡ false) (named m) off, a)
Apart-of_update g named name (suc index) (m ∷ ms) (off, a) =
    (off, Apart-of_update g named name index ms a)

pub Apart-of_snoc :
    (name : Text) (ms : List Module) (m : Module) → Apart name (ms ++ m ∷ []) → Apart name ms
Apart-of_snoc name [] m a = tt
Apart-of_snoc name (x ∷ ms) m (off, a) = (off, Apart-of_snoc name ms m a)

-- A name that no module has is not that of a module found.
pub Apart-inside :
    (name other : Text) (ms : List Module)
    → ltb (module_index name ms) (length ms) ≡ true
    → Apart other ms
    → str_eq name other ≡ false
unfolding module_index
Apart-inside name other [] h a = absurd (ground arith)
Apart-inside name other (m ∷ ms) h (off, a) = elim (Bool-cases (str_eq m.name name)) [
  | inl e ↦ subst (λ t. str_eq t other ≡ false) (str_eq_sound m.name name e) off
  | inr e ↦ Apart-inside name other ms (ground arith) a
]

-- ===== src/ModuleMap/Mutation/Counters.antt =====
-- The counters of a module, and what they count: the records of the map that name it.
use p101_audit.Base.{
  ℕ, ◌+◌, ◌^◌, ◌≡◌, ◌≤◌, ◌<◌, refl, Bool, true, not, ◌&&◌, List, [], ◌∷◌, ◌++◌, if◌then◌else◌,
  length, arith,
}
use p101_audit.Base.Text.{Text, str_eq}
use p101_audit.ModuleMap.{
  Module, ProjectMap, max_modules, max_files, max_functions, max_includes, max_macros, max_types,
  max_calls, max_notes,
}
use p101_audit.ModuleMap.Mutation.{new_module}
use p101_audit.ModuleMap.Mutation.Modules.{Apart, DistinctNames, Counted}

-- How many records that count belong to the module of the name.
module _ {A : Type 0} (owner : A → Text) (counts : A → Bool) (name : Text) where
  unfoldable pub tally : List A → ℕ
  tally [] = 0
  tally (x ∷ xs) = (if counts x && str_eq (owner x) name then 1 else 0) + tally xs

  pub tally-snoc :
      (xs : List A) (x : A)
      → tally (xs ++ x ∷ []) ≡ tally xs + (if counts x && str_eq (owner x) name then 1 else 0)
  unfolding tally
  tally-snoc [] x = omega arith
  tally-snoc (y ∷ xs) x = let e = tally-snoc xs x in omega arith

  pub tally-length : (xs : List A) → tally xs ≤ length xs
  unfolding tally
  tally-length [] = omega arith
  tally-length (x ∷ xs) = let e = tally-length xs in ground arith

  tally_moderate : (xs : List A) → length xs ≤ max_functions → tally xs < 2 ^ 63
  tally_moderate xs h = omega (arith, tally-length xs)

-- The counters of `struct module`.
pub data Counter : Type 0 where
  sources headers functions publics statics declarations macros types locals externals : Counter

unfoldable pub value : Counter → Module → ℕ
value Counter.sources m = m.source_count
value Counter.headers m = m.header_count
value Counter.functions m = m.function_count
value Counter.publics m = m.public_function_count
value Counter.statics m = m.static_function_count
value Counter.declarations m = m.header_declaration_count
value Counter.macros m = m.macro_count
value Counter.types m = m.type_count
value Counter.locals m = m.local_include_count
value Counter.externals m = m.external_include_count

-- What each counter should be for the module of the name.
unfoldable pub expected : Counter → ProjectMap → Text → ℕ
expected Counter.sources map name = tally (λ f. f.module_name) (λ f. not f.is_header) name map.files
expected Counter.headers map name = tally (λ f. f.module_name) (λ f. f.is_header) name map.files
expected Counter.functions map name =
    tally (λ f. f.module_name) (λ f. not f.is_header_declaration) name map.functions
expected Counter.publics map name =
    tally (λ f. f.module_name) (λ f. not f.is_header_declaration && not f.is_static) name
      map.functions
expected Counter.statics map name =
    tally (λ f. f.module_name) (λ f. not f.is_header_declaration && f.is_static) name map.functions
expected Counter.declarations map name =
    tally (λ f. f.module_name) (λ f. f.is_header_declaration) name map.functions
expected Counter.macros map name = tally (λ m. m.module_name) (λ m. true) name map.macros
expected Counter.types map name = tally (λ t. t.module_name) (λ t. true) name map.types
expected Counter.locals map name = tally (λ i. i.from_module) (λ i. i.is_local) name map.includes
expected Counter.externals map name =
    tally (λ i. i.from_module) (λ i. not i.is_local) name map.includes

-- No array is written past its end.
pub record Within (map : ProjectMap) : Type 0 where
  pub files : length map.files ≤ max_files
  pub functions : length map.functions ≤ max_functions
  pub includes : length map.includes ≤ max_includes
  pub macros : length map.macros ≤ max_macros
  pub types : length map.types ≤ max_types
  pub calls : length map.calls ≤ max_calls
  pub notes : length map.notes ≤ max_notes

-- The well-formed maps: the arrays hold, no two modules have one name, every counter of every module
-- is the number of the records that it counts, and a record's module is in the map.
pub record IsWell (map : ProjectMap) : Type 0 where
  pub within : Within map
  pub modules : length map.modules ≤ max_modules
  pub distinct : DistinctNames map.modules
  pub counted : (c : Counter) → Counted (value c) (expected c map) map.modules
  pub listed : (c : Counter) (name : Text) → Apart name map.modules → expected c map name ≡ 0

pub new_module-value : (c : Counter) (name : Text) → value c (new_module name) ≡ 0
unfolding value new_module
new_module-value Counter.sources name = refl
new_module-value _ name = refl

pub expected-modules :
    (c : Counter) (map : ProjectMap) (ms : List Module)
    → expected c (record map { modules = ms }) ≡ expected c map
unfolding expected
expected-modules Counter.sources map ms = refl
expected-modules _ map ms = refl

pub expected_moderate :
    (c : Counter) (map : ProjectMap) (name : Text) → Within map → expected c map name < 2 ^ 63
unfolding expected
expected_moderate Counter.sources map name w =
    tally_moderate _ _ name map.files (omega (arith, w.files))
expected_moderate Counter.headers map name w =
    tally_moderate _ _ name map.files (omega (arith, w.files))
expected_moderate Counter.functions map name w =
    tally_moderate _ _ name map.functions (omega (arith, w.functions))
expected_moderate Counter.publics map name w =
    tally_moderate _ _ name map.functions (omega (arith, w.functions))
expected_moderate Counter.statics map name w =
    tally_moderate _ _ name map.functions (omega (arith, w.functions))
expected_moderate Counter.declarations map name w =
    tally_moderate _ _ name map.functions (omega (arith, w.functions))
expected_moderate Counter.macros map name w =
    tally_moderate _ _ name map.macros (omega (arith, w.macros))
expected_moderate Counter.types map name w =
    tally_moderate _ _ name map.types (omega (arith, w.types))
expected_moderate Counter.locals map name w =
    tally_moderate _ _ name map.includes (omega (arith, w.includes))
expected_moderate Counter.externals map name w =
    tally_moderate _ _ name map.includes (omega (arith, w.includes))

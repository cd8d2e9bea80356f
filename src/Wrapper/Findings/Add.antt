-- ===== src/Wrapper/Findings/Add.antt =====
-- `add_finding`: its branches, the bound of the array, and one finding to a place.
use native.Mathlib.Nat.{mod-eq_of_lt}
use p101_audit.Base.{
  ℕ, zero, suc, ◌+◌, ◌*◌, ◌%◌, ◌^◌, ◌≤◌, ◌<◌, ◌≡◌, refl, inl, inr, Bool, true, false, [], ◌∷◌, ◌++◌,
  some, arith, Bool-cases, length, length-append, ◌==◌, ==_iff,
}
use p101_audit.Base.Text.{Text, str_eq_refl}
use p101_audit.Base.Scan.{any}
use p101_audit.Wrapper.{
  Platform, Fact, Model, Finding, FindingKind, copy_field, path_size, name_size,
}
use p101_audit.Wrapper.Findings.{add_finding, grow_findings, is_at, finding_of, next_capacity}

-- The text and its NUL fit into an array of `size` bytes.
abbrev pub Fits : ℕ → Text → Type 0
Fits size t = length t < size

pub fitting-copy_field : (size : ℕ) (t : Text) → Fits size t → copy_field size (some t) ≡ t
unfolding copy_field
fitting-copy_field size t h = ground arith

-- What `add_finding` does to a model.
pub data Added (f : Fact) (name : Text) (new : Finding) (m : Model) (r : Bool × Model)
    : Type 0 where
  known : any (is_at f name) m.findings ≡ true → r ≡ (true, m) → Added f name new m r
  refused : any (is_at f name) m.findings ≡ false → r ≡ (false, m) → Added f name new m r
  appended :
      (capacity : ℕ)
      → any (is_at f name) m.findings ≡ false
      → r ≡ (true, record m { findings = m.findings ++ new ∷ []; finding_capacity = capacity })
      → Added f name new m r

module _ (p : Platform) (kind : FindingKind) (f : Fact) (name replacement identity : Text) where
  pub add_finding_cases :
      (m : Model)
      → Added f name
          (finding_of kind f name replacement identity)
          m
          (add_finding p kind f name replacement identity m)
  unfolding add_finding grow_findings
  add_finding_cases m = elim (Bool-cases (any (is_at f name) m.findings)) [
    | inl e ↦ rw e (known e refl)
    | inr e ↦ elim (Bool-cases (length m.findings == m.finding_capacity)) [
      | inr q ↦ rw (e, q) (appended m.finding_capacity e refl)
      | inl q ↦
          elim (Bool-cases
            (p.grant (next_capacity m.finding_capacity * p.finding_bytes % 2 ^ 64))) [
              | inl g ↦ rw (e, q, g) (appended (next_capacity m.finding_capacity) e refl)
              | inr g ↦ rw (e, q, g) (refused e refl)
            ]
    ]
  ]

-- What the C library says of realloc: it gives no array above the largest ptrdiff_t. The size of a
-- finding is positive, and 256 findings do not pass a size_t.
pub record IsAllocator (p : Platform) : Type 0 where
  pub bounded : (n : ℕ) → p.grant n ≡ true → n < 2 ^ 63
  pub positive : 0 < p.finding_bytes
  pub moderate : 256 * p.finding_bytes < 2 ^ 64

-- The findings fit into their array, and the array is one that realloc can give.
pub record IsAllocated (p : Platform) (m : Model) : Type 0 where
  pub room : length m.findings ≤ m.finding_capacity
  pub size : m.finding_capacity * p.finding_bytes < 2 ^ 63

narrow : (c b : ℕ) → 0 < b → c * b < 2 ^ 63 → c < 2 ^ 63
narrow c b pos h = let small : c * 1 ≤ c * b = grind arith in omega (arith, small)

next_capacity_lem :
    (c b : ℕ)
    → 0 < b
    → 256 * b < 2 ^ 64
    → c * b < 2 ^ 63
    → (c + 1 ≤ next_capacity c) × (next_capacity c * b < 2 ^ 64)
unfolding next_capacity
next_capacity_lem zero b pos fits h = ground arith
next_capacity_lem (suc c) b pos fits h =
    let whole : suc c < 2 ^ 63 = narrow (suc c) b pos h in
    let same : next_capacity (suc c) ≡ suc c * 2 = ground arith in
    let bytes : suc c * 2 * b ≡ 2 * (suc c * b) = grind arith in
    rw same (omega arith, omega (arith, bytes))

-- A finding more, in the array of the next capacity.
IsAllocated-snoc :
    (p : Platform) (m : Model) (new : Finding) (capacity : ℕ)
    → length m.findings + 1 ≤ capacity
    → capacity * p.finding_bytes < 2 ^ 63
    → IsAllocated p (record m { findings = m.findings ++ new ∷ []; finding_capacity = capacity })
IsAllocated-snoc p m new capacity h k = record {
  room = omega (arith, length-append m.findings (new ∷ []));
  size = k;
}

grown_room :
    (p : Platform) (m : Model)
    → IsAllocator p
    → IsAllocated p m
    → length m.findings ≡ m.finding_capacity
    → p.grant (next_capacity m.finding_capacity * p.finding_bytes % 2 ^ 64) ≡ true
    → (length m.findings + 1 ≤ next_capacity m.finding_capacity)
      × (next_capacity m.finding_capacity * p.finding_bytes < 2 ^ 63)
grown_room p m a h full g =
    let (larger, fits) =
      next_capacity_lem m.finding_capacity p.finding_bytes a.positive a.moderate h.size in
    let given = a.bounded _ g in
    let exact : next_capacity m.finding_capacity * p.finding_bytes % 2 ^ 64
        ≡ next_capacity m.finding_capacity * p.finding_bytes =
      mod-eq_of_lt fits in
    (omega arith, omega (arith, exact))

-- Where memory is given as the C library promises, adding a finding writes within the array: the
-- findings still fit into it, and its size in bytes was computed without overflow.
pub add_finding-IsAllocated :
    (p : Platform) (kind : FindingKind) (f : Fact) (name replacement identity : Text) (m : Model)
    → IsAllocator p
    → IsAllocated p m
    → IsAllocated p (add_finding p kind f name replacement identity m).1
unfolding add_finding grow_findings
add_finding-IsAllocated p kind f name replacement identity m a h =
    let new = finding_of kind f name replacement identity in
    let next = next_capacity m.finding_capacity in
    elim (Bool-cases (any (is_at f name) m.findings)) [
      | inl e ↦ rw e h
      | inr e ↦ elim (Bool-cases (length m.findings == m.finding_capacity)) [
        | inr q ↦
            let less : length m.findings + 1 ≤ m.finding_capacity = ground (arith, h.room) in
            rw (e, q) (IsAllocated-snoc p m new m.finding_capacity less h.size)
        | inl q ↦ elim (Bool-cases (p.grant (next * p.finding_bytes % 2 ^ 64))) [
          | inr g ↦ rw (e, q, g) h
          | inl g ↦
              let (larger, fits) = grown_room p m a h ((==_iff _ _).0 q) g in
              rw (e, q, g) (IsAllocated-snoc p m new next larger fits)
        ]
      ]
    ]

-- The finding stands at the place of the new one.
pub finding_of-is_at :
    (kind : FindingKind) (f : Fact) (name replacement identity : Text)
    → Fits path_size f.path
    → Fits name_size name
    → is_at f name (finding_of kind f name replacement identity) ≡ true
unfolding is_at finding_of
finding_of-is_at kind f name replacement identity hp hn =
    rw (fitting-copy_field path_size f.path hp, fitting-copy_field name_size name hn)
      (ground (arith, str_eq_refl f.path, str_eq_refl name))

-- realloc never fails.
abbrev pub Granting : Platform → Type 0
Granting p = (n : ℕ) → p.grant n ≡ true

pub add_finding-granted :
    (p : Platform) (kind : FindingKind) (f : Fact) (name replacement identity : Text) (m : Model)
    → Granting p
    → (add_finding p kind f name replacement identity m).0 ≡ true
unfolding add_finding grow_findings
add_finding-granted p kind f name replacement identity m g =
    elim (Bool-cases (any (is_at f name) m.findings)) [
      | inl e ↦ rw e refl
      | inr e ↦ elim (Bool-cases (length m.findings == m.finding_capacity)) [
        | inr q ↦ rw (e, q) refl
        | inl q ↦ rw (e, q, g) refl
      ]
    ]

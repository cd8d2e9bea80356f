-- ===== src/ModuleMap/Query/Answers.antt =====
-- What the queries of the module map answer.
use p101_audit.Base.{
  ◌≡◌, ◌≢◌, ◌≤◌, refl, sym, subst, ◌↔◌, ◌⊎◌, inl, inr, true, false, ◌&&◌, List, [], ◌∷◌, Option,
  none, some, Memᴰ, ltb, arith, Bool-cases,
}
use p101_audit.Base.Text.{Text, str_eq, str_eq_iff}
use p101_audit.Base.Scan.{any_sound, any_complete, mem_cons_cases}
use p101_audit.ModuleMap.{FunctionRecord, IncludeRecord, CallRecord, ProjectMap}
use p101_audit.ModuleMap.Query.{
  is_earlier, first_local_include_from, first_local_include, function_used_outside_module,
}

-- A local include of the file.
abbrev pub IsLocalOf : Text → IncludeRecord → Type 0
IsLocalOf path i = (i.is_local ≡ true) × (i.path ≡ path)

-- The include is the first choice from `is`, or the one chosen before.
abbrev pub IsFirst :
    Text → List IncludeRecord → Option IncludeRecord → Option IncludeRecord → Type 0
IsFirst path is chosen none =
    (chosen ≡ none) × ((i : IncludeRecord) → Memᴰ i is → ¬ IsLocalOf path i)
IsFirst path is chosen (some r) =
    ((chosen ≡ some r) ⊎ (Memᴰ r is × IsLocalOf path r))
    × ((i : IncludeRecord) → Memᴰ i is → IsLocalOf path i → r.line ≤ i.line)
    × ((i : IncludeRecord) → chosen ≡ some i → r.line ≤ i.line)

is_local_of :
    (path : Text) (i : IncludeRecord)
    → ((i.is_local && str_eq i.path path) ≡ true) ↔ IsLocalOf path i
is_local_of path i = (
  λ h. (ground arith, (str_eq_iff i.path path).0 (ground arith)),
  λ (a, b). ground (arith, (str_eq_iff i.path path).1 b),
)

taken :
    (path : Text) (i : IncludeRecord) (is : List IncludeRecord) (chosen res : Option IncludeRecord)
    → IsLocalOf path i
    → is_earlier i chosen ≡ true
    → IsFirst path is (some i) res
    → IsFirst path (i ∷ is) chosen res
taken path i is chosen none own earlier (e, h) = absurd (ground arith)
taken path i is chosen (some r) own earlier (from, below, first) = (
  inr (elim from [
    | inl e ↦
        let same : r ≡ i = ground arith in
        (Memᴰ.head same, subst (λ x. IsLocalOf path x) (sym same) own)
    | inr (m, l) ↦ (Memᴰ.tail m, l)
  ]),
  λ j m l. elim (mem_cons_cases m) [
    | inl e ↦ subst (λ x. r.line ≤ x.line) (sym e) (first i refl)
    | inr k ↦ below j k l
  ],
  λ k e. before k e (first i refl),
)
  where
    before : (k : IncludeRecord) → chosen ≡ some k → r.line ≤ i.line → r.line ≤ k.line
    before k e h =
        let less : ltb i.line k.line ≡ true =
          unfold is_earlier in subst (λ c. is_earlier i c ≡ true) e earlier in
        ground arith

passed :
    (path : Text) (i : IncludeRecord) (is : List IncludeRecord) (chosen res : Option IncludeRecord)
    → (IsLocalOf path i → is_earlier i chosen ≡ false)
    → IsFirst path is chosen res
    → IsFirst path (i ∷ is) chosen res
unfolding is_earlier
passed path i is chosen none off (e, h) = (
  e,
  λ j m l. elim (mem_cons_cases m) [
    | inl q ↦ unchosen (off (subst (λ x. IsLocalOf path x) q l))
    | inr k ↦ h j k l
  ],
)
  where
    unchosen : is_earlier i chosen ≡ false → ⊥
    unchosen h = let q = subst (λ c. is_earlier i c ≡ false) e h in ground arith
passed path i is none (some r) off (inl from, below, first) = absurd (ground arith)
passed path i is none (some r) off (inr (m, l), below, first) = (
  inr (Memᴰ.tail m, l),
  λ j k own. elim (mem_cons_cases k) [
    | inl q ↦ let h = off (subst (λ x. IsLocalOf path x) q own) in absurd (ground arith)
    | inr t ↦ below j t own
  ],
  first,
)
passed path i is (some k) (some r) off (from, below, first) = (
  elim from [ inl e ↦ inl e | inr (m, l) ↦ inr (Memᴰ.tail m, l) ],
  λ j m own. elim (mem_cons_cases m) [
    | inl q ↦
        let h = off (subst (λ x. IsLocalOf path x) q own) in
        let b = first k refl in subst (λ x. r.line ≤ x.line) (sym q) (ground arith)
    | inr t ↦ below j t own
  ],
  first,
)

IsFirst-from :
    (path : Text) (is : List IncludeRecord) (chosen : Option IncludeRecord)
    → IsFirst path is chosen (first_local_include_from path is chosen)
unfolding first_local_include_from
IsFirst-from path [] none = (refl, λ i m. elim m [ ])
IsFirst-from path [] (some r) = (inl refl, (λ i m. elim m [ ]), λ i e. bound i e)
  where
    bound : (i : IncludeRecord) → some r ≡ some i → r.line ≤ i.line
    bound i e = let same : r ≡ i = ground arith in subst (λ x. r.line ≤ x.line) same (omega arith)
IsFirst-from path (i ∷ is) chosen =
    let kept = IsFirst-from path is chosen in
    let new = IsFirst-from path is (some i) in
    elim (Bool-cases (i.is_local && str_eq i.path path && is_earlier i chosen)) [
      | inl e ↦
          rw e (taken path i is chosen _ ((is_local_of path i).0 (ground arith)) (ground arith) new)
      | inr e ↦ rw e (
          passed path i is chosen _ (λ own. let l = (is_local_of path i).1 own in ground arith)
            kept)
    ]

-- `first_local_include` finds nothing exactly where the file has no local include; what it finds is a
-- local include of the file, and no other of them stands on an earlier line.
pub first_local_include-IsFirst :
    (map : ProjectMap) (path : Text) → IsFirst path map.includes none (first_local_include map path)
unfolding first_local_include
first_local_include-IsFirst map path = IsFirst-from path map.includes none

-- A function is used outside its module exactly if it has an identity, and a call of that identity
-- stands in a module of another name.
pub function_used_outside_module_iff :
    (map : ProjectMap) (function : FunctionRecord)
    → (function_used_outside_module map function ≡ true) ↔ (
        (function.usr ≢ [])
        × ((c : CallRecord) × Memᴰ c map.calls
            × (c.module_name ≢ function.module_name)
            × (c.usr ≡ function.usr)))
unfolding function_used_outside_module
function_used_outside_module_iff map function = (sound, complete)
  where
    sound :
        function_used_outside_module map function ≡ true
        → (function.usr ≢ [])
          × ((c : CallRecord) × Memᴰ c map.calls
              × (c.module_name ≢ function.module_name)
              × (c.usr ≡ function.usr))
    sound h =
        let (c, m, t) = any_sound _ map.calls h in
        (
          ground arith,
          (
            c,
            m,
            ground (arith, (str_eq_iff c.module_name function.module_name).1),
            (str_eq_iff c.usr function.usr).0 (ground arith),
          ),
        )

    complete :
        (function.usr ≢ [])
          × ((c : CallRecord) × Memᴰ c map.calls
              × (c.module_name ≢ function.module_name)
              × (c.usr ≡ function.usr))
        → function_used_outside_module map function ≡ true
    complete (named, (c, m, other, same)) = any_complete _ m (
        ground (
          arith,
          (str_eq_iff c.module_name function.module_name).0,
          (str_eq_iff c.usr function.usr).1 same,
        ))

-- ===== src/Wrapper/Support/Enclosing.antt =====
-- Which function `semantic_caller_usr` finds around a call.
use p101_audit.Base.{
  ℕ, ◌-◌, ◌≤◌, ◌<◌, ◌≡◌, ◌≢◌, refl, ◌∙◌, ◌⊎◌, inl, inr, true, List, [], ◌∷◌, Memᴰ, arith, ltb,
  Bool-cases, is_nil,
}
use p101_audit.Base.Text.{Text, str_eq_sound, str_eq_complete}
use p101_audit.Wrapper.{Fact, Model, is_function}
use p101_audit.Wrapper.Support.{encloses, narrowest, semantic_caller_usr, size_max}

-- `f` is a function definition of the call's file, and the call starts in its text.
pub record Encloses (c f : Fact) : Type 0 where
  pub of_function : is_function f.kind ≡ true
  pub defined : f.is_definition ≡ true
  pub same_path : f.path ≡ c.path
  pub begins : f.start ≤ c.start
  pub ends : c.start < f.end

-- `f` is one of the narrowest functions around the call.
pub record IsNarrowest (c : Fact) (facts : List Fact) (f : Fact) : Type 0 where
  pub listed : Memᴰ f facts
  pub around : Encloses c f
  pub least : (g : Fact) → Memᴰ g facts → Encloses c g → f.end - f.start ≤ g.end - g.start

-- What the loop returns when it starts with `found` at `span`.
data Found (c : Fact) (facts : List Fact) (found : Text) (span : ℕ) (usr : Text) : Type 0 where
  kept :
      usr ≡ found
      → ((g : Fact) → Memᴰ g facts → encloses c g ≡ true → span ≤ g.end - g.start)
      → Found c facts found span usr
  taken :
      (f : Fact)
      → usr ≡ f.usr
      → Memᴰ f facts
      → encloses c f ≡ true
      → f.end - f.start < span
      → ((g : Fact) → Memᴰ g facts → encloses c g ≡ true → f.end - f.start ≤ g.end - g.start)
      → Found c facts found span usr

module _ (c f : Fact) (fs : List Fact) (found : Text) (span : ℕ) (usr : Text) where
  least_cons :
      (bound : ℕ)
      → (encloses c f ≡ true → bound ≤ f.end - f.start)
      → ((g : Fact) → Memᴰ g fs → encloses c g ≡ true → bound ≤ g.end - g.start)
      → (g : Fact) → Memᴰ g (f ∷ fs)
      → encloses c g ≡ true
      → bound ≤ g.end - g.start
  least_cons bound first rest g (Memᴰ.head e) h = ground (arith, first)
  least_cons bound first rest g (Memᴰ.tail m) h = rest g m h

  Found-nearer :
      encloses c f ≡ true
      → f.end - f.start < span
      → Found c fs f.usr (f.end - f.start) usr
      → Found c (f ∷ fs) found span usr
  Found-nearer around near (kept e least) =
      taken f e (Memᴰ.head refl) around near (least_cons (f.end - f.start) (λ _. omega arith) least)
  Found-nearer around near (taken g e m a n least) =
      taken g e (Memᴰ.tail m) a (omega arith)
        (least_cons (g.end - g.start) (λ _. omega arith) least)

  Found-farther :
      (encloses c f ≡ true → span ≤ f.end - f.start)
      → Found c fs found span usr
      → Found c (f ∷ fs) found span usr
  Found-farther far (kept e least) = kept e (least_cons span far least)
  Found-farther far (taken g e m a n least) =
      taken g e (Memᴰ.tail m) a n (least_cons (g.end - g.start) (λ h. omega (arith, far h)) least)

narrowest-Found :
    (c : Fact) (fs : List Fact) (found : Text) (span : ℕ)
    → Found c fs found span (narrowest c fs found span)
unfolding narrowest
narrowest-Found c [] found span = kept refl (λ g m h. elim m [ ])
narrowest-Found c (f ∷ fs) found span = elim (Bool-cases (encloses c f)) [
  | inl around ↦ elim (Bool-cases (ltb (f.end - f.start) span)) [
    | inl near ↦
        rw (around, near)
          (Found-nearer c f fs found span _ around (ground arith)
            (narrowest-Found c fs f.usr (f.end - f.start)))
    | inr far ↦
        rw (around, far)
          (Found-farther c f fs found span _ (λ _. ground arith) (narrowest-Found c fs found span))
  ]
  | inr off ↦ rw off (Found-farther c f fs found span _ (λ h. cc) (narrowest-Found c fs found span))
]

encloses-Encloses : (c f : Fact) → encloses c f ≡ true → Encloses c f
unfolding encloses
encloses-Encloses c f h = record {
  of_function = ground arith;
  defined = ground arith;
  same_path = str_eq_sound f.path c.path (ground arith);
  begins = ground arith;
  ends = ground arith;
}

Encloses-encloses : (c f : Fact) → Encloses c f → encloses c f ≡ true
unfolding encloses
Encloses-encloses c f e = ground (arith, e, str_eq_complete f.path c.path)

nil_of_is_nil : (t : Text) → is_nil t ≡ true → t ≡ []
nil_of_is_nil [] h = refl
nil_of_is_nil (x ∷ t) h = cc

-- A call that carries the identity of its caller keeps it. For any other call the result is the
-- identity of a narrowest function definition around the call; it is empty if every function
-- definition around the call spans the largest size_t, in particular if there is none.
pub semantic_caller_usr-IsNarrowest :
    (m : Model) (c : Fact)
    → ((c.caller_usr ≢ []) × (semantic_caller_usr m c ≡ c.caller_usr))
      ⊎ ((c.caller_usr ≡ [])
          × ((f : Fact) × IsNarrowest c m.facts f × (semantic_caller_usr m c ≡ f.usr)))
      ⊎ ((c.caller_usr ≡ [])
          × (semantic_caller_usr m c ≡ [])
          × ((g : Fact) → Memᴰ g m.facts → Encloses c g → size_max ≤ g.end - g.start))
unfolding semantic_caller_usr
semantic_caller_usr-IsNarrowest m c = elim (Bool-cases (is_nil c.caller_usr)) [
  | inr known ↦ inl (ground arith, rw known refl)
  | inl unknown ↦
      let missing = nil_of_is_nil c.caller_usr unknown in
      elim (narrowest-Found c m.facts c.caller_usr size_max) [
        | kept e least ↦ inr (
            inr (
              missing,
              rw unknown (e ∙ missing),
              λ g listed h. least g listed (Encloses-encloses c g h),
            ))
        | taken f e listed around near least ↦ inr (
            inl (
              missing,
              (
                f,
                record {
                  listed = listed;
                  around = encloses-Encloses c f around;
                  least = λ g there h. least g there (Encloses-encloses c g h);
                },
                rw unknown e,
              ),
            ))
      ]
]

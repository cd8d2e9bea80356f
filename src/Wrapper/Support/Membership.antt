-- ===== src/Wrapper/Support/Membership.antt =====
-- Whose calls the judge leaves alone: functions of the program, and the lowering of `errno`.
use p101_audit.Base.{
  ◌≡◌, ◌≢◌, ◌↔◌, ◌⊎◌, inl, inr, true, false, [], Memᴰ, arith, ==_iff, Bool-cases, is_nil,
}
use p101_audit.Base.Text.{Text, codes, str_eq, str_eq_sound, str_eq_complete, str_eq_iff}
use p101_audit.Base.Scan.{any, any_sound, any_complete}
use p101_audit.Wrapper.{Fact, Model, is_macro, is_function}
use p101_audit.Wrapper.Support.{
  is_local, defines, is_errno_use, is_errno_macro_lowering, errno_providers,
}

-- The call has an identity, and the model holds a function definition of that identity.
abbrev pub IsDefinedHere : Model → Fact → Type 0
IsDefinedHere m c =
    (c.usr ≢ [])
    × ((f : Fact) × Memᴰ f m.facts
        × (is_function f.kind ≡ true)
        × (f.is_definition ≡ true)
        × (f.usr ≡ c.usr))

defines_parts :
    {usr : Text} (f : Fact)
    → defines usr f ≡ true
    → (is_function f.kind ≡ true) × (f.is_definition ≡ true) × (f.usr ≡ usr)
unfolding defines
defines_parts {usr} f h = (ground arith, ground arith, str_eq_sound f.usr usr (ground arith))

defines_of :
    (usr : Text) (f : Fact)
    → is_function f.kind ≡ true
    → f.is_definition ≡ true
    → f.usr ≡ usr
    → defines usr f ≡ true
unfolding defines
defines_of usr f a b e = ground (arith, str_eq_complete f.usr usr e)

-- A call is local exactly if it has an identity and the model holds a function definition of that
-- identity.
pub is_local_iff : (m : Model) (c : Fact) → (is_local m c ≡ true) ↔ IsDefinedHere m c
unfolding is_local
is_local_iff m c = (sound, complete)
  where
    sound : is_local m c ≡ true → IsDefinedHere m c
    sound h = elim (Bool-cases (is_nil c.usr)) [
      | inl e ↦ absurd (ground arith)
      | inr e ↦
          let found : any (defines c.usr) m.facts ≡ true = ground arith in
          let (f, listed, t) = any_sound (defines c.usr) m.facts found in
          let (of_function, defined, same) = defines_parts f t in
          (ground arith, (f, listed, of_function, defined, same))
    ]

    complete : IsDefinedHere m c → is_local m c ≡ true
    complete (named, (f, listed, of_function, defined, same)) =
        let found : any (defines c.usr) m.facts ≡ true =
          any_complete (defines c.usr) listed (defines_of c.usr f of_function defined same) in
        ground arith

-- The fact is a use of the macro `errno` on the call's line, in its file and by its caller.
pub record IsErrnoUse (c f : Fact) : Type 0 where
  pub of_macro : is_macro f.kind ≡ true
  pub used : f.is_definition ≡ false
  pub same_line : f.line ≡ c.line
  pub same_path : f.path ≡ c.path
  pub same_caller : f.caller_usr ≡ c.caller_usr
  pub named : f.name ≡ codes "errno"

-- The call reads the location of `errno` where a use of the macro `errno` stands.
abbrev pub IsErrnoLowering : Model → Fact → Type 0
IsErrnoLowering m c =
    ((c.usr ≡ codes "c:@F@__errno_location") ⊎ (c.usr ≡ codes "c:@F@__error"))
    × ((f : Fact) × Memᴰ f m.facts × IsErrnoUse c f)

is_errno_use_iff : (c f : Fact) → (is_errno_use c f ≡ true) ↔ IsErrnoUse c f
unfolding is_errno_use
is_errno_use_iff c f = (sound, complete)
  where
    sound : is_errno_use c f ≡ true → IsErrnoUse c f
    sound h = record {
      of_macro = ground arith;
      used = ground arith;
      same_line = (==_iff f.line c.line).0 (ground arith);
      same_path = str_eq_sound _ _ (ground arith);
      same_caller = str_eq_sound _ _ (ground arith);
      named = str_eq_sound _ _ (ground arith);
    }

    complete : IsErrnoUse c f → is_errno_use c f ≡ true
    complete e = ground (
      arith,
      e,
      ==_iff f.line c.line,
      str_eq_complete f.path c.path,
      str_eq_complete f.caller_usr c.caller_usr,
      str_eq_complete f.name (codes "errno"),
    )

is_provider_iff :
    (usr : Text)
    → (any (str_eq usr) errno_providers ≡ true)
      ↔ ((usr ≡ codes "c:@F@__errno_location") ⊎ (usr ≡ codes "c:@F@__error"))
unfolding any errno_providers
is_provider_iff usr =
    ground
      (arith, str_eq_iff usr (codes "c:@F@__errno_location"), str_eq_iff usr (codes "c:@F@__error"))

-- A call is taken for the lowering of `errno` exactly if it calls one of the two functions that
-- give its location, and a use of the macro `errno` stands on the same line of the same file, by
-- the same caller.
pub is_errno_macro_lowering_iff :
    (m : Model) (c : Fact) → (is_errno_macro_lowering m c ≡ true) ↔ IsErrnoLowering m c
unfolding is_errno_macro_lowering
is_errno_macro_lowering_iff m c = (sound, complete)
  where
    sound : is_errno_macro_lowering m c ≡ true → IsErrnoLowering m c
    sound h =
        let provider : any (str_eq c.usr) errno_providers ≡ true = ground arith in
        let used : any (is_errno_use c) m.facts ≡ true = ground arith in
        let (f, listed, t) = any_sound _ m.facts used in
        ((is_provider_iff c.usr).0 provider, (f, listed, (is_errno_use_iff c f).0 t))

    complete : IsErrnoLowering m c → is_errno_macro_lowering m c ≡ true
    complete (provider, (f, listed, used)) =
        let provider' = (is_provider_iff c.usr).1 provider in
        let found = any_complete (is_errno_use c) listed ((is_errno_use_iff c f).1 used) in
        ground arith

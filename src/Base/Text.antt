-- ===== src/Base/Text.antt =====
-- C strings as their bytes, the closing NUL left out, and the functions of <string.h> that the
-- sources call through their `p101_` wrappers.
use Prim.Native.Nat.{ℕ}
use Prim.Native.Char.{code}
use Prim.Native.String.{String}
use mathlib.Core.Path.{◌≡◌, refl, ap, sym, ◌∙◌}
use mathlib.Core.Logic.{◌↔◌, ◌≢◌, inl, inr}
use mathlib.Core.Bool.{Bool, true, false, ◌&&◌}
use mathlib.Core.Option.{Option, none, some}
use mathlib.Core.List.{List, [], ◌∷◌, ◌++◌}
use native.Mathlib.Omega.{arith}
use p101_audit.Base.Tests.{◌==◌, if◌then◌else◌, ==_iff, Bool-cases, is_some}

abbrev pub Text : Type 0
Text = List ℕ

abbrev pub codes : String → Text
codes String.[] = []
codes (String.◌∷◌ c s) = code c ∷ codes s

-- The byte does not stand in the text.
abbrev pub Lacks : ℕ → Text → Type 0
Lacks c [] = Unit
Lacks c (x ∷ s) = (x ≢ c) × Lacks c s

-- strcmp(s, t) == 0
unfoldable pub str_eq : Text → Text → Bool
str_eq [] [] = true
str_eq [] (y ∷ t) = false
str_eq (x ∷ s) [] = false
str_eq (x ∷ s) (y ∷ t) = x == y && str_eq s t

-- strncmp(s, prefix, strlen(prefix)) == 0
unfoldable pub starts_with : Text → Text → Bool
starts_with s [] = true
starts_with [] (y ∷ t) = false
starts_with (x ∷ s) (y ∷ t) = x == y && starts_with s t

-- strstr(s, needle): the rest of `s` from the first occurrence on.
unfoldable pub strstr : Text → Text → Option Text
unfolding starts_with
strstr [] needle = if starts_with [] needle then some [] else none
strstr (x ∷ s) needle =
    let rest = strstr s needle in if starts_with (x ∷ s) needle then some (x ∷ s) else rest

-- strchr(s, c), for c that is not NUL.
unfoldable pub strchr : ℕ → Text → Option Text
strchr c [] = none
strchr c (x ∷ s) = let rest = strchr c s in if x == c then some (x ∷ s) else rest

pub str_eq_sound : (s t : Text) → str_eq s t ≡ true → s ≡ t
unfolding str_eq
str_eq_sound [] [] h = refl
str_eq_sound [] (y ∷ t) h = ground arith
str_eq_sound (x ∷ s) [] h = ground arith
str_eq_sound (x ∷ s) (y ∷ t) h = ground (arith, str_eq_sound s t, ==_iff x y)

pub str_eq_refl : (s : Text) → str_eq s s ≡ true
unfolding str_eq
str_eq_refl [] = refl
str_eq_refl (x ∷ s) = ground (arith, str_eq_refl s)

pub str_eq_complete : (s t : Text) → s ≡ t → str_eq s t ≡ true
str_eq_complete s t h = rw (← h) (str_eq_refl s)

pub str_eq_iff : (s t : Text) → (str_eq s t ≡ true) ↔ (s ≡ t)
str_eq_iff s t = (str_eq_sound s t, str_eq_complete s t)

pub starts_with_sound : (s t : Text) → starts_with s t ≡ true → (rest : Text) × (s ≡ t ++ rest)
unfolding starts_with
starts_with_sound s [] h = (s, refl)
starts_with_sound [] (y ∷ t) h = ground arith
starts_with_sound (x ∷ s) (y ∷ t) h =
    let (rest, e) = starts_with_sound s t (ground arith) in (rest, ground (arith, ==_iff x y, e))

pub starts_with-append : (t rest : Text) → starts_with (t ++ rest) t ≡ true
unfolding starts_with
starts_with-append [] rest = refl
starts_with-append (y ∷ t) rest = ground (arith, starts_with-append t rest)

pub strstr_sound :
    (s needle : Text) {r : Text}
    → strstr s needle ≡ some r
    → (before after : Text) × (s ≡ before ++ r) × (r ≡ needle ++ after)
unfolding strstr
strstr_sound [] needle {r} h = elim (Bool-cases (starts_with [] needle)) [
  | inl e ↦
      let same : [] ≡ r = ground arith in
      let (after, q) = starts_with_sound [] needle e in ([], after, same, sym same ∙ q)
  | inr e ↦ absurd (ground arith)
]
strstr_sound (x ∷ s) needle {r} h = elim (Bool-cases (starts_with (x ∷ s) needle)) [
  | inl e ↦
      let same : x ∷ s ≡ r = ground arith in
      let (after, q) = starts_with_sound (x ∷ s) needle e in ([], after, same, sym same ∙ q)
  | inr e ↦
      let found : strstr s needle ≡ some r = ground arith in
      let (before, after, q, q') = strstr_sound s needle found in
      (x ∷ before, after, ap (◌∷◌ x) q, q')
]

pub strstr_complete :
    (before needle after : Text) → is_some (strstr (before ++ (needle ++ after)) needle) ≡ true
unfolding strstr
strstr_complete [] [] [] = refl
strstr_complete [] [] (x ∷ after) = refl
strstr_complete [] (y ∷ needle) after = rw (starts_with-append (y ∷ needle) after) refl
strstr_complete (x ∷ before) needle after = ground (arith, strstr_complete before needle after)

pub strchr_sound :
    (c : ℕ) (s : Text) {r : Text}
    → strchr c s ≡ some r
    → (before rest : Text) × (s ≡ before ++ r) × (r ≡ c ∷ rest) × Lacks c before
unfolding strchr
strchr_sound c [] h = ground arith
strchr_sound c (x ∷ s) {r} h = elim (Bool-cases (x == c)) [
  | inl e ↦ ([], s, ground arith, ground (arith, ==_iff x c), tt)
  | inr e ↦
      let found : strchr c s ≡ some r = ground arith in
      let (before, rest, q, q', l) = strchr_sound c s found in
      let x_ne : x ≢ c = ground (arith, ==_iff x c) in
      (x ∷ before, rest, ap (◌∷◌ x) q, q', (x_ne, l))
]

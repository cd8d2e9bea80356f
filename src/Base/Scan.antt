-- ===== src/Base/Scan.antt =====
-- The search loops of the sources: over an array, with a test and a `break`.
use mathlib.Core.Path.{◌≡◌, refl}
use mathlib.Core.Logic.{inl, inr, ◌↔◌, ◌⊎◌}
use mathlib.Core.Bool.{Bool, true, false, ◌||◌}
use mathlib.Core.Option.{Option, none, some}
use mathlib.Core.List.{List, [], ◌∷◌, ◌++◌, Memᴰ}
use native.Mathlib.Omega.{arith}
use p101_audit.Base.Tests.{if◌then◌else◌, Bool-cases}

module _ {ℓ} {A : Type ℓ} where
  -- `found = false; for(…) if(test) { found = true; break; }`
  unfoldable pub any : (A → Bool) → List A → Bool
  any p [] = false
  any p (x ∷ xs) = p x || any p xs

  -- `result = NULL; for(…) if(test) { result = &array[index]; break; }`
  unfoldable pub find : (A → Bool) → List A → Option A
  find p [] = none
  find p (x ∷ xs) = if p x then some x else find p xs

  pub any_sound :
      (p : A → Bool) (xs : List A) → any p xs ≡ true → (x : A) × Memᴰ x xs × (p x ≡ true)
  unfolding any
  any_sound p [] h = ground arith
  any_sound p (x ∷ xs) h = elim (Bool-cases (p x)) [
    | inl here ↦ (x, Memᴰ.head refl, here)
    | inr off ↦ let (y, m, e) = any_sound p xs (ground arith) in (y, Memᴰ.tail m, e)
  ]

  pub any_complete : (p : A → Bool) {x : A} {xs : List A} → Memᴰ x xs → p x ≡ true → any p xs ≡ true
  unfolding any
  any_complete p (Memᴰ.head {x = y} e) h = ground arith
  any_complete p (Memᴰ.tail m) h = ground (arith, any_complete p m h)

  pub any_iff :
      (p : A → Bool) (xs : List A) → (any p xs ≡ true) ↔ ((x : A) × Memᴰ x xs × (p x ≡ true))
  any_iff p xs = (any_sound p xs, λ (x, m, e). any_complete p m e)

  pub any-append : (p : A → Bool) (xs ys : List A) → any p (xs ++ ys) ≡ (any p xs || any p ys)
  unfolding any
  any-append p [] ys = refl
  any-append p (x ∷ xs) ys = ground (arith, any-append p xs ys)

  pub find_sound :
      (p : A → Bool) (xs : List A) (x : A) → find p xs ≡ some x → Memᴰ x xs × (p x ≡ true)
  unfolding find
  find_sound p [] x h = ground arith
  find_sound p (y ∷ xs) x h = elim (Bool-cases (p y)) [
    | inl here ↦ (Memᴰ.head (ground arith), ground arith)
    | inr off ↦ let (m, e) = find_sound p xs x (ground arith) in (Memᴰ.tail m, e)
  ]

  pub find-eq-none : (p : A → Bool) (xs : List A) → find p xs ≡ none → any p xs ≡ false
  unfolding find any
  find-eq-none p [] h = refl
  find-eq-none p (y ∷ xs) h = ground (arith, find-eq-none p xs)

  pub mem_snoc_cases : (xs : List A) {a y : A} → Memᴰ a (xs ++ y ∷ []) → Memᴰ a xs ⊎ (a ≡ y)
  mem_snoc_cases [] (Memᴰ.head e) = inr e
  mem_snoc_cases [] (Memᴰ.tail m) = elim m [ ]
  mem_snoc_cases (x ∷ xs) (Memᴰ.head e) = inl (Memᴰ.head e)
  mem_snoc_cases (x ∷ xs) (Memᴰ.tail m) = elim (mem_snoc_cases xs m) [
    | inl old ↦ inl (Memᴰ.tail old)
    | inr last ↦ inr last
  ]

  pub mem_append_left : (xs ys : List A) {a : A} → Memᴰ a xs → Memᴰ a (xs ++ ys)
  mem_append_left [] ys m = elim m [ ]
  mem_append_left (x ∷ xs) ys (Memᴰ.head e) = Memᴰ.head e
  mem_append_left (x ∷ xs) ys (Memᴰ.tail m) = Memᴰ.tail (mem_append_left xs ys m)

  pub mem_cons_cases : {a x : A} {xs : List A} → Memᴰ a (x ∷ xs) → (a ≡ x) ⊎ Memᴰ a xs
  mem_cons_cases (Memᴰ.head q) = inl q
  mem_cons_cases (Memᴰ.tail m) = inr m

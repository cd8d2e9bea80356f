-- ===== src/ModuleMap/Relative/Bounds.antt =====
-- The lexical normalisation only shortens a path, so that its destination holds it.
use p101_audit.Base.{
  ℕ, zero, suc, ◌+◌, ◌≡◌, ◌≤◌, refl, Bool, true, ◌||◌, [], ◌∷◌, Option, none, some, ◌==◌,
  if◌then◌else◌, length, is_nil, length-append, arith, Bool-cases, Option-cases, inl, inr,
}
use p101_audit.Base.Text.{Text}
use p101_audit.ModuleMap.Strings.{split_last}
use p101_audit.ModuleMap.Relative.{
  skip_slashes, next_component, parent, append_component, add_component, normalize_loop,
  normalize_relative_path,
}

-- The cursor stands at a slash, or at the end.
abbrev at_boundary : Text → Bool
at_boundary [] = true
at_boundary (c ∷ cursor) = c == b'/'

length-skip_slashes : (cursor : Text) → length (skip_slashes cursor) ≤ length cursor
unfolding skip_slashes
length-skip_slashes [] = omega arith
length-skip_slashes (c ∷ cursor) = ground (arith, length-skip_slashes cursor)

skip_slashes_drop :
    (c : ℕ) (cursor : Text)
    → (c == b'/') ≡ true
    → length (skip_slashes (c ∷ cursor)) ≤ length cursor
unfolding skip_slashes
skip_slashes_drop c cursor h = rw h (length-skip_slashes cursor)

length-next_component :
    (s : Text) → length (next_component s).0 + length (next_component s).1 ≡ length s
unfolding next_component
length-next_component [] = refl
length-next_component (c ∷ s) = ground (arith, length-next_component s)

next_component_boundary : (s : Text) → at_boundary (next_component s).1 ≡ true
unfolding next_component
next_component_boundary [] = refl
next_component_boundary (c ∷ s) = elim (Bool-cases (c == b'/')) [
  | inl e ↦ rw e e
  | inr e ↦ rw e (next_component_boundary s)
]

length-split_last :
    (c : ℕ) (s before after : Text)
    → split_last c s ≡ some (before, after)
    → length before ≤ length s
unfolding split_last
length-split_last c [] before after h = absurd (ground arith)
length-split_last c (x ∷ s) before after h = elim (Option-cases (split_last c s)) [
  | inl e ↦ elim (Bool-cases (x == c)) [
    | inl q ↦ first (rw (e, q, split_last) at h)
    | inr q ↦ absurd (refused (rw (e, q, split_last) at h))
  ]
  | inr ((b, a), e) ↦ later b a (length-split_last c s b a e) (rw (e, split_last) at h)
]
  where
    first :
        ◌≡◌ {A = Option (Text × Text)} (some ([], s)) (some (before, after))
        → length before ≤ suc (length s)
    first q = let same : [] ≡ before = ground arith in rw (← same) (omega arith)

    refused : ◌≡◌ {A = Option (Text × Text)} none (some (before, after)) → ⊥
    refused q = cc

    later :
        (b a : Text)
        → length b ≤ length s
        → ◌≡◌ {A = Option (Text × Text)} (some (x ∷ b, a)) (some (before, after))
        → length before ≤ suc (length s)
    later b a k q = let same : x ∷ b ≡ before = ground arith in rw (← same) (omega arith)

length-parent : (d shorter : Text) → parent d ≡ some shorter → length shorter ≤ length d
unfolding parent
length-parent d shorter h = elim (Option-cases (split_last b'/' d)) [
  | inl e ↦ ground arith
  | inr ((b, a), e) ↦ let k = length-split_last b'/' d b a e in ground arith
]

length-append_component :
    (d c : Text) → length (append_component d c) ≤ length d + length c + (if is_nil d then 0 else 1)
unfolding append_component
length-append_component [] c = omega arith
length-append_component (x ∷ d) c = let e = length-append (x ∷ d) (b'/' ∷ c) in omega arith

length-add_component :
    (d c : Text) → length (add_component d c) ≤ length d + length c + (if is_nil d then 0 else 1)
unfolding add_component
length-add_component d c =
    let appended = length-append_component d c in
    elim (Option-cases (parent d)) [
      | inl e ↦ ground arith
      | inr (shorter, e) ↦ let k = length-parent d shorter e in ground arith
    ]

add_component-nil : (d : Text) → add_component d [] ≡ d
unfolding add_component
add_component-nil d = refl

-- One round, where the destination is empty or the cursor stands at a slash.
round_shortens :
    (x : ℕ) (cursor d : Text)
    → (is_nil d || at_boundary (x ∷ cursor)) ≡ true
    → length (add_component d (next_component (skip_slashes (x ∷ cursor))).0)
        + length (next_component (skip_slashes (x ∷ cursor))).1
      ≤ length d + suc (length cursor)
round_shortens x cursor d h =
    let skipped = length-skip_slashes (x ∷ cursor) in
    let dropped = skip_slashes_drop x cursor in
    let split = length-next_component (skip_slashes (x ∷ cursor)) in
    let added = length-add_component d (next_component (skip_slashes (x ∷ cursor))).0 in
    elim (Bool-cases (is_nil d)) [
      | inl e ↦ ground arith
      | inr e ↦
          let slash : (x == b'/') ≡ true = ground arith in let k = dropped slash in ground arith
    ]

length-normalize_loop :
    (fuel : ℕ) (cursor d : Text)
    → (is_nil d || at_boundary cursor) ≡ true
    → length (normalize_loop fuel cursor d) ≤ length d + length cursor
unfolding normalize_loop
length-normalize_loop zero cursor d h = omega arith
length-normalize_loop (suc fuel) [] d h = omega arith
length-normalize_loop (suc fuel) (x ∷ cursor) d h =
    let (component, rest) = next_component (skip_slashes (x ∷ cursor)) in
    let shorter = round_shortens x cursor d h in
    let at = next_component_boundary (skip_slashes (x ∷ cursor)) in
    let later = length-normalize_loop fuel rest (add_component d component) (ground arith) in
    omega arith

-- The normalised path is never longer than the path, so the array of the path's size that it is
-- written to holds it.
pub length-normalize_relative_path :
    (path : Text) → length (normalize_relative_path path) ≤ length path
unfolding normalize_relative_path
length-normalize_relative_path path =
    omega (arith, length-normalize_loop (length path) path [] refl)

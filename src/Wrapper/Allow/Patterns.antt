-- ===== src/Wrapper/Allow/Patterns.antt =====
-- What the path pattern of an allow rule matches.
use p101_audit.Base.{
  ℕ, zero, suc, ◌+◌, ◌<◌, ◌≡◌, refl, ap, ◌⊎◌, ◌↔◌, inl, inr, Bool, true, false, ◌&&◌, ◌||◌, [], ◌∷◌,
  ◌++◌, Option, none, some, arith, Bool-cases, Option-cases, length, drop, length-append, ◌==◌,
  ==_iff,
}
use p101_audit.Base.Text.{Text, strchr, strchr_sound}
use p101_audit.Wrapper.{Platform}
use p101_audit.Wrapper.Allow.{path_matches, path_matches_loop}

-- The pattern matches the whole path, or all of the path behind one of its slashes.
abbrev pub MatchesTail : Platform → Text → Text → Type 0
MatchesTail p pattern path =
    (p.fnmatch pattern path ≡ true)
    ⊎ ((before rest : Text) × (path ≡ before ++ b'/' ∷ rest) × (p.fnmatch pattern rest ≡ true))

module _ (p : Platform) (pattern : Text) where
  -- The same search in one pass over the bytes.
  after_slash : Text → Bool
  after_slash [] = false
  after_slash (x ∷ s) = x == b'/' && p.fnmatch pattern s || after_slash s

  abbrev from_tail : Option Text → Bool
  from_tail none = false
  from_tail (some r) = p.fnmatch pattern (drop 1 r) || after_slash (drop 1 r)

  after_slash-strchr : (path : Text) → after_slash path ≡ from_tail (strchr b'/' path)
  unfolding after_slash strchr
  after_slash-strchr [] = refl
  after_slash-strchr (x ∷ s) = ground (arith, after_slash-strchr s)

  tail_shorter :
      (path : Text) {r : Text} → strchr b'/' path ≡ some r → length (drop 1 r) < length path
  tail_shorter path {r} q =
      let (before, rest, cut, slash, _) = strchr_sound b'/' path q in
      let whole : length path ≡ length before + suc (length rest) =
        rw (cut, slash) (length-append before (b'/' ∷ rest)) in
      let part : length (drop 1 r) ≡ length rest = rw slash in omega arith

  loop-after_slash :
      (fuel : ℕ) (path : Text)
      → length path < fuel
      → path_matches_loop p fuel pattern path ≡ (p.fnmatch pattern path || after_slash path)
  unfolding path_matches_loop
  loop-after_slash zero path h = absurd (omega arith)
  loop-after_slash (suc fuel) path h = elim (Option-cases (strchr b'/' path)) [
    | inl q ↦ rw (after_slash-strchr path) (rw q (ground arith))
    | inr (r, q) ↦
        let shorter : length (drop 1 r) < fuel = omega (arith, tail_shorter path q) in
        rw (after_slash-strchr path)
          (rw (q, loop-after_slash fuel (drop 1 r) shorter) (ground arith))
  ]

  after_slash_sound :
      (path : Text)
      → after_slash path ≡ true
      → (before rest : Text) × (path ≡ before ++ b'/' ∷ rest) × (p.fnmatch pattern rest ≡ true)
  unfolding after_slash
  after_slash_sound [] h = ground arith
  after_slash_sound (x ∷ s) h = elim (Bool-cases (x == b'/' && p.fnmatch pattern s)) [
    | inl e ↦ ([], s, ground (arith, ==_iff x b'/'), ground arith)
    | inr e ↦
        let later : after_slash s ≡ true = ground arith in
        let (before, rest, q, m) = after_slash_sound s later in (x ∷ before, rest, ap (◌∷◌ x) q, m)
  ]

  after_slash_complete :
      (before rest : Text)
      → p.fnmatch pattern rest ≡ true
      → after_slash (before ++ b'/' ∷ rest) ≡ true
  unfolding after_slash
  after_slash_complete [] rest m = ground arith
  after_slash_complete (x ∷ before) rest m = ground (arith, after_slash_complete before rest m)

  path_matches_sound :
      (path : Text) → path_matches p pattern path ≡ true → MatchesTail p pattern path
  unfolding path_matches
  path_matches_sound path h = elim (Bool-cases (p.fnmatch pattern path)) [
    | inl e ↦ inl e
    | inr e ↦ inr (
        after_slash_sound path
          (ground (arith, loop-after_slash (suc (length path)) path (omega arith))))
  ]

  path_matches_complete :
      (path : Text) → MatchesTail p pattern path → path_matches p pattern path ≡ true
  unfolding path_matches
  path_matches_complete path (inl m) =
      ground (arith, loop-after_slash (suc (length path)) path (omega arith))
  path_matches_complete path (inr (before, rest, e, m)) =
      let found : after_slash path ≡ true = rw e (after_slash_complete before rest m) in
      ground (arith, loop-after_slash (suc (length path)) path (omega arith))

-- The pattern of an allow rule matches a path exactly if fnmatch matches it with the whole path or
-- with what stands behind one of the path's slashes; the loop always ends within its rounds.
pub path_matches_iff :
    (p : Platform) (pattern path : Text)
    → (path_matches p pattern path ≡ true) ↔ MatchesTail p pattern path
path_matches_iff p pattern path =
    (path_matches_sound p pattern path, path_matches_complete p pattern path)

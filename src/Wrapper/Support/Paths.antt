-- ===== src/Wrapper/Support/Paths.antt =====
-- What the two path tests of src/judge_support.c say of a path.
use p101_audit.Base.{
  suc, ◌+◌, ◌-◌, ◌≡◌, sym, ◌∙◌, ap, ◌⊎◌, ◌↔◌, inl, inr, true, ◌∷◌, ◌++◌, arith, ◌==◌, Bool-cases,
  Option-cases, is_some, length, take, drop, take-append-drop, drop-append, drop-suc, length-append,
}
use p101_audit.Base.Text.{
  Text, codes, str_eq, str_eq_sound, str_eq_complete, starts_with, starts_with_sound,
  starts_with-append, strstr, strstr_sound, strstr_complete,
}
use p101_audit.Wrapper.Support.{path_has_directory_component, path_has_trailing_components}

-- `part` occurs somewhere in `path`.
abbrev pub Occurs : Text → Text → Type 0
Occurs part path = (before after : Text) × (path ≡ before ++ (part ++ after))

abbrev pub Opens : Text → Text → Type 0
Opens part path = (after : Text) × (path ≡ part ++ after)

directory_sound :
    (path dir : Text)
    → path_has_directory_component path (b'/' ∷ dir) ≡ true
    → Occurs (b'/' ∷ dir) path ⊎ Opens dir path
unfolding path_has_directory_component
directory_sound path dir h = elim (Option-cases (strstr path (b'/' ∷ dir))) [
  | inl missing ↦ inr (starts_with_sound path dir (ground arith))
  | inr (r, found) ↦
      let (before, after, e, e') = strstr_sound path (b'/' ∷ dir) found in
      inl (before, after, e ∙ ap (λ t. before ++ t) e')
]

directory_complete :
    (path dir : Text)
    → Occurs (b'/' ∷ dir) path ⊎ Opens dir path
    → path_has_directory_component path (b'/' ∷ dir) ≡ true
unfolding path_has_directory_component
directory_complete path dir (inl (before, after, e)) =
    let found : is_some (strstr path (b'/' ∷ dir)) ≡ true =
      rw e (strstr_complete before (b'/' ∷ dir) after) in
    ground arith
directory_complete path dir (inr (after, e)) =
    let opens : starts_with path dir ≡ true = rw e (starts_with-append dir after) in ground arith

-- A pattern written with a slash at its front is found in a path exactly if it occurs somewhere in
-- the path, or if the path opens with the pattern less that slash.
pub path_has_directory_component_iff :
    (path dir : Text)
    → (path_has_directory_component path (b'/' ∷ dir) ≡ true)
      ↔ (Occurs (b'/' ∷ dir) path ⊎ Opens dir path)
path_has_directory_component_iff path dir = (directory_sound path dir, directory_complete path dir)

-- `suffix` is the whole path, or all of it behind one of its slashes.
abbrev pub EndsWithComponents : Text → Text → Type 0
EndsWithComponents suffix path =
    (path ≡ suffix) ⊎ ((before : Text) × (path ≡ before ++ b'/' ∷ suffix))

trailing_sound :
    (path suffix : Text)
    → path_has_trailing_components path suffix ≡ true
    → EndsWithComponents suffix path
unfolding path_has_trailing_components
trailing_sound path suffix h = elim (Bool-cases (length path == length suffix)) [
  | inl same ↦
      let cut : length path - length suffix ≡ 0 = ground arith in
      let equal : str_eq (drop (length path - length suffix) path) suffix ≡ true = ground arith in
      inl (str_eq_sound path suffix (rw cut at equal))
  | inr longer ↦
      let equal : str_eq (drop (length path - length suffix) path) suffix ≡ true = ground arith in
      let slash : starts_with (drop (length path - length suffix - 1) path) (codes "/") ≡ true =
        ground arith in
      let (rest, e) = starts_with_sound _ _ slash in
      let cut : length path - length suffix ≡ suc (length path - length suffix - 1) =
        ground arith in
      let tail : rest ≡ suffix =
        sym (drop-suc (length path - length suffix - 1) path e)
        ∙ (rw cut at (str_eq_sound _ _ equal)) in
      inr (
        take (length path - length suffix - 1) path,
        sym (take-append-drop (length path - length suffix - 1) path)
            ∙ ap (λ t. take (length path - length suffix - 1) path ++ t) (e ∙ ap (◌∷◌ b'/') tail),
      )
]

trailing_complete :
    (path suffix : Text)
    → EndsWithComponents suffix path
    → path_has_trailing_components path suffix ≡ true
unfolding path_has_trailing_components
trailing_complete path suffix (inl e) =
    let cut : length path - length suffix ≡ 0 = rw e (omega arith) in
    let equal : str_eq (drop (length path - length suffix) path) suffix ≡ true =
      rw cut (str_eq_complete path suffix e) in
    ground (arith, ap length e)
trailing_complete path suffix (inr (before, e)) =
    let size : length path ≡ length before + suc (length suffix) =
      rw e (length-append before (b'/' ∷ suffix)) in
    let at_slash : drop (length before) path ≡ b'/' ∷ suffix =
      rw e (drop-append before (b'/' ∷ suffix)) in
    let cut : length path - length suffix ≡ suc (length before) = omega arith in
    let cut' : length path - length suffix - 1 ≡ length before = omega arith in
    let equal : str_eq (drop (length path - length suffix) path) suffix ≡ true =
      rw cut (str_eq_complete _ suffix (drop-suc (length before) path at_slash)) in
    let slash : starts_with (drop (length path - length suffix - 1) path) (codes "/") ≡ true =
      rw (cut', at_slash) (starts_with-append (codes "/") suffix) in
    ground arith

-- A suffix pattern matches a path exactly if it is the whole path or stands behind a slash at the
-- path's end; a path that merely ends in those bytes does not match.
pub path_has_trailing_components_iff :
    (path suffix : Text)
    → (path_has_trailing_components path suffix ≡ true) ↔ EndsWithComponents suffix path
path_has_trailing_components_iff path suffix =
    (trailing_sound path suffix, trailing_complete path suffix)

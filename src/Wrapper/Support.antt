-- ===== src/Wrapper/Support.antt =====
-- src/judge_support.c: who makes a call, and whether the call stands where the boundary allows it.
pub mod Enclosing
pub mod Paths
pub mod Membership
use p101_audit.Base.{
  ℕ, ◌+◌, ◌-◌, ◌^◌, Bool, true, false, not, ◌&&◌, ◌||◌, List, [], ◌∷◌, Option, none, some, leb, ltb,
  ◌==◌, if◌then◌else◌, length, drop, is_nil, is_some,
}
use p101_audit.Base.Text.{Text, codes, str_eq, starts_with, strstr}
use p101_audit.Base.Scan.{any}
use p101_audit.Wrapper.{Fact, Inventory, Model, is_macro, is_function}

abbrev pub size_max : ℕ
size_max = 2 ^ 64 - 1

-- The two `continue` tests of the loop, negated: a function definition around the call's start.
unfoldable pub encloses : Fact → Fact → Bool
encloses c f =
    is_function f.kind
    && f.is_definition
    && leb f.start f.end
    && str_eq f.path c.path
    && leb f.start c.start
    && ltb c.start f.end

-- The loop over the facts: the identity found so far, and `narrowest_span`.
unfoldable pub narrowest : Fact → List Fact → Text → ℕ → Text
unfolding encloses
narrowest c [] found span = found
narrowest c (f ∷ fs) found span =
    let nearer = encloses c f && ltb (f.end - f.start) span in
    narrowest c fs (if nearer then f.usr else found) (if nearer then f.end - f.start else span)

unfoldable pub semantic_caller_usr : Model → Fact → Text
semantic_caller_usr m c =
    if not (is_nil c.caller_usr) then c.caller_usr else narrowest c m.facts c.caller_usr size_max

unfoldable pub caller_is_declared_wrapper : Model → Fact → Option Inventory → Bool
caller_is_declared_wrapper m c none = false
caller_is_declared_wrapper m c (some w) =
    if is_nil w.wrapper_usr || is_nil (semantic_caller_usr m c)
    then false
    else str_eq w.wrapper_usr (semantic_caller_usr m c)

-- A C library function to which a macro lowers, and the wrapper that may call it.
unfoldable pub aliases : List (Text × Text)
aliases =
    (codes "c:@F@__xpg_basename", codes "c:@F@p101_basename")
    ∷ (codes "c:@F@fgetc", codes "c:@F@p101_getc")
    ∷ (codes "c:@F@fgetc", codes "c:@F@p101_getchar")
    ∷ (codes "c:@F@fgetwc", codes "c:@F@p101_getwc")
    ∷ (codes "c:@F@fgetwc", codes "c:@F@p101_getwchar")
    ∷ (codes "c:@F@fputc", codes "c:@F@p101_putc")
    ∷ (codes "c:@F@fputc", codes "c:@F@p101_putchar")
    ∷ (codes "c:@F@fputwc", codes "c:@F@p101_putwc")
    ∷ (codes "c:@F@fputwc", codes "c:@F@p101_putwchar")
    ∷ []

unfoldable pub is_wrapper_implementation : Model → Fact → Option Inventory → Bool
is_wrapper_implementation m c w =
    if caller_is_declared_wrapper m c w
    then true
    else any (λ a. str_eq c.usr a.0 && str_eq (semantic_caller_usr m c) a.1) aliases

-- The two `continue` tests of the loop of `is_local`, negated.
unfoldable pub defines : Text → Fact → Bool
defines usr f = is_function f.kind && f.is_definition && str_eq f.usr usr

unfoldable pub is_local : Model → Fact → Bool
is_local m c = if is_nil c.usr then false else any (defines c.usr) m.facts

unfoldable pub errno_providers : List Text
errno_providers = codes "c:@F@__errno_location" ∷ codes "c:@F@__error" ∷ []

-- A use of the macro `errno` on the call's line, by the call's caller.
unfoldable pub is_errno_use : Fact → Fact → Bool
is_errno_use c f =
    is_macro f.kind
    && not f.is_definition
    && f.line == c.line
    && str_eq f.path c.path
    && str_eq f.caller_usr c.caller_usr
    && str_eq f.name (codes "errno")

unfoldable pub is_errno_macro_lowering : Model → Fact → Bool
is_errno_macro_lowering m c =
    if any (str_eq c.usr) errno_providers then any (is_errno_use c) m.facts else false

-- `component` begins and ends with a slash; without the first it may open the path.
unfoldable pub path_has_directory_component : Text → Text → Bool
path_has_directory_component path component =
    if is_some (strstr path component) then true else starts_with path (drop 1 component)

unfoldable pub path_has_trailing_components : Text → Text → Bool
path_has_trailing_components path suffix =
    let cut = length path - length suffix in
    if leb (length suffix) (length path)
    then str_eq (drop cut path) suffix
      && (length path == length suffix || starts_with (drop (cut - 1) path) (codes "/"))
    else false

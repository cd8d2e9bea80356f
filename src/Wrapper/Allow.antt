-- ===== src/Wrapper/Allow.antt =====
-- src/judge.c, first half: which inventory entry a fact calls, under which identity an allow rule
-- names it, and whether the call is allowed.
pub mod Patterns
pub mod Rules
pub mod Lowering
pub mod Permits
use p101_audit.Base.{
  ℕ, zero, suc, ◌+◌, ◌%◌, ◌^◌, Bool, true, false, not, ◌&&◌, ◌||◌, List, [], ◌∷◌, ◌++◌, Option,
  none, some, leb, if◌then◌else◌, length, drop, is_nil,
}
use p101_audit.Base.Text.{Text, codes, str_eq, strstr, strchr}
use p101_audit.Base.Scan.{any, find}
use p101_audit.Wrapper.{
  Fact, Inventory, AllowRule, Arguments, Model, Platform, is_macro, is_call, name_size,
}

-- A lowered builtin, and the C function that it stands for.
unfoldable pub mappings : List (Text × Text)
mappings =
    (codes "c:@F@__builtin___fprintf_chk", codes "c:@F@fprintf")
    ∷ (codes "c:@F@__builtin___memcpy_chk", codes "c:@F@memcpy")
    ∷ (codes "c:@F@__builtin___memmove_chk", codes "c:@F@memmove")
    ∷ (codes "c:@F@__builtin___memset_chk", codes "c:@F@memset")
    ∷ (codes "c:@F@__builtin___printf_chk", codes "c:@F@printf")
    ∷ (codes "c:@F@__builtin___snprintf_chk", codes "c:@F@snprintf")
    ∷ (codes "c:@F@__builtin___strcpy_chk", codes "c:@F@strcpy")
    ∷ (codes "c:@F@__builtin___vsnprintf_chk", codes "c:@F@vsnprintf")
    ∷ (codes "c:@F@__builtin_memcpy", codes "c:@F@memcpy")
    ∷ (codes "c:@F@__builtin_memmove", codes "c:@F@memmove")
    ∷ (codes "c:@F@__builtin_memset", codes "c:@F@memset")
    ∷ (codes "c:@F@__builtin_va_copy", codes "c:@F@va_copy")
    ∷ (codes "c:@F@__builtin_va_end", codes "c:@F@va_end")
    ∷ (codes "c:@F@__builtin_va_start", codes "c:@F@va_start")
    ∷ []

unfoldable pub canonical_native_usr : Text → Text
unfolding mappings
canonical_native_usr usr = elim (find (λ a. str_eq usr a.0) mappings) [ none ↦ usr | some a ↦ a.1 ]

-- The test of the loop of `find_wrapper`.
unfoldable pub is_wrapped_by : Fact → Inventory → Bool
is_wrapped_by f w =
    let usr = canonical_native_usr f.usr in
    not (is_nil usr) && str_eq w.original_usr usr
    || is_macro f.kind && not (is_nil w.original) && str_eq w.original f.name

unfoldable pub find_wrapper : Model → Fact → Option Inventory
find_wrapper m f = find (is_wrapped_by f) m.inventory

unfoldable pub call_is_inventory_wrapper : Model → Fact → Bool
call_is_inventory_wrapper m f =
    if not (is_call f.kind) || is_nil f.usr
    then false
    else any (λ w. not (is_nil w.wrapper_usr) && str_eq w.wrapper_usr f.usr) m.inventory

-- The wrap itself.
unfoldable pub is_own_wrap : Fact → Option Inventory → Bool
is_own_wrap f none = false
is_own_wrap f (some w) = not (is_nil f.caller_usr) && str_eq f.caller_usr w.wrapper_usr

-- `f` is a macro use in the caller of the call `c`, and the text of `c` lies around its own.
unfoldable pub is_expanded_from : Fact → Fact → Bool
is_expanded_from c f =
    is_macro f.kind
    && not f.is_definition
    && str_eq f.path c.path
    && str_eq f.caller_usr c.caller_usr
    && leb c.start f.start
    && leb f.end c.end

module _ (p : Platform) where
  -- One round tests `candidate`, and moves it behind its next slash.
  unfoldable pub path_matches_loop : ℕ → Text → Text → Bool
  path_matches_loop zero pattern candidate = false
  path_matches_loop (suc fuel) pattern candidate =
      if p.fnmatch pattern candidate then true else elim (strchr b'/' candidate) [
        | none ↦ false
        | some rest ↦ path_matches_loop fuel pattern (drop 1 rest)
      ]

  -- A round drops at least a slash, so one round more than there are bytes is enough.
  unfoldable pub path_matches : Text → Text → Bool
  path_matches pattern path = path_matches_loop (suc (length path)) pattern path

  -- The first two assignments of `fact_callee_identity`: an indirect call is named by its type.
  unfoldable pub direct_identity : Fact → Text
  direct_identity f =
      let usr = canonical_native_usr f.usr in
      elim (strstr usr (codes "@T@")) [
        | none ↦ usr
        | some marker ↦ p.printed name_size (codes "c:" ++ marker)
      ]

  -- The third: a macro takes the identity of what its wrapper wraps.
  unfoldable pub wrapped_identity : Fact → Option Inventory → Text
  wrapped_identity f none = direct_identity f
  wrapped_identity f (some w) =
      if is_macro f.kind && not (is_nil w.original_usr) then w.original_usr else direct_identity f

  unfoldable pub fact_callee_identity : Fact → Option Inventory → Text
  fact_callee_identity f w =
      let identity = wrapped_identity f w in
      if is_nil identity && is_macro f.kind
      then p.printed name_size (codes "macro:" ++ f.name)
      else identity

  unfoldable pub rule_matches : Fact → Text → AllowRule → Bool
  rule_matches f callee r =
      path_matches r.path f.path
      && (is_nil r.caller_usr || str_eq r.caller_usr f.caller_usr)
      && str_eq r.callee_usr callee

  -- The last loop of `is_allowed`: the first rule that matches counts the use.
  unfoldable pub use_rule : Fact → Text → List AllowRule → Bool × List AllowRule
  use_rule f callee [] = (false, [])
  use_rule f callee (r ∷ rs) =
      let (allowed, rest) = use_rule f callee rs in
      if rule_matches f callee r
      then (true, (record r { uses = (r.uses + 1) % 2 ^ 64 }) ∷ rs)
      else (allowed, r ∷ rest)

  -- The rules are the only arguments that the judge changes, so they are passed by themselves.
  unfoldable pub is_allowed :
      Arguments → Fact → Option Inventory → List AllowRule → Bool × List AllowRule
  is_allowed args f w rules =
      let callee = fact_callee_identity f w in
      if is_own_wrap f w || any (λ usr. str_eq usr callee) args.allowed_usrs
      then (true, rules)
      else use_rule f callee rules

  -- One round of `is_allowed_macro_lowering`.
  unfoldable pub lowering_step :
      Arguments → Model → Fact → Fact → List AllowRule → Bool × List AllowRule
  lowering_step args m c f rules =
      if is_expanded_from c f
      then elim (find_wrapper m f) [
        | none ↦ (false, rules)
        | some w ↦ is_allowed args f (some w) rules
      ]
      else (false, rules)

  unfoldable pub lowering_loop :
      Arguments → Model → Fact → List Fact → List AllowRule → Bool × List AllowRule
  lowering_loop args m c [] rules = (false, rules)
  lowering_loop args m c (f ∷ fs) rules =
      let (allowed, rules') = lowering_step args m c f rules in
      if allowed then (true, rules') else lowering_loop args m c fs rules'

  unfoldable pub is_allowed_macro_lowering :
      Arguments → Model → Fact → List AllowRule → Bool × List AllowRule
  is_allowed_macro_lowering args m c rules = lowering_loop args m c m.facts rules

-- ===== src/Wrapper/Allow/Permits.antt =====
-- Which facts the allow rules permit, said without the counters and the order of the loops.
use p101_audit.Base.{
  ◌≡◌, ◌≢◌, refl, sym, ◌∙◌, subst, ◌⊎◌, ◌↔◌, inl, inr, Bool, true, ◌||◌, List, [], Option, none,
  some, arith, Bool-cases, Memᴰ,
}
use p101_audit.Base.Text.{str_eq, str_eq_sound, str_eq_complete, str_eq_iff}
use p101_audit.Base.Scan.{any, any_sound, any_complete}
use p101_audit.Wrapper.{Platform, Fact, Inventory, AllowRule, Arguments}
use p101_audit.Wrapper.Allow.{rule_matches, is_own_wrap, is_allowed, fact_callee_identity}
use p101_audit.Wrapper.Allow.Patterns.{MatchesTail, path_matches_iff}
use p101_audit.Wrapper.Allow.Rules.{Agrees-of_match, use_rule-any}

-- Why a fact may call what it calls.
pub data Permitted (p : Platform) (args : Arguments) (f : Fact) (w : Option Inventory)
    : Type 0 where
  own :
      (v : Inventory)
      → w ≡ some v
      → f.caller_usr ≢ []
      → f.caller_usr ≡ v.wrapper_usr
      → Permitted p args f w
  named : Memᴰ (fact_callee_identity p f w) args.allowed_usrs → Permitted p args f w
  ruled :
      (r : AllowRule)
      → Memᴰ r args.allow_rules
      → MatchesTail p r.path f.path
      → (r.caller_usr ≡ []) ⊎ (r.caller_usr ≡ f.caller_usr)
      → r.callee_usr ≡ fact_callee_identity p f w
      → Permitted p args f w

unfoldable pub permits : Platform → Arguments → Fact → Option Inventory → Bool
permits p args f w =
    is_own_wrap f w
    || any (λ usr. str_eq usr (fact_callee_identity p f w)) args.allowed_usrs
    || any (rule_matches p f (fact_callee_identity p f w)) args.allow_rules

module _ (p : Platform) (args : Arguments) (f : Fact) (w : Option Inventory) where
  pub is_allowed-permits :
      (rs : List AllowRule)
      → any (rule_matches p f (fact_callee_identity p f w)) rs
        ≡ any (rule_matches p f (fact_callee_identity p f w)) args.allow_rules
      → (is_allowed p args f w rs).0 ≡ permits p args f w
  unfolding is_allowed permits
  is_allowed-permits rs same =
      ground (arith, use_rule-any p f (fact_callee_identity p f w) rs, same)

own_sound :
    (p : Platform) (args : Arguments) (f : Fact) (w : Option Inventory)
    → is_own_wrap f w ≡ true
    → Permitted p args f w
unfolding is_own_wrap
own_sound p args f none h = ground arith
own_sound p args f (some v) h =
    own v refl (ground arith) (str_eq_sound f.caller_usr v.wrapper_usr (ground arith))

rule_sound :
    (p : Platform) (args : Arguments) (f : Fact) (w : Option Inventory) (r : AllowRule)
    → Memᴰ r args.allow_rules
    → rule_matches p f (fact_callee_identity p f w) r ≡ true
    → Permitted p args f w
rule_sound p args f w r listed h =
    let a = Agrees-of_match p f (fact_callee_identity p f w) r h in
    ruled r listed a.path a.caller a.same_callee

permits_sound :
    (p : Platform) (args : Arguments) (f : Fact) (w : Option Inventory)
    → permits p args f w ≡ true
    → Permitted p args f w
unfolding permits
permits_sound p args f w h = elim (Bool-cases (is_own_wrap f w)) [
  | inl e ↦ own_sound p args f w e
  | inr e ↦
      elim (Bool-cases (any (λ usr. str_eq usr (fact_callee_identity p f w)) args.allowed_usrs)) [
        | inl e' ↦
            let (usr, listed, same) = any_sound _ args.allowed_usrs e' in
            named (subst (λ t. Memᴰ t args.allowed_usrs) (str_eq_sound usr _ same) listed)
        | inr e' ↦
            let found : any (rule_matches p f (fact_callee_identity p f w)) args.allow_rules
                ≡ true =
              ground arith in
            let (r, listed, t) = any_sound _ args.allow_rules found in
            rule_sound p args f w r listed t
      ]
]

permits_complete :
    (p : Platform) (args : Arguments) (f : Fact) (w : Option Inventory)
    → Permitted p args f w
    → permits p args f w ≡ true
unfolding permits is_own_wrap rule_matches
permits_complete p args f w (own v e known same) =
    rw e (ground (arith, str_eq_complete f.caller_usr v.wrapper_usr same))
permits_complete p args f w (named listed) =
    let found =
      any_complete (λ usr. str_eq usr (fact_callee_identity p f w)) listed
        (str_eq_complete _ _ refl) in
    ground arith
permits_complete p args f w (ruled r listed path caller callee) =
    let found : any (rule_matches p f (fact_callee_identity p f w)) args.allow_rules ≡ true =
      any_complete (rule_matches p f (fact_callee_identity p f w)) listed (
        ground (
          arith,
          (path_matches_iff p r.path f.path).1 path,
          caller,
          str_eq_iff r.caller_usr f.caller_usr,
          str_eq_complete _ _ callee,
        )) in
    ground arith

-- A fact is allowed exactly if its caller is the wrapper that its inventory entry names, or its
-- identity is on the command line, or a rule names it: one whose pattern matches the path or a tail
-- of it behind a slash, whose caller is empty or the fact's, and whose callee is the identity.
pub is_allowed_iff :
    (p : Platform) (args : Arguments) (f : Fact) (w : Option Inventory)
    → ((is_allowed p args f w args.allow_rules).0 ≡ true) ↔ Permitted p args f w
is_allowed_iff p args f w =
    let same = is_allowed-permits p args f w args.allow_rules refl in
    (λ h. permits_sound p args f w (sym same ∙ h), λ h. same ∙ permits_complete p args f w h)

pub permits_iff :
    (p : Platform) (args : Arguments) (f : Fact) (w : Option Inventory)
    → (permits p args f w ≡ true) ↔ Permitted p args f w
permits_iff p args f w = (permits_sound p args f w, permits_complete p args f w)

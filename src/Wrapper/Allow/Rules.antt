-- ===== src/Wrapper/Allow/Rules.antt =====
-- `is_allowed` and `is_allowed_macro_lowering`: what they answer, and what they do to the rules.
use p101_audit.Base.{
  ◌≡◌, refl, sym, ◌∙◌, ◌⊎◌, inl, inr, true, ◌||◌, List, [], ◌∷◌, Option, arith, Bool-cases, Memᴰ,
  is_nil,
}
use p101_audit.Base.Text.{Text, str_eq, str_eq_sound}
use p101_audit.Base.Scan.{any}
use p101_audit.Wrapper.{Platform, Fact, Inventory, AllowRule, Arguments, Model}
use p101_audit.Wrapper.Allow.{
  rule_matches, use_rule, is_own_wrap, is_allowed, fact_callee_identity, find_wrapper,
}
use p101_audit.Wrapper.Allow.Patterns.{MatchesTail, path_matches_iff}

is_nil→eq : (t : Text) → is_nil t ≡ true → t ≡ []
is_nil→eq [] h = refl
is_nil→eq (x ∷ t) h = cc

-- The rule's texts agree with the fact and the identity of what it calls.
pub record Agrees (p : Platform) (f : Fact) (callee : Text) (r : AllowRule) : Type 0 where
  pub path : MatchesTail p r.path f.path
  pub caller : (r.caller_usr ≡ []) ⊎ (r.caller_usr ≡ f.caller_usr)
  pub same_callee : r.callee_usr ≡ callee

pub Agrees-of_match :
    (p : Platform) (f : Fact) (callee : Text) (r : AllowRule)
    → rule_matches p f callee r ≡ true
    → Agrees p f callee r
unfolding rule_matches
Agrees-of_match p f callee r h = record {
  path = (path_matches_iff p r.path f.path).0 (ground arith);
  caller = elim (Bool-cases (is_nil r.caller_usr)) [
    | inl e ↦ inl (is_nil→eq r.caller_usr e)
    | inr e ↦ inr (str_eq_sound _ _ (ground arith))
  ];
  same_callee = str_eq_sound _ _ (ground arith);
}

-- The two rules differ at most in their counters.
pub record SameRule (r r' : AllowRule) : Type 0 where
  pub path : r'.path ≡ r.path
  pub caller_usr : r'.caller_usr ≡ r.caller_usr
  pub callee_usr : r'.callee_usr ≡ r.callee_usr

module _ (p : Platform) (m : Model) where
  -- A fact of the model agrees with the rule, under the identity that it has by the inventory entry
  -- that `find_wrapper` finds for it.
  pub record IsHit (r : AllowRule) : Type 0 where
    pub fact : Fact
    pub listed : Memᴰ fact m.facts
    pub agrees : Agrees p fact (fact_callee_identity p fact (find_wrapper m fact)) r

  -- The rules `rs` after some uses: no text changed, and a counter only where a fact matched.
  abbrev pub Traced : List AllowRule → List AllowRule → Type 0
  Traced [] [] = Unit
  Traced [] (r' ∷ rs') = ⊥
  Traced (r ∷ rs) [] = ⊥
  Traced (r ∷ rs) (r' ∷ rs') = SameRule r r' × ((r'.uses ≡ r.uses) ⊎ IsHit r) × Traced rs rs'

  pub Traced-refl : (rs : List AllowRule) → Traced rs rs
  Traced-refl [] = tt
  Traced-refl (r ∷ rs) =
      (record { path = refl; caller_usr = refl; callee_usr = refl }, inl refl, Traced-refl rs)

module _ (p : Platform) (f : Fact) (callee : Text) where
  rule_matches-SameRule :
      (r r' : AllowRule) → SameRule r r' → rule_matches p f callee r' ≡ rule_matches p f callee r
  unfolding rule_matches
  rule_matches-SameRule r r' e = simp (e.path, e.caller_usr, e.callee_usr)

  pub use_rule-any :
      (rs : List AllowRule) → (use_rule p f callee rs).0 ≡ any (rule_matches p f callee) rs
  unfolding use_rule any
  use_rule-any [] = refl
  use_rule-any (r ∷ rs) = ground (arith, use_rule-any rs)

  pub any-Traced :
      (m : Model) (rs rs' : List AllowRule)
      → Traced p m rs rs'
      → any (rule_matches p f callee) rs' ≡ any (rule_matches p f callee) rs
  unfolding any
  any-Traced m [] [] t = refl
  any-Traced m [] (r' ∷ rs') t = elim t [ ]
  any-Traced m (r ∷ rs) [] t = elim t [ ]
  any-Traced m (r ∷ rs) (r' ∷ rs') (same, used, t) =
      rw (rule_matches-SameRule r r' same, any-Traced m rs rs' t) refl

module _ (p : Platform) (m : Model) (f : Fact) (listed : Memᴰ f m.facts) where
  abbrev found : Option Inventory
  found = find_wrapper m f

  use_rule-Traced :
      (rs rs' : List AllowRule)
      → Traced p m rs rs'
      → Traced p m rs (use_rule p f (fact_callee_identity p f found) rs').1
  unfolding use_rule
  use_rule-Traced [] [] t = tt
  use_rule-Traced [] (r' ∷ rs') t = elim t [ ]
  use_rule-Traced (r ∷ rs) [] t = elim t [ ]
  use_rule-Traced (r ∷ rs) (r' ∷ rs') (same, used, t) =
      elim (Bool-cases (rule_matches p f (fact_callee_identity p f found) r')) [
        | inl e ↦ rw e (
          record { path = same.path; caller_usr = same.caller_usr; callee_usr = same.callee_usr },
          inr (record {
            fact = f;
            listed = listed;
            agrees =
                Agrees-of_match p f (fact_callee_identity p f found) r
                  (sym (rule_matches-SameRule p f (fact_callee_identity p f found) r r' same) ∙ e);
          }),
          t,
        )
        | inr e ↦ rw e (same, used, use_rule-Traced rs rs' t)
      ]

  pub is_allowed-Traced :
      (args : Arguments) (rs rs' : List AllowRule)
      → Traced p m rs rs'
      → Traced p m rs (is_allowed p args f found rs').1
  unfolding is_allowed
  is_allowed-Traced args rs rs' t =
      elim (Bool-cases (
        is_own_wrap f found
        || any (λ usr. str_eq usr (fact_callee_identity p f found)) args.allowed_usrs)) [
          | inl e ↦ rw e t
          | inr e ↦ rw e (use_rule-Traced rs rs' t)
        ]

-- ===== src/ErrorContract/Signals/Rounds.antt =====
-- The rounds that mark the callees: what one keeps, and why there is an end.
use p101_audit.Base.{
  ℕ, zero, suc, ◌+◌, ◌≡◌, ◌≤◌, ◌<◌, refl, sym, ◌∙◌, subst, ◌↔◌, ◌⊎◌, inl, inr, Bool, true, false,
  ◌||◌, List, [], ◌∷◌, Memᴰ, ◌==◌, if◌then◌else◌, arith, Bool-cases, ==_iff, length,
}
use p101_audit.Base.Scan.{mem_cons_cases}
use p101_audit.ErrorContract.{ContractEvent, ContractModel}
use p101_audit.ErrorContract.Signals.{
  Marks, mark, is_known, function_index_by_usr, extends, mark_callees, close_marks,
}

abbrev pub Includes : Marks → Marks → Type 0
Includes more fewer = (i : ℕ) → fewer i ≡ true → more i ≡ true

pub mark_iff :
    (index : ℕ) (r : Marks) (i : ℕ) → (mark index r i ≡ true) ↔ ((i ≡ index) ⊎ (r i ≡ true))
unfolding mark
mark_iff index r i = ground (arith, ==_iff i index)

-- How many of the first `n` functions are not marked.
unfoldable pub unmarked : ℕ → Marks → ℕ
unmarked zero r = 0
unmarked (suc n) r = (if r n then 0 else 1) + unmarked n r

pub unmarked-le : (n : ℕ) (r : Marks) → unmarked n r ≤ n
unfolding unmarked
unmarked-le zero r = omega arith
unmarked-le (suc n) r = ground (arith, unmarked-le n r)

unmarked_mono :
    (n : ℕ) (more fewer : Marks) → Includes more fewer → unmarked n more ≤ unmarked n fewer
unfolding unmarked
unmarked_mono zero more fewer h = omega arith
unmarked_mono (suc n) more fewer h = ground (arith, unmarked_mono n more fewer h, h n)

unmarked_less :
    (n : ℕ) (more fewer : Marks) (k : ℕ)
    → Includes more fewer
    → k < n
    → fewer k ≡ false
    → more k ≡ true
    → unmarked n more < unmarked n fewer
unfolding unmarked
unmarked_less zero more fewer k h lt off on = absurd (omega arith)
unmarked_less (suc n) more fewer k h lt off on = elim (Bool-cases (n == k)) [
  | inl e ↦
      let same = (==_iff n k).0 e in
      let a = subst (λ j. fewer j ≡ false) (sym same) off in
      let b = subst (λ j. more j ≡ true) (sym same) on in
      ground (arith, unmarked_mono n more fewer h)
  | inr e ↦
      let below : k < n = ground (arith, ==_iff n k) in
      let rest = unmarked_less n more fewer k h below off on in let kept = h n in ground arith
]

module _ (model : ContractModel) where
  abbrev count : ℕ
  count = length model.functions

  abbrev callee : ContractEvent → ℕ
  callee e = function_index_by_usr model e.usr

  abbrev next : Marks → ContractEvent → Marks
  next r e = if extends model r e then mark (callee e) r else r

  next_grows : (r : Marks) (e : ContractEvent) → Includes (next r e) r
  next_grows r e i h = elim (Bool-cases (extends model r e)) [
    | inl x ↦ rw x ((mark_iff (callee e) r i).1 (inr h))
    | inr x ↦ rw x h
  ]

  pub mark_callees_grows :
      (es : List ContractEvent) (r : Marks) (changed : Bool)
      → Includes (mark_callees model es r changed).0 r
  unfolding mark_callees
  mark_callees_grows [] r changed i h = h
  mark_callees_grows (e ∷ es) r changed i h =
      mark_callees_grows es (next r e) (extends model r e || changed) i (next_grows r e i h)

  -- A round that says nothing changed left the marks alone, and no event of it extends them.
  pub mark_callees_still :
      (es : List ContractEvent) (r : Marks) (changed : Bool)
      → (mark_callees model es r changed).1 ≡ false
      → ((mark_callees model es r changed).0 ≡ r)
        × (changed ≡ false)
        × ((e : ContractEvent) → Memᴰ e es → extends model r e ≡ false)
  unfolding mark_callees
  mark_callees_still [] r changed h = (refl, h, λ e m. elim m [ ])
  mark_callees_still (e ∷ es) r changed h =
      let (same, quiet, all) = mark_callees_still es (next r e) (extends model r e || changed) h in
      let off : extends model r e ≡ false = ground arith in
      let kept : next r e ≡ r = rw off refl in
      (
        same ∙ kept,
        ground arith,
        λ f m. elim (mem_cons_cases m) [
          | inl q ↦ subst (λ x. extends model r x ≡ false) (sym q) off
          | inr k ↦ subst (λ x. extends model x f ≡ false) kept (all f k)
        ],
      )

  -- A round that says something changed marked another function.
  pub mark_callees_changed :
      (es : List ContractEvent) (r : Marks) (changed : Bool)
      → (mark_callees model es r changed).1 ≡ true
      → (changed ≡ true)
        ⊎ ((k : ℕ) × (k < count) × (r k ≡ false) × ((mark_callees model es r changed).0 k ≡ true))
  unfolding mark_callees
  mark_callees_changed [] r changed h = inl h
  mark_callees_changed (e ∷ es) r changed h = elim (Bool-cases (extends model r e)) [
    | inl x ↦
        let marked : next r e (callee e) ≡ true =
          rw x ((mark_iff (callee e) r (callee e)).1 (inl refl)) in
        inr (
          callee e,
          unfold extends is_known in ground arith,
          unfold extends is_known in ground arith,
          mark_callees_grows es (next r e) (extends model r e || changed) (callee e) marked,
        )
    | inr x ↦
        let kept : next r e ≡ r = rw x refl in
        elim (mark_callees_changed es (next r e) (extends model r e || changed) h) [
          | inl q ↦ inl (ground arith)
          | inr (k, lt, off, on) ↦ inr (k, lt, subst (λ y. y k ≡ false) kept off, on)
        ]
  ]

  -- The marks at the end are closed: no call leads out of them.
  pub close_marks_closed :
      (fuel : ℕ) (r : Marks)
      → unmarked count r < fuel
      → (e : ContractEvent) → Memᴰ e model.events
      → extends model (close_marks fuel model r) e ≡ false
  unfolding close_marks
  close_marks_closed zero r h e m = absurd (omega arith)
  close_marks_closed (suc fuel) r h e m =
      let (r', changed) = mark_callees model model.events r false in
      elim (Bool-cases changed) [
        | inr q ↦
            let (same, quiet, all) = mark_callees_still model.events r false q in
            rw (q, same) (all e m)
        | inl q ↦ elim (mark_callees_changed model.events r false q) [
          | inl x ↦ absurd (ground arith)
          | inr (k, lt, off, on) ↦
              let less =
                unmarked_less count r' r k (mark_callees_grows model.events r false) lt off on in
              rw q (close_marks_closed fuel r' (omega arith) e m)
        ]
      ]

  pub close_marks_grows : (fuel : ℕ) (r : Marks) → Includes (close_marks fuel model r) r
  unfolding close_marks
  close_marks_grows zero r i h = h
  close_marks_grows (suc fuel) r i h =
      let (r', changed) = mark_callees model model.events r false in
      let kept = mark_callees_grows model.events r false i h in
      elim (Bool-cases changed) [
        | inl q ↦ rw q (close_marks_grows fuel r' i kept)
        | inr q ↦ rw q kept
      ]

  pub close_marks_stable :
      (fuel more : ℕ) (r : Marks)
      → unmarked count r < fuel
      → fuel ≤ more
      → close_marks more model r ≡ close_marks fuel model r
  unfolding close_marks
  close_marks_stable zero more r h le = absurd (omega arith)
  close_marks_stable (suc fuel) zero r h le = absurd (omega arith)
  close_marks_stable (suc fuel) (suc more) r h le =
      let (r', changed) = mark_callees model model.events r false in
      elim (Bool-cases changed) [
        | inr q ↦ rw q refl
        | inl q ↦ elim (mark_callees_changed model.events r false q) [
          | inl x ↦ absurd (ground arith)
          | inr (k, lt, off, on) ↦
              let less =
                unmarked_less count r' r k (mark_callees_grows model.events r false) lt off on in
              rw q (close_marks_stable fuel more r' (omega arith) (omega arith))
        ]
      ]

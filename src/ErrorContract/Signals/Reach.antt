-- ===== src/ErrorContract/Signals/Reach.antt =====
-- The functions that a signal handler reaches by calls, and that the marks are exactly these.
use p101_audit.Base.{
  ℕ, zero, suc, ◌≡◌, ◌<◌, refl, sym, subst, ◌↔◌, inl, inr, Bool, true, false, not, ◌&&◌, ◌||◌, List,
  [], ◌∷◌, Memᴰ, if◌then◌else◌, arith, Bool-cases, length,
}
use p101_audit.Base.Scan.{mem_cons_cases}
use p101_audit.ErrorContract.{EventKind, ContractEvent, ContractModel, same_kind}
use p101_audit.ErrorContract.Signals.{
  Marks, mark, no_marks, is_known, function_index_by_usr, extends, mark_callees, close_marks,
  mark_handlers, reachable_functions,
}
use p101_audit.ErrorContract.Signals.Rounds.{
  Includes, mark_iff, unmarked-le, close_marks_closed, close_marks_grows, close_marks_stable,
}

module _ (model : ContractModel) where
  -- A registration of the model names the function at the index.
  pub record Registers (index : ℕ) (e : ContractEvent) : Type 0 where
    pub kind : same_kind e.kind EventKind.signal_handler_registered ≡ true
    pub place : index ≡ function_index_by_usr model e.caller_usr
    pub known : is_known model index ≡ true

  -- The event is a call from the one function of the model to the other.
  pub record Calls (caller callee : ℕ) (e : ContractEvent) : Type 0 where
    pub kind : same_kind e.kind EventKind.call ≡ true
    pub source : caller ≡ function_index_by_usr model e.caller_usr
    pub source_known : is_known model caller ≡ true
    pub target : callee ≡ function_index_by_usr model e.usr
    pub target_known : is_known model callee ≡ true

  -- The functions at the end of a chain of calls that starts at a registered handler.
  pub data Reaches : ℕ → Type 0 where
    handler :
        {index : ℕ} (e : ContractEvent) → Memᴰ e model.events → Registers index e → Reaches index
    called :
        {caller callee : ℕ} (e : ContractEvent)
        → Reaches caller
        → Memᴰ e model.events
        → Calls caller callee e
        → Reaches callee

  abbrev IsSound : Marks → Type 0
  IsSound r = (i : ℕ) → r i ≡ true → Reaches i

  abbrev next_handlers : Marks → ContractEvent → Marks
  next_handlers r e =
      if same_kind e.kind EventKind.signal_handler_registered
        && is_known model (function_index_by_usr model e.caller_usr)
      then mark (function_index_by_usr model e.caller_usr) r
      else r

  mark_handlers-IsSound :
      (es : List ContractEvent) (r : Marks)
      → ((e : ContractEvent) → Memᴰ e es → Memᴰ e model.events)
      → IsSound r
      → IsSound (mark_handlers model es r)
  unfolding mark_handlers
  mark_handlers-IsSound [] r within s = s
  mark_handlers-IsSound (e ∷ es) r within s =
      let tests =
        same_kind e.kind EventKind.signal_handler_registered
        && is_known model (function_index_by_usr model e.caller_usr) in
      mark_handlers-IsSound es (next_handlers r e) (λ f m. within f (Memᴰ.tail m))
        (λ i h. elim (Bool-cases tests) [
          | inl x ↦ elim ((mark_iff _ r i).0 (rw x at h)) [
            | inl q ↦
                let known : is_known model (function_index_by_usr model e.caller_usr) ≡ true =
                  ground arith in
                handler e (within e (Memᴰ.head refl)) (record {
                  kind = ground arith;
                  place = q;
                  known = subst (λ j. is_known model j ≡ true) (sym q) known;
                })
            | inr old ↦ s i old
          ]
          | inr x ↦ s i (rw x at h)
        ])

  mark_handlers_grows :
      (es : List ContractEvent) (r : Marks) → Includes (mark_handlers model es r) r
  unfolding mark_handlers
  mark_handlers_grows [] r i h = h
  mark_handlers_grows (e ∷ es) r i h =
      mark_handlers_grows es (next_handlers r e) i
        (elim (Bool-cases (
          same_kind e.kind EventKind.signal_handler_registered
          && is_known model (function_index_by_usr model e.caller_usr))) [
            | inl x ↦ rw x ((mark_iff _ r i).1 (inr h))
            | inr x ↦ rw x h
          ])

  mark_handlers_complete :
      (es : List ContractEvent) (r : Marks) (i : ℕ) (e : ContractEvent)
      → Memᴰ e es
      → Registers i e
      → mark_handlers model es r i ≡ true
  unfolding mark_handlers
  mark_handlers_complete [] r i e m g = elim m [ ]
  mark_handlers_complete (f ∷ es) r i e m g = elim (mem_cons_cases m) [
    | inr k ↦ mark_handlers_complete es (next_handlers r f) i e k g
    | inl q ↦
        let registered : same_kind f.kind EventKind.signal_handler_registered ≡ true =
          subst (λ x. same_kind x.kind EventKind.signal_handler_registered ≡ true) q g.kind in
        let place : i ≡ function_index_by_usr model f.caller_usr =
          subst (λ x. i ≡ function_index_by_usr model x.caller_usr) q g.place in
        let known : is_known model (function_index_by_usr model f.caller_usr) ≡ true =
          subst (λ j. is_known model j ≡ true) place g.known in
        let tests : (same_kind f.kind EventKind.signal_handler_registered
              && is_known model (function_index_by_usr model f.caller_usr))
            ≡ true =
          ground arith in
        mark_handlers_grows es (next_handlers r f) i (rw tests ((mark_iff _ r i).1 (inl place)))
  ]

  mark_callees-IsSound :
      (es : List ContractEvent) (r : Marks) (changed : Bool)
      → ((e : ContractEvent) → Memᴰ e es → Memᴰ e model.events)
      → IsSound r
      → IsSound (mark_callees model es r changed).0
  unfolding mark_callees
  mark_callees-IsSound [] r changed within s = s
  mark_callees-IsSound (e ∷ es) r changed within s =
      mark_callees-IsSound es
        (if extends model r e then mark (function_index_by_usr model e.usr) r else r)
        (extends model r e || changed) (λ f m. within f (Memᴰ.tail m))
        (λ i h. elim (Bool-cases (extends model r e)) [
          | inr x ↦ s i (rw x at h)
          | inl x ↦ elim ((mark_iff _ r i).0 (rw x at h)) [
            | inr old ↦ s i old
            | inl q ↦ subst (λ j. Reaches j) (sym q) (by_call (unfold extends in x))
          ]
        ])
    where
      by_call :
          (same_kind e.kind EventKind.call
              && is_known model (function_index_by_usr model e.caller_usr)
              && r (function_index_by_usr model e.caller_usr)
              && is_known model (function_index_by_usr model e.usr)
              && not (r (function_index_by_usr model e.usr)))
            ≡ true
          → Reaches (function_index_by_usr model e.usr)
      by_call x =
          called e (s (function_index_by_usr model e.caller_usr) (ground arith))
            (within e (Memᴰ.head refl))
            (record {
              kind = ground arith;
              source = refl;
              source_known = ground arith;
              target = refl;
              target_known = ground arith;
            })

  close_marks-IsSound : (fuel : ℕ) (r : Marks) → IsSound r → IsSound (close_marks fuel model r)
  unfolding close_marks
  close_marks-IsSound zero r s = s
  close_marks-IsSound (suc fuel) r s =
      let (r', changed) = mark_callees model model.events r false in
      let kept = mark_callees-IsSound model.events r false (λ e m. m) s in
      elim (Bool-cases changed) [
        | inl q ↦ rw q (close_marks-IsSound fuel r' kept)
        | inr q ↦ rw q kept
      ]

  reachable-IsSound : IsSound (reachable_functions model)
  unfolding reachable_functions no_marks
  reachable-IsSound =
      close_marks-IsSound _ _
        (mark_handlers-IsSound model.events no_marks (λ e m. m) (λ i h. absurd (ground arith)))

  reachable_closed :
      (e : ContractEvent)
      → Memᴰ e model.events
      → extends model (reachable_functions model) e ≡ false
  unfolding reachable_functions
  reachable_closed e m =
      close_marks_closed model (suc (length model.functions))
        (mark_handlers model model.events no_marks)
        (omega
          (arith, unmarked-le (length model.functions) (mark_handlers model model.events no_marks)))
        e m

  reachable_complete : {i : ℕ} → Reaches i → reachable_functions model i ≡ true
  unfolding reachable_functions extends
  reachable_complete {i} (handler e m g) =
      close_marks_grows model _ _ i (mark_handlers_complete model.events no_marks i e m g)
  reachable_complete {i} (called {caller} e from m c) =
      let before = reachable_complete from in
      let open_call = reachable_closed e m in
      let at_caller = subst (λ j. reachable_functions model j ≡ true) c.source before in
      let caller_known = subst (λ j. is_known model j ≡ true) c.source c.source_known in
      let callee_known = subst (λ j. is_known model j ≡ true) c.target c.target_known in
      let kind = c.kind in
      let reached : reachable_functions model (function_index_by_usr model e.usr) ≡ true =
        ground arith in
      subst (λ j. reachable_functions model j ≡ true) (sym c.target) reached

-- Whatever the events, and cycles of calls included: the loop marks a function exactly if a chain of
-- calls within the model leads to it from a function that is registered as a signal handler.
pub reachable_functions_iff :
    (model : ContractModel) (i : ℕ) → (reachable_functions model i ≡ true) ↔ Reaches model i
reachable_functions_iff model i = (reachable-IsSound model i, reachable_complete model)

-- The loop over the calls ends: with one round more than there are functions its last round changes
-- nothing, whatever the marks it starts from, and any number of further rounds gives the same marks.
pub close_marks_ends :
    (model : ContractModel) (r : Marks) (fuel : ℕ)
    → length model.functions < fuel
    → ((e : ContractEvent)
        → Memᴰ e model.events
        → extends model (close_marks fuel model r) e ≡ false)
      × (close_marks fuel model r ≡ close_marks (suc (length model.functions)) model r)
close_marks_ends model r fuel h =
    let few = unmarked-le (length model.functions) r in
    (
      close_marks_closed model fuel r (omega arith),
      close_marks_stable model (suc (length model.functions)) fuel r (omega arith) (omega arith),
    )

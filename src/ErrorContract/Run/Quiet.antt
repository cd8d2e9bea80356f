-- ===== src/ErrorContract/Run/Quiet.antt =====
-- When each analysis leaves the report as it was: as a Boolean of the model alone.
use p101_audit.Base.{
  ℕ, ◌≡◌, refl, ◌∙◌, inl, inr, Bool, true, false, not, ◌&&◌, ◌||◌, List, [], ◌∷◌, ◌++◌, Memᴰ, ◌==◌,
  ltb, arith, Bool-cases, Option-cases, is_nil, is_some,
}
use p101_audit.Base.Text.{Text, codes}
use p101_audit.ErrorContract.{
  EventKind, ContractFunction, ContractEvent, OwnershipFile, ContractModel, same_kind,
}
use p101_audit.ErrorContract.Event.{event_needs_env, event_needs_error}
use p101_audit.ErrorContract.Analysis.{
  Rule, Diagnostic, Report, Checked, next_function_line, event_is_in_function,
  visible_env_before_event, visible_error_before_event, error_is_explicitly_optional,
  function_early_return_line, function_exit_count, immediate_rule, is_termination, report_finding,
  report_event, check_env, check_error, check_discard, check_chain, check_event, check_events,
  check_exits, check_function, check_functions, check_owner, check_owners,
}
use p101_audit.ErrorContract.Signals.{
  Marks, is_known, function_index_by_usr, name_at, signal_rule, report_signals,
}

-- Nothing was emitted, and no error raised.
unfoldable pub is_quiet : Report → Bool
is_quiet r = is_nil r.emitted && not r.has_error

unfoldable pub owner_is_balanced : OwnershipFile → Bool
owner_is_balanced owner =
    not (ltb owner.error_destroy_count owner.error_create_count)
    && not (ltb owner.env_destroy_count owner.env_create_count)

unfoldable pub exits_once : ContractModel → ContractFunction → Bool
exits_once model f =
    let end_line = next_function_line model f in
    function_early_return_line model f end_line == 0
    && not (ltb 1 (function_exit_count model f end_line).0)

unfoldable pub env_is_visible : ContractModel → ContractFunction → ℕ → ContractEvent → Bool
env_is_visible model f end_line e =
    not (event_needs_env e) || visible_env_before_event model f e end_line

unfoldable pub error_is_visible : ContractModel → ContractFunction → ℕ → ContractEvent → Bool
error_is_visible model f end_line e =
    not (event_needs_error e)
    || visible_error_before_event model f e end_line
    || error_is_explicitly_optional model f e end_line

unfoldable pub discard_is_optional : ContractModel → ContractFunction → ℕ → ContractEvent → Bool
discard_is_optional model f end_line e =
    not (same_kind e.kind EventKind.error_discard)
    || error_is_explicitly_optional model f e end_line

unfoldable pub chain_is_optional :
    Bool → ContractModel → ContractFunction → ℕ → ContractEvent → Bool
chain_is_optional strict_sequence model f end_line e =
    not (strict_sequence && same_kind e.kind EventKind.error_unchecked_chain)
    || error_is_explicitly_optional model f e end_line

unfoldable pub event_is_clean : Bool → ContractModel → ContractFunction → ℕ → ContractEvent → Bool
event_is_clean strict_sequence model f end_line e =
    not (event_is_in_function e f end_line)
    || (not (is_termination f e)
        && not (is_some (immediate_rule e.kind))
        && env_is_visible model f end_line e
        && error_is_visible model f end_line e
        && discard_is_optional model f end_line e
        && chain_is_optional strict_sequence model f end_line e)

-- All elements pass the test.
unfoldable pub every {ℓ} : {A : Type ℓ} → (A → Bool) → List A → Bool
every test [] = true
every test (x ∷ xs) = test x && every test xs

unfoldable pub function_is_clean : Bool → ContractModel → ContractFunction → Bool
function_is_clean strict_sequence model f =
    exits_once model f
    && every (event_is_clean strict_sequence model f (next_function_line model f)) model.events

unfoldable pub signal_is_clean : ContractModel → Marks → ContractEvent → Bool
signal_is_clean model reachable e =
    let caller = function_index_by_usr model e.caller_usr in
    not (is_known model caller && reachable caller) || not (is_some (signal_rule model e))

-- The flags of the copy are set only behind a report.
record Flagged (s : Checked) : Type 0 where
  env : s.env_reported ≡ true → is_quiet s.report ≡ false
  error : s.error_reported ≡ true → is_quiet s.report ≡ false

error_is_loud : (r : Report) → r.has_error ≡ true → is_quiet r ≡ false
unfolding is_quiet
error_is_loud r h = ground arith

module _ (accepts : List Diagnostic → Diagnostic → Bool) where
  reported :
      (rule : Rule) (path : Text) (line : ℕ) (name : Text) (r : Report)
      → is_quiet (report_finding accepts rule path line name r) ≡ false
  unfolding report_finding is_quiet
  reported rule path line name r =
      elim (Bool-cases (
        accepts r.emitted
          (record { rule = rule; path = path; line = line; function_name = name }))) [
            | inl e ↦ rw e (not_nil r.emitted _)
            | inr e ↦ rw e (and_false (is_nil r.emitted))
          ]
    where
      not_nil :
          (xs : List Diagnostic) (x : Diagnostic)
          → (is_nil (xs ++ x ∷ []) && not r.has_error) ≡ false
      not_nil [] x = refl
      not_nil (y ∷ xs) x = refl

      and_false : (b : Bool) → (b && false) ≡ false
      and_false b = ground arith

  module _ (strict_sequence : Bool) (model : ContractModel) (f : ContractFunction) (end_line : ℕ)
      (e : ContractEvent) where
    reported_event :
        (rule : Rule) (s : Checked) → is_quiet (report_event accepts rule f e s).report ≡ false
    unfolding report_event
    reported_event rule s = reported rule e.path e.line f.name s.report

    env_step :
        (s : Checked)
        → Flagged s
        → Flagged (check_env accepts model f end_line e s)
          × (is_quiet (check_env accepts model f end_line e s).report
              ≡ (is_quiet s.report && env_is_visible model f end_line e))
    unfolding check_env env_is_visible
    env_step s w =
        let q = reported_event Rule.env_required s in
        let tests =
          event_needs_env e
          && not s.env_reported
          && not (visible_env_before_event model f e end_line) in
        elim (Bool-cases tests) [
          | inl t ↦ rw t (record { env = λ h. q; error = λ h. q }, ground arith)
          | inr t ↦ let k = w.env in rw t (w, ground arith)
        ]

    error_step :
        (s : Checked)
        → Flagged s
        → Flagged (check_error accepts model f end_line e s)
          × (is_quiet (check_error accepts model f end_line e s).report
              ≡ (is_quiet s.report && error_is_visible model f end_line e))
    unfolding check_error error_is_visible
    error_step s w =
        let q = reported_event Rule.error_required s in
        let tests =
          event_needs_error e
          && not s.error_reported
          && not (visible_error_before_event model f e end_line)
          && not (error_is_explicitly_optional model f e end_line) in
        elim (Bool-cases tests) [
          | inl t ↦ rw t (record { env = λ h. q; error = λ h. q }, ground arith)
          | inr t ↦ let k = w.error in rw t (w, ground arith)
        ]

    discard_step :
        (s : Checked)
        → Flagged s
        → Flagged (check_discard accepts model f end_line e s)
          × (is_quiet (check_discard accepts model f end_line e s).report
              ≡ (is_quiet s.report && discard_is_optional model f end_line e))
    unfolding check_discard discard_is_optional
    discard_step s w =
        let q = reported_event Rule.error_discarded s in
        elim (Bool-cases (
          same_kind e.kind EventKind.error_discard
          && not (error_is_explicitly_optional model f e end_line))) [
            | inl t ↦ rw t (record { env = λ h. q; error = λ h. q }, ground arith)
            | inr t ↦ rw t (w, ground arith)
          ]

    chain_step :
        (s : Checked)
        → Flagged s
        → Flagged (check_chain accepts strict_sequence model f end_line e s)
          × (is_quiet (check_chain accepts strict_sequence model f end_line e s).report
              ≡ (is_quiet s.report && chain_is_optional strict_sequence model f end_line e))
    unfolding check_chain chain_is_optional
    chain_step s w =
        let q = reported_event Rule.unchecked_chain s in
        let tests =
          strict_sequence
          && same_kind e.kind EventKind.error_unchecked_chain
          && not (error_is_explicitly_optional model f e end_line) in
        elim (Bool-cases tests) [
          | inl t ↦ rw t (record { env = λ h. q; error = λ h. q }, ground arith)
          | inr t ↦ rw t (w, ground arith)
        ]

    event_step :
        (s : Checked)
        → Flagged s
        → Flagged (check_event accepts strict_sequence model f end_line e s)
          × (is_quiet (check_event accepts strict_sequence model f end_line e s).report
              ≡ (is_quiet s.report && event_is_clean strict_sequence model f end_line e))
    unfolding check_event event_is_clean
    event_step s w = elim (Bool-cases (event_is_in_function e f end_line)) [
      | inr out ↦ rw out (w, ground arith)
      | inl within ↦ elim (Bool-cases (is_termination f e)) [
        | inl t ↦
            let q = reported_event Rule.process_termination s in
            rw (within, t) (record { env = λ h. q; error = λ h. q }, ground arith)
        | inr t ↦ elim (Option-cases (immediate_rule e.kind)) [
          | inr (rule, i) ↦
              let q = reported_event rule s in
              rw (within, t, i) (record { env = λ h. q; error = λ h. q }, ground arith)
          | inl i ↦
              let s1 = check_env accepts model f end_line e s in
              let s2 = check_error accepts model f end_line e s1 in
              let s3 = check_discard accepts model f end_line e s2 in
              let (w1, q1) = env_step s w in
              let (w2, q2) = error_step s1 w1 in
              let (w3, q3) = discard_step s2 w2 in
              let (w4, q4) = chain_step s3 w3 in rw (within, t, i) (w4, ground arith)
        ]
      ]
    ]

  module _ (strict_sequence : Bool) (model : ContractModel) where
    events_step :
        (f : ContractFunction) (end_line : ℕ) (es : List ContractEvent) (s : Checked)
        → Flagged s
        → is_quiet (check_events accepts strict_sequence model f end_line es s).report
          ≡ (is_quiet s.report && every (event_is_clean strict_sequence model f end_line) es)
    unfolding check_events every
    events_step f end_line [] s w = ground arith
    events_step f end_line (e ∷ es) s w = elim (Bool-cases s.report.has_error) [
      | inl loud ↦ let q = error_is_loud s.report loud in rw loud (ground arith)
      | inr on ↦
          let (w', q) = event_step strict_sequence model f end_line e s w in
          let rest =
            events_step f end_line es (check_event accepts strict_sequence model f end_line e s)
              w' in
          rw on (ground arith)
    ]

    exits_step :
        (f : ContractFunction) (r : Report)
        → is_quiet (check_exits accepts model f (next_function_line model f) r)
          ≡ (is_quiet r && exits_once model f)
    unfolding check_exits exits_once
    exits_step f r =
        let end_line = next_function_line model f in
        let early = function_early_return_line model f end_line in
        let (count, second) = function_exit_count model f end_line in
        let q1 = reported Rule.single_exit f.path early f.name r in
        let q2 = reported Rule.single_exit f.path second f.name r in
        elim (Bool-cases (early == 0)) [
          | inr e ↦ rw e (ground arith)
          | inl e ↦ elim (Bool-cases (ltb 1 count)) [
            | inl c ↦ rw (e, c) (ground arith)
            | inr c ↦ rw (e, c) (ground arith)
          ]
        ]

    function_step :
        (f : ContractFunction) (r : Report)
        → f.env_reported ≡ false
        → f.error_reported ≡ false
        → is_quiet (check_function accepts strict_sequence model f r)
          ≡ (is_quiet r && function_is_clean strict_sequence model f)
    unfolding check_function function_is_clean
    function_step f r a b =
        let exits = exits_step f r in
        let rest =
          events_step f (next_function_line model f) model.events
            (record {
              report = check_exits accepts model f (next_function_line model f) r;
              env_reported = f.env_reported;
              error_reported = f.error_reported;
            })
            (record { env = λ h. absurd (ground arith); error = λ h. absurd (ground arith) }) in
        ground arith

    pub functions_step :
        (fs : List ContractFunction) (r : Report)
        → ((f : ContractFunction)
            → Memᴰ f fs
            → (f.env_reported ≡ false) × (f.error_reported ≡ false))
        → is_quiet (check_functions accepts strict_sequence model fs r)
          ≡ (is_quiet r && every (function_is_clean strict_sequence model) fs)
    unfolding check_functions every
    functions_step [] r fresh = ground arith
    functions_step (f ∷ fs) r fresh = elim (Bool-cases r.has_error) [
      | inl loud ↦ let q = error_is_loud r loud in rw loud (ground arith)
      | inr on ↦
          let (a, b) = fresh f (Memᴰ.head refl) in
          let q = function_step f r a b in
          let rest =
            functions_step fs (check_function accepts strict_sequence model f r)
              (λ g m. fresh g (Memᴰ.tail m)) in
          rw on (ground arith)
    ]

  owner_step :
      (owner : OwnershipFile) (r : Report)
      → is_quiet (check_owner accepts owner r) ≡ (is_quiet r && owner_is_balanced owner)
  unfolding check_owner owner_is_balanced
  owner_step owner r =
      let q1 =
        reported Rule.error_ownership owner.path owner.first_error_create_line (codes "-") r in
      let q2 = λ (x : Report).
        reported Rule.env_ownership owner.path owner.first_env_create_line (codes "-") x in
      elim (Bool-cases (ltb owner.error_destroy_count owner.error_create_count)) [
        | inl a ↦ elim (Bool-cases (ltb owner.env_destroy_count owner.env_create_count)) [
          | inl b ↦ rw (a, b) (q2 _ ∙ ground arith)
          | inr b ↦ rw (a, b) (ground arith)
        ]
        | inr a ↦ elim (Bool-cases (ltb owner.env_destroy_count owner.env_create_count)) [
          | inl b ↦ rw (a, b) (q2 _ ∙ ground arith)
          | inr b ↦ rw (a, b) (ground arith)
        ]
      ]

  pub owners_step :
      (owners : List OwnershipFile) (r : Report)
      → is_quiet (check_owners accepts owners r) ≡ (is_quiet r && every owner_is_balanced owners)
  unfolding check_owners every
  owners_step [] r = ground arith
  owners_step (owner ∷ owners) r = elim (Bool-cases r.has_error) [
    | inl loud ↦ let q = error_is_loud r loud in rw loud (ground arith)
    | inr on ↦
        let q = owner_step owner r in
        let rest = owners_step owners (check_owner accepts owner r) in rw on (ground arith)
  ]

  pub signals_step :
      (model : ContractModel) (reachable : Marks) (es : List ContractEvent) (r : Report)
      → is_quiet (report_signals accepts model reachable es r)
        ≡ (is_quiet r && every (signal_is_clean model reachable) es)
  unfolding report_signals every signal_is_clean
  signals_step model reachable [] r = ground arith
  signals_step model reachable (e ∷ es) r =
      let caller = function_index_by_usr model e.caller_usr in
      elim (Bool-cases (is_known model caller && reachable caller)) [
        | inr t ↦ let rest = signals_step model reachable es r in rw t (ground arith)
        | inl t ↦ elim (Option-cases (signal_rule model e)) [
          | inl n ↦ let rest = signals_step model reachable es r in rw (t, n) (ground arith)
          | inr (rule, n) ↦
              let r' =
                report_finding accepts rule e.path e.line (name_at caller model.functions) r in
              let q = reported rule e.path e.line (name_at caller model.functions) r in
              let rest = signals_step model reachable es r' in rw (t, n) (ground arith)
        ]
      ]

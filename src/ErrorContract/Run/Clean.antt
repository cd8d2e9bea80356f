-- ===== src/ErrorContract/Run/Clean.antt =====
-- When the audit of error contracts finds nothing, and what it returns.
use p101_audit.Base.{
  ℕ, ◌≡◌, ◌≤◌, refl, sym, ◌∙◌, ap, ◌↔◌, inl, inr, Bool, true, false, ◌&&◌, List, [], ◌∷◌, none,
  Memᴰ, ==_iff, arith, Bool-cases, Option-cases, is_some,
}
use p101_audit.ErrorContract.{
  EventKind, ContractFunction, ContractEvent, OwnershipFile, ContractModel, same_kind,
}
use p101_audit.ErrorContract.Event.{event_needs_env, event_needs_error}
use p101_audit.ErrorContract.Analysis.{
  Diagnostic, Report, next_function_line, event_is_in_function, visible_env_before_event,
  visible_error_before_event, error_is_explicitly_optional, function_early_return_line,
  function_exit_count, immediate_rule, is_termination, analyze_model, analyze_ownership,
}
use p101_audit.ErrorContract.Signals.{
  is_known, function_index_by_usr, reachable_functions, signal_rule, analyze_signal_handlers,
}
use p101_audit.ErrorContract.Signals.Reach.{Reaches, reachable_functions_iff}
use p101_audit.ErrorContract.Run.{analyze, empty_report}
use p101_audit.ErrorContract.Run.Quiet.{
  is_quiet, every, owner_is_balanced, exits_once, env_is_visible, error_is_visible,
  discard_is_optional, chain_is_optional, event_is_clean, function_is_clean, signal_is_clean,
  functions_step, owners_step, signals_step,
}

-- The event breaks no rule in the function.
pub record IsCleanEvent (strict_sequence : Bool) (model : ContractModel) (f : ContractFunction)
    (end_line : ℕ) (e : ContractEvent) : Type 0 where
  pub termination : is_termination f e ≡ false
  pub immediate : immediate_rule e.kind ≡ none
  pub env : event_needs_env e ≡ true → visible_env_before_event model f e end_line ≡ true
  pub error :
      event_needs_error e ≡ true
      → error_is_explicitly_optional model f e end_line ≡ false
      → visible_error_before_event model f e end_line ≡ true
  pub discard :
      same_kind e.kind EventKind.error_discard ≡ true
      → error_is_explicitly_optional model f e end_line ≡ true
  pub chain :
      strict_sequence ≡ true
      → same_kind e.kind EventKind.error_unchecked_chain ≡ true
      → error_is_explicitly_optional model f e end_line ≡ true

pub record IsCleanFunction (strict_sequence : Bool) (model : ContractModel) (f : ContractFunction)
    : Type 0 where
  pub early : function_early_return_line model f (next_function_line model f) ≡ 0
  pub exits : (function_exit_count model f (next_function_line model f)).0 ≤ 1
  pub events :
      (e : ContractEvent)
      → Memᴰ e model.events
      → event_is_in_function e f (next_function_line model f) ≡ true
      → IsCleanEvent strict_sequence model f (next_function_line model f) e

-- The model breaks no rule of the audit.
pub record IsClean (strict_sequence : Bool) (model : ContractModel) : Type 0 where
  pub owners :
      (o : OwnershipFile)
      → Memᴰ o model.ownership_files
      → (o.error_create_count ≤ o.error_destroy_count) × (o.env_create_count ≤ o.env_destroy_count)
  pub functions :
      (f : ContractFunction) → Memᴰ f model.functions → IsCleanFunction strict_sequence model f
  pub signals :
      (e : ContractEvent)
      → Memᴰ e model.events
      → is_known model (function_index_by_usr model e.caller_usr) ≡ true
      → Reaches model (function_index_by_usr model e.caller_usr)
      → signal_rule model e ≡ none

every_iff {ℓ} :
    {A : Type ℓ} (test : A → Bool) (xs : List A)
    → (every test xs ≡ true) ↔ ((x : A) → Memᴰ x xs → test x ≡ true)
unfolding every
every_iff test [] = (λ h x m. elim m [ ], λ h. refl)
every_iff test (x ∷ xs) =
    let (sound, complete) = every_iff test xs in
    (
      λ h y m. elim m [
        | Memᴰ.head e ↦ rw e (ground arith)
        | Memᴰ.tail k ↦ sound (ground arith) y k
      ],
      λ h.
          let first = h x (Memᴰ.head refl) in
          let rest = complete (λ y m. h y (Memᴰ.tail m)) in ground arith,
    )

module _ (strict_sequence : Bool) (model : ContractModel) where
  event_iff :
      (f : ContractFunction) (end_line : ℕ) (e : ContractEvent)
      → (event_is_clean strict_sequence model f end_line e ≡ true) ↔ (
          event_is_in_function e f end_line ≡ true
          → IsCleanEvent strict_sequence model f end_line e)
  unfolding event_is_clean env_is_visible error_is_visible discard_is_optional chain_is_optional
  event_iff f end_line e = (sound, complete)
    where
      no_rule : is_some (immediate_rule e.kind) ≡ false → immediate_rule e.kind ≡ none
      no_rule h = ground arith

      sound :
          event_is_clean strict_sequence model f end_line e ≡ true
          → event_is_in_function e f end_line ≡ true
          → IsCleanEvent strict_sequence model f end_line e
      sound h within = record {
        termination = ground arith;
        immediate = no_rule (ground arith);
        env = λ a. ground arith;
        error = λ a b. ground arith;
        discard = λ a. ground arith;
        chain = λ a b. ground arith;
      }

      complete :
          (event_is_in_function e f end_line ≡ true
            → IsCleanEvent strict_sequence model f end_line e)
          → event_is_clean strict_sequence model f end_line e ≡ true
      complete h = elim (Bool-cases (event_is_in_function e f end_line)) [
        | inr out ↦ rw out refl
        | inl within ↦
            let c = h within in
            let t = c.termination in
            let i = c.immediate in
            let v = c.env in
            let w = c.error in
            let d = c.discard in let k = c.chain in rw (within, t, i) (ground arith)
      ]

  function_iff :
      (f : ContractFunction)
      → (function_is_clean strict_sequence model f ≡ true) ↔ IsCleanFunction strict_sequence model f
  unfolding function_is_clean exits_once
  function_iff f =
      let end_line = next_function_line model f in
      let (all, back) = every_iff (event_is_clean strict_sequence model f end_line) model.events in
      (
        λ h. record {
          early = (==_iff _ _).0 (ground arith);
          exits = ground arith;
          events = λ e m. (event_iff f end_line e).0 (all (ground arith) e m);
        },
        λ c.
            let early = (==_iff (function_early_return_line model f end_line) 0).1 c.early in
            let exits = c.exits in
            let events = back (λ e m. (event_iff f end_line e).1 (c.events e m)) in ground arith,
      )

  owner_iff :
      (o : OwnershipFile)
      → (owner_is_balanced o ≡ true) ↔ (
          (o.error_create_count ≤ o.error_destroy_count)
          × (o.env_create_count ≤ o.env_destroy_count))
  unfolding owner_is_balanced
  owner_iff o = (λ h. (ground arith, ground arith), λ (a, b). ground arith)

  signal_iff :
      (e : ContractEvent)
      → (signal_is_clean model (reachable_functions model) e ≡ true) ↔ (
          is_known model (function_index_by_usr model e.caller_usr) ≡ true
          → Reaches model (function_index_by_usr model e.caller_usr)
          → signal_rule model e ≡ none)
  unfolding signal_is_clean
  signal_iff e =
      let caller = function_index_by_usr model e.caller_usr in
      let (marked, reached) = reachable_functions_iff model caller in
      (
        λ h known r.
            let on = reached r in
            elim (Option-cases (signal_rule model e)) [
              | inl n ↦ n
              | inr (rule, n) ↦
                  let q : is_some (signal_rule model e) ≡ true = rw n refl in absurd (ground arith)
            ],
        λ h. elim (Bool-cases (is_known model caller && reachable_functions model caller)) [
          | inr t ↦ rw t refl
          | inl t ↦ let n = h (ground arith) (marked (ground arith)) in rw (t, n) refl
        ],
      )

-- No function was reported on before the analysis.
abbrev pub IsFresh : ContractModel → Type 0
IsFresh model =
    (f : ContractFunction)
    → Memᴰ f model.functions
    → (f.env_reported ≡ false) × (f.error_reported ≡ false)

abbrev is_clean : Bool → ContractModel → Bool
is_clean strict_sequence model =
    every (function_is_clean strict_sequence model) model.functions
    && every owner_is_balanced model.ownership_files
    && every (signal_is_clean model (reachable_functions model)) model.events

is_clean_iff :
    (strict_sequence : Bool) (model : ContractModel)
    → (is_clean strict_sequence model ≡ true) ↔ IsClean strict_sequence model
is_clean_iff strict_sequence model =
    let (f, f') = every_iff (function_is_clean strict_sequence model) model.functions in
    let (o, o') = every_iff owner_is_balanced model.ownership_files in
    let (s, s') = every_iff (signal_is_clean model (reachable_functions model)) model.events in
    (
      λ h. record {
        owners = λ x m. (owner_iff strict_sequence model x).0 (o (ground arith) x m);
        functions = λ x m. (function_iff strict_sequence model x).0 (f (ground arith) x m);
        signals = λ x m. (signal_iff strict_sequence model x).0 (s (ground arith) x m);
      },
      λ c.
          let a = f' (λ x m. (function_iff strict_sequence model x).1 (c.functions x m)) in
          let b = o' (λ x m. (owner_iff strict_sequence model x).1 (c.owners x m)) in
          let d = s' (λ x m. (signal_iff strict_sequence model x).1 (c.signals x m)) in
          ground arith,
    )

module _ (accepts : List Diagnostic → Diagnostic → Bool) (strict_sequence : Bool)
    (model : ContractModel) where
  quiet-analyze :
      IsFresh model
      → is_quiet (analyze accepts strict_sequence model) ≡ is_clean strict_sequence model
  unfolding analyze analyze_model analyze_ownership analyze_signal_handlers is_quiet
  quiet-analyze fresh =
      let a = functions_step accepts strict_sequence model model.functions empty_report fresh in
      let b =
        owners_step accepts model.ownership_files
          (analyze_model accepts strict_sequence model empty_report) in
      let c = signals_step accepts model (reachable_functions model) model.events (
        analyze_ownership accepts model
          (analyze_model accepts strict_sequence model empty_report)) in
      ground arith

empty_of_quiet : (r : Report) → is_quiet r ≡ true → r ≡ empty_report
unfolding is_quiet
empty_of_quiet r h = ground arith

-- Whichever diagnostics the report accepts: the three analyses leave it empty and raise no error
-- exactly if the model is clean. That is so if no file acquires more than it releases, every function
-- has one exit and no event that breaks a rule in it, and no event in a function that a signal
-- handler reaches breaks a rule of handlers. No function was reported on before.
pub analyze_iff :
    (accepts : List Diagnostic → Diagnostic → Bool) (strict_sequence : Bool) (model : ContractModel)
    → IsFresh model
    → (analyze accepts strict_sequence model ≡ empty_report) ↔ IsClean strict_sequence model
analyze_iff accepts strict_sequence model fresh =
    let q = quiet-analyze accepts strict_sequence model fresh in
    let (sound, complete) = is_clean_iff strict_sequence model in
    (
      λ e. sound (sym q ∙ ap is_quiet e ∙ quiet_empty),
      λ c. empty_of_quiet (analyze accepts strict_sequence model) (q ∙ complete c),
    )
  where
    quiet_empty : is_quiet empty_report ≡ true
    quiet_empty = unfold is_quiet in refl

-- ===== src/ErrorContract/Signals.antt =====
-- components/error-contract/src/contract.c: `analyze_signal_handlers`, which follows the calls from the
-- registered handlers.
pub mod Rounds
pub mod Reach
use p101_audit.Base.{
  ℕ, zero, suc, ◌+◌, ◌<◌, Bool, true, false, not, ◌&&◌, ◌||◌, List, [], ◌∷◌, Option, none, some,
  ltb, leb, ◌==◌, if◌then◌else◌, is_nil, length,
}
use p101_audit.Base.Text.{Text, str_eq}
use p101_audit.ErrorContract.{EventKind, ContractFunction, ContractEvent, ContractModel, same_kind}
use p101_audit.ErrorContract.Analysis.{Rule, Diagnostic, Report, report_finding}
use p101_audit.ErrorContract.SafeCalls.{call_is_async_signal_safe}

-- The index at which the search ends.
unfoldable pub index_of_usr : List ContractFunction → Text → ℕ
index_of_usr [] usr = 0
index_of_usr (f ∷ fs) usr =
    let later = suc (index_of_usr fs usr) in if str_eq f.usr usr then 0 else later

unfoldable pub function_index_by_usr : ContractModel → Text → ℕ
function_index_by_usr model usr =
    if is_nil usr then length model.functions else index_of_usr model.functions usr

unfoldable pub is_known : ContractModel → ℕ → Bool
is_known model index = ltb index (length model.functions)

-- The array `reachable`, by its indices.
abbrev pub Marks : Type 0
Marks = ℕ → Bool

unfoldable pub no_marks : Marks
no_marks index = false

unfoldable pub mark : ℕ → Marks → Marks
mark index reachable i = i == index || reachable i

-- The first loop: a registration names the handler as its caller.
unfoldable pub mark_handlers : ContractModel → List ContractEvent → Marks → Marks
mark_handlers model [] reachable = reachable
mark_handlers model (e ∷ events) reachable =
    let index = function_index_by_usr model e.caller_usr in
    mark_handlers model events (
      if same_kind e.kind EventKind.signal_handler_registered && is_known model index
      then mark index reachable
      else reachable)

-- A call from a marked function to a function of the model that is not marked.
unfoldable pub extends : ContractModel → Marks → ContractEvent → Bool
extends model reachable e =
    let caller = function_index_by_usr model e.caller_usr in
    let callee = function_index_by_usr model e.usr in
    same_kind e.kind EventKind.call
    && is_known model caller
    && reachable caller
    && is_known model callee
    && not (reachable callee)

-- One round of the second loop, with `changed`.
unfoldable pub mark_callees : ContractModel → List ContractEvent → Marks → Bool → Marks × Bool
mark_callees model [] reachable changed = (reachable, changed)
mark_callees model (e ∷ events) reachable changed =
    let extended = extends model reachable e in
    mark_callees model events
      (if extended then mark (function_index_by_usr model e.usr) reachable else reachable)
      (extended || changed)

-- `do … while(changed)`
unfoldable pub close_marks : ℕ → ContractModel → Marks → Marks
close_marks zero model reachable = reachable
close_marks (suc fuel) model reachable =
    let (reachable', changed) = mark_callees model model.events reachable false in
    let rest = close_marks fuel model reachable' in if changed then rest else reachable'

-- A round that goes on marks one more of the functions, so one round more than there are functions is
-- enough.
unfoldable pub reachable_functions : ContractModel → Marks
reachable_functions model =
    close_marks (suc (length model.functions)) model (mark_handlers model model.events no_marks)

unfoldable pub name_at : ℕ → List ContractFunction → Text
name_at index [] = []
name_at zero (f ∷ fs) = f.name
name_at (suc index) (f ∷ fs) = name_at index fs

-- The rule that an event in a reachable function breaks.
unfoldable pub signal_rule : ContractModel → ContractEvent → Option Rule
signal_rule model e =
    if same_kind e.kind EventKind.signal_shared_object_access
    then some Rule.signal_shared_object_access
    else if same_kind e.kind EventKind.call
        && not (is_known model (function_index_by_usr model e.usr))
        && not (call_is_async_signal_safe e.usr)
    then some Rule.signal_unsafe_call
    else none

module _ (accepts : List Diagnostic → Diagnostic → Bool) where
  -- The third loop.
  unfoldable pub report_signals : ContractModel → Marks → List ContractEvent → Report → Report
  report_signals model reachable [] r = r
  report_signals model reachable (e ∷ events) r =
      let caller = function_index_by_usr model e.caller_usr in
      let reported : Report = elim (signal_rule model e) [
        | none ↦ r
        | some rule ↦ report_finding accepts rule e.path e.line (name_at caller model.functions) r
      ] in
      report_signals model reachable events
        (if is_known model caller && reachable caller then reported else r)

  unfoldable pub analyze_signal_handlers : ContractModel → Report → Report
  analyze_signal_handlers model r = report_signals model (reachable_functions model) model.events r

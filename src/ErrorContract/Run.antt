-- ===== src/ErrorContract/Run.antt =====
-- components/error-contract/src/contract.c: `p101_error_contract_run`, which puts the analyses together;
-- components/error-contract/src/native_analysis.c: `p101_error_contract_load_analysis`.
pub mod Quiet
pub mod Clean
pub mod Status
pub mod LongPath
use p101_audit.Base.{
  ℕ, Bool, true, false, not, ◌&&◌, ◌||◌, [], Option, none, some, if◌then◌else◌, is_nil, is_some,
}
use p101_audit.ErrorContract.{ContractModel}
use p101_audit.Base.Text.{Text}
use p101_audit.ErrorContract.Event.{NoteKind}
use p101_audit.ErrorContract.Loader.{NativeRecord, apply_records, empty_model}
use p101_audit.ErrorContract.Analysis.{Diagnostic, Report, analyze_model, analyze_ownership}
use p101_audit.ErrorContract.Signals.{analyze_signal_handlers}
use p101_audit.Base.{List}

abbrev pub exit_success : ℕ
exit_success = 0

abbrev pub exit_findings : ℕ
exit_findings = 1

abbrev pub exit_trouble : ℕ
exit_trouble = 2

abbrev pub empty_report : Report
empty_report = record { emitted = []; has_error = false }

-- The arguments that the loading of an analysis reads, and how the calls of it end that are not of
-- the component: the search for a compile database, the line that a verbose run prints to stderr, and
-- the scan, which hands over the records and may raise an error of its own.
pub record NativeAnalysis : Type 0 where
  pub has_compile_db : Bool
  pub verbose : Bool
  pub search_fails : Bool
  pub print_fails : Bool
  pub records : List NativeRecord
  pub scan_fails : Bool

-- The model, and whether an error is raised. The answer of the scan is discarded; its error stays.
unfoldable pub load_analysis :
    (Option Text → NoteKind) → NativeAnalysis → Bool → ContractModel → ContractModel × Bool
load_analysis note_kind a has_error model =
    let (model', failure) = apply_records note_kind a.records model in
    if has_error || not a.has_compile_db && a.search_fails
    then (model, true)
    else if a.verbose && a.print_fails
    then (model, true)
    else (model', is_some failure || a.scan_fails)

module _ (accepts : List Diagnostic → Diagnostic → Bool) where
  -- The three analyses, on the model that was loaded without an error.
  unfoldable pub analyze : Bool → ContractModel → Report
  analyze strict_sequence model =
      analyze_signal_handlers accepts model
        (analyze_ownership accepts model (analyze_model accepts strict_sequence model empty_report))

  -- A run without a file of saved facts. `allocated` says whether the model was allocated, `begun`
  -- whether p101_tool_report_begin succeeds, and `ended` whether p101_tool_report_end does.
  unfoldable pub run :
      (Option Text → NoteKind) → Bool → Bool → Bool → NativeAnalysis → (Report → Bool) → ℕ
  run note_kind strict_sequence allocated begun a ended =
      let (model, has_error) = load_analysis note_kind a (not begun) empty_model in
      let report = if has_error then empty_report else analyze strict_sequence model in
      if not allocated
      then exit_trouble
      else if has_error || report.has_error || not (ended report)
      then exit_trouble
      else if is_nil report.emitted
      then exit_success
      else exit_findings

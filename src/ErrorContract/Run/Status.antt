-- ===== src/ErrorContract/Run/Status.antt =====
-- The exit status of the audit, from the records of an analysis to the return of the program.
use p101_audit.Base.{
  ℕ, ◌≡◌, refl, sym, ◌∙◌, ap, ◌↔◌, Bool, true, false, not, ◌||◌, List, Option, none, some,
  if◌then◌else◌, arith, is_nil, is_some,
}
use p101_audit.Base.Text.{Text}
use p101_audit.ErrorContract.Event.{NoteKind}
use p101_audit.ErrorContract.Builder.{Failure}
use p101_audit.ErrorContract.Analysis.{Diagnostic, Report}
use p101_audit.ErrorContract.Loader.{apply_records, empty_model}
use p101_audit.ErrorContract.Loader.Invariant.{apply_records-IsBuilt, empty-IsBuilt}
use p101_audit.ErrorContract.Run.{
  NativeAnalysis, load_analysis, analyze, run, empty_report, exit_success, exit_findings,
  exit_trouble,
}
use p101_audit.ErrorContract.Run.Clean.{IsClean, analyze_iff}

-- The calls of the loading raise no error, and no record does.
pub record IsLoaded (note_kind : Option Text → NoteKind) (a : NativeAnalysis) : Type 0 where
  pub found : a.has_compile_db ≡ false → a.search_fails ≡ false
  pub printed : a.verbose ≡ true → a.print_fails ≡ false
  pub scanned : a.scan_fails ≡ false
  pub no_failure : (apply_records note_kind a.records empty_model).1 ≡ none

module _ (note_kind : Option Text → NoteKind) (a : NativeAnalysis) where
  is_some-none : (o : Option Failure) → is_some o ≡ false → o ≡ none
  is_some-none none h = refl
  is_some-none (some e) h = cc

  load_sound :
      (has_error : Bool)
      → (load_analysis note_kind a has_error empty_model).1 ≡ false
      → (has_error ≡ false)
        × IsLoaded note_kind a
        × ((load_analysis note_kind a has_error empty_model).0
            ≡ (apply_records note_kind a.records empty_model).0)
  unfolding load_analysis
  load_sound has_error h = (
    ground arith,
    record {
      found = λ g. ground arith;
      printed = λ v. ground arith;
      scanned = ground arith;
      no_failure = is_some-none (apply_records note_kind a.records empty_model).1 (ground arith);
    },
    ground arith,
  )

  load_complete :
      IsLoaded note_kind a
      → ((load_analysis note_kind a false empty_model).1 ≡ false)
        × ((load_analysis note_kind a false empty_model).0
            ≡ (apply_records note_kind a.records empty_model).0)
  unfolding load_analysis
  load_complete l =
      let found = l.found in
      let printed = l.printed in
      let scanned = l.scanned in
      let none_failed = ap is_some l.no_failure in (ground arith, ground arith)

module _ (allocated has_error : Bool) (report : Report) (ended : Report → Bool) where
  -- The end of `run`, over the report of the analyses.
  abbrev exit_status : ℕ
  exit_status =
      if not allocated
      then exit_trouble
      else if has_error || report.has_error || not (ended report)
      then exit_trouble
      else if is_nil report.emitted
      then exit_success
      else exit_findings

  exit_status-success :
      exit_status ≡ exit_success
      → (allocated ≡ true) × (has_error ≡ false) × (report ≡ empty_report) × (ended report ≡ true)
  exit_status-success h = (ground arith, ground arith, ground arith, ground arith)

  success-exit_status :
      allocated ≡ true
      → has_error ≡ false
      → report ≡ empty_report
      → ended report ≡ true
      → exit_status ≡ exit_success
  success-exit_status b f r e =
      let no_error = ap (λ (x : Report). x.has_error) r in
      let nothing = ap (λ (x : Report). x.emitted) r in ground arith

-- For any kinds of notes, any report and any analysis, in a run that is not given a file of saved
-- facts: the audit ends with the status of success exactly if its model could be allocated and its
-- report begun, no error came from the search for a compile database where no path is given, from
-- the line of a verbose run, from the scan itself or from a record, the model that the records leave
-- is clean, and the empty report could be ended. A clean model is one in which no file acquires more
-- than it releases, every function has one exit and no event that breaks a rule in it, and no event
-- in a function that a signal handler reaches breaks a rule of handlers.
pub run_succeeds_iff :
    (note_kind : Option Text → NoteKind) (accepts : List Diagnostic → Diagnostic → Bool)
    (strict_sequence allocated begun : Bool) (a : NativeAnalysis) (ended : Report → Bool)
    → (run accepts note_kind strict_sequence allocated begun a ended ≡ exit_success) ↔ (
        (allocated ≡ true)
        × (begun ≡ true)
        × IsLoaded note_kind a
        × IsClean strict_sequence (apply_records note_kind a.records empty_model).0
        × (ended empty_report ≡ true))
unfolding run
run_succeeds_iff note_kind accepts strict_sequence allocated begun a ended =
    let records = apply_records note_kind a.records empty_model in
    let loaded = load_analysis note_kind a (not begun) empty_model in
    let report = if loaded.1 then empty_report else analyze accepts strict_sequence loaded.0 in
    let built = apply_records-IsBuilt note_kind a.records empty_model empty-IsBuilt in
    let (sound, complete) = analyze_iff accepts strict_sequence records.0 built.fresh in
    (
      λ h.
          let (allotted, quiet, r, e) = exit_status-success allocated loaded.1 report ended h in
          let (b, l, same) = load_sound note_kind a (not begun) quiet in
          let r' : analyze accepts strict_sequence records.0 ≡ empty_report =
            rw (← same) (rw quiet at r) in
          (allotted, ground arith, l, sound r', ap ended (sym r) ∙ e),
      λ (allotted, b, l, c, e).
          let (quiet, same) = load_complete note_kind a l in
          let quiet' : loaded.1 ≡ false = rw b quiet in
          let same' : loaded.0 ≡ records.0 = rw b same in
          let r : report ≡ empty_report = rw (quiet', same') (complete c) in
          success-exit_status allocated loaded.1 report ended allotted quiet' r (ap ended r ∙ e),
    )

-- ===== src/Doctor.antt =====
-- components/doctor/src/status.c: what the exit status of a child process means.
pub mod Vocabulary
mod Tests
use p101_audit.Base.{ℕ, Bool, true, false, ◌&&◌, ◌||◌, ◌==◌, ◌++◌, List, [], ◌∷◌, if◌then◌else◌}
use p101_audit.Base.Text.{Text, codes}

-- The macros of <sys/wait.h>, on the `int` that waitpid leaves.
pub record WaitMacros {ℓ} (Status : Type ℓ) : Type ℓ where
  pub wifexited : Status → Bool
  pub wexitstatus : Status → ℕ
  pub wifstopped : Status → Bool
  pub wtermsig : Status → ℕ

abbrev pub exit_findings : ℕ
exit_findings = 1

pub data DoctorStatusClass : Type 0 where
  clean findings trouble : DoctorStatusClass

-- What "%d" prints of the number of an exit or a signal, and of the status itself.
pub record Decimals {ℓ} (Status : Type ℓ) : Type ℓ where
  pub number : ℕ → Text
  pub status : Status → Text

-- The pieces of a format and its arguments, one behind the other.
abbrev pub printed : List Text → Text
printed [] = []
printed (piece ∷ pieces) = piece ++ printed pieces

module _ {ℓ} {Status : Type ℓ} (wait : WaitMacros Status) where
  unfoldable pub status_is_clean : Status → Bool
  status_is_clean status = wait.wifexited status && wait.wexitstatus status == 0

  unfoldable pub status_has_findings : Status → Bool
  status_has_findings status = wait.wifexited status && wait.wexitstatus status == exit_findings

  unfoldable pub status_is_acceptable : Status → Bool
  status_is_acceptable status = status_is_clean status || status_has_findings status

  unfoldable pub classify_status : Status → DoctorStatusClass
  classify_status status =
      if status_is_clean status
      then DoctorStatusClass.clean
      else if status_has_findings status
      then DoctorStatusClass.findings
      else DoctorStatusClass.trouble

  unfoldable pub status_word : Status → Text
  status_word status = elim (classify_status status) [
    | DoctorStatusClass.clean ↦ codes "clean"
    | DoctorStatusClass.findings ↦ codes "findings"
    | DoctorStatusClass.trouble ↦ codes "trouble"
  ]

  unfoldable pub status_grade : Status → Text
  status_grade status = elim (classify_status status) [
    | DoctorStatusClass.clean ↦ codes "good"
    | DoctorStatusClass.findings ↦ codes "needs work"
    | DoctorStatusClass.trouble ↦ codes "trouble"
  ]

  module _ (decimal : Decimals Status) where
    -- The text that p101_fprintf is to write.
    unfoldable pub print_status_markdown : Text → Status → Text
    print_status_markdown label status =
        if wait.wifexited status
        then printed (
            codes "| "
            ∷ label
            ∷ codes " | "
            ∷ status_word status
            ∷ codes " (exit "
            ∷ decimal.number (wait.wexitstatus status)
            ∷ codes ") |\n"
            ∷ [])
        else if wait.wifstopped status
        then printed (
            codes "| "
            ∷ label
            ∷ codes " | trouble (status "
            ∷ decimal.status status
            ∷ codes ") |\n"
            ∷ [])
        else printed (
            codes "| "
            ∷ label
            ∷ codes " | trouble (signal "
            ∷ decimal.number (wait.wtermsig status)
            ∷ codes ") |\n"
            ∷ [])

    unfoldable pub print_status_json : Text → Status → Text
    print_status_json label status =
        if wait.wifexited status
        then printed (
            codes "    \""
            ∷ label
            ∷ codes "\": {\"kind\": \"exit\", \"code\": "
            ∷ decimal.number (wait.wexitstatus status)
            ∷ codes ", \"result\": \""
            ∷ status_word status
            ∷ codes "\"}"
            ∷ [])
        else if wait.wifstopped status
        then printed (
            codes "    \""
            ∷ label
            ∷ codes "\": {\"kind\": \"status\", \"status\": "
            ∷ decimal.status status
            ∷ codes ", \"result\": \"trouble\"}"
            ∷ [])
        else printed (
            codes "    \""
            ∷ label
            ∷ codes "\": {\"kind\": \"signal\", \"signal\": "
            ∷ decimal.number (wait.wtermsig status)
            ∷ codes ", \"result\": \"trouble\"}"
            ∷ [])

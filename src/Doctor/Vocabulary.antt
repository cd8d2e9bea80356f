-- ===== src/Doctor/Vocabulary.antt =====
-- The words and the rows that the doctor prints for a status.
use p101_audit.Base.{◌≡◌, refl, [], ◌∷◌, ◌↔◌, inl, inr, true, false, arith, Bool-cases}
use p101_audit.Base.Text.{Text, codes}
use p101_audit.Doctor.{
  WaitMacros, Decimals, printed, status_is_clean, status_has_findings, status_is_acceptable,
  classify_status, status_word, status_grade, print_status_markdown, print_status_json,
}

module _ {ℓ} {Status : Type ℓ} (wait : WaitMacros Status) where
  same_class-eq_words :
      (s t : Status)
      → ((status_word wait s ≡ status_word wait t)
          ↔ (classify_status wait s ≡ classify_status wait t))
        × ((status_grade wait s ≡ status_grade wait t)
            ↔ (classify_status wait s ≡ classify_status wait t))
  unfolding status_word status_grade
  same_class-eq_words s t = (
    (λ h. ground arith, λ h. rw (h, status_word) refl),
    (λ h. ground arith, λ h. rw (h, status_grade) refl),
  )

  not_acceptable_iff :
      (s : Status) → (status_is_acceptable wait s ≡ false) ↔ (status_word wait s ≡ codes "trouble")
  unfolding status_is_acceptable status_word classify_status
  not_acceptable_iff s = (λ h. ground arith, λ h. ground arith)

  not_exited : (s : Status) → wait.wifexited s ≡ false → status_word wait s ≡ codes "trouble"
  unfolding status_word classify_status status_is_clean status_has_findings
  not_exited s h = ground arith

  same_words_iff :
      (s t : Status)
      → (status_word wait s ≡ status_word wait t) ↔ (status_grade wait s ≡ status_grade wait t)
  same_words_iff s t =
      let ((word, word'), (grade, grade')) = same_class-eq_words s t in
      (λ h. grade' (word h), λ h. word' (grade h))

  module _ (decimal : Decimals Status) where
    -- How the process ended, the name of the number that says more, and that number in print.
    pub data Ended (s : Status) : Text → Text → Text → Type ℓ where
      by_exit :
          wait.wifexited s ≡ true
          → Ended s (codes "exit") (codes "code") (decimal.number (wait.wexitstatus s))
      by_stop :
          wait.wifexited s ≡ false
          → wait.wifstopped s ≡ true
          → Ended s (codes "status") (codes "status") (decimal.status s)
      by_signal :
          wait.wifexited s ≡ false
          → wait.wifstopped s ≡ false
          → Ended s (codes "signal") (codes "signal") (decimal.number (wait.wtermsig s))

    -- The two rows with one word in them.
    pub record Rows (label : Text) (s : Status) (kind field number : Text) : Type 0 where
      pub markdown :
          print_status_markdown wait decimal label s
          ≡ printed (
              codes "| "
              ∷ label
              ∷ codes " | "
              ∷ status_word wait s
              ∷ codes " ("
              ∷ kind
              ∷ codes " "
              ∷ number
              ∷ codes ") |\n"
              ∷ [])
      pub json :
          print_status_json wait decimal label s
          ≡ printed (
              codes "    \""
              ∷ label
              ∷ codes "\": {\"kind\": \""
              ∷ kind
              ∷ codes "\", \""
              ∷ field
              ∷ codes "\": "
              ∷ number
              ∷ codes ", \"result\": \""
              ∷ status_word wait s
              ∷ codes "\"}"
              ∷ [])

    formats_cases :
        (label : Text) (s : Status)
        → (kind : Text) × (field : Text) × (number : Text) × Ended s kind field number
          × Rows label s kind field number
    unfolding print_status_markdown print_status_json
    formats_cases label s = elim (Bool-cases (wait.wifexited s)) [
      | inl e ↦ (
        codes "exit",
        codes "code",
        decimal.number (wait.wexitstatus s),
        by_exit e,
        record { markdown = rw e refl; json = rw e refl },
      )
      | inr e ↦
          let word = not_exited s e in
          elim (Bool-cases (wait.wifstopped s)) [
            | inl t ↦ (
              codes "status",
              codes "status",
              decimal.status s,
              by_stop e t,
              record { markdown = rw (e, t, word) refl; json = rw (e, t, word) refl },
            )
            | inr t ↦ (
              codes "signal",
              codes "signal",
              decimal.number (wait.wtermsig s),
              by_signal e t,
              record { markdown = rw (e, t, word) refl; json = rw (e, t, word) refl },
            )
          ]
    ]

-- Whatever the macros of <sys/wait.h> say of two statuses, and however "%d" prints: the row in
-- Markdown is the label, the word of the status, and in parentheses `exit`, `status` or `signal`, as
-- the process exited, stopped, or neither, with the exit code, the status or the signal; the entry
-- in JSON has the same kind, number and word behind the same label. The word is `trouble` exactly if
-- the status is not acceptable, and two statuses get the same word exactly if they get the same
-- grade.
pub vocabulary_lem {ℓ} :
    {Status : Type ℓ} (wait : WaitMacros Status) (decimal : Decimals Status) (label : Text)
    (s t : Status)
    → ((kind : Text) × (field : Text) × (number : Text) × Ended wait decimal s kind field number
        × Rows wait decimal label s kind field number)
      × ((status_is_acceptable wait s ≡ false) ↔ (status_word wait s ≡ codes "trouble"))
      × ((status_word wait s ≡ status_word wait t) ↔ (status_grade wait s ≡ status_grade wait t))
vocabulary_lem wait decimal label s t =
    (formats_cases wait decimal label s, not_acceptable_iff wait s, same_words_iff wait s t)

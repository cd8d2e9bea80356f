-- ===== src/Doctor/Tests.antt =====
-- The doctor on statuses as Linux encodes them, and its theorem at a concrete input.
use Prim.Native.Nat.{◌/◌}
use p101_audit.Base.{ℕ, ◌+◌, [], ◌∷◌, ◌%◌, ◌≡◌, refl, false, ◌==◌, ◌↔◌}
use p101_audit.Base.Text.{Text, codes}
use p101_audit.Doctor.{
  WaitMacros, Decimals, status_is_clean, status_has_findings, status_is_acceptable, classify_status,
  status_word, status_grade, print_status_markdown, print_status_json,
}
use p101_audit.Doctor.Vocabulary.{Ended, Rows, vocabulary_lem}

abbrev linux : WaitMacros ℕ
linux = record {
  wifexited = λ s. s % 128 == 0;
  wexitstatus = λ s. s / 256 % 256;
  wifstopped = λ s. s % 256 == 127;
  wtermsig = λ s. s % 128;
}

-- A byte in decimal serves the tests.
abbrev printer : Decimals ℕ
printer = record { number = λ n. (48 + n) ∷ []; status = λ s. (48 + s % 10) ∷ [] }

diagnosing : Unit {0}
unfolding status_is_clean status_has_findings status_is_acceptable classify_status status_word
    status_grade print_status_markdown print_status_json
diagnosing = tt

exit_one :
    print_status_markdown linux printer (codes "errors") 256
    ≡ codes "| errors | findings (exit 1) |\n"
unfolding diagnosing
exit_one = refl

killed :
    print_status_markdown linux printer (codes "errors") 9
    ≡ codes "| errors | trouble (signal 9) |\n"
unfolding diagnosing
killed = refl

stopped :
    print_status_json linux printer (codes "errors") 0x137f
    ≡ codes "    \"errors\": {\"kind\": \"status\", \"status\": 1, \"result\": \"trouble\"}"
unfolding diagnosing
stopped = refl

vocabulary_lem_example :
    ((kind : Text) × (field : Text) × (number : Text) × Ended linux printer 256 kind field number
      × Rows linux printer (codes "errors") 256 kind field number)
    × ((status_is_acceptable linux 256 ≡ false) ↔ (status_word linux 256 ≡ codes "trouble"))
    × ((status_word linux 256 ≡ status_word linux 9)
        ↔ (status_grade linux 256 ≡ status_grade linux 9))
vocabulary_lem_example = vocabulary_lem linux printer (codes "errors") 256 9

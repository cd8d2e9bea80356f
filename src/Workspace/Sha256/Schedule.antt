-- ===== src/Workspace/Sha256/Schedule.antt =====
-- The message schedule, which the loops fill from its front, and its recurrence.
use Prim.Native.Nat.{◌/◌, bit_xor}
use p101_audit.Base.{ℕ, ◌+◌, ◌-◌, ◌%◌, ◌^◌, List}
use p101_audit.Workspace.Sha256.{sha256_rotate, word_at}

abbrev pub small_sigma_zero : ℕ → ℕ
small_sigma_zero w = bit_xor (bit_xor (sha256_rotate w 7) (sha256_rotate w 18)) (w / 2 ^ 3)

abbrev pub small_sigma_one : ℕ → ℕ
small_sigma_one w = bit_xor (bit_xor (sha256_rotate w 17) (sha256_rotate w 19)) (w / 2 ^ 10)

-- The word at the index, by the recurrence of FIPS 180-4.
abbrev pub recurrence : List ℕ → ℕ → ℕ
recurrence schedule t =
    (word_at schedule (t - 16)
      + small_sigma_zero (word_at schedule (t - 15))
      + word_at schedule (t - 7)
      + small_sigma_one (word_at schedule (t - 2)))
    % 2 ^ 32

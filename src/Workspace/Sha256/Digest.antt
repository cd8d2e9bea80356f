-- ===== src/Workspace/Sha256/Digest.antt =====
-- The digest that is computed byte by byte is the digest of the padded message, block by block.
use Prim.Native.Nat.{◌/◌}
use mathlib.Core.List.{append_assoc}
use p101_audit.Base.{
  ℕ, ◌+◌, ◌-◌, ◌*◌, ◌%◌, ◌^◌, ◌≡◌, ◌≤◌, ◌<◌, refl, sym, ◌∙◌, ap, inl, inr, List, [], ◌∷◌, ◌++◌, ltb,
  arith, Bool-cases, length, length-append,
}
use p101_audit.Workspace.Sha256.{
  Words, Sha256State, sha256_transform, sha256_update, fill, length_bytes, digest_of, sha256_finish,
  hex, initial_words, workspace_sha256,
}
use p101_audit.Workspace.Sha256.Streaming.{
  zeros, big_endian, padded, blocks, compress, hash, length-zeros, length-big_endian, zeros-add,
  hash_block, hash_last, Counted, update-Counted, update-hash, fill_lem, length_bytes_lem,
}

-- What `sha256_finish` writes behind the block.
abbrev tail_of : ℕ → ℕ → List ℕ
tail_of size total = 0x80 ∷ (zeros ((119 - size) % 64) ++ big_endian 8 total)

module _ (ws : Words) (b : List ℕ) (total : ℕ) where
  abbrev ended : List ℕ
  ended = b ++ 0x80 ∷ []

  length-ended : length ended ≡ length b + 1
  length-ended = length-append b (0x80 ∷ [])

  -- The length fits into the block of the last byte.
  one_block :
      length b < 56
      → hash ws (b ++ tail_of (length b) total)
        ≡ sha256_transform ws (fill 64 56 ended ++ length_bytes total)
  one_block small =
      let size = length-ended in
      let filled = fill_lem 64 56 ended (omega arith) in
      let count : (119 - length b) % 64 ≡ 56 - length ended = omega arith in
      let last = ended ++ zeros (56 - length ended) ++ big_endian 8 total in
      let joined : b ++ tail_of (length b) total ≡ last = rw count (simp append_assoc) in
      let full : length last ≡ 64 = omega (
        arith,
        length-append (ended ++ zeros (56 - length ended)) (big_endian 8 total),
        length-append ended (zeros (56 - length ended)),
        length-zeros (56 - length ended),
        length-big_endian 8 total,
      ) in
      rw (joined, filled, length_bytes_lem total) (hash_last ws last full)

  -- It does not: the block is filled, and one more block holds the length.
  two_blocks :
      56 ≤ length b
      → length b < 64
      → hash ws (b ++ tail_of (length b) total)
        ≡ sha256_transform
            (sha256_transform ws (fill 64 64 ended))
            (fill 64 56 [] ++ length_bytes total)
  two_blocks large short =
      let size = length-ended in
      let filled = fill_lem 64 64 ended (omega arith) in
      let cleared = fill_lem 64 56 [] (omega arith) in
      let count : (119 - length b) % 64 ≡ (64 - length ended) + 56 = omega arith in
      let first = ended ++ zeros (64 - length ended) in
      let last = zeros 56 ++ big_endian 8 total in
      let joined : b ++ tail_of (length b) total ≡ first ++ last =
        rw (count, zeros-add (64 - length ended) 56) (simp append_assoc) in
      let full : length first ≡ 64 = omega (
        arith,
        length-append ended (zeros (64 - length ended)),
        length-zeros (64 - length ended),
      ) in
      let full' : length last ≡ 64 = omega (
        arith,
        length-append (zeros 56) (big_endian 8 total),
        length-zeros 56,
        length-big_endian 8 total,
      ) in
      rw (joined, filled, cleared, length_bytes_lem total)
        (hash_block ws first last full ∙ hash_last (sha256_transform ws first) last full')

-- A state after so many bytes ends in the digest of its block with the padding behind it.
finish-hash :
    (s : Sha256State) (n : ℕ)
    → 8 * n < 2 ^ 64
    → Counted n s
    → sha256_finish s ≡ digest_of (hash s.words (s.block ++ tail_of (n % 64) (8 * n)))
unfolding sha256_finish
finish-hash s n small c =
    let size = c.short in
    let bits = c.bits in
    let total : (s.bit_count + length s.block * 8) % 2 ^ 64 ≡ 8 * n = omega arith in
    let longer = length-append s.block (0x80 ∷ []) in
    elim (Bool-cases (ltb 56 (length (s.block ++ 0x80 ∷ [])))) [
      | inl large ↦
          rw (large, total, ← size)
            (ap digest_of (sym (two_blocks s.words s.block (8 * n) (ground arith) (omega arith))))
      | inr room ↦
          rw (room, total, ← size)
            (ap digest_of (sym (one_block s.words s.block (8 * n) (ground arith))))
    ]

abbrev begun : Sha256State
begun = record { words = initial_words; bit_count = 0; block = [] }

length-padded : (message : List ℕ) → length (padded message) % 64 ≡ 0
unfolding padded
length-padded message =
    let fill_count = (119 - length message % 64) % 64 in
    omega (
      arith,
      length-append message (tail_of (length message % 64) (8 * length message)),
      length-append (zeros fill_count) (big_endian 8 (8 * length message)),
      length-zeros fill_count,
      length-big_endian 8 (8 * length message),
    )

-- For a message of less than 2 ^ 64 bits: the padding of FIPS 180-4 fills whole blocks, and the text that
-- the program computes byte by byte, in one buffer of 64 bytes, is the hexadecimal form of the digest
-- that the compressions of these blocks leave, in their order and from the initial words.
pub workspace_sha256_refines :
    (message : List ℕ)
    → 8 * length message < 2 ^ 64
    → (length (padded message) % 64 ≡ 0)
      × (workspace_sha256 message
          ≡ hex (
              digest_of
                (compress initial_words (blocks (length (padded message) / 64) (padded message)))))
unfolding workspace_sha256 padded
workspace_sha256_refines message small =
    let started : Counted 0 begun = record { short = refl; bits = refl } in
    let counted = update-Counted message begun 0 (omega arith) started in
    let total : 0 + length message ≡ length message = omega arith in
    let read = update-hash message begun (tail_of (length message % 64) (8 * length message)) in
    let ended_by =
      finish-hash (sha256_update begun message) (length message) (omega arith)
        (rw total at counted) in
    (length-padded message, ap hex (ended_by ∙ ap digest_of (sym read)))

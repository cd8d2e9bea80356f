-- ===== src/Workspace/Tests.antt =====
-- Digests of known messages, and the theorems of SHA-256 at concrete inputs.
use Prim.Native.Nat.{◌/◌}
use p101_audit.Base.{ℕ, ◌*◌, ◌%◌, ◌^◌, ◌≡◌, ◌<◌, refl, List, [], ◌∷◌, ◌++◌, some, length, arith}
use p101_audit.Base.Text.{codes}
use p101_audit.Workspace.Sha256.{
  sha256_constants, sha256_rotate, word_at, load_words, next_word, extend_schedule, choose,
  majority, sha256_round, sha256_rounds, add_words, sha256_transform, absorb, sha256_update, fill,
  length_bytes, word_bytes, digest_of, sha256_finish, hex_digit, hex, initial_words,
  workspace_sha256,
}
use p101_audit.Workspace.Sha256.Streaming.{padded, blocks, compress}
use p101_audit.Workspace.Sha256.Digest.{workspace_sha256_refines}
use p101_audit.Workspace.Sha256.Hex.{AreBytes, unhex, digest, unhex-workspace_sha256}

hashing : Unit {0}
unfolding sha256_constants sha256_rotate word_at load_words next_word extend_schedule choose
    majority sha256_round sha256_rounds add_words sha256_transform absorb sha256_update fill
    length_bytes word_bytes digest_of sha256_finish hex_digit hex initial_words workspace_sha256
hashing = tt

digest_abc :
    workspace_sha256 (codes "abc")
    ≡ codes "ba7816bf8f01cfea414140de5dae2223b00361a396177a9cb410ff61f20015ad"
unfolding hashing
digest_abc = refl

digest_empty :
    workspace_sha256 [] ≡ codes "e3b0c44298fc1c149afbf4c8996fb92427ae41e4649b934ca495991b7852b855"
unfolding hashing
digest_empty = refl

-- A message that fills more than one block.
digest_two_blocks :
    workspace_sha256 (codes "abcdbcdecdefdefgefghfghighijhijkijkljklmklmnlmnomnopnopq")
    ≡ codes "248d6a61d20638b8e5c026930c3e6039a33ce45964ff2167f6ecedd419db06c1"
unfolding hashing
digest_two_blocks = refl

abc_is_small : 8 * length (codes "abc") < 2 ^ 64
abc_is_small = omega arith

workspace_sha256_refines_example :
    (length (padded (codes "abc")) % 64 ≡ 0)
    × (workspace_sha256 (codes "abc")
        ≡ hex (
            digest_of (
              compress initial_words
                (blocks (length (padded (codes "abc")) / 64) (padded (codes "abc"))))))
workspace_sha256_refines_example = workspace_sha256_refines (codes "abc") abc_is_small

unhex-workspace_sha256_example :
    (length (workspace_sha256 (codes "abc")) ≡ 64)
    × AreBytes (digest (codes "abc"))
    × (unhex (workspace_sha256 (codes "abc")) ≡ some (digest (codes "abc")))
unhex-workspace_sha256_example = unhex-workspace_sha256 (codes "abc")

-- The one block of the padded message "abc".
abbrev abc_block : List ℕ
abc_block = fill 64 56 (codes "abc" ++ 0x80 ∷ []) ++ length_bytes 24

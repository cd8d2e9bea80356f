-- ===== src/Workspace/Sha256.antt =====
-- components/workspace/src/sha256.c: the digest of a byte sequence, as hexadecimal text.
pub mod Streaming
pub mod Digest
pub mod Hex
pub mod Schedule
use Prim.Native.Nat.{◌/◌, bit_and, bit_or, bit_xor}
use p101_audit.Base.{
  ℕ, zero, suc, ◌+◌, ◌-◌, ◌*◌, ◌%◌, ◌^◌, List, [], ◌∷◌, ◌++◌, ltb, ◌==◌, if◌then◌else◌, length,
}
use p101_audit.Base.Text.{Text}

-- `words[0]` to `words[7]`, and the eight variables of a transformation.
pub record Words : Type 0 where
  pub a : ℕ
  pub b : ℕ
  pub c : ℕ
  pub d : ℕ
  pub e : ℕ
  pub f : ℕ
  pub g : ℕ
  pub h : ℕ

-- `block` holds the `block_size` bytes that were written to the array.
pub record Sha256State : Type 0 where
  pub words : Words
  pub bit_count : ℕ
  pub block : List ℕ

unfoldable pub sha256_constants : List ℕ
sha256_constants =
    0x428a_2f98 ∷ 0x7137_4491 ∷ 0xb5c0_fbcf ∷ 0xe9b5_dba5 ∷ 0x3956_c25b ∷ 0x59f1_11f1 ∷ 0x923f_82a4
    ∷ 0xab1c_5ed5 ∷ 0xd807_aa98 ∷ 0x1283_5b01 ∷ 0x2431_85be ∷ 0x550c_7dc3 ∷ 0x72be_5d74
    ∷ 0x80de_b1fe ∷ 0x9bdc_06a7 ∷ 0xc19b_f174 ∷ 0xe49b_69c1 ∷ 0xefbe_4786 ∷ 0x0fc1_9dc6
    ∷ 0x240c_a1cc ∷ 0x2de9_2c6f ∷ 0x4a74_84aa ∷ 0x5cb0_a9dc ∷ 0x76f9_88da ∷ 0x983e_5152
    ∷ 0xa831_c66d ∷ 0xb003_27c8 ∷ 0xbf59_7fc7 ∷ 0xc6e0_0bf3 ∷ 0xd5a7_9147 ∷ 0x06ca_6351
    ∷ 0x1429_2967 ∷ 0x27b7_0a85 ∷ 0x2e1b_2138 ∷ 0x4d2c_6dfc ∷ 0x5338_0d13 ∷ 0x650a_7354
    ∷ 0x766a_0abb ∷ 0x81c2_c92e ∷ 0x9272_2c85 ∷ 0xa2bf_e8a1 ∷ 0xa81a_664b ∷ 0xc24b_8b70
    ∷ 0xc76c_51a3 ∷ 0xd192_e819 ∷ 0xd699_0624 ∷ 0xf40e_3585 ∷ 0x106a_a070 ∷ 0x19a4_c116
    ∷ 0x1e37_6c08 ∷ 0x2748_774c ∷ 0x34b0_bcb5 ∷ 0x391c_0cb3 ∷ 0x4ed8_aa4a ∷ 0x5b9c_ca4f
    ∷ 0x682e_6ff3 ∷ 0x748f_82ee ∷ 0x78a5_636f ∷ 0x84c8_7814 ∷ 0x8cc7_0208 ∷ 0x90be_fffa
    ∷ 0xa450_6ceb ∷ 0xbef9_a3f7 ∷ 0xc671_78f2 ∷ []

unfoldable pub sha256_rotate : ℕ → ℕ → ℕ
sha256_rotate value amount =
    let rotated = bit_or (value / 2 ^ amount) (value * 2 ^ (32 - amount) % 2 ^ 64) in
    bit_and rotated 0xffff_ffff % 2 ^ 32

-- The word at the index of the schedule, which is never out of range.
unfoldable pub word_at : List ℕ → ℕ → ℕ
word_at [] index = 0
word_at (w ∷ ws) zero = w
word_at (w ∷ ws) (suc index) = word_at ws index

-- The first sixteen words: four bytes each, the most significant first.
unfoldable pub load_words : List ℕ → List ℕ
load_words (b0 ∷ b1 ∷ b2 ∷ b3 ∷ bytes) =
    (bit_or (bit_or (bit_or (b0 * 2 ^ 24) (b1 * 2 ^ 16)) (b2 * 2 ^ 8)) b3 % 2 ^ 32)
    ∷ load_words bytes
load_words _ = []

-- The word behind the schedule.
unfoldable pub next_word : List ℕ → ℕ
next_word schedule =
    let index = length schedule in
    let w15 = word_at schedule (index - 15) in
    let w2 = word_at schedule (index - 2) in
    let first = bit_xor (bit_xor (sha256_rotate w15 7) (sha256_rotate w15 18)) (w15 / 2 ^ 3) in
    let second = bit_xor (bit_xor (sha256_rotate w2 17) (sha256_rotate w2 19)) (w2 / 2 ^ 10) in
    (word_at schedule (index - 16) + first + word_at schedule (index - 7) + second) % 2 ^ 32

-- The second loop, for the rounds that are left.
unfoldable pub extend_schedule : ℕ → List ℕ → List ℕ
extend_schedule zero schedule = schedule
extend_schedule (suc rounds) schedule = extend_schedule rounds (schedule ++ next_word schedule ∷ [])

-- `~e` is the complement in 32 bits.
unfoldable pub choose : ℕ → ℕ → ℕ → ℕ
choose e f g = bit_xor (bit_and e f) (bit_and (0xffff_ffff - e) g)

unfoldable pub majority : ℕ → ℕ → ℕ → ℕ
majority a b c = bit_xor (bit_xor (bit_and a b) (bit_and a c)) (bit_and b c)

-- The body of the third loop, for its constant and its word of the schedule.
unfoldable pub sha256_round : ℕ → ℕ → Words → Words
sha256_round constant scheduled s =
    let sigma_zero =
      bit_xor (bit_xor (sha256_rotate s.a 2) (sha256_rotate s.a 13)) (sha256_rotate s.a 22) in
    let sigma_one =
      bit_xor (bit_xor (sha256_rotate s.e 6) (sha256_rotate s.e 11)) (sha256_rotate s.e 25) in
    let temporary_one = (s.h + sigma_one + choose s.e s.f s.g + constant + scheduled) % 2 ^ 32 in
    let temporary_two = (sigma_zero + majority s.a s.b s.c) % 2 ^ 32 in
    record {
      a = (temporary_one + temporary_two) % 2 ^ 32;
      b = s.a;
      c = s.b;
      d = s.c;
      e = (s.d + temporary_one) % 2 ^ 32;
      f = s.e;
      g = s.f;
      h = s.g;
    }

unfoldable pub sha256_rounds : List ℕ → List ℕ → Words → Words
sha256_rounds (k ∷ constants) (w ∷ schedule) s =
    sha256_rounds constants schedule (sha256_round k w s)
sha256_rounds _ _ s = s

unfoldable pub add_words : Words → Words → Words
add_words s t = record {
  a = (s.a + t.a) % 2 ^ 32;
  b = (s.b + t.b) % 2 ^ 32;
  c = (s.c + t.c) % 2 ^ 32;
  d = (s.d + t.d) % 2 ^ 32;
  e = (s.e + t.e) % 2 ^ 32;
  f = (s.f + t.f) % 2 ^ 32;
  g = (s.g + t.g) % 2 ^ 32;
  h = (s.h + t.h) % 2 ^ 32;
}

unfoldable pub sha256_transform : Words → List ℕ → Words
sha256_transform words block =
    add_words words (sha256_rounds sha256_constants (extend_schedule 48 (load_words block)) words)

-- One byte of `sha256_update`.
unfoldable pub absorb : Sha256State → ℕ → Sha256State
absorb s byte =
    let block = s.block ++ byte ∷ [] in
    if length block == 64
    then record {
      words = sha256_transform s.words block;
      bit_count = (s.bit_count + 512) % 2 ^ 64;
      block = [];
    }
    else record s { block = block }

unfoldable pub sha256_update : Sha256State → List ℕ → Sha256State
sha256_update s [] = s
sha256_update s (byte ∷ bytes) = sha256_update (absorb s byte) bytes

-- The loops that write zeros while the block is shorter than the limit. A round writes one.
unfoldable pub fill : ℕ → ℕ → List ℕ → List ℕ
fill zero limit block = block
fill (suc fuel) limit block =
    let filled = fill fuel limit (block ++ 0 ∷ []) in
    if ltb (length block) limit then filled else block

-- The last eight bytes of the last block: the byte `63 - index` is `total_bits >> (index * 8)`.
unfoldable pub length_bytes : ℕ → List ℕ
length_bytes total_bits =
    (total_bits / 2 ^ 56 % 256)
    ∷ (total_bits / 2 ^ 48 % 256)
    ∷ (total_bits / 2 ^ 40 % 256)
    ∷ (total_bits / 2 ^ 32 % 256)
    ∷ (total_bits / 2 ^ 24 % 256)
    ∷ (total_bits / 2 ^ 16 % 256)
    ∷ (total_bits / 2 ^ 8 % 256)
    ∷ (total_bits % 256)
    ∷ []

unfoldable pub word_bytes : ℕ → List ℕ
word_bytes w = (w / 2 ^ 24 % 256) ∷ (w / 2 ^ 16 % 256) ∷ (w / 2 ^ 8 % 256) ∷ (w % 256) ∷ []

-- The last loop of `sha256_finish`.
unfoldable pub digest_of : Words → List ℕ
digest_of s =
    word_bytes s.a
    ++ (word_bytes s.b
        ++ (word_bytes s.c
            ++ (word_bytes s.d
                ++ (word_bytes s.e ++ (word_bytes s.f ++ (word_bytes s.g ++ word_bytes s.h))))))

-- The block is shorter than 64 bytes, so no loop writes more zeros than the fuel.
unfoldable pub sha256_finish : Sha256State → List ℕ
sha256_finish s =
    let total_bits = (s.bit_count + length s.block * 8) % 2 ^ 64 in
    let ended = s.block ++ 0x80 ∷ [] in
    let padding : Sha256State =
      if ltb 56 (length ended)
      then record s { words = sha256_transform s.words (fill 64 64 ended); block = [] }
      else record s { block = ended } in
    digest_of (sha256_transform padding.words (fill 64 56 padding.block ++ length_bytes total_bits))

-- The character of HEX at the index.
unfoldable pub hex_digit : ℕ → ℕ
hex_digit index = if ltb index 10 then b'0' + index else b'a' + (index - 10)

unfoldable pub hex : List ℕ → Text
hex [] = []
hex (byte ∷ bytes) = hex_digit (byte / 2 ^ 4) ∷ hex_digit (bit_and byte 0x0f) ∷ hex bytes

unfoldable pub initial_words : Words
initial_words = record {
  a = 0x6a09_e667;
  b = 0xbb67_ae85;
  c = 0x3c6e_f372;
  d = 0xa54f_f53a;
  e = 0x510e_527f;
  f = 0x9b05_688c;
  g = 0x1f83_d9ab;
  h = 0x5be0_cd19;
}

-- `p101_workspace_sha256`
unfoldable pub workspace_sha256 : List ℕ → Text
workspace_sha256 bytes = hex (
    sha256_finish
      (sha256_update (record { words = initial_words; bit_count = 0; block = [] }) bytes))

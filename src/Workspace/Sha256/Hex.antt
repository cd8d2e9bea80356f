-- ===== src/Workspace/Sha256/Hex.antt =====
-- The hexadecimal text of a digest can be read back.
use Prim.Native.Nat.{◌/◌, bit_and}
use p101_audit.Base.{
  ℕ, zero, suc, ◌+◌, ◌-◌, ◌*◌, ◌^◌, ◌≡◌, ◌<◌, refl, ap, Bool, true, false, ◌&&◌, List, [], ◌∷◌,
  ◌++◌, Option, none, some, leb, ◌==◌, ==_iff, if◌then◌else◌, arith, Bool-cases, inl, inr, length,
}
use p101_audit.Base.Text.{Text}
use p101_audit.Workspace.Sha256.{
  Words, digest_of, word_bytes, sha256_finish, sha256_update, Sha256State, hex_digit, hex,
  initial_words, workspace_sha256,
}

pub digit_value : ℕ → Option ℕ
digit_value c =
    if leb b'0' c && leb c b'9'
    then some (c - b'0')
    else if leb b'a' c && leb c b'f'
    then some (c - b'a' + 10)
    else none

pub byte_value : Option ℕ → Option ℕ → Option ℕ
byte_value (some high) (some low) = some (high * 16 + low)
byte_value _ _ = none

pub prepend : Option ℕ → Option (List ℕ) → Option (List ℕ)
prepend (some byte) (some bytes) = some (byte ∷ bytes)
prepend _ _ = none

-- The bytes that a text of lower-case hexadecimal digits stands for.
pub unhex : Text → Option (List ℕ)
unhex [] = some []
unhex (c ∷ []) = none
unhex (c ∷ c' ∷ s) = prepend (byte_value (digit_value c) (digit_value c')) (unhex s)

abbrev pub AreBytes : List ℕ → Type 0
AreBytes [] = Unit
AreBytes (b ∷ bs) = (b < 256) × AreBytes bs

AreBytes-append : (xs ys : List ℕ) → AreBytes xs → AreBytes ys → AreBytes (xs ++ ys)
AreBytes-append [] ys h k = k
AreBytes-append (x ∷ xs) ys h k = (h.0, AreBytes-append xs ys h.1 k)

-- A test of every byte below the bound.
holds_up_to : (ℕ → Bool) → ℕ → Bool
holds_up_to test zero = true
holds_up_to test (suc bound) = holds_up_to test bound && test bound

holds_up_to_lem :
    (test : ℕ → Bool) (bound byte : ℕ)
    → byte < bound
    → holds_up_to test bound ≡ true
    → test byte ≡ true
unfolding holds_up_to
holds_up_to_lem test zero byte low h = elim low [ ]
holds_up_to_lem test (suc bound) byte low h = elim (Bool-cases (byte == bound)) [
  | inl last ↦ let same = (==_iff byte bound).0 last in rw same (ground arith)
  | inr before ↦ holds_up_to_lem test bound byte (ground arith) (ground arith)
]

is_value : Option ℕ → ℕ → Bool
is_value none byte = false
is_value (some value) byte = value == byte

is_value_sound : (o : Option ℕ) (byte : ℕ) → is_value o byte ≡ true → o ≡ some byte
unfolding is_value
is_value_sound none byte h = cc
is_value_sound (some value) byte h = ap some ((==_iff value byte).0 h)

abbrev digits_value : ℕ → Option ℕ
digits_value byte =
    byte_value (digit_value (hex_digit (byte / 2 ^ 4)))
      (digit_value (hex_digit (bit_and byte 0x0f)))

digits_table : holds_up_to (λ byte. is_value (digits_value byte) byte) 256 ≡ true
unfolding holds_up_to is_value byte_value digit_value hex_digit
digits_table = refl

pub unhex-hex : (bytes : List ℕ) → AreBytes bytes → unhex (hex bytes) ≡ some bytes
unfolding unhex hex prepend
unhex-hex [] h = refl
unhex-hex (byte ∷ bytes) (small, rest) =
    let first =
      is_value_sound (digits_value byte) byte
        (holds_up_to_lem (λ byte. is_value (digits_value byte) byte) 256 byte small digits_table) in
    rw (first, unhex-hex bytes rest) refl

length-hex : (bytes : List ℕ) → length (hex bytes) ≡ 2 * length bytes
unfolding hex
length-hex [] = refl
length-hex (byte ∷ bytes) = omega (arith, length-hex bytes)

digest_of-AreBytes : (s : Words) → (length (digest_of s) ≡ 32) × AreBytes (digest_of s)
unfolding digest_of word_bytes
digest_of-AreBytes s = (refl, omega arith)

finish-AreBytes : (s : Sha256State) → (length (sha256_finish s) ≡ 32) × AreBytes (sha256_finish s)
unfolding sha256_finish
finish-AreBytes s = digest_of-AreBytes _

-- The bytes that `p101_workspace_sha256` prints.
abbrev pub digest : List ℕ → List ℕ
digest message =
    sha256_finish
      (sha256_update (record { words = initial_words; bit_count = 0; block = [] }) message)

-- Whatever the message: the text has 64 characters, and read as lower-case hexadecimal digits it gives
-- back the bytes of the digest, each of which is below 256.
pub unhex-workspace_sha256 :
    (message : List ℕ)
    → (length (workspace_sha256 message) ≡ 64)
      × AreBytes (digest message)
      × (unhex (workspace_sha256 message) ≡ some (digest message))
unfolding workspace_sha256
unhex-workspace_sha256 message =
    let (size, small) =
      finish-AreBytes
        (sha256_update (record { words = initial_words; bit_count = 0; block = [] }) message) in
    (omega (arith, length-hex (digest message)), small, unhex-hex (digest message) small)

-- ===== src/Workspace/Sha256/Streaming.antt =====
-- The message as blocks of 64 bytes, and what the loop of `sha256_update` does to them.
use Prim.Native.Nat.{◌/◌}
use mathlib.Core.List.{append_assoc, append-nil}
use p101_audit.Base.{
  ℕ, zero, suc, ◌+◌, ◌-◌, ◌*◌, ◌%◌, ◌^◌, ◌≡◌, ◌≤◌, ◌<◌, refl, sym, ◌∙◌, ap, inl, inr, List, [], ◌∷◌,
  ◌++◌, ltb, ◌==◌, arith, Bool-cases, length, take, drop, length-append,
}
use p101_audit.Workspace.Sha256.{
  Words, Sha256State, sha256_transform, absorb, sha256_update, fill, length_bytes,
}

unfoldable pub zeros : ℕ → List ℕ
zeros zero = []
zeros (suc n) = 0 ∷ zeros n

-- The number in so many bytes, the most significant first.
unfoldable pub big_endian : ℕ → ℕ → List ℕ
big_endian zero n = []
big_endian (suc k) n = (n / 256 ^ k % 256) ∷ big_endian k n

-- The padding of FIPS 180-4: a one bit, zeros, and the number of bits, up to a multiple of 64 bytes.
unfoldable pub padded : List ℕ → List ℕ
padded message =
    message
    ++ (0x80 ∷ (zeros ((119 - length message % 64) % 64) ++ big_endian 8 (8 * length message)))

-- The first blocks of 64 bytes.
pub blocks : ℕ → List ℕ → List (List ℕ)
blocks zero m = []
blocks (suc n) m = take 64 m ∷ blocks n (drop 64 m)

pub compress : Words → List (List ℕ) → Words
compress ws [] = ws
compress ws (b ∷ bs) = compress (sha256_transform ws b) bs

-- All blocks of the bytes.
abbrev pub hash : Words → List ℕ → Words
hash ws m = compress ws (blocks (length m / 64) m)

pub length-zeros : (n : ℕ) → length (zeros n) ≡ n
unfolding zeros
length-zeros zero = refl
length-zeros (suc n) = ap suc (length-zeros n)

pub length-big_endian : (k n : ℕ) → length (big_endian k n) ≡ k
unfolding big_endian
length-big_endian zero n = refl
length-big_endian (suc k) n = ap suc (length-big_endian k n)

pub zeros-add : (m n : ℕ) → zeros (m + n) ≡ zeros m ++ zeros n
unfolding zeros
zeros-add zero n = ap zeros (omega arith)
zeros-add (suc m) n =
    let next : suc m + n ≡ suc (m + n) = omega arith in
    ap zeros next ∙ ap (λ z. 0 ∷ z) (zeros-add m n)

module _ {ℓ} {A : Type ℓ} where
  take-append : (n : ℕ) (xs ys : List A) → length xs ≡ n → take n (xs ++ ys) ≡ xs
  take-append zero [] ys h = refl
  take-append zero (x ∷ xs) ys h = absurd (omega arith)
  take-append (suc n) [] ys h = absurd (omega arith)
  take-append (suc n) (x ∷ xs) ys h = ap (λ z. x ∷ z) (take-append n xs ys (omega arith))

  drop-append : (n : ℕ) (xs ys : List A) → length xs ≡ n → drop n (xs ++ ys) ≡ ys
  drop-append zero [] ys h = refl
  drop-append zero (x ∷ xs) ys h = absurd (omega arith)
  drop-append (suc n) [] ys h = absurd (omega arith)
  drop-append (suc n) (x ∷ xs) ys h = drop-append n xs ys (omega arith)

-- One block, and the blocks behind it.
pub hash_block :
    (ws : Words) (b m : List ℕ) → length b ≡ 64 → hash ws (b ++ m) ≡ hash (sha256_transform ws b) m
unfolding compress blocks
hash_block ws b m h =
    let count : length (b ++ m) / 64 ≡ suc (length m / 64) = omega (arith, length-append b m) in
    rw (count, take-append 64 b m h, drop-append 64 b m h) refl

pub hash_last : (ws : Words) (b : List ℕ) → length b ≡ 64 → hash ws b ≡ sha256_transform ws b
unfolding compress blocks
hash_last ws b h = ap (hash ws) (sym (append-nil b)) ∙ hash_block ws b [] h

-- The state after so many bytes.
pub record Counted (n : ℕ) (s : Sha256State) : Type 0 where
  pub short : length s.block ≡ n % 64
  pub bits : s.bit_count + 8 * length s.block ≡ 8 * n

absorb-Counted :
    (s : Sha256State) (byte n : ℕ)
    → 8 * suc n < 2 ^ 64
    → Counted n s
    → Counted (suc n) (absorb s byte)
unfolding absorb
absorb-Counted s byte n small c =
    let short = c.short in
    let bits = c.bits in
    let longer = length-append s.block (byte ∷ []) in
    elim (Bool-cases (length (s.block ++ byte ∷ []) == 64)) [
      | inl full ↦ rw full (record { short = ground arith; bits = ground arith })
      | inr open_block ↦ rw open_block (record { short = ground arith; bits = ground arith })
    ]

absorb-hash :
    (s : Sha256State) (byte : ℕ) (rest : List ℕ)
    → hash s.words (s.block ++ byte ∷ rest)
      ≡ hash (absorb s byte).words ((absorb s byte).block ++ rest)
unfolding absorb
absorb-hash s byte rest =
    let moved = ap (hash s.words) (sym (append_assoc s.block (byte ∷ []) rest)) in
    elim (Bool-cases (length (s.block ++ byte ∷ []) == 64)) [
      | inl full ↦
          moved ∙ hash_block s.words (s.block ++ byte ∷ []) rest (ground arith) ∙ rw full refl
      | inr open_block ↦ moved ∙ rw open_block refl
    ]

pub update-Counted :
    (bytes : List ℕ) (s : Sha256State) (n : ℕ)
    → 8 * (n + length bytes) < 2 ^ 64
    → Counted n s
    → Counted (n + length bytes) (sha256_update s bytes)
unfolding sha256_update
update-Counted [] s n small c = let same : n + 0 ≡ n = omega arith in rw same c
update-Counted (byte ∷ bytes) s n small c =
    let moved : n + suc (length bytes) ≡ suc n + length bytes = omega arith in
    rw moved (
      update-Counted bytes (absorb s byte) (suc n) (omega arith)
        (absorb-Counted s byte n (omega arith) c))

pub update-hash :
    (bytes : List ℕ) (s : Sha256State) (rest : List ℕ)
    → hash s.words (s.block ++ (bytes ++ rest))
      ≡ hash (sha256_update s bytes).words ((sha256_update s bytes).block ++ rest)
unfolding sha256_update
update-hash [] s rest = refl
update-hash (byte ∷ bytes) s rest =
    absorb-hash s byte (bytes ++ rest) ∙ update-hash bytes (absorb s byte) rest

pub fill_lem :
    (fuel limit : ℕ) (b : List ℕ)
    → limit ≤ length b + fuel
    → fill fuel limit b ≡ b ++ zeros (limit - length b)
unfolding fill zeros
fill_lem zero limit b h =
    let none_left : limit - length b ≡ 0 = omega arith in sym (rw none_left (append-nil b))
fill_lem (suc fuel) limit b h = elim (Bool-cases (ltb (length b) limit)) [
  | inr full ↦
      let none_left : limit - length b ≡ 0 = ground arith in
      rw (full, none_left) (sym (append-nil b))
  | inl more ↦
      let longer = length-append b (0 ∷ []) in
      let rest = fill_lem fuel limit (b ++ 0 ∷ []) (omega arith) in
      let left : limit - length b ≡ suc (limit - length (b ++ 0 ∷ [])) = ground arith in
      rw (more, left) (rest ∙ append_assoc b (0 ∷ []) (zeros (limit - length (b ++ 0 ∷ []))))
]

pub length_bytes_lem : (n : ℕ) → length_bytes n ≡ big_endian 8 n
unfolding length_bytes big_endian
length_bytes_lem n = ground arith

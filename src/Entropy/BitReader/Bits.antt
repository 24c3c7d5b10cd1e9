-- ===== src/Entropy/BitReader/Bits.antt =====
-- A packet as a stream of bits: the bit-serial reference of the tests in bit_reader.rs.
use jxr.Base.{
  ℕ, zero, suc, ◌+◌, ◌-◌, ◌*◌, ◌/◌, ◌%◌, ◌^◌, ◌≤◌, ◌<◌, ◌≡◌, refl, ap, ◌∙◌, List, [], ◌∷◌, ◌++◌,
  leb, Bool-cases, ltb, length, take, drop, replicate, get_or, All, length-drop, drop_cons,
  drop_beyond, get_or_beyond, inl, inr, arith,
}
use jxr.Entropy.BitReader.{be_word, word_at, padded_word}
use native.Mathlib.Nat.{pow-suc, add-suc, add-zero, suc-sub-suc, sub-zero}

abbrev pub IsByte : ℕ → Type 0
IsByte b = b < 256

-- Bit `p` of the packet, counted from its start; past the backing slice it is 0.
abbrev pub bit_at : List ℕ → ℕ → ℕ
bit_at bytes p = get_or bytes (p / 8) 0 / 2 ^ (7 - p % 8) % 2

-- The number that the `n` bits from `p` on spell.
unfoldable pub stream_bits : List ℕ → ℕ → ℕ → ℕ
stream_bits bytes p zero = 0
stream_bits bytes p (suc n) = stream_bits bytes p n * 2 + bit_at bytes (p + n)

pub stream_bits-lt : (bytes : List ℕ) (p n : ℕ) → stream_bits bytes p n < 2 ^ n
unfolding stream_bits
stream_bits-lt bytes p zero = omega arith
stream_bits-lt bytes p (suc n) = omega (arith, pow-suc 2 n, stream_bits-lt bytes p n)

pub stream_bits_add :
    (bytes : List ℕ) (p a b : ℕ)
    → stream_bits bytes p (a + b) ≡ stream_bits bytes p a * 2 ^ b + stream_bits bytes (p + a) b
unfolding stream_bits
stream_bits_add bytes p a zero = rw add-zero (omega arith)
stream_bits_add bytes p a (suc b) =
    let place : p + a + b ≡ p + (a + b) = omega arith in
    rw (add-suc, place)
      (omega (
        arith,
        stream_bits_add bytes p a b,
        ap (λ (t : ℕ). stream_bits bytes p a * t) (pow-suc 2 b),
      ))

pub stream_bits_split :
    (bytes : List ℕ) (p a b n : ℕ)
    → n ≡ a + b
    → stream_bits bytes p n ≡ stream_bits bytes p a * 2 ^ b + stream_bits bytes (p + a) b
stream_bits_split bytes p a b n e = rw e (stream_bits_add bytes p a b)

byte_at : List ℕ → ℕ → ℕ
byte_at bytes k = get_or bytes k 0

byte_at-lt : (bytes : List ℕ) (k : ℕ) → All IsByte bytes → byte_at bytes k < 256
unfolding byte_at
byte_at-lt [] k h = omega arith
byte_at-lt (b ∷ bytes) zero h = h.0
byte_at-lt (b ∷ bytes) (suc k) h = byte_at-lt bytes k h.1

bit_in_byte :
    (bytes : List ℕ) (k j : ℕ)
    → j < 8
    → bit_at bytes (8 * k + j) ≡ byte_at bytes k / 2 ^ (7 - j) % 2
unfolding byte_at
bit_in_byte bytes k j h =
    let place : (8 * k + j) / 8 ≡ k = omega arith in
    let offset : (8 * k + j) % 8 ≡ j = omega arith in rw (place, offset) refl

stream_byte :
    (bytes : List ℕ) (k : ℕ) → All IsByte bytes → stream_bits bytes (8 * k) 8 ≡ byte_at bytes k
unfolding stream_bits
stream_byte bytes k h = omega (
  arith,
  byte_at-lt bytes k h,
  bit_in_byte bytes k 0 (omega arith),
  bit_in_byte bytes k 1 (omega arith),
  bit_in_byte bytes k 2 (omega arith),
  bit_in_byte bytes k 3 (omega arith),
  bit_in_byte bytes k 4 (omega arith),
  bit_in_byte bytes k 5 (omega arith),
  bit_in_byte bytes k 6 (omega arith),
  bit_in_byte bytes k 7 (omega arith),
)

-- `n` bytes from `k` on behind the word `acc`.
bytes_word : List ℕ → ℕ → ℕ → ℕ → ℕ
bytes_word bytes acc k zero = acc
bytes_word bytes acc k (suc n) = bytes_word bytes (acc * 256 + byte_at bytes k) (suc k) n

chunk_word :
    (bytes : List ℕ) (acc k n : ℕ)
    → k + n ≤ length bytes
    → be_word acc (take n (drop k bytes)) ≡ bytes_word bytes acc k n
unfolding bytes_word byte_at
chunk_word bytes acc k zero h = refl
chunk_word bytes acc k (suc n) h =
    rw (drop_cons bytes k 0 (omega arith))
      (chunk_word bytes (acc * 256 + byte_at bytes k) (suc k) n (omega arith))

padded_bytes :
    (bytes : List ℕ) (acc k n : ℕ)
    → length (drop k bytes) ≤ n
    → be_word acc (drop k bytes ++ replicate (n - length (drop k bytes)) 0)
      ≡ bytes_word bytes acc k n
unfolding bytes_word byte_at
padded_bytes bytes acc k zero h =
    let all_read : drop k bytes ≡ [] = drop_beyond bytes k (omega (arith, length-drop k bytes)) in
    rw all_read refl
padded_bytes bytes acc k (suc n) h = elim (Bool-cases (ltb k (length bytes))) [
  | inl inside ↦
      let next = drop_cons bytes k 0 (ground arith) in
      rw (next, suc-sub-suc)
        (padded_bytes bytes (acc * 256 + byte_at bytes k) (suc k) n (omega (arith, ap length next)))
  | inr past ↦
      let all_read : drop k bytes ≡ [] = drop_beyond bytes k (ground arith) in
      let none_left : drop (suc k) bytes ≡ [] = drop_beyond bytes (suc k) (ground arith) in
      let zero_byte : byte_at bytes k ≡ 0 = get_or_beyond bytes k 0 (ground arith) in
      rw (all_read, zero_byte, sub-zero)
        (rw (none_left, sub-zero) at
          (padded_bytes bytes (acc * 256 + 0) (suc k) n (rw none_left (omega arith))))
]

first_byte :
    (bytes : List ℕ) (k n m : ℕ)
    → All IsByte bytes
    → m ≡ 8 + n
    → stream_bits bytes (8 * k) m ≡ byte_at bytes k * 2 ^ n + stream_bits bytes (8 * suc k) n
first_byte bytes k n m h e =
    let next : 8 * suc k ≡ 8 * k + 8 = omega arith in
    rw (stream_bits_split bytes (8 * k) 8 n m e, stream_byte bytes k h, next) refl

bytes_word-stream :
    (bytes : List ℕ) (k : ℕ)
    → All IsByte bytes
    → bytes_word bytes 0 k 8 ≡ stream_bits bytes (8 * k) 64
unfolding bytes_word
bytes_word-stream bytes k h = omega (
  arith,
  first_byte bytes k 56 64 h refl,
  first_byte bytes (suc k) 48 56 h refl,
  first_byte bytes (suc (suc k)) 40 48 h refl,
  first_byte bytes (suc (suc (suc k))) 32 40 h refl,
  first_byte bytes (suc (suc (suc (suc k)))) 24 32 h refl,
  first_byte bytes (suc (suc (suc (suc (suc k))))) 16 24 h refl,
  first_byte bytes (suc (suc (suc (suc (suc (suc k)))))) 8 16 h refl,
  stream_byte bytes (suc (suc (suc (suc (suc (suc (suc k))))))) h,
)

pub word_at-stream_bits :
    (bytes : List ℕ) (k : ℕ) → All IsByte bytes → word_at bytes k ≡ stream_bits bytes (8 * k) 64
unfolding word_at padded_word
word_at-stream_bits bytes k h = elim (Bool-cases (leb (k + 8) (length bytes))) [
  | inl inside ↦ rw inside (chunk_word bytes 0 k 8 (ground arith) ∙ bytes_word-stream bytes k h)
  | inr past ↦
      rw past (
        padded_bytes bytes 0 k 8 (ground (arith, length-drop k bytes))
        ∙ bytes_word-stream bytes k h)
]

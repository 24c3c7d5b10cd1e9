-- ===== src/Entropy/BitReader.antt =====
-- crates/jxr-native/src/entropy/bit_reader.rs: `PacketBitReader`, most significant bit first.
-- `u64` words keep their wrap-around; positions stay at most `bit_length`, so they do not wrap.
pub mod Bits
pub mod Cache
pub mod Read
pub mod Peek
pub mod Safe
use jxr.Base.{
  ℕ, ◌+◌, ◌-◌, ◌*◌, ◌/◌, ◌%◌, ◌^◌, min, bit_and, bit_or, Bool, true, false, not, ◌&&◌, Option, none,
  some, List, [], ◌∷◌, ◌++◌, ltb, leb, ◌==◌, if◌then◌else◌, length, take, drop, replicate,
}
use jxr.Base.Int.{pos}
use jxr.Entropy.Step.{
  Result, ok, err, Step, ◌>>=◌, return, unexpected_end, invalid_bit_length, invalid_parameter,
}

abbrev pub usize_max : ℕ
usize_max = 2 ^ 64 - 1

pub record PacketBitReader : Type 0 where
  pub bytes : List ℕ
  pub bit_position : ℕ
  pub bit_length : ℕ
  pub cache : ℕ
  pub cached : ℕ

-- `bytes.len().saturating_mul(8)`
abbrev pub available_bits : List ℕ → ℕ
available_bits bytes = min (length bytes * 8) usize_max

abbrev pub at_start : List ℕ → ℕ → PacketBitReader
at_start bytes n = record { bytes = bytes; bit_position = 0; bit_length = n; cache = 0; cached = 0 }

unfoldable pub new : List ℕ → PacketBitReader
new bytes = at_start bytes (available_bits bytes)

unfoldable pub with_bit_length : List ℕ → ℕ → Result PacketBitReader
with_bit_length bytes n =
    if ltb (available_bits bytes) n
    then err (invalid_bit_length n (available_bits bytes))
    else ok (at_start bytes n)

abbrev pub bits_remaining : PacketBitReader → ℕ
bits_remaining r = r.bit_length - r.bit_position

-- `u64::from_be_bytes`
abbrev pub be_word : ℕ → List ℕ → ℕ
be_word acc [] = acc
be_word acc (b ∷ bytes) = be_word (acc * 256 + b) bytes

unfoldable pub padded_word : List ℕ → ℕ → ℕ
padded_word bytes byte =
    let tail = drop byte bytes in be_word 0 (tail ++ replicate (8 - length tail) 0)

-- The eight bytes at `byte`; `bytes.get(byte..byte + 8)` is `None` past the end.
unfoldable pub word_at : List ℕ → ℕ → ℕ
word_at bytes byte =
    if leb (byte + 8) (length bytes)
    then be_word 0 (take 8 (drop byte bytes))
    else padded_word bytes byte

-- The number of bits that `window` returns with the cache. The subtraction keeps the wrap-around of a
-- `usize`; no reader stands behind its end.
unfoldable pub window_bits : ℕ → ℕ → ℕ
window_bits bit_position bit_length =
    min (64 - bit_position % 8) ((bit_length + 2 ^ 64 - bit_position) % 2 ^ 64)

unfoldable pub window_cache : List ℕ → ℕ → ℕ → ℕ
window_cache bytes bit_position bit_length =
    let bits = window_bits bit_position bit_length in
    if bits == 0
    then 0
    else bit_and (word_at bytes (bit_position / 8) * 2 ^ (bit_position % 8) % 2 ^ 64)
        ((2 ^ 64 - 1) * 2 ^ (64 - bits) % 2 ^ 64)

unfoldable pub refill : PacketBitReader → PacketBitReader
refill r = record r {
  cache = window_cache r.bytes r.bit_position r.bit_length;
  cached = window_bits r.bit_position r.bit_length;
}

-- `if n > self.cached { self.refill() }`
unfoldable pub filled : ℕ → PacketBitReader → PacketBitReader
filled n r = if ltb r.cached n then refill r else r

-- The first `count` bits of the cache; the shift is split so that a width of zero is defined.
abbrev pub leading : ℕ → ℕ → ℕ
leading cache count = cache / 2 / 2 ^ (63 - count)

unfoldable pub advance : ℕ → PacketBitReader → PacketBitReader
advance count r = record r {
  bit_position = r.bit_position + count;
  cache = r.cache * 2 ^ count % 2 ^ 64;
  cached = r.cached - count;
}

unfoldable pub consume_cached : ℕ → PacketBitReader → ℕ × PacketBitReader
consume_cached count r = (leading r.cache count, advance count r)

abbrev pub end_error : {A : Type 0} → ℕ → PacketBitReader → Result A
end_error count r = err (unexpected_end r.bit_position count r.bit_length)

-- `read_bits` at a width of at most 57.
unfoldable pub read_narrow_bits : ℕ → Step PacketBitReader ℕ
read_narrow_bits count r =
    let full = filled count r in
    if ltb full.cached count
    then (end_error count full, full)
    else (ok (consume_cached count full).0, (consume_cached count full).1)

-- Its two inner calls of `read_bits` have widths of at most 32.
unfoldable pub read_wide_bits : ℕ → Step PacketBitReader ℕ
read_wide_bits count r =
    if ltb 64 count
    then (err (invalid_parameter "bit count" (pos count)), r)
    else if ltb (bits_remaining r) count
    then (end_error count r, r)
    else (do
      high ← read_narrow_bits (count - 32)
      low ← read_narrow_bits 32
      return (bit_or (high * 2 ^ 32 % 2 ^ 64) low))
        r

unfoldable pub read_bits : ℕ → Step PacketBitReader ℕ
read_bits count = if ltb 57 count then read_wide_bits count else read_narrow_bits count

unfoldable pub read_bit : Step PacketBitReader Bool
read_bit = do bit ← read_bits 1; return (not (bit == 0))

unfoldable pub peek_byte : PacketBitReader → ℕ × PacketBitReader
peek_byte r = let full = filled 8 r in (full.cache / 2 ^ 56, full)

unfoldable pub skip_cached : ℕ → PacketBitReader → Bool × PacketBitReader
skip_cached count r = if ltb r.cached count then (false, r) else (true, (consume_cached count r).1)

-- `none` near the packet end, with nothing consumed.
unfoldable pub read_magnitude_and_sign :
    ℕ → Bool → PacketBitReader → Option (ℕ × Bool) × PacketBitReader
read_magnitude_and_sign bits is_signed r =
    let needed = bits + 1 in
    let full = filled needed r in
    let magnitude = leading full.cache bits in
    let take_sign = is_signed && not (magnitude == 0) in
    let negative = take_sign && not (full.cache * 2 ^ bits % 2 ^ 64 / 2 ^ 63 == 0) in
    if ltb full.cached needed
    then (none, full)
    else (some (magnitude, negative), advance (bits + (if take_sign then 1 else 0)) full)

-- The error of a bit-serial reader after `consumed` more bits.
abbrev pub unexpected_end_after : {A : Type 0} → ℕ → PacketBitReader → Result A
unexpected_end_after consumed r =
    err (unexpected_end (min (r.bit_position + consumed) usize_max) 1 r.bit_length)

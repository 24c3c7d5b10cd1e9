-- ===== src/Entropy/BitReader/Cache.antt =====
-- The cache of `PacketBitReader` in bit_reader.rs, and the bits that it holds.
use jxr.Base.{
  ℕ, ◌+◌, ◌-◌, ◌*◌, ◌/◌, ◌%◌, ◌^◌, ◌≤◌, ◌≡◌, refl, ◌∙◌, inl, inr, List, Bool-cases, ◌==◌, length,
  All, arith, bit_and, min,
}
use jxr.Base.Bits.{
  pow_split, bit_and_shifted, bit_and_low_mask, fields_shifted, shift_out, high_mask,
  div_mod_fields, leading_field,
}
use jxr.Entropy.Step.{ok}
use jxr.Entropy.BitReader.{
  PacketBitReader, usize_max, new, with_bit_length, word_at, window_bits, window_cache, refill,
  advance, leading, available_bits, at_start,
}
use jxr.Entropy.BitReader.Bits.{
  IsByte, stream_bits, stream_bits-lt, stream_bits_split, word_at-stream_bits,
}
use native.Mathlib.Nat.{mod-eq_of_lt, mul_assoc}

pub record IsValid (r : PacketBitReader) : Type 0 where
  pub bytes_ok : All IsByte r.bytes
  pub fits : r.bit_length ≤ 8 * length r.bytes
  pub usize_fits : r.bit_length ≤ usize_max
  pub within : r.bit_position + r.cached ≤ r.bit_length
  pub width : r.cached ≤ 64
  pub content : r.cache ≡ stream_bits r.bytes r.bit_position r.cached * 2 ^ (64 - r.cached)

-- The word under the position, shifted so that the unread bits stand at its top.
aligned :
    (bytes : List ℕ) (p : ℕ)
    → All IsByte bytes
    → word_at bytes (p / 8) * 2 ^ (p % 8) % 2 ^ 64 ≡ stream_bits bytes p (64 - p % 8) * 2 ^ (p % 8)
aligned bytes p h =
    let place : 8 * (p / 8) + p % 8 ≡ p = omega arith in
    let split = stream_bits_split bytes (8 * (p / 8)) (p % 8) (64 - p % 8) 64 (omega arith) in
    rw (word_at-stream_bits bytes (p / 8) h, split, place)
      (shift_out _ _ (64 - p % 8) (p % 8) 64 (omega arith) (stream_bits-lt bytes p (64 - p % 8)))

-- The mask keeps the `bits` that belong to the packet.
masked :
    (bytes : List ℕ) (p off bits d : ℕ)
    → 64 - off ≡ bits + d
    → off ≤ 64
    → bit_and (stream_bits bytes p (64 - off) * 2 ^ off) ((2 ^ 64 - 1) * 2 ^ (64 - bits) % 2 ^ 64)
      ≡ stream_bits bytes p bits * 2 ^ (64 - bits)
masked bytes p off bits d split in_word =
    let fits = stream_bits-lt bytes (p + bits) d in
    let (sum, below) =
      fields_shifted (stream_bits bytes p bits) _ d off (64 - bits) (omega arith) fits in
    let top = (div_mod_fields (stream_bits bytes p bits) _ (2 ^ (64 - bits)) below).0 in
    rw
      (
        stream_bits_split bytes p bits d (64 - off) split,
        sum,
        high_mask bits (64 - bits) 64 (omega arith),
        bit_and_shifted,
        top,
        bit_and_low_mask,
        mod-eq_of_lt (stream_bits-lt bytes p bits),
      )
      refl

content_lem :
    (bytes : List ℕ) (p len : ℕ)
    → All IsByte bytes
    → window_cache bytes p len
      ≡ stream_bits bytes p (window_bits p len) * 2 ^ (64 - window_bits p len)
unfolding window_cache
content_lem bytes p len h = elim (Bool-cases (window_bits p len == 0)) [
  | inl empty ↦
      let none_left : window_bits p len ≡ 0 = ground arith in
      rw empty (rw none_left (unfold stream_bits in refl))
  | inr some_left ↦
      rw (some_left, aligned bytes p h)
        (masked bytes p (p % 8) (window_bits p len) (64 - p % 8 - window_bits p len)
          (unfold window_bits in omega arith) (omega arith))
]

-- The word that `window` makes of a packet at a position, for a limit in bits.
pub record IsNextBits (bytes : List ℕ) (p len : ℕ) : Type 0 where
  pub within : p + window_bits p len ≤ len
  pub width : window_bits p len ≤ 64
  pub enough : min 57 (len - p) ≤ window_bits p len
  pub content :
      window_cache bytes p len
      ≡ stream_bits bytes p (window_bits p len) * 2 ^ (64 - window_bits p len)

-- At each position of a packet of bytes up to a limit that is a `usize`, the window stays within the
-- limit, holds 57 bits at least unless the limit is nearer and then all that are left, and is these
-- next bits of the packet at the top of the word with zeros below.
pub window_cache-IsNextBits :
    (bytes : List ℕ) (p len : ℕ)
    → All IsByte bytes
    → p ≤ len
    → len ≤ usize_max
    → IsNextBits bytes p len
window_cache-IsNextBits bytes p len h before small = record {
  within = unfold window_bits in omega arith;
  width = unfold window_bits in omega arith;
  enough = unfold window_bits in omega arith;
  content = content_lem bytes p len h;
}

-- A refill keeps the reader valid.
pub refill-IsValid : {r : PacketBitReader} → IsValid r → IsValid (refill r)
unfolding refill
refill-IsValid {r} v =
    let w =
      window_cache-IsNextBits r.bytes r.bit_position r.bit_length v.bytes_ok
        (omega (arith, v.within)) v.usize_fits in
    record {
      bytes_ok = v.bytes_ok;
      fits = v.fits;
      usize_fits = v.usize_fits;
      within = w.within;
      width = w.width;
      content = w.content;
    }

-- What stands in the cache before the last `d` bits.
cache_split :
    {r : PacketBitReader} (c d : ℕ)
    → IsValid r
    → r.cached ≡ c + d
    → r.cache
      ≡ (stream_bits r.bytes r.bit_position c * 2 ^ d + stream_bits r.bytes (r.bit_position + c) d)
        * 2 ^ (64 - r.cached)
cache_split {r} c d v e =
    v.content ∙ rw (stream_bits_split r.bytes r.bit_position c d r.cached e) refl

-- The leading bits of the cache are the next bits of the packet.
pub leading-stream_bits :
    {r : PacketBitReader} (c : ℕ)
    → IsValid r
    → c ≤ r.cached
    → c ≤ 63
    → leading r.cache c ≡ stream_bits r.bytes r.bit_position c
leading-stream_bits {r} c v cached narrow =
    let d = r.cached - c in
    let h = v.width in
    rw (cache_split c d v (omega arith)) (
      leading_field _ _ d (64 - r.cached) (63 - c) (64 - c) (omega arith) (omega arith)
        (stream_bits-lt r.bytes (r.bit_position + c) d))

pub advance-IsValid :
    {r : PacketBitReader} (c : ℕ) → IsValid r → c ≤ r.cached → IsValid (advance c r)
unfolding advance
advance-IsValid {r} c v cached =
    let d = r.cached - c in
    let h = v.width in
    let g = v.within in
    let shifted_content : r.cache * 2 ^ c % 2 ^ 64
        ≡ stream_bits r.bytes (r.bit_position + c) d * 2 ^ (64 - d) =
      rw
        (
          cache_split c d v (omega arith),
          mul_assoc,
          ← pow_split (64 - r.cached) c (64 - d) (omega arith),
        )
        (shift_out _ _ d (64 - d) 64 (omega arith)
          (stream_bits-lt r.bytes (r.bit_position + c) d)) in
    record {
      bytes_ok = v.bytes_ok;
      fits = v.fits;
      usize_fits = v.usize_fits;
      within = omega arith;
      width = omega arith;
      content = shifted_content;
    }

at_start-IsValid :
    (bytes : List ℕ) (n : ℕ)
    → All IsByte bytes
    → n ≤ available_bits bytes
    → IsValid (at_start bytes n)
at_start-IsValid bytes n h g = record {
  bytes_ok = h;
  fits = omega arith;
  usize_fits = omega arith;
  within = omega arith;
  width = omega arith;
  content = unfold stream_bits in refl;
}

-- A new reader is valid and stands at the start of the packet.
pub new-IsValid : (bytes : List ℕ) → All IsByte bytes → IsValid (new bytes)
unfolding new
new-IsValid bytes h = at_start-IsValid bytes (available_bits bytes) h (omega arith)

pub with_bit_length-IsValid :
    (bytes : List ℕ) (n : ℕ)
    → All IsByte bytes
    → n ≤ available_bits bytes
    → (with_bit_length bytes n ≡ ok (at_start bytes n)) × IsValid (at_start bytes n)
unfolding with_bit_length
with_bit_length-IsValid bytes n h g = (ground arith, at_start-IsValid bytes n h g)

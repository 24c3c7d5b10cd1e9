-- ===== src/Entropy/BitReader/Peek.antt =====
-- The reads that vlc.rs, coefficients.rs and refinement.rs make through the cache.
use jxr.Base.{
  ℕ, ◌-◌, ◌*◌, ◌/◌, ◌^◌, ◌≤◌, ◌<◌, ◌≡◌, refl, sym, ap, ◌∙◌, inl, inr, true, false, not, Bool-cases,
  ltb, ◌==◌, arith, min,
}
use jxr.Base.Bits.{div_div, pow_split}
use jxr.Entropy.Step.{ok, err, run_eq, unexpected_end}
use jxr.Entropy.BitReader.{
  PacketBitReader, window_bits, refill, filled, advance, consume_cached, read_bits, read_bit,
  peek_byte, skip_cached,
}
use jxr.Entropy.BitReader.Bits.{stream_bits}
use jxr.Entropy.BitReader.Cache.{IsValid}
use jxr.Entropy.BitReader.Read.{
  IsAfter, filled-IsAfter, advance-IsAfter, leading-filled, read_bits_enough, read_bits_short,
  IsAfter-stream_bits, IsAfter-none,
}
use native.Mathlib.Nat.{add-zero, mul_assoc, mul-div_cancel}

pub read_bit_enough :
    (r : PacketBitReader)
    → IsValid r
    → r.bit_position < r.bit_length
    → ((read_bit r).0 ≡ ok (not (stream_bits r.bytes r.bit_position 1 == 0)))
      × IsAfter 1 r (read_bit r).1
unfolding read_bit
read_bit_enough r v left =
    let (value, after) = read_bits_enough 1 r v (omega arith) (omega arith) in
    rw (run_eq (read_bits 1 r) value) (refl, after)

pub read_bit_short :
    (r : PacketBitReader)
    → IsValid r
    → r.bit_length ≤ r.bit_position
    → ((read_bit r).0 ≡ err (unexpected_end r.bit_position 1 r.bit_length))
      × IsAfter 0 r (read_bit r).1
unfolding read_bit
read_bit_short r v short =
    let (value, after) = read_bits_short 1 r v (omega arith) (omega arith) in
    rw (run_eq (read_bits 1 r) value) (refl, after)

-- The number of unread bits that one peek shows.
abbrev pub shown : PacketBitReader → ℕ
shown r = min 8 (r.bit_length - r.bit_position)

start_bits :
    (n : ℕ) {r s : PacketBitReader}
    → IsAfter 0 r s
    → stream_bits s.bytes s.bit_position n ≡ stream_bits r.bytes r.bit_position n
start_bits n {r} a = IsAfter-stream_bits n 0 a ∙ rw add-zero refl

-- A cache that is still short holds all the unread bits.
pub filled_all :
    (n : ℕ) (r : PacketBitReader)
    → IsValid r
    → n ≤ 57
    → (filled n r).cached < n
    → (filled n r).cached ≡ r.bit_length - r.bit_position
unfolding filled refill window_bits
filled_all n r v narrow short =
    let within = v.within in let usize_fits = v.usize_fits in ground arith

-- The top byte of a cache that holds fewer than eight bits.
top_byte : (q c : ℕ) → c ≤ 8 → q * 2 ^ (64 - c) / 2 ^ 56 ≡ q * 2 ^ (8 - c)
top_byte q c h =
    rw (pow_split (8 - c) 56 (64 - c) (omega arith), ← mul_assoc)
      (mul-div_cancel (q * 2 ^ (8 - c)) (omega arith))

-- The peeked byte is the next bits of the packet, padded by zeros past its end, and as many as
-- there are stand in the cache behind the peek; nothing is consumed.
pub peek_byte-stream_bits :
    (r : PacketBitReader)
    → IsValid r
    → ((peek_byte r).0 ≡ stream_bits r.bytes r.bit_position (shown r) * 2 ^ (8 - shown r))
      × IsAfter 0 r (peek_byte r).1
      × (shown r ≤ (peek_byte r).1.cached)
unfolding peek_byte
peek_byte-stream_bits r v =
    let full = filled-IsAfter 8 r v in
    let inside = v.within in
    let limit = full.valid.within in
    elim (Bool-cases (ltb (filled 8 r).cached 8)) [
      | inl short ↦
          let all_held = filled_all 8 r v (omega arith) (ground arith) in
          let held : shown r ≡ (filled 8 r).cached = ground arith in
          rw held (
            rw full.valid.content (
                top_byte _ (filled 8 r).cached (ground arith)
                ∙ ap (λ (t : ℕ). t * 2 ^ (8 - (filled 8 r).cached))
                    (start_bits (filled 8 r).cached full)),
            full,
            omega arith,
          )
      | inr held ↦
          let eight : shown r ≡ 8 = ground (arith, full.moved, full.same_length) in
          rw eight (
            sym (div_div (filled 8 r).cache 2 (2 ^ 55))
                ∙ leading-filled 8 r 8 v (ground arith) (omega arith)
                ∙ omega arith,
            full,
            ground arith,
          )
    ]

-- A skip of cached bits.
pub skip_cached_enough :
    (n : ℕ) (r : PacketBitReader)
    → IsValid r
    → n ≤ r.cached
    → (skip_cached n r ≡ (true, advance n r)) × IsAfter n r (advance n r)
unfolding skip_cached consume_cached
skip_cached_enough n r v held =
    let test : ltb r.cached n ≡ false = ground arith in
    rw test (refl, advance-IsAfter n (IsAfter-none v) held)

pub skip_cached_short : (n : ℕ) (r : PacketBitReader) → r.cached < n → skip_cached n r ≡ (false, r)
unfolding skip_cached
skip_cached_short n r short = ground arith

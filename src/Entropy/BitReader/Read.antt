-- ===== src/Entropy/BitReader/Read.antt =====
-- Every read of `PacketBitReader` against the bit-serial reference.
use jxr.Base.{
  ℕ, ◌+◌, ◌-◌, ◌*◌, ◌%◌, ◌^◌, ◌≤◌, ◌<◌, ◌≡◌, refl, sym, ap, ◌∙◌, inl, inr, true, false, Bool-cases,
  ltb, if◌then◌else◌, arith, bit_or,
}
use jxr.Base.Bits.{bit_or_shifted}
use jxr.Base.Int.{pos}
use jxr.Entropy.Step.{Result, ok, err, run_eq, unexpected_end, invalid_parameter}
use jxr.Entropy.BitReader.{
  PacketBitReader, window_bits, refill, filled, advance, leading, consume_cached, read_narrow_bits,
  read_wide_bits, read_bits, bits_remaining,
}
use jxr.Entropy.BitReader.Bits.{stream_bits, stream_bits-lt, stream_bits_split}
use jxr.Entropy.BitReader.Cache.{IsValid, refill-IsValid, leading-stream_bits, advance-IsValid}
use native.Mathlib.Nat.{mod-eq_of_lt, add-zero, pow-le-pow_right}

-- `s` is the reader `r` after `n` more bits.
pub record IsAfter (n : ℕ) (r s : PacketBitReader) : Type 0 where
  pub valid : IsValid s
  pub same_bytes : s.bytes ≡ r.bytes
  pub moved : s.bit_position ≡ r.bit_position + n
  pub same_length : s.bit_length ≡ r.bit_length

pub filled-IsAfter : (n : ℕ) (r : PacketBitReader) → IsValid r → IsAfter 0 r (filled n r)
unfolding filled refill
filled-IsAfter n r v = elim (Bool-cases (ltb r.cached n)) [
  | inl short ↦ rw short (record {
    valid = unfold refill in refill-IsValid v;
    same_bytes = refl;
    moved = omega arith;
    same_length = refl;
  })
  | inr held ↦
      rw held (record { valid = v; same_bytes = refl; moved = omega arith; same_length = refl })
]

-- With enough bits left the request is met.
pub filled_enough :
    (n : ℕ) (r : PacketBitReader)
    → IsValid r
    → n ≤ 57
    → r.bit_position + n ≤ r.bit_length
    → n ≤ (filled n r).cached
unfolding filled refill window_bits
filled_enough n r v narrow left = ground arith

pub advance-IsAfter :
    (n : ℕ) {r s : PacketBitReader} → IsAfter 0 r s → n ≤ s.cached → IsAfter n r (advance n s)
advance-IsAfter n {r} {s} a h = record {
  valid = advance-IsValid n a.valid h;
  same_bytes = unfold advance in a.same_bytes;
  moved = let g = a.moved in unfold advance in omega arith;
  same_length = unfold advance in a.same_length;
}

pub IsAfter-stream_bits :
    (n k : ℕ) {r s : PacketBitReader}
    → IsAfter k r s
    → stream_bits s.bytes s.bit_position n ≡ stream_bits r.bytes (r.bit_position + k) n
IsAfter-stream_bits n k a = rw (a.same_bytes, a.moved) refl

-- The leading bits of a filled cache.
pub leading-filled :
    (n : ℕ) (r : PacketBitReader) (c : ℕ)
    → IsValid r
    → c ≤ (filled n r).cached
    → c ≤ 63
    → leading (filled n r).cache c ≡ stream_bits r.bytes r.bit_position c
leading-filled n r c v held narrow =
    let full = filled-IsAfter n r v in
    leading-stream_bits c full.valid held narrow ∙ IsAfter-stream_bits c 0 full ∙ rw add-zero refl

-- With too few bits left it is not.
pub filled_short :
    (n : ℕ) (r : PacketBitReader)
    → IsValid r
    → r.bit_length < r.bit_position + n
    → (filled n r).cached < n
filled_short n r v short = ground (arith, filled-IsAfter n r v)

-- What a bit-serial reader answers to a request of `count` bits, and how far it moves.
unfoldable pub serial_read : ℕ → PacketBitReader → Result ℕ
serial_read count r =
    if ltb 64 count
    then err (invalid_parameter "bit count" (pos count))
    else if ltb r.bit_length (r.bit_position + count)
    then err (unexpected_end r.bit_position count r.bit_length)
    else ok (stream_bits r.bytes r.bit_position count)

unfoldable pub serial_move : ℕ → PacketBitReader → ℕ
serial_move count r =
    if ltb 64 count then 0 else if ltb r.bit_length (r.bit_position + count) then 0 else count

-- The bits that are read, and the reader behind them.
read_narrow_enough :
    (n : ℕ) (r : PacketBitReader)
    → IsValid r
    → n ≤ 57
    → r.bit_position + n ≤ r.bit_length
    → ((read_narrow_bits n r).0 ≡ ok (stream_bits r.bytes r.bit_position n))
      × IsAfter n r (read_narrow_bits n r).1
unfolding read_narrow_bits consume_cached
read_narrow_enough n r v narrow left =
    let full = filled-IsAfter n r v in
    let enough = filled_enough n r v narrow left in
    let test : ltb (filled n r).cached n ≡ false = ground arith in
    rw test (ap ok (leading-filled n r n v enough (omega arith)), advance-IsAfter n full enough)

unexpected_end_ext :
    (n : ℕ) {r s : PacketBitReader}
    → IsAfter 0 r s
    → unexpected_end s.bit_position n s.bit_length ≡ unexpected_end r.bit_position n r.bit_length
unexpected_end_ext n a = rw (a.moved, a.same_length, add-zero) refl

read_narrow_short :
    (n : ℕ) (r : PacketBitReader)
    → IsValid r
    → r.bit_length < r.bit_position + n
    → ((read_narrow_bits n r).0 ≡ err (unexpected_end r.bit_position n r.bit_length))
      × IsAfter 0 r (read_narrow_bits n r).1
unfolding read_narrow_bits
read_narrow_short n r v short =
    let full = filled-IsAfter n r v in
    let test : ltb (filled n r).cached n ≡ true = ground (arith, filled_short n r v short) in
    rw test (ap err (unexpected_end_ext n full), full)

pub IsAfter-add :
    (n m k : ℕ) {r s t : PacketBitReader}
    → k ≡ n + m
    → IsAfter n r s
    → IsAfter m s t
    → IsAfter k r t
IsAfter-add n m k e a b = record {
  valid = b.valid;
  same_bytes = b.same_bytes ∙ a.same_bytes;
  moved = let h = b.moved in let g = a.moved in omega arith;
  same_length = b.same_length ∙ a.same_length;
}

n_minus : (n : ℕ) → n ≤ 64 → n - 32 ≤ 32
n_minus n h = omega arith

-- `(high << 32) | low`
join_halves :
    (n : ℕ) (r : PacketBitReader) {s : PacketBitReader}
    → IsAfter (n - 32) r s
    → n ≤ 64
    → 57 < n
    → bit_or
        (stream_bits r.bytes r.bit_position (n - 32) * 2 ^ 32 % 2 ^ 64)
        (stream_bits s.bytes s.bit_position 32)
      ≡ stream_bits r.bytes r.bit_position n
join_halves n r {s} a in_word wide =
    let high : stream_bits r.bytes r.bit_position (n - 32) * 2 ^ 32 < 2 ^ 64 = omega (
      arith,
      stream_bits-lt r.bytes r.bit_position (n - 32),
      pow-le-pow_right {n = 2} (omega arith) (n_minus n in_word),
    ) in
    rw
      (
        mod-eq_of_lt high,
        bit_or_shifted 32 _ _ (stream_bits-lt s.bytes s.bit_position 32),
        IsAfter-stream_bits 32 (n - 32) a,
      )
      (sym (stream_bits_split r.bytes r.bit_position (n - 32) 32 n (omega arith)))

read_wide_enough :
    (n : ℕ) (r : PacketBitReader)
    → IsValid r
    → 57 < n
    → n ≤ 64
    → r.bit_position + n ≤ r.bit_length
    → ((read_wide_bits n r).0 ≡ ok (stream_bits r.bytes r.bit_position n))
      × IsAfter n r (read_wide_bits n r).1
unfolding read_wide_bits
read_wide_enough n r v wide in_word left =
    let first = read_narrow_enough (n - 32) r v (omega arith) (omega arith) in
    let middle = (read_narrow_bits (n - 32) r).1 in
    let second =
      read_narrow_enough 32 middle first.1.valid (omega arith)
        (omega (arith, first.1.moved, first.1.same_length)) in
    let in_range : ltb 64 n ≡ false = ground arith in
    let available : ltb (bits_remaining r) n ≡ false = ground arith in
    rw
      (
        in_range,
        available,
        run_eq (read_narrow_bits (n - 32) r) first.0,
        run_eq (read_narrow_bits 32 middle) second.0,
      )
      (
        ap ok (join_halves n r first.1 in_word wide),
        IsAfter-add (n - 32) 32 n (omega arith) first.1 second.1,
      )

pub read_bits_enough :
    (n : ℕ) (r : PacketBitReader)
    → IsValid r
    → n ≤ 64
    → r.bit_position + n ≤ r.bit_length
    → ((read_bits n r).0 ≡ ok (stream_bits r.bytes r.bit_position n))
      × IsAfter n r (read_bits n r).1
unfolding read_bits
read_bits_enough n r v in_word left = elim (Bool-cases (ltb 57 n)) [
  | inl wide ↦ rw wide (read_wide_enough n r v (ground arith) in_word left)
  | inr narrow ↦ rw narrow (read_narrow_enough n r v (ground arith) left)
]

pub IsAfter-none : {r : PacketBitReader} → IsValid r → IsAfter 0 r r
IsAfter-none v = record { valid = v; same_bytes = refl; moved = omega arith; same_length = refl }

pub read_bits_short :
    (n : ℕ) (r : PacketBitReader)
    → IsValid r
    → n ≤ 64
    → r.bit_length < r.bit_position + n
    → ((read_bits n r).0 ≡ err (unexpected_end r.bit_position n r.bit_length))
      × IsAfter 0 r (read_bits n r).1
unfolding read_bits read_wide_bits
read_bits_short n r v in_word short =
    let in_range : ltb 64 n ≡ false = ground arith in
    let unavailable : ltb (bits_remaining r) n ≡ true = ground (arith, v.within) in
    elim (Bool-cases (ltb 57 n)) [
      | inl wide ↦ rw (wide, in_range, unavailable) (refl, IsAfter-none v)
      | inr narrow ↦ rw narrow (read_narrow_short n r v short)
    ]

read_bits_over :
    (n : ℕ) (r : PacketBitReader)
    → ltb 64 n ≡ true
    → read_bits n r ≡ (err (invalid_parameter "bit count" (pos n)), r)
unfolding read_bits read_wide_bits
read_bits_over n r over = let wide : ltb 57 n ≡ true = ground arith in rw (wide, over) refl

-- `read_bits` answers as the bit-serial reader does: the same value or the same error, and the
-- position moves by the bits of the value, or not at all on an error.
pub read_bits-serial_read :
    (n : ℕ) (r : PacketBitReader)
    → IsValid r
    → ((read_bits n r).0 ≡ serial_read n r) × IsAfter (serial_move n r) r (read_bits n r).1
unfolding serial_read serial_move
read_bits-serial_read n r v = elim (Bool-cases (ltb 64 n)) [
  | inl over ↦ rw (over, read_bits_over n r over) (refl, IsAfter-none v)
  | inr in_word ↦ elim (Bool-cases (ltb r.bit_length (r.bit_position + n))) [
    | inl short ↦ rw (in_word, short) (read_bits_short n r v (ground arith) (ground arith))
    | inr left ↦ rw (in_word, left) (read_bits_enough n r v (ground arith) (ground arith))
  ]
]

-- ===== src/Entropy/Refinement/Fast.antt =====
-- `decode_flex_fast` and `decode_flex` of refinement.rs.
use jxr.Base.{
  ℕ, ◌+◌, ◌*◌, ◌/◌, ◌%◌, ◌^◌, ◌≤◌, ◌<◌, ◌≡◌, refl, sym, ◌∙◌, arith, true, false, not, ◌&&◌, inl,
  inr, Bool-cases, ltb, ◌==◌, if◌then◌else◌,
}
use jxr.Base.Bits.{div_div}
use jxr.Base.Int.{ℤ, pos, negsuc, in_i32}
use jxr.Entropy.Step.{Result, ok, err, run_eq, unexpected_end}
use jxr.Entropy.BitReader.{
  PacketBitReader, read_bits, read_bit, filled, advance, read_magnitude_and_sign,
}
use jxr.Entropy.BitReader.Bits.{stream_bits, stream_bits-lt}
use jxr.Entropy.BitReader.Cache.{IsValid, leading-stream_bits}
use jxr.Entropy.BitReader.Read.{
  IsAfter, IsAfter-add, IsAfter-stream_bits, filled-IsAfter, advance-IsAfter, leading-filled,
  read_bits_enough, read_bits_short,
}
use jxr.Entropy.BitReader.Peek.{read_bit_enough, read_bit_short}
use jxr.Entropy.Refinement.{
  negate, signed, apply_sign, is_zero, is_negative, decode_flex, decode_flex_fast,
}
use native.Mathlib.Nat.{add-zero, pow-le-pow_right}

-- The flexbits of a coefficient, from the bits of the packet.
unfoldable pub flex_result : ℤ → ℕ → PacketBitReader → Result ℤ
flex_result v n r =
    let m = stream_bits r.bytes r.bit_position n in
    if ltb r.bit_length (r.bit_position + n)
    then err (unexpected_end r.bit_position n r.bit_length)
    else if is_negative v
    then ok (negate (pos m))
    else if is_zero v && not (m == 0)
    then (if ltb r.bit_length (r.bit_position + n + 1)
        then err (unexpected_end (r.bit_position + n) 1 r.bit_length)
        else ok (if stream_bits r.bytes (r.bit_position + n) 1 == 0 then pos m else negate (pos m)))
    else ok (pos m)

unfoldable pub flex_move : ℤ → ℕ → PacketBitReader → ℕ
flex_move v n r =
    if ltb r.bit_length (r.bit_position + n)
    then 0
    else if is_negative v
    then n
    else if is_zero v && not (stream_bits r.bytes r.bit_position n == 0)
    then (if ltb r.bit_length (r.bit_position + n + 1) then n else n + 1)
    else n

magnitude-lt :
    (n : ℕ) (r : PacketBitReader) → n ≤ 29 → stream_bits r.bytes r.bit_position n < 2 ^ 29
magnitude-lt n r h =
    omega (arith, stream_bits-lt r.bytes r.bit_position n, pow-le-pow_right {n = 2} (omega arith) h)

negate-fits : (m : ℕ) → m < 2 ^ 29 → in_i32 (negate (pos m)) ≡ true
unfolding negate
negate-fits m h = ground arith

-- The sign that follows a magnitude.
apply_sign_enough :
    (m : ℕ) (r : PacketBitReader)
    → IsValid r
    → (m == 0) ≡ false
    → m < 2 ^ 29
    → r.bit_position < r.bit_length
    → ((apply_sign (pos m) r).0
        ≡ ok (if stream_bits r.bytes r.bit_position 1 == 0 then pos m else negate (pos m)))
      × IsAfter 1 r (apply_sign (pos m) r).1
unfolding apply_sign signed
apply_sign_enough m r v nz small left =
    let (value, after) = read_bit_enough r v left in
    elim (Bool-cases (stream_bits r.bytes r.bit_position 1 == 0)) [
      | inl zero_bit ↦ rw (nz, run_eq (read_bit r) value, zero_bit) (refl, after)
      | inr one_bit ↦ rw (nz, run_eq (read_bit r) value, one_bit, negate-fits m small) (refl, after)
    ]

apply_sign_short :
    (m : ℕ) (r : PacketBitReader)
    → IsValid r
    → (m == 0) ≡ false
    → r.bit_length ≤ r.bit_position
    → ((apply_sign (pos m) r).0 ≡ err (unexpected_end r.bit_position 1 r.bit_length))
      × IsAfter 0 r (apply_sign (pos m) r).1
unfolding apply_sign
apply_sign_short m r v nz short =
    let (value, after) = read_bit_short r v short in
    rw (nz, run_eq (read_bit r) value) (refl, after)

-- `decode_flex` behind its bits.
decode_flex-flex_result :
    (v : ℤ) (n : ℕ) (r : PacketBitReader)
    → IsValid r
    → n ≤ 29
    → ((decode_flex v n r).0 ≡ flex_result v n r)
      × IsAfter (flex_move v n r) r (decode_flex v n r).1
unfolding decode_flex flex_result flex_move signed
decode_flex-flex_result v n r valid narrow =
    let m = stream_bits r.bytes r.bit_position n in
    let small = magnitude-lt n r narrow in
    let in_range : ltb 29 n ≡ false = ground arith in
    let fits : in_i32 (pos m) ≡ true = ground arith in
    elim (Bool-cases (ltb r.bit_length (r.bit_position + n))) [
      | inl short ↦
          let (value, after) = read_bits_short n r valid (omega arith) (ground arith) in
          rw (in_range, short, run_eq (read_bits n r) value) (refl, after)
      | inr long ↦
          let (value, after) = read_bits_enough n r valid (omega arith) (ground arith) in
          elim (Bool-cases (is_negative v)) [
            | inl minus ↦
                rw (in_range, long, run_eq (read_bits n r) value, fits, minus, negate-fits m small)
                  (refl, after)
            | inr plus ↦ elim (Bool-cases (is_zero v)) [
              | inr other ↦
                  rw (in_range, long, run_eq (read_bits n r) value, fits, plus, other) (refl, after)
              | inl zero ↦ elim (Bool-cases (m == 0)) [
                | inl none_left ↦
                    let e : m ≡ 0 = ground arith in
                    rw (in_range, long, run_eq (read_bits n r) value, fits, plus, zero, none_left)
                      (rw e refl, after)
                | inr some_left ↦ elim (Bool-cases (ltb r.bit_length (r.bit_position + n + 1))) [
                  | inl ended ↦
                      let (e, last) =
                        apply_sign_short m (read_bits n r).1 after.valid some_left
                          (ground (arith, after.moved, after.same_length)) in
                      rw
                        (
                          in_range,
                          long,
                          run_eq (read_bits n r) value,
                          fits,
                          plus,
                          zero,
                          some_left,
                          ended,
                        )
                        (
                          e ∙ rw (after.moved, after.same_length) refl,
                          IsAfter-add n 0 n (omega arith) after last,
                        )
                  | inr left ↦
                      let (e, last) =
                        apply_sign_enough m (read_bits n r).1 after.valid some_left small
                          (ground (arith, after.moved, after.same_length)) in
                      rw
                        (
                          in_range,
                          long,
                          run_eq (read_bits n r) value,
                          fits,
                          plus,
                          zero,
                          some_left,
                          left,
                        )
                        (
                          e ∙ rw (IsAfter-stream_bits 1 n after) refl,
                          IsAfter-add n 1 (n + 1) refl after last,
                        )
                ]
              ]
            ]
          ]
    ]

-- The sign bit that follows `n` cached bits.
sign_bit :
    (n : ℕ) (r s : PacketBitReader)
    → IsAfter 0 r s
    → n + 1 ≤ s.cached
    → s.cache * 2 ^ n % 2 ^ 64 / 2 ^ 63 ≡ stream_bits r.bytes (r.bit_position + n) 1
sign_bit n r s a held =
    let next = advance-IsAfter n a (omega arith) in
    let room : 1 ≤ (advance n s).cached = unfold advance in omega arith in
    let first : (advance n s).cache / 2 / 2 ^ 62 ≡ stream_bits r.bytes (r.bit_position + n) 1 =
      leading-stream_bits 1 next.valid room (omega arith) ∙ IsAfter-stream_bits 1 n next in
    sym (div_div (s.cache * 2 ^ n % 2 ^ 64) 2 (2 ^ 62)) ∙ (unfold advance in first)

negative_not_zero : (v : ℤ) → is_negative v ≡ true → is_zero v ≡ false
negative_not_zero (pos m) h = absurd (ground arith)
negative_not_zero (negsuc m) h = refl

-- Where the fast path has its bits in the cache.
fast-held :
    (v : ℤ) (n : ℕ) (r : PacketBitReader)
    → IsValid r
    → n ≤ 29
    → ltb (filled (n + 1) r).cached (n + 1) ≡ false
    → ((decode_flex_fast v n r).0 ≡ flex_result v n r)
      × IsAfter (flex_move v n r) r (decode_flex_fast v n r).1
unfolding decode_flex_fast read_magnitude_and_sign flex_result flex_move
fast-held v n r valid narrow held =
    let full = filled-IsAfter (n + 1) r valid in
    let inside = full.valid.within in
    let cached : n + 1 ≤ (filled (n + 1) r).cached = ground arith in
    let m = stream_bits r.bytes r.bit_position n in
    let small = magnitude-lt n r narrow in
    let fits : in_i32 (pos m) ≡ true = ground arith in
    let long : ltb r.bit_length (r.bit_position + n) ≡ false =
      ground (arith, full.moved, full.same_length) in
    let left : ltb r.bit_length (r.bit_position + n + 1) ≡ false =
      ground (arith, full.moved, full.same_length) in
    let value = leading-filled (n + 1) r n valid (omega arith) (omega arith) in
    let sign = sign_bit n r (filled (n + 1) r) full cached in
    let after_0 = advance-IsAfter n full (omega arith) in
    let after_1 = advance-IsAfter (n + 1) full cached in
    elim (Bool-cases (is_negative v)) [
      | inl minus ↦
          rw (held, value, fits, long, minus, negative_not_zero v minus, add-zero) (refl, after_0)
      | inr plus ↦ elim (Bool-cases (is_zero v)) [
        | inr other ↦ rw (held, value, fits, long, plus, other, add-zero) (refl, after_0)
        | inl zero ↦ elim (Bool-cases (m == 0)) [
          | inl none_left ↦
              rw (held, value, fits, long, plus, zero, none_left, add-zero) (refl, after_0)
          | inr some_left ↦ elim (Bool-cases (stream_bits r.bytes (r.bit_position + n) 1 == 0)) [
            | inl positive ↦
                rw (held, value, fits, long, left, plus, zero, some_left, sign, positive)
                  (refl, after_1)
            | inr negative ↦
                rw (held, value, fits, long, left, plus, zero, some_left, sign, negative)
                  (refl, after_1)
          ]
        ]
      ]
    ]

flex_result-IsAfter :
    (v : ℤ) (n : ℕ) (r s : PacketBitReader) → IsAfter 0 r s → flex_result v n s ≡ flex_result v n r
unfolding flex_result
flex_result-IsAfter v n r s a = rw (a.same_bytes, a.moved, a.same_length, add-zero) refl

flex_move-IsAfter :
    (v : ℤ) (n : ℕ) (r s : PacketBitReader) → IsAfter 0 r s → flex_move v n s ≡ flex_move v n r
unfolding flex_move
flex_move-IsAfter v n r s a = rw (a.same_bytes, a.moved, a.same_length, add-zero) refl

fast_missing :
    (v : ℤ) (n : ℕ) (r : PacketBitReader)
    → ltb (filled (n + 1) r).cached (n + 1) ≡ true
    → decode_flex_fast v n r ≡ decode_flex v n (filled (n + 1) r)
unfolding decode_flex_fast read_magnitude_and_sign
fast_missing v n r missing = rw missing refl

-- The fast decoder too gives the result and the move that the packet's bits determine.
decode_flex_fast-flex_result :
    (v : ℤ) (n : ℕ) (r : PacketBitReader)
    → IsValid r
    → n ≤ 29
    → ((decode_flex_fast v n r).0 ≡ flex_result v n r)
      × IsAfter (flex_move v n r) r (decode_flex_fast v n r).1
decode_flex_fast-flex_result v n r valid narrow =
    elim (Bool-cases (ltb (filled (n + 1) r).cached (n + 1))) [
      | inr held ↦ fast-held v n r valid narrow held
      | inl missing ↦
          let full = filled-IsAfter (n + 1) r valid in
          let (value, after) = decode_flex-flex_result v n (filled (n + 1) r) full.valid narrow in
          rw (fast_missing v n r missing) (
            value ∙ flex_result-IsAfter v n r (filled (n + 1) r) full,
            IsAfter-add 0 (flex_move v n (filled (n + 1) r)) (flex_move v n r)
                (sym (flex_move-IsAfter v n r (filled (n + 1) r) full) ∙ omega arith) full after,
          )
    ]

-- At widths of at most 29 bits, the flexbits that are served from the cache are those that
-- `decode_flex` reads: the same value or the same error, and the reader stands at the same bit.
pub decode_flex_fast-decode_flex :
    (v : ℤ) (n : ℕ) (r : PacketBitReader)
    → IsValid r
    → n ≤ 29
    → ((decode_flex_fast v n r).0 ≡ (decode_flex v n r).0)
      × ((decode_flex_fast v n r).1.bit_position ≡ (decode_flex v n r).1.bit_position)
decode_flex_fast-decode_flex v n r valid narrow =
    let quick = decode_flex_fast-flex_result v n r valid narrow in
    let slow = decode_flex-flex_result v n r valid narrow in
    (quick.0 ∙ sym slow.0, quick.1.moved ∙ sym slow.1.moved)

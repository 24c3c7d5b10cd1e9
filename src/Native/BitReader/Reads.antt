-- ===== src/Native/BitReader/Reads.antt =====
-- The reads of bit_reader.rs, as numbers of the stream of bits.
use jxr.Base.{
  ℕ, zero, suc, ◌+◌, ◌-◌, ◌*◌, ◌/◌, ◌%◌, ◌^◌, ◌≤◌, ◌<◌, ◌≡◌, refl, ap, ◌∙◌, min, bit_and, bit_or,
  Bool, true, false, Option, none, some, List, length, get_or, ltb, ◌==◌, if◌then◌else◌, arith, inl,
  inr, Bool-cases,
}
use jxr.Base.Bits.{bit_and_low_mask, bit_or_shifted}
use jxr.Entropy.BitReader.Bits.{stream_bits, stream_bits-lt}
use jxr.Native.Step.{Outcome, done, failed, panicked, truncated, reserved_value}
use jxr.Native.Step.Post.{Post, gives, fails, Post-after}
use jxr.Native.BitReader.{
  BitReader, read_loop, read_bits, read_flag, align_loop, align_zero, alignment_bit, usize_max,
}
use jxr.Entropy.Step.{Result, ok, err, panic, run_eq}
use jxr.Entropy.BitReader as Packet
use jxr.Entropy.BitReader.{PacketBitReader}
use jxr.Entropy.BitReader.Cache.{IsValid}
use jxr.Entropy.BitReader.Read.{serial_read, read_bits-serial_read}
use native.Mathlib.Nat.{mod-eq_of_lt, pow-le-pow_right, add-zero}

-- A reader inside a slice; the positions just past its bits are numbers of the machine.
pub record IsInside (bytes : List ℕ) (r : BitReader) : Type 0 where
  pub same_bytes : r.bytes ≡ bytes
  pub within : r.bit_position ≤ 8 * length bytes
  pub usize_fits : 8 * length bytes + 64 ≤ usize_max

-- `(value << 1) | (x & 1)`
push_bit : (v x : ℕ) → v < 2 ^ 63 → bit_or (v * 2 % 2 ^ 64) (bit_and x 1) ≡ v * 2 + x % 2
push_bit v x h =
    let fits : v * 2 < 2 ^ 64 = omega arith in
    let low : x % 2 < 2 ^ 1 = omega arith in
    rw (mod-eq_of_lt fits, bit_and_low_mask 1 x) (bit_or_shifted 1 v (x % 2) low)

-- One more bit of the stream.
push-stream_bits :
    (bytes : List ℕ) (p n : ℕ)
    → n < 64
    → bit_or
        (stream_bits bytes p n * 2 % 2 ^ 64)
        (bit_and (get_or bytes ((p + n) / 8) 0 / 2 ^ (7 - (p + n) % 8)) 1)
      ≡ stream_bits bytes p (suc n)
push-stream_bits bytes p n h =
    let below : n ≤ 63 = omega arith in
    let power : 2 ^ n ≤ 2 ^ 63 = pow-le-pow_right {n = 2} (omega arith) below in
    let small : stream_bits bytes p n < 2 ^ 63 = omega (arith, stream_bits-lt bytes p n, power) in
    push_bit (stream_bits bytes p n) (get_or bytes ((p + n) / 8) 0 / 2 ^ (7 - (p + n) % 8)) small
    ∙ (unfold stream_bits in refl)

read_loop-stream_bits :
    (left n value : ℕ) (r : BitReader) (bytes : List ℕ) (p : ℕ)
    → n + left ≤ 64
    → value ≡ stream_bits bytes p n
    → r ≡ record { bytes = bytes; bit_position = p + n }
    → read_loop left value r
      ≡ (stream_bits bytes p (n + left), record { bytes = bytes; bit_position = p + (n + left) })
unfolding read_loop
read_loop-stream_bits zero n value r bytes p h e q = rw (e, q, add-zero) refl
read_loop-stream_bits (suc left) n value r bytes p h e q =
    let total : n + suc left ≡ suc n + left = omega arith in
    let place : p + n + 1 ≡ p + suc n = omega arith in
    rw (q, total)
      (read_loop-stream_bits left (suc n) _ _ bytes p (omega arith)
        (rw e (push-stream_bits bytes p n (omega arith)))
        (ap (λ (k : ℕ). record { bytes = bytes; bit_position = k }) place))

-- What a request of `count` bits gives.
unfoldable pub bits_result : ℕ → BitReader → Outcome (ℕ × BitReader)
bits_result count r =
    if ltb 64 count
    then failed (reserved_value "bit read width" count)
    else if ltb (8 * length r.bytes) (r.bit_position + count)
    then failed (truncated r.bit_position count)
    else done (
      stream_bits r.bytes r.bit_position count,
      record r { bit_position = r.bit_position + count },
    )

read_loop_lem :
    (count : ℕ) (r : BitReader)
    → count ≤ 64
    → read_loop count 0 r ≡ (
      stream_bits r.bytes r.bit_position count,
      record r { bit_position = r.bit_position + count },
    )
read_loop_lem count r h =
    read_loop-stream_bits count 0 0 r r.bytes r.bit_position (omega arith)
      (unfold stream_bits in refl)
      (ap (λ (k : ℕ). record { bytes = r.bytes; bit_position = k }) (omega arith))
    ∙ ap
        (λ (k : ℕ). (
          stream_bits r.bytes r.bit_position k,
          record { bytes = r.bytes; bit_position = r.bit_position + k },
        ))
        (omega arith)

-- `read_bits` gives the next bits of the slice, or the error that says which bits are missing.
pub read_bits-bits_result :
    (count : ℕ) (r : BitReader) (bytes : List ℕ)
    → IsInside bytes r
    → read_bits count r ≡ bits_result count r
unfolding read_bits bits_result
read_bits-bits_result count r bytes v = elim (Bool-cases (ltb 64 count)) [
  | inl wide ↦ rw wide refl
  | inr narrow ↦
      let size = ap length v.same_bytes in
      let fits = v.usize_fits in
      let no_wrap : ltb usize_max (r.bit_position + count) ≡ false = ground arith in
      let limit : min (length r.bytes * 8) usize_max ≡ 8 * length r.bytes = omega arith in
      rw (narrow, no_wrap, limit, read_loop_lem count r (ground arith)) refl
]

-- No read panics, and each ends inside the slice with a value of its width.
pub read_bits-Post :
    (bytes : List ℕ) (count : ℕ) (r : BitReader)
    → IsInside bytes r
    → Post (IsInside bytes) (λ value. value < 2 ^ count) (read_bits count r)
unfolding bits_result
read_bits-Post bytes count r v =
    rw (read_bits-bits_result count r bytes v) (elim (Bool-cases (ltb 64 count)) [
      | inl wide ↦ rw wide fails
      | inr narrow ↦ elim (Bool-cases (ltb (8 * length r.bytes) (r.bit_position + count))) [
        | inl short ↦ rw (narrow, short) fails
        | inr enough ↦
            let size = ap length v.same_bytes in
            rw (narrow, enough)
              (gives (stream_bits-lt r.bytes r.bit_position count) (record {
                same_bytes = v.same_bytes;
                within = ground arith;
                usize_fits = v.usize_fits;
              }))
      ]
    ])

pub read_flag-Post :
    (bytes : List ℕ) (r : BitReader)
    → IsInside bytes r
    → Post (IsInside bytes) (λ (_ : Bool). Unit {0}) (read_flag r)
unfolding read_flag
read_flag-Post bytes r v = Post-after _ (read_bits-Post bytes 1 r v) (λ value _ s v. gives tt v)

-- A flag moves the reader by one bit.
flag_moves :
    (bytes : List ℕ) (r : BitReader)
    → IsInside bytes r
    → Post
        (λ s. IsInside bytes s × (s.bit_position ≡ r.bit_position + 1))
        (λ (_ : Bool). Unit {0})
        (read_flag r)
unfolding read_flag bits_result
flag_moves bytes r v =
    rw (read_bits-bits_result 1 r bytes v)
      (elim (Bool-cases (ltb (8 * length r.bytes) (r.bit_position + 1))) [
        | inl short ↦ rw short fails
        | inr enough ↦
            let size = ap length v.same_bytes in
            rw enough (
              gives tt (
                record {
                  same_bytes = v.same_bytes;
                  within = ground arith;
                  usize_fits = v.usize_fits;
                },
                refl,
              ))
      ])

-- A reader at a byte boundary.
pub record IsAligned (bytes : List ℕ) (r : BitReader) : Type 0 where
  pub inside : IsInside bytes r
  pub boundary : r.bit_position % 8 ≡ 0

alignment_bit-Post :
    {I : BitReader → Type 0} (bit : Bool) (position : ℕ)
    (rest : BitReader → Outcome (Unit {0} × BitReader)) (r : BitReader)
    → Post I (λ (_ : Unit {0}). Unit {0}) (rest r)
    → Post I (λ (_ : Unit {0}). Unit {0}) (alignment_bit bit position rest r)
alignment_bit-Post true position rest r p = fails
alignment_bit-Post false position rest r p = p

align_loop-IsAligned :
    (fuel : ℕ) (bytes : List ℕ) (r : BitReader)
    → IsInside bytes r
    → (8 - r.bit_position % 8) % 8 ≤ fuel
    → Post (IsAligned bytes) (λ (_ : Unit {0}). Unit {0}) (align_loop fuel r)
unfolding align_loop
align_loop-IsAligned zero bytes r v h =
    let at_boundary : (r.bit_position % 8 == 0) ≡ true = ground arith in
    rw at_boundary (gives tt (record { inside = v; boundary = omega arith }))
align_loop-IsAligned (suc fuel) bytes r v h = elim (Bool-cases (r.bit_position % 8 == 0)) [
  | inl boundary ↦ rw boundary (gives tt (record { inside = v; boundary = ground arith }))
  | inr between ↦ rw between (
      Post-after (λ x. alignment_bit x.0 r.bit_position (align_loop fuel) x.1)
        (flag_moves bytes r v)
        (λ flag _ s (inside, moved).
          alignment_bit-Post flag r.bit_position (align_loop fuel) s
            (align_loop-IsAligned fuel bytes s inside (ground arith))))
]

-- `align_zero` always ends: seven bits are enough to reach a byte boundary inside the slice, or a
-- padding bit that is set, or the end of the slice, is an error.
pub align_zero-IsAligned :
    (bytes : List ℕ) (r : BitReader)
    → IsInside bytes r
    → Post (IsAligned bytes) (λ (_ : Unit {0}). Unit {0}) (align_zero r)
unfolding align_zero
align_zero-IsAligned bytes r v = align_loop-IsAligned 7 bytes r v (omega arith)

abbrev pub value_of : Outcome (ℕ × BitReader) → Option ℕ
value_of (done (value, r)) = some value
value_of (failed e) = none
value_of panicked = none

abbrev pub packet_value : Result ℕ × PacketBitReader → Option ℕ
packet_value (ok value, r) = some value
packet_value (err e, r) = none
packet_value (panic, r) = none

-- The reader of the headers and the cached reader of the packets agree: at the same bit of the same
-- slice they give the same value, or both give none.
pub read_bits-packet_value :
    (count : ℕ) (r : PacketBitReader)
    → IsValid r
    → r.bit_length ≡ 8 * length r.bytes
    → r.bit_length + 64 ≤ usize_max
    → value_of (read_bits count (record { bytes = r.bytes; bit_position = r.bit_position }))
      ≡ packet_value (Packet.read_bits count r)
unfolding bits_result serial_read
read_bits-packet_value count r v all_bits fits =
    let inside = v.within in
    let here : IsInside r.bytes (record { bytes = r.bytes; bit_position = r.bit_position }) =
      record { same_bytes = refl; within = omega arith; usize_fits = omega arith } in
    rw
      (
        read_bits-bits_result count (record { bytes = r.bytes; bit_position = r.bit_position })
            r.bytes here,
        run_eq (Packet.read_bits count r) (read_bits-serial_read count r v).0,
        ← all_bits,
      )
      (elim (Bool-cases (ltb 64 count)) [
        | inl wide ↦ rw wide refl
        | inr narrow ↦ elim (Bool-cases (ltb r.bit_length (r.bit_position + count))) [
          | inl short ↦ rw (narrow, short) refl
          | inr enough ↦ rw (narrow, enough) refl
        ]
      ])

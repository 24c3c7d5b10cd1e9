-- ===== src/Entropy/Vlc/Decode.antt =====
-- The look-up decoder against the bit-serial search, on any packet and at any position.
use jxr.Base.{
  ℕ, zero, suc, ◌+◌, ◌-◌, ◌*◌, ◌/◌, ◌^◌, ◌≤◌, ◌<◌, min, ◌≡◌, refl, ap, ◌∙◌, inl, inr, Bool, true,
  false, not, Bool-cases, Option-cases, ltb, leb, ◌==◌, if◌then◌else◌, arith, String, List,
}
use jxr.Base.Bits.{div_mod_fields, fields_shifted, pow_split}
use native.Mathlib.Nat.{add-zero, one-le-pow, mul-lt-mul_of_pos_right}
use jxr.Entropy.Step.{Result, ok, err, run_eq, unexpected_end, invalid_vlc}
use jxr.Entropy.BitReader.{PacketBitReader, usize_max, peek_byte, bits_remaining, read_bit}
use jxr.Entropy.BitReader.Bits.{stream_bits, stream_bits-lt, stream_bits_split}
use jxr.Entropy.BitReader.Cache.{IsValid}
use jxr.Entropy.BitReader.Read.{IsAfter, IsAfter-add, IsAfter-stream_bits}
use jxr.Entropy.BitReader.Peek.{
  shown, read_bit_enough, read_bit_short, peek_byte-stream_bits, skip_cached_enough,
  skip_cached_short,
}
use jxr.Entropy.Vlc.{VlcCode, PrefixTable, decode, unmatched, entry_at, entry_length}
use jxr.Entropy.Vlc.Codes.{Table}
use jxr.Entropy.Vlc.Serial.{
  Outcome, found, ended, no_code, search_byte, lookup_byte, find_code, serial_loop, found_or,
  outcome_or, table,
}
use jxr.Entropy.Vlc.Tables.{max_length-longest, entry_length-le}

-- What an outcome means for the reader `r` that it was found at.
abbrev pub outcome_result : String → PacketBitReader → Outcome → Result ℕ
outcome_result syntax_name r (found symbol len) = ok symbol
outcome_result syntax_name r (ended len) =
    err (unexpected_end (r.bit_position + len) 1 r.bit_length)
outcome_result syntax_name r no_code = err (invalid_vlc syntax_name r.bit_position)

-- The bits that the look-up decoder takes.
abbrev pub taken : Outcome → ℕ
taken (found symbol len) = len
taken (ended len) = 0
taken no_code = 0

-- The next eight bits, padded by zeros past the packet's end.
abbrev pub next_byte : PacketBitReader → ℕ
next_byte r = stream_bits r.bytes r.bit_position (shown r) * 2 ^ (8 - shown r)

fields_below : (q n : ℕ) → n ≤ 8 → q < 2 ^ n → q * 2 ^ (8 - n) < 2 ^ 8
fields_below q n small fits =
    rw (pow_split n (8 - n) 8 (omega arith))
      (mul-lt-mul_of_pos_right fits (one-le-pow (8 - n) 2 (omega arith)))

pub next_byte-lt : (r : PacketBitReader) → next_byte r < 256
next_byte-lt r = omega (
  arith,
  fields_below (stream_bits r.bytes r.bit_position (shown r)) (shown r) (omega arith)
      (stream_bits-lt r.bytes r.bit_position (shown r)),
)

missing : PrefixTable → ℕ → Outcome
missing t n = if leb t.max_length n then no_code else ended n

same_end :
    {r p : PacketBitReader}
    → IsAfter 0 r p
    → IsValid r
    → unexpected_end (min (p.bit_position + bits_remaining p) usize_max) 1 p.bit_length
      ≡ unexpected_end (r.bit_position + bits_remaining r) 1 r.bit_length
same_end {r} a v =
    let place : r.bit_position + 0 ≡ r.bit_position = omega arith in
    let no_wrap : min (r.bit_position + bits_remaining r) usize_max
        ≡ r.bit_position + bits_remaining r =
      omega (arith, v.within, v.usize_fits) in
    rw (a.moved, a.same_length, place, no_wrap) refl

unmatched-missing :
    (t : PrefixTable) (syntax_name : String) {r p : PacketBitReader}
    → IsAfter 0 r p
    → IsValid r
    → t.max_length ≤ 8
    → ((unmatched syntax_name t p).0 ≡ outcome_result syntax_name r (missing t (shown r)))
      × IsAfter (taken (missing t (shown r))) r (unmatched syntax_name t p).1
unfolding unmatched missing
unmatched-missing t syntax_name {r} {p} a v small =
    let same : bits_remaining p ≡ bits_remaining r = omega (arith, a.moved, a.same_length) in
    elim (Bool-cases (ltb (bits_remaining p) t.max_length)) [
      | inl short ↦
          let all_shown : shown r ≡ bits_remaining r = ground arith in
          let test : leb t.max_length (shown r) ≡ false = ground arith in
          rw (short, test) (ap err (same_end a v ∙ rw all_shown refl), a)
      | inr long ↦
          let test : leb t.max_length (shown r) ≡ true = ground arith in
          rw (long, test)
            (ap (λ (q : ℕ). err (invalid_vlc syntax_name q)) (a.moved ∙ add-zero r.bit_position), a)
    ]

pub decode-lookup_byte :
    (t : Table) (syntax_name : String) (r : PacketBitReader)
    → IsValid r
    → ((decode syntax_name (table t) r).0
        ≡ outcome_result syntax_name r (lookup_byte (table t) (next_byte r) (shown r)))
      × IsAfter
          (taken (lookup_byte (table t) (next_byte r) (shown r)))
          r
          (decode syntax_name (table t) r).1
unfolding decode lookup_byte missing
decode-lookup_byte t syntax_name r v =
    let (byte, at_start, held) = peek_byte-stream_bits r v in
    let small : (table t).max_length ≤ 8 = omega (arith, max_length-longest t) in
    let entry = entry_at (table t) (next_byte r) in
    let rest = unmatched-missing (table t) syntax_name at_start v small in
    rw byte (elim (Bool-cases (entry == 0)) [
      | inl empty ↦ rw empty rest
      | inr code ↦ elim (Bool-cases (leb (entry_length entry) (shown r))) [
        | inl inside ↦
            let (skip, after) =
              skip_cached_enough (entry_length entry) (peek_byte r).1 at_start.valid
                (ground arith) in
            rw (code, inside, skip) (refl, IsAfter-add 0 _ _ (omega arith) at_start after)
        | inr outside ↦
            let skip = skip_cached_short (entry_length entry) (peek_byte r).1 (
              ground (
                arith,
                at_start.valid.within,
                at_start.moved,
                at_start.same_length,
                entry_length-le t (next_byte r) (next_byte-lt r),
              )) in
            rw (code, outside, skip) rest
      ]
    ])

-- One more bit of the prefix.
longer_prefix :
    (len : ℕ) {r s : PacketBitReader}
    → IsAfter len r s
    → stream_bits r.bytes r.bit_position len * 2
        + (if not (stream_bits s.bytes s.bit_position 1 == 0) then 1 else 0)
      ≡ stream_bits r.bytes r.bit_position (suc len)
longer_prefix len {r} {s} a = ground (
  arith,
  IsAfter-stream_bits 1 len a,
  stream_bits-lt s.bytes s.bit_position 1,
  stream_bits_split r.bytes r.bit_position len 1 (suc len) (omega arith),
)

-- The first bits of the next byte.
byte_prefix :
    (r : PacketBitReader) (n : ℕ)
    → n ≤ shown r
    → next_byte r / 2 ^ (8 - n) ≡ stream_bits r.bytes r.bit_position n
byte_prefix r n h =
    let d = shown r - n in
    let fits = stream_bits-lt r.bytes (r.bit_position + n) d in
    let (sum, below) =
      fields_shifted (stream_bits r.bytes r.bit_position n) _ d (8 - shown r) (8 - n) (omega arith)
        fits in
    rw (stream_bits_split r.bytes r.bit_position n d (shown r) (omega arith), sum)
      (div_mod_fields _ _ (2 ^ (8 - n)) below).0

found-injective : (s n t m : ℕ) → found s n ≡ found t m → (s ≡ t) × (n ≡ m)
found-injective s n t m e = ground arith

serial_loop_step :
    (codes : List VlcCode) (syntax_name : String) (start left len prefix longer : ℕ) (bit : Bool)
    (s t : PacketBitReader)
    → read_bit s ≡ (ok bit, t)
    → prefix * 2 + (if bit then 1 else 0) ≡ longer
    → serial_loop syntax_name codes start (suc left) len prefix s
      ≡ found_or
          (find_code codes (suc len) longer)
          (serial_loop syntax_name codes start left (suc len) longer)
          t
unfolding serial_loop
serial_loop_step codes syntax_name start left len prefix longer bit s t e f = rw e (
    ap
      (λ (q : ℕ).
        found_or (find_code codes (suc len) q)
          (serial_loop syntax_name codes start left (suc len) q) t)
      f)

search_byte_step :
    (codes : List VlcCode) (byte n left len prefix : ℕ)
    → leb n len ≡ false
    → byte / 2 ^ (8 - suc len) ≡ prefix
    → search_byte codes byte n (suc left) len
      ≡ outcome_or
          (find_code codes (suc len) prefix)
          (suc len)
          (search_byte codes byte n left (suc len))
unfolding search_byte
search_byte_step codes byte n left len prefix more e = rw (more, e) refl

-- The bit-serial search after `len` bits, against the same search in the next byte.
pub serial_loop-search_byte :
    (codes : List VlcCode) (syntax_name : String) (r s : PacketBitReader) (left len : ℕ)
    → IsValid r
    → IsAfter len r s
    → len ≤ shown r
    → len + left ≤ 8
    → ((serial_loop syntax_name codes r.bit_position left len
          (stream_bits r.bytes r.bit_position len)
          s).0
        ≡ outcome_result syntax_name r (search_byte codes (next_byte r) (shown r) left len))
      × ((symbol n : ℕ)
          → search_byte codes (next_byte r) (shown r) left len ≡ found symbol n
          → IsAfter n r
              (serial_loop syntax_name codes r.bit_position left len
                (stream_bits r.bytes r.bit_position len)
                s).1)
unfolding serial_loop search_byte
serial_loop-search_byte codes syntax_name r s zero len v a inside small = (refl, λ symbol n e. cc)
serial_loop-search_byte codes syntax_name r s (suc left) len v a inside small =
    elim (Bool-cases (leb (shown r) len)) [
      | inl end ↦
          (let (value, after) = read_bit_short s a.valid (ground (arith, a.moved, a.same_length)) in
            rw (run_eq (read_bit s) value, end)
              (ap err (rw (a.moved, a.same_length) refl), λ symbol n e. cc))
      | inr more ↦
          let (value, after) = read_bit_enough s a.valid (ground (arith, a.moved, a.same_length)) in
          let reached : IsAfter (suc len) r (read_bit s).1 =
            IsAfter-add len 1 (suc len) (omega arith) a after in
          rw
            (
              serial_loop_step codes syntax_name r.bit_position left len _ _ _ s (read_bit s).1
                  (run_eq (read_bit s) value) (longer_prefix len a),
              search_byte_step codes (next_byte r) (shown r) left len _ more
                  (byte_prefix r (suc len) (ground arith)),
            )
            (elim (Option-cases
              (find_code codes (suc len) (stream_bits r.bytes r.bit_position (suc len)))) [
                | inl none_fits ↦ rw none_fits (
                    serial_loop-search_byte codes syntax_name r (read_bit s).1 left (suc len) v
                      reached (ground arith) (omega arith))
                | inr (symbol, fits) ↦ rw fits (
                  refl,
                  λ other n e. rw (← (found-injective symbol (suc len) other n e).1) reached,
                )
              ])
    ]

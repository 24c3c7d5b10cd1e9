-- ===== src/Native/BitReader.antt =====
-- crates/jxr-native/src/bit_reader.rs: the bit-serial reader of the headers.
pub mod Reads
use jxr.Base.{
  ℕ, zero, suc, ◌+◌, ◌-◌, ◌*◌, ◌/◌, ◌%◌, ◌^◌, min, bit_and, bit_or, Bool, true, false, not, List,
  length, get_or, ltb, ◌==◌, if◌then◌else◌,
}
use jxr.Native.Step.{
  Outcome, done, failed, panicked, Parser, after, ◌>>=◌, return, reserved_value, integer_overflow,
  truncated, non_zero_alignment_bit,
}

pub record BitReader : Type 0 where
  pub bytes : List ℕ
  pub bit_position : ℕ

abbrev pub usize_max : ℕ
usize_max = 2 ^ 64 - 1

unfoldable pub new : List ℕ → BitReader
new bytes = record { bytes = bytes; bit_position = 0 }

-- The `while` of `read_bits`, with `left` bits to the end; a `u64` drops what leaves it.
unfoldable pub read_loop : ℕ → ℕ → BitReader → ℕ × BitReader
read_loop zero value r = (value, r)
read_loop (suc left) value r =
    let byte = get_or r.bytes (r.bit_position / 8) 0 in
    let bit = bit_and (byte / 2 ^ (7 - r.bit_position % 8)) 1 in
    read_loop left (bit_or (value * 2 % 2 ^ 64) bit)
      (record r { bit_position = r.bit_position + 1 })

unfoldable pub read_bits : ℕ → Parser BitReader ℕ
read_bits count r =
    if ltb 64 count
    then failed (reserved_value "bit read width" count)
    else if ltb usize_max (r.bit_position + count)
    then failed (integer_overflow "advancing bit reader")
    else if ltb (min (length r.bytes * 8) usize_max) (r.bit_position + count)
    then failed (truncated r.bit_position count)
    else done (read_loop count 0 r)

unfoldable pub read_flag : Parser BitReader Bool
read_flag = do value ← read_bits 1; return (not (value == 0))

abbrev pub alignment_bit : Bool → ℕ → Parser BitReader (Unit {0}) → Parser BitReader (Unit {0})
alignment_bit true position rest r = failed (non_zero_alignment_bit position)
alignment_bit false position rest r = rest r

-- `while !bit_position.is_multiple_of(8)`; fuel that runs out counts as a panic.
unfoldable pub align_loop : ℕ → Parser BitReader (Unit {0})
align_loop zero r = if r.bit_position % 8 == 0 then done (tt, r) else panicked
align_loop (suc fuel) r =
    if r.bit_position % 8 == 0
    then done (tt, r)
    else after (read_flag r) (λ x. alignment_bit x.0 r.bit_position (align_loop fuel) x.1)

unfoldable pub align_zero : Parser BitReader (Unit {0})
align_zero = align_loop 7

-- ===== src/Entropy/Coefficients/Symbols.antt =====
-- The symbols of one coefficient, each with its adaptive state.
pub mod Bounds
use jxr.Base.{
  ℕ, ◌+◌, ◌-◌, ◌*◌, ◌^◌, Bool, true, false, ◌&&◌, List, [], ◌∷◌, Option, none, some, ltb, leb, ◌==◌,
  if◌then◌else◌,
}
use jxr.Base.Int.{ℤ, pos, negsuc, leb_ℤ, ◌+ℤ◌, ◌-ℤ◌, i32_checked}
use jxr.Entropy.Step.{
  Result, ok, err, panic, Step, ◌>>=◌, ◌>>◌, return, fail, some_or, index, reject_if,
  invalid_parameter, coefficient_overflow,
}
use jxr.Entropy.BitReader.{PacketBitReader, read_bits, read_bit}
use jxr.Entropy.Vlc.{decode}
use jxr.Entropy.Vlc.Codes.{Table}
use jxr.Entropy.Vlc.Serial.{table}
use jxr.Entropy.Band.{Two, at, put_at}
use jxr.Entropy.Adaptive.{
  AdaptiveVlc, DcVlcState, observe_abs_level, observe_first_index, observe_index,
}
use jxr.Entropy.Refinement.{i32_of, checked_shl, wrap_i32, is_zero}
use jxr.Entropy.Coefficients.Run.{u8_of}

-- `magnitude ^ -1`
unfoldable pub complement : ℤ → ℤ
complement (pos n) = negsuc n
complement (negsuc n) = pos n

-- The branchless negation of coefficients.rs: `(magnitude ^ mask).wrapping_sub(mask)`, where the mask
-- is -1 or 0.
unfoldable pub signed : {S : Type 0} → ℤ → Bool → S → Result ℤ × S
unfolding complement
signed magnitude negative =
    if negative && leb_ℤ magnitude (negsuc (2 ^ 31 - 1))
    then fail coefficient_overflow
    else return (if negative then wrap_i32 (complement magnitude -ℤ negsuc 0) else magnitude)

unfoldable pub apply_sign : ℤ → Step PacketBitReader ℤ
apply_sign value = if is_zero value then return (pos 0) else (do bit ← read_bit; signed value bit)

-- A reader and the code table selector of the symbol that is read.
pub record Selecting : Type 0 where
  pub reader : PacketBitReader
  pub vlc : AdaptiveVlc

abbrev pub reading : {A : Type 0} → Step PacketBitReader A → Step Selecting A
reading m w = let (x, r) = m w.reader in (x, record w { reader = r })

abbrev pub observing : {A : Type 0} → Step AdaptiveVlc A → Step Selecting A
observing m w = let (x, v) = m w.vlc in (x, record w { vlc = v })

-- `state.table_index()`
abbrev pub table_index : Step Selecting ℕ
table_index w = (ok w.vlc.table_index, w)

abbrev pub abs_remap : List ℤ
abs_remap = pos 2 ∷ pos 3 ∷ pos 4 ∷ pos 6 ∷ pos 10 ∷ pos 14 ∷ []

abbrev pub abs_fixed_length : List ℕ
abs_fixed_length = 0 ∷ 0 ∷ 1 ∷ 2 ∷ 2 ∷ 2 ∷ []

abbrev pub abs_level_tables : List Table
abs_level_tables = Table.abs_level_0 ∷ Table.abs_level_1 ∷ []

abbrev pub first_index_tables : List Table
first_index_tables =
    Table.first_index_0 ∷ Table.first_index_1 ∷ Table.first_index_2 ∷ Table.first_index_3
    ∷ Table.first_index_4 ∷ []

abbrev pub index_a_tables : List Table
index_a_tables = Table.index_a_0 ∷ Table.index_a_1 ∷ Table.index_a_2 ∷ Table.index_a_3 ∷ []

-- A small level: the base of its symbol and a few more bits.
unfoldable pub small_level : ℕ → Step PacketBitReader ℤ
small_level symbol = do
  fixed ← index abs_fixed_length symbol
  bits ← read_bits fixed
  refinement ← some_or (i32_of bits) coefficient_overflow
  base ← index abs_remap symbol
  some_or (i32_checked (base +ℤ refinement)) coefficient_overflow

-- The width of an escaped level: 4 to 18, or up to 29 by the two extensions.
unfoldable pub escape_width : Step PacketBitReader ℕ
escape_width = do
  bits ← read_bits 4
  low ← some_or (u8_of bits) coefficient_overflow
  if low + 4 == 19
      then (do
        bits' ← read_bits 2
        more ← some_or (u8_of bits') coefficient_overflow
        if 19 + more == 22
            then (do
              bits'' ← read_bits 3
              most ← some_or (u8_of bits'') coefficient_overflow
              return (22 + most))
            else return (19 + more))
      else return (low + 4)

unfoldable pub escaped_level : Step PacketBitReader ℤ
escaped_level = do
  fixed ← escape_width
  bits ← read_bits fixed
  refinement ← some_or (i32_of bits) coefficient_overflow
  power ← some_or (checked_shl (pos 1) fixed) coefficient_overflow
  base ← some_or (i32_checked (power +ℤ pos 2)) coefficient_overflow
  some_or (i32_checked (base +ℤ refinement)) coefficient_overflow

unfoldable pub decode_abs_level : Step Selecting ℤ
decode_abs_level = do
  i ← table_index
  t ← index abs_level_tables i
  symbol ← reading (decode "ABS_LEVEL_INDEX" (table t))
  observing (observe_abs_level symbol)
  reading (if ltb symbol 6 then small_level symbol else escaped_level)

unfoldable pub decode_first_index : Step Selecting ℕ
decode_first_index = do
  i ← table_index
  t ← index first_index_tables i
  symbol ← reading (decode "FIRST_INDEX" (table t))
  observing (observe_first_index symbol)
  return symbol

unfoldable pub decode_index_a : Step Selecting ℕ
decode_index_a = do
  i ← table_index
  t ← index index_a_tables i
  symbol ← reading (decode "INDEX_A" (table t))
  observing (observe_index symbol)
  return symbol

-- The last positions of a block have codes of their own, with no adaptive state.
unfoldable pub decode_index : ℕ → Step Selecting ℕ
decode_index location =
    if ltb location 15
    then decode_index_a
    else if location == 15
    then reading (decode "INDEX_B" (table Table.index_b))
    else (do bit ← reading read_bit; return (if bit then 1 else 0))

-- A reader and the DC selectors.
pub record DcWorld : Type 0 where
  pub reader : PacketBitReader
  pub state : DcVlcState

abbrev pub dc_abs_level : Bool → Step DcWorld ℤ
dc_abs_level chroma w =
    let (x, s) =
      decode_abs_level (record { reader = w.reader; vlc = at chroma w.state.abs_level }) in
    (
      x,
      record {
        reader = s.reader;
        state = record { abs_level = put_at chroma s.vlc w.state.abs_level };
      },
    )

abbrev pub dc_reading : {A : Type 0} → Step PacketBitReader A → Step DcWorld A
dc_reading m w = let (x, r) = m w.reader in (x, record w { reader = r })

abbrev dc_level : Bool → Bool → Step DcWorld ℤ
dc_level has_abs_level chroma =
    if has_abs_level
    then (do
      level ← dc_abs_level chroma
      some_or (i32_checked (level -ℤ pos 1)) coefficient_overflow)
    else return (pos 0)

abbrev dc_refined : ℕ → ℤ → Step DcWorld ℤ
dc_refined model_bits level = if model_bits == 0 then return level else (do
  bits ← dc_reading (read_bits model_bits)
  refinement ← some_or (i32_of bits) coefficient_overflow
  high ← some_or (checked_shl level model_bits) coefficient_overflow
  some_or (i32_checked (high +ℤ refinement)) coefficient_overflow)

unfoldable pub decode_dc_coefficient : ℕ → Bool → Bool → Step DcWorld ℤ
decode_dc_coefficient model_bits has_abs_level chroma = do
  reject_if (ltb 15 model_bits) (invalid_parameter "DC model bits" (pos model_bits))
  level ← dc_level has_abs_level chroma
  coefficient ← dc_refined model_bits level
  dc_reading (apply_sign coefficient)

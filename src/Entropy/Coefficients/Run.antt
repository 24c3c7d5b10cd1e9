-- ===== src/Entropy/Coefficients/Run.antt =====
-- The runs of zero coefficients: `decode_run`, and `decode_run_cached` through one peeked byte.
pub mod Agree
use jxr.Base.{
  ℕ, ◌+◌, ◌-◌, ◌*◌, ◌/◌, ◌%◌, ◌^◌, bit_and, bit_or, Bool, true, false, not, ◌&&◌, ◌||◌, Option,
  none, some, List, [], ◌∷◌, String, ltb, leb, ◌==◌, if◌then◌else◌, get_or,
}
use jxr.Base.Int.{ℤ, pos, negsuc, ◌+ℤ◌, ◌*ℤ◌}
use jxr.Entropy.Step.{
  Result, ok, err, panic, Step, ◌>>=◌, return, fail, some_or, index, invalid_parameter,
  coefficient_overflow,
}
use jxr.Entropy.BitReader.{PacketBitReader, read_bits, peek_byte, skip_cached}
use jxr.Entropy.Vlc.{decode, entry_at, entry_length, entry_symbol}
use jxr.Entropy.Vlc.Codes.{Table}
use jxr.Entropy.Vlc.Serial.{table}

abbrev pub run_remap : List ℕ
run_remap = 1 ∷ 2 ∷ 3 ∷ 5 ∷ 7 ∷ 1 ∷ 2 ∷ 3 ∷ 5 ∷ 7 ∷ 1 ∷ 2 ∷ 3 ∷ 4 ∷ 5 ∷ []

abbrev pub run_bin : List ℤ
run_bin =
    negsuc 0
    ∷ negsuc 0
    ∷ negsuc 0
    ∷ negsuc 0
    ∷ pos 2
    ∷ pos 2
    ∷ pos 2
    ∷ pos 1
    ∷ pos 1
    ∷ pos 1
    ∷ pos 1
    ∷ pos 0
    ∷ pos 0
    ∷ pos 0
    ∷ pos 0
    ∷ []

abbrev pub run_fixed_length : List ℕ
run_fixed_length = 0 ∷ 0 ∷ 1 ∷ 1 ∷ 3 ∷ 0 ∷ 0 ∷ 1 ∷ 1 ∷ 2 ∷ 0 ∷ 0 ∷ 0 ∷ 0 ∷ 1 ∷ []

-- `usize::try_from`
abbrev pub usize_of : ℤ → Option ℕ
usize_of (pos n) = some n
usize_of (negsuc n) = none

-- `u8::try_from`
abbrev pub u8_of : ℕ → Option ℕ
u8_of n = if ltb n 256 then some n else none

abbrev pub run_table_index : ℕ → ℕ → ℤ
run_table_index max_run run_index = pos run_index +ℤ pos 5 *ℤ get_or run_bin max_run (negsuc 0)

-- A `max_run` of 5 to 14.
unfoldable pub decode_long_run : ℕ → Step PacketBitReader ℕ
decode_long_run max_run = do
  run_index ← decode "RUN_INDEX" (table Table.run_index)
  bin ← index run_bin max_run
  let table_index = pos run_index +ℤ pos 5 *ℤ bin
  i ← some_or (usize_of table_index) (invalid_parameter "run table index" table_index)
  fixed ← index run_fixed_length i
  bits ← read_bits fixed
  refinement ← some_or (u8_of bits) coefficient_overflow
  base ← index run_remap i
  return (base + refinement)

unfoldable pub decode_run : ℕ → Step PacketBitReader ℕ
decode_run max_run =
    if (max_run == 0) || ltb 14 max_run
    then fail (invalid_parameter "maximum coefficient run" (pos max_run))
    else if max_run == 1
    then return 1
    else if max_run == 2
    then decode "RUN_VALUE" (table Table.run_value_2)
    else if max_run == 3
    then decode "RUN_VALUE" (table Table.run_value_3)
    else if max_run == 4
    then decode "RUN_VALUE" (table Table.run_value_4)
    else decode_long_run max_run

-- The run and the length of one entry of the static look-up table.
pub record RunEntry : Type 0 where
  pub run : ℕ
  pub code_length : ℕ

abbrev small_run : Table → ℕ → RunEntry
small_run t prefix =
    let entry = entry_at (table t) prefix in
    record { run = entry_symbol entry; code_length = entry_length entry }

abbrev long_run : ℕ → ℕ → RunEntry
long_run max_run prefix =
    let entry = entry_at (table Table.run_index) prefix in
    let i : ℕ = elim (run_table_index max_run (entry_symbol entry)) [ pos n ↦ n | negsuc n ↦ 0 ] in
    let fixed = get_or run_fixed_length i 0 in
    let refinement = bit_and (prefix * 2 ^ entry_length entry) 255 / 2 ^ (8 - fixed) in
    record { run = get_or run_remap i 0 + refinement; code_length = entry_length entry + fixed }

unfoldable pub run_of_prefix : ℕ → ℕ → RunEntry
run_of_prefix max_run prefix =
    if max_run == 1
    then record { run = 1; code_length = 0 }
    else if max_run == 2
    then small_run Table.run_value_2 prefix
    else if max_run == 3
    then small_run Table.run_value_3 prefix
    else if max_run == 4
    then small_run Table.run_value_4 prefix
    else long_run max_run prefix

-- `run_lookup`, entry by entry.
unfoldable pub run_entry : ℕ → ℕ → ℕ
run_entry max_run prefix =
    let e = run_of_prefix max_run prefix in bit_or (e.run * 2 ^ 3 % 256) e.code_length

unfoldable pub decode_run_cached : ℕ → Step PacketBitReader ℕ
decode_run_cached max_run r =
    let entry = run_entry max_run (peek_byte r).0 in
    let skip = skip_cached (bit_and entry 7) (peek_byte r).1 in
    if ltb max_run 15 && not (max_run == 0)
    then (if skip.0 then (ok (entry / 2 ^ 3), skip.1) else decode_run max_run skip.1)
    else decode_run max_run r

-- ===== src/Native/Tail.antt =====
-- crates/jxr-native/src/tail.rs: the tile index and the profiles in front of the tile packets.
pub mod Cursor
pub mod Valid
use jxr.Base.{
  ℕ, zero, suc, ◌+◌, ◌-◌, ◌*◌, min, bit_and, Bool, true, false, not, ◌&&◌, ◌||◌, List, [], ◌∷◌,
  length, Option, none, some, ltb, leb, ◌==◌, if◌then◌else◌,
}
use jxr.Native.Step.{
  Outcome, done, panicked, after, Parser, ◌>>=◌, ◌>>◌, return, reject_if, reserved_value,
  integer_overflow, truncated,
}
use jxr.Native.BitReader.{usize_max}
use jxr.Native.Header.Types.{ParsedHeaders, frequency_mode, index_table_present}
use jxr.Native.Tail.Cursor.{
  ByteCursor, new, position, set_position, require_position, read_u8, read_u16, read_vlw,
}

pub record ProfileLevel : Type 0 where
  pub profile_idc : ℕ
  pub level_idc : ℕ

pub record CodestreamDirectory : Type 0 where
  pub tile_offsets : List ℕ
  pub profiles : List ProfileLevel
  pub tile_data_offset : ℕ

-- Columns and rows; neither sum nor product leaves a `usize`, or the count is refused.
abbrev pub columns_times_rows : ParsedHeaders → ℕ
columns_times_rows h = (length h.image.tile_widths_mb + 1) * (length h.image.tile_heights_mb + 1)

unfoldable pub tile_count : ParsedHeaders → Parser ByteCursor ℕ
tile_count h = do
  reject_if
      (ltb usize_max (length h.image.tile_widths_mb + 1)
        || ltb usize_max (length h.image.tile_heights_mb + 1)
        || ltb usize_max (columns_times_rows h))
      (integer_overflow "computing tile count")
  return (columns_times_rows h)

abbrev pub index_bands : ParsedHeaders → ℕ
index_bands h = if frequency_mode h.image.flags then 4 - h.primary.bands_present else 1

unfoldable pub read_offsets : ℕ → Parser ByteCursor (List ℕ)
read_offsets zero = return []
read_offsets (suc count) = do
  offset ← read_vlw
  offsets ← read_offsets count
  return (offset ∷ offsets)

unfoldable pub parse_index : ParsedHeaders → ℕ → Parser ByteCursor (List ℕ)
parse_index h tiles = do
  start_code ← read_u16
  reject_if (not (start_code == 1)) (reserved_value "INDEX_TABLE_STARTCODE" start_code)
  reject_if (ltb usize_max (tiles * index_bands h))
      (integer_overflow "computing tile index entry count")
  read_offsets (tiles * index_bands h)

-- The `break` of the loop, and the round after it.
abbrev pub last_or_more :
    Bool
    → ProfileLevel
    → Parser ByteCursor (List ProfileLevel)
    → Parser ByteCursor (List ProfileLevel)
last_or_more true profile rounds = return (profile ∷ [])
last_or_more false profile rounds = do profiles ← rounds; return (profile ∷ profiles)

-- The `loop` of `parse_profile_area`; fuel that runs out counts as a panic.
unfoldable pub profile_loop : ℕ → ℕ → Parser ByteCursor (List ProfileLevel)
profile_loop zero end = λ cursor. panicked
profile_loop (suc fuel) end = do
  here ← position
  reject_if (ltb end (min (here + 4) usize_max)) (truncated (min (here * 8) usize_max) 32)
  profile_idc ← read_u8
  level_idc ← read_u8
  reserved_and_last ← read_u16
  reject_if (not (bit_and reserved_and_last 65534 == 0))
      (reserved_value "PROFILE_LEVEL_INFO reserved bits" (bit_and reserved_and_last 65534))
  last_or_more (not (bit_and reserved_and_last 1 == 0))
      (record { profile_idc = profile_idc; level_idc = level_idc }) (profile_loop fuel end)

unfoldable pub profiles_in : ℕ → Parser ByteCursor (List ProfileLevel)
profiles_in subsequent_bytes = do
  reject_if (ltb subsequent_bytes 4) (reserved_value "SubsequentBytes" subsequent_bytes)
  here ← position
  reject_if (ltb usize_max (here + subsequent_bytes))
      (integer_overflow "locating profile-level data")
  require_position (here + subsequent_bytes)
  profiles ← profile_loop (suc subsequent_bytes) (here + subsequent_bytes)
  set_position (here + subsequent_bytes)
  return profiles

unfoldable pub parse_profile_area : ℕ → Parser ByteCursor (List ProfileLevel)
parse_profile_area subsequent_bytes =
    if subsequent_bytes == 0 then return [] else profiles_in subsequent_bytes

abbrev pub index_if : Bool → Parser ByteCursor (List ℕ) → Parser ByteCursor (List ℕ)
index_if true index = index
index_if false index = return []

unfoldable pub parse_at_cursor : ParsedHeaders → Parser ByteCursor CodestreamDirectory
parse_at_cursor h = do
  tiles ← tile_count h
  reject_if
      ((frequency_mode h.image.flags || ltb 1 tiles) && not (index_table_present h.image.flags))
      (reserved_value "INDEX_TABLE_PRESENT_FLAG" 0)
  tile_offsets ← index_if (index_table_present h.image.flags) (parse_index h tiles)
  subsequent_bytes ← read_vlw
  reject_if (ltb usize_max subsequent_bytes) (integer_overflow "converting SubsequentBytes")
  profiles ← parse_profile_area subsequent_bytes
  tile_data_offset ← position
  return (record {
    tile_offsets = tile_offsets;
    profiles = profiles;
    tile_data_offset = tile_data_offset;
  })

unfoldable pub parse : List ℕ → ParsedHeaders → Outcome CodestreamDirectory
parse bytes h =
    after (new bytes h.bytes_consumed) (λ cursor. after (parse_at_cursor h cursor) (λ x. done x.0))

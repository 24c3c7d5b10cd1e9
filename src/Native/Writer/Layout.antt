-- ===== src/Native/Writer/Layout.antt =====
-- `AnnexAWriteOptions` and `ContainerLayout` of annex_a/writer.rs.
pub mod Bounds
use jxr.Base.{ℕ, ◌+◌, ◌-◌, ◌*◌, ◌/◌, ◌^◌, List, length, String, Option, none, some, ltb}
use jxr.Native.Step.{Outcome, done, integer_overflow}
use jxr.Native.Step.Plain.{◌>>=◌, ◌>>◌, reject_if}
use jxr.Native.BitReader.{usize_max}

-- crates/jxr-core/src
pub data Orientation : Type 0 where
  identity : Orientation
  mirror_vertical : Orientation
  mirror_horizontal : Orientation
  rotate_180 : Orientation
  rotate_90 : Orientation
  transverse : Orientation
  transpose : Orientation
  rotate_270 : Orientation

-- The resolutions are the bit patterns of their `f32`.
pub record AnnexAWriteOptions : Type 0 where
  pub width : ℕ
  pub height : ℕ
  pub pixel_format_guid : List ℕ
  pub orientation : Orientation
  pub horizontal_resolution_dpi : ℕ
  pub vertical_resolution_dpi : ℕ
  pub icc_profile : Option (List ℕ)
  pub separate_alpha : Option (List ℕ)

pub record ContainerLayout : Type 0 where
  pub entry_count : ℕ
  pub pixel_format_offset : ℕ
  pub icc_offset : Option ℕ
  pub primary_offset : ℕ
  pub alpha_offset : Option ℕ
  pub output_len : ℕ

unfoldable pub orientation_code : Orientation → ℕ
orientation_code identity = 0
orientation_code mirror_vertical = 1
orientation_code mirror_horizontal = 2
orientation_code rotate_180 = 3
orientation_code rotate_90 = 4
orientation_code transverse = 5
orientation_code transpose = 6
orientation_code rotate_270 = 7

-- A sum or product of `usize`, or the error.
unfoldable pub checked_usize : ℕ → String → Outcome ℕ
checked_usize value operation = do
  reject_if (ltb usize_max value) (integer_overflow operation)
  done value

unfoldable pub checked_u32 : ℕ → String → Outcome ℕ
checked_u32 value operation = do
  reject_if (ltb (2 ^ 32 - 1) value) (integer_overflow operation)
  done value

-- The last step is `value & !3`.
unfoldable pub align_four : ℕ → Outcome ℕ
align_four value = do
  raised ← checked_usize (value + 3) "aligning Annex-A payload"
  done (raised / 4 * 4)

unfoldable pub checked_advance : ℕ → ℕ → Outcome ℕ
checked_advance offset len = checked_usize (offset + len) "sizing Annex-A output"

-- The offset of an optional payload, and the cursor behind it.
unfoldable pub place_optional : ℕ → Option (List ℕ) → Outcome (Option ℕ × ℕ)
place_optional cursor none = done (none, cursor)
place_optional cursor (some payload) = do
  offset ← align_four cursor
  behind ← checked_advance offset (length payload)
  done (some offset, behind)

unfoldable pub check_optional : Option (List ℕ) → String → Outcome (Unit {0})
check_optional none operation = done tt
check_optional (some payload) operation = do checked_u32 (length payload) operation; done tt

abbrev pub count_if : Option (List ℕ) → ℕ
count_if none = 0
count_if (some payload) = 1

unfoldable pub new : List ℕ → AnnexAWriteOptions → Outcome ContainerLayout
new primary options = do
  let entry_count : ℕ = 8 + count_if options.icc_profile + 2 * count_if options.separate_alpha
  table_size ← checked_usize (entry_count * 12) "sizing Annex-A directory"
  with_count ← checked_usize (2 + table_size) "sizing Annex-A directory"
  directory_size ← checked_usize (with_count + 4) "sizing Annex-A directory"
  start ← checked_usize (8 + directory_size) "locating Annex-A payloads"
  pixel_format_offset ← align_four start
  behind_guid ← checked_advance pixel_format_offset (length options.pixel_format_guid)
  icc ← place_optional behind_guid options.icc_profile
  primary_offset ← align_four icc.1
  behind_primary ← checked_advance primary_offset (length primary)
  alpha ← place_optional behind_primary options.separate_alpha
  primary_len ← checked_u32 (length primary) "representing primary codestream length"
  check_optional options.icc_profile "representing ICC profile length"
  check_optional options.separate_alpha "representing alpha codestream length"
  output_len ← checked_u32 alpha.1 "representing Annex-A file length"
  done (record {
    entry_count = entry_count;
    pixel_format_offset = pixel_format_offset;
    icc_offset = icc.0;
    primary_offset = primary_offset;
    alpha_offset = alpha.0;
    output_len = output_len;
  })

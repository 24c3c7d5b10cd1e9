-- ===== src/Native/Writer/Entries.antt =====
-- `write_directory` of annex_a/writer.rs.
pub mod Written
use jxr.Base.{ℕ, ◌^◌, ◌-◌, List, [], ◌∷◌, length, String, Option, none, some, ltb}
use jxr.Native.Step.{Outcome, done, after, Parser, ◌>>=◌, ◌>>◌, return, integer_overflow, reject_if}
use jxr.Native.AnnexA.{
  tag_icc_profile, tag_pixel_format, tag_transformation, tag_image_width, tag_image_height,
  tag_horizontal_resolution, tag_vertical_resolution, tag_image_offset, tag_image_byte_count,
  tag_alpha_offset, tag_alpha_byte_count,
}
use jxr.Native.Writer.Layout.{AnnexAWriteOptions, ContainerLayout, orientation_code}
use jxr.Native.Writer.Buffer.{DirectoryEntries, put, le_bytes, push}

-- `checked_u32(value, operation)?`
unfoldable pub as_u32 : ℕ → String → Parser DirectoryEntries ℕ
as_u32 value operation = do
  reject_if (ltb (2 ^ 32 - 1) value) (integer_overflow operation)
  return value

unfoldable pub push_icc : Option (List ℕ) → Option ℕ → Parser DirectoryEntries (Unit {0})
push_icc none offset = return tt
push_icc (some profile) none = return tt
push_icc (some profile) (some offset) = do
  len ← as_u32 (length profile) "representing ICC profile length"
  place ← as_u32 offset "representing ICC profile offset"
  push tag_icc_profile 7 len place

unfoldable pub push_alpha : Option (List ℕ) → Option ℕ → Parser DirectoryEntries (Unit {0})
push_alpha none offset = return tt
push_alpha (some alpha) none = return tt
push_alpha (some alpha) (some offset) = do
  place ← as_u32 offset "representing alpha codestream offset"
  push tag_alpha_offset 4 1 place
  len ← as_u32 (length alpha) "representing alpha codestream length"
  push tag_alpha_byte_count 4 1 len

unfoldable pub push_all :
    List ℕ → AnnexAWriteOptions → ContainerLayout → Parser DirectoryEntries (Unit {0})
push_all primary options layout = do
  push_icc options.icc_profile layout.icc_offset
  pixel_format ← as_u32 layout.pixel_format_offset "representing pixel format offset"
  push tag_pixel_format 1 16 pixel_format
  push tag_transformation 4 1 (orientation_code options.orientation)
  push tag_image_width 4 1 options.width
  push tag_image_height 4 1 options.height
  push tag_horizontal_resolution 11 1 options.horizontal_resolution_dpi
  push tag_vertical_resolution 11 1 options.vertical_resolution_dpi
  place ← as_u32 layout.primary_offset "representing primary codestream offset"
  push tag_image_offset 4 1 place
  len ← as_u32 (length primary) "representing primary codestream length"
  push tag_image_byte_count 4 1 len
  push_alpha options.separate_alpha layout.alpha_offset

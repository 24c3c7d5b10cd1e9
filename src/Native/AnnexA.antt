-- ===== src/Native/AnnexA.antt =====
-- crates/jxr-native/src/annex_a.rs: the container of an image, a file of tags.
pub mod Ranges
pub mod Directory
pub mod Valid
use jxr.Base.{
  ℕ, ◌+◌, ◌-◌, ◌*◌, ◌%◌, min, Bool, true, false, not, ◌&&◌, List, [], ◌∷◌, length, take, Option,
  none, some, ltb, ◌==◌, if◌then◌else◌,
}
use jxr.Native.Step.{
  Outcome, done, failed, after, invalid_signature, invalid_syntax, truncated, reserved_value,
  range_outside_input, missing_annex_a_field, invalid_annex_a_entry, integer_overflow,
}
use jxr.Native.Step.Plain.{◌>>=◌, ◌>>◌, reject_if, some_or}
use jxr.Native.BitReader.{usize_max}
use jxr.Native.AnnexA.Ranges.{
  Range, checked_range, checked_codestream_range, slice, read_u32, equal_bytes,
}
use jxr.Native.AnnexA.Directory.{
  DirectoryEntry, parse_directory, find_entry, required_entry, validate_entry, scalar_value,
  required_scalar, optional_scalar, element_size,
}

pub record AnnexAMetadata : Type 0 where
  pub transformation : Option ℕ
  pub resolution_dpi_bits : Option (ℕ × ℕ)
  pub icc_profile_range : Option Range

pub record AnnexAImage : Type 0 where
  pub width : ℕ
  pub height : ℕ
  pub pixel_format_guid : List ℕ
  pub codestream_range : Range
  pub alpha_range : Option Range
  pub metadata : AnnexAMetadata

-- 0xBC01, 0xBC02, 0xBC80 to 0xBC83, 0xBCC0 to 0xBCC3, and 0x8773
abbrev pub tag_pixel_format : ℕ
tag_pixel_format = 48129

abbrev pub tag_transformation : ℕ
tag_transformation = 48130

abbrev pub tag_image_width : ℕ
tag_image_width = 48256

abbrev pub tag_image_height : ℕ
tag_image_height = 48257

abbrev pub tag_horizontal_resolution : ℕ
tag_horizontal_resolution = 48258

abbrev pub tag_vertical_resolution : ℕ
tag_vertical_resolution = 48259

abbrev pub tag_image_offset : ℕ
tag_image_offset = 48320

abbrev pub tag_image_byte_count : ℕ
tag_image_byte_count = 48321

abbrev pub tag_alpha_offset : ℕ
tag_alpha_offset = 48322

abbrev pub tag_alpha_byte_count : ℕ
tag_alpha_byte_count = 48323

abbrev pub tag_icc_profile : ℕ
tag_icc_profile = 34675

unfoldable pub validate_file_header : List ℕ → Outcome (Unit {0})
validate_file_header bytes = do
  reject_if (ltb (length bytes) 8) (truncated (min (length bytes * 8) usize_max) 64)
  reject_if (not (equal_bytes (take 4 bytes) (73 ∷ 73 ∷ 188 ∷ 1 ∷ []))) invalid_signature

unfoldable pub alpha_range_of : List ℕ → Option ℕ → Option ℕ → Outcome (Option Range)
alpha_range_of bytes none none = done none
alpha_range_of bytes (some offset) none = failed (missing_annex_a_field tag_alpha_byte_count)
alpha_range_of bytes none (some count) = failed (missing_annex_a_field tag_alpha_offset)
alpha_range_of bytes (some offset) (some count) =
    if (offset == 0) && (count == 0)
    then done none
    else after (checked_codestream_range bytes "ALPHA_BYTE_COUNT" offset count)
        (λ range. done (some range))

unfoldable pub parse_alpha_range : List ℕ → List DirectoryEntry → Outcome (Option Range)
parse_alpha_range bytes entries = do
  offset ← optional_scalar entries tag_alpha_offset
  count ← optional_scalar entries tag_alpha_byte_count
  alpha_range_of bytes offset count

unfoldable pub resolution_of :
    Option DirectoryEntry → Option DirectoryEntry → Outcome (Option (ℕ × ℕ))
resolution_of none none = done none
resolution_of (some horizontal) none = failed (missing_annex_a_field tag_vertical_resolution)
resolution_of none (some vertical) = failed (missing_annex_a_field tag_horizontal_resolution)
resolution_of (some horizontal) (some vertical) = do
  validate_entry horizontal (11 ∷ []) 1
  validate_entry vertical (11 ∷ []) 1
  done (some (horizontal.value, vertical.value))

unfoldable pub optional_resolution : List DirectoryEntry → Outcome (Option (ℕ × ℕ))
optional_resolution entries =
    resolution_of (find_entry entries tag_horizontal_resolution)
      (find_entry entries tag_vertical_resolution)

unfoldable pub blob_of : List ℕ → ℕ → Option DirectoryEntry → Outcome (Option Range)
blob_of bytes tag none = done none
blob_of bytes tag (some entry) = do
  size ←
      some_or (element_size entry.element_type)
        (invalid_annex_a_entry tag entry.element_type entry.count)
  reject_if (ltb usize_max (size * entry.count)) (integer_overflow "sizing Annex-A metadata")
  range ← checked_range bytes "Annex-A metadata" entry.value (size * entry.count)
  done (some range)

unfoldable pub optional_blob : List ℕ → List DirectoryEntry → ℕ → Outcome (Option Range)
optional_blob bytes entries tag = blob_of bytes tag (find_entry entries tag)

unfoldable pub rest_of_file : List ℕ → ℕ → Outcome ℕ
rest_of_file bytes offset = do
  reject_if (ltb (length bytes) offset) (range_outside_input "IMAGE_OFFSET" offset 0 (length bytes))
  done (length bytes - offset)

-- A count of 0 stands for the rest of the file.
unfoldable pub codestream_len : List ℕ → ℕ → ℕ → Outcome ℕ
codestream_len bytes offset count = if count == 0 then rest_of_file bytes offset else done count

abbrev pub overlaps : Range → Option Range → Bool
overlaps codestream none = false
overlaps codestream (some alpha) = ltb alpha.start codestream.end && ltb codestream.start alpha.end

unfoldable pub build_image : List ℕ → List DirectoryEntry → Outcome AnnexAImage
build_image bytes entries = do
  pixel_entry ← required_entry entries tag_pixel_format
  validate_entry pixel_entry (1 ∷ []) 16
  guid_range ← checked_range bytes "PIXEL_FORMAT" pixel_entry.value 16
  guid ← slice bytes guid_range
  width ← required_scalar entries tag_image_width
  height ← required_scalar entries tag_image_height
  image_offset ← required_scalar entries tag_image_offset
  image_count ← required_scalar entries tag_image_byte_count
  len ← codestream_len bytes image_offset image_count
  codestream_range ← checked_codestream_range bytes "IMAGE_BYTE_COUNT" image_offset len
  alpha_range ← parse_alpha_range bytes entries
  reject_if (overlaps codestream_range alpha_range)
      (invalid_syntax "overlapping primary and alpha codestream ranges")
  transformation ← optional_scalar entries tag_transformation
  resolution ← optional_resolution entries
  icc ← optional_blob bytes entries tag_icc_profile
  done (record {
    width = width;
    height = height;
    pixel_format_guid = guid;
    codestream_range = codestream_range;
    alpha_range = alpha_range;
    metadata = record {
      transformation = transformation;
      resolution_dpi_bits = resolution;
      icc_profile_range = icc;
    };
  })

unfoldable pub parse_annex_a : List ℕ → Outcome AnnexAImage
parse_annex_a bytes = do
  validate_file_header bytes
  ifd_offset ← read_u32 bytes 4 "FIRST_IFD_OFFSET"
  reject_if (not (ifd_offset % 2 == 0)) (reserved_value "FIRST_IFD_OFFSET alignment" ifd_offset)
  entries ← parse_directory bytes ifd_offset
  build_image bytes entries

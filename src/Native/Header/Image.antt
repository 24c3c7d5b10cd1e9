-- ===== src/Native/Header/Image.antt =====
-- crates/jxr-native/src/header/image.rs: the `IMAGE_HEADER`.
use jxr.Base.{
  ℕ, zero, suc, ◌-◌, ◌%◌, Bool, true, false, not, ◌||◌, ◌&&◌, List, [], ◌∷◌, ltb, leb, ◌==◌,
  if◌then◌else◌,
}
use jxr.Native.Step.{Parser, ◌>>=◌, ◌>>◌, return, reject_if, invalid_signature, reserved_value}
use jxr.Native.BitReader.{BitReader, read_bits, read_flag}
use jxr.Native.Header.Types.{CodestreamHeader, from_parsed}
use jxr.Native.Header.Fields.{read_dimension, require_value, read_u8, read_u16}

-- 0x574D50484F544F00
abbrev pub gdi_signature : ℕ
gdi_signature = 6290772526005243648

unfoldable pub read_overlap_mode : Parser BitReader ℕ
read_overlap_mode = do
  value ← read_u8 2
  reject_if (value == 3) (reserved_value "OVERLAP_MODE" 3)
  return value

unfoldable pub inferred_margin : ℕ → ℕ
inferred_margin dimension = if dimension % 16 == 0 then 0 else 16 - dimension % 16

unfoldable pub parse_margins : Bool → ℕ → ℕ → Parser BitReader (List ℕ)
parse_margins true width height = do
  top ← read_u8 6
  left ← read_u8 6
  bottom ← read_u8 6
  right ← read_u8 6
  return (top ∷ left ∷ bottom ∷ right ∷ [])
parse_margins false width height =
    return (0 ∷ 0 ∷ inferred_margin height ∷ inferred_margin width ∷ [])

unfoldable pub read_tile_sizes : ℕ → ℕ → Parser BitReader (List ℕ)
read_tile_sizes zero bits = return []
read_tile_sizes (suc count) bits = do
  size ← read_u16 bits
  sizes ← read_tile_sizes count bits
  return (size ∷ sizes)

unfoldable pub parse_tiles : Bool → Bool → Parser BitReader (List ℕ × List ℕ)
parse_tiles false short = return ([], [])
parse_tiles true short = do
  columns_minus_one ← read_u16 12
  rows_minus_one ← read_u16 12
  widths ← read_tile_sizes columns_minus_one (if short then 8 else 16)
  heights ← read_tile_sizes rows_minus_one (if short then 8 else 16)
  return (widths, heights)

abbrev pub reserved_depth : ℕ → Bool
reserved_depth depth = (depth == 5) || (leb 11 depth && leb depth 14)

unfoldable pub validate_output_codes : ℕ → ℕ → Parser BitReader (Unit {0})
validate_output_codes color depth = do
  reject_if (ltb 8 color) (reserved_value "OUTPUT_CLR_FMT" color)
  reject_if (reserved_depth depth) (reserved_value "OUTPUT_BITDEPTH" depth)

unfoldable pub parse_image_header : Parser BitReader CodestreamHeader
parse_image_header = do
  signature ← read_bits 64
  reject_if (not (signature == gdi_signature)) invalid_signature
  reserved_b ← read_bits 4
  require_value reserved_b 1 "RESERVED_B"
  hard_tiling ← read_flag
  reserved_c ← read_bits 3
  tiling ← read_flag
  frequency_mode ← read_flag
  orientation ← read_u8 3
  index_table_present ← read_flag
  overlap_mode ← read_overlap_mode
  short_header ← read_flag
  long_word ← read_flag
  windowing ← read_flag
  trim_flexbits ← read_flag
  reserved_d ← read_flag
  red_blue_not_swapped ← read_flag
  premultiplied_alpha ← read_flag
  alpha_plane ← read_flag
  output_color_format ← read_u8 4
  output_bit_depth ← read_u8 4
  validate_output_codes output_color_format output_bit_depth
  width ← read_dimension (if short_header then 16 else 32) "WIDTH_MINUS1"
  height ← read_dimension (if short_header then 16 else 32) "HEIGHT_MINUS1"
  tile_sizes ← parse_tiles tiling short_header
  margins ← parse_margins windowing width height
  return (record {
    width = width;
    height = height;
    flags = from_parsed (
        hard_tiling ∷ frequency_mode ∷ index_table_present ∷ long_word ∷ short_header
        ∷ trim_flexbits ∷ red_blue_not_swapped ∷ premultiplied_alpha ∷ alpha_plane ∷ []);
    orientation = orientation;
    overlap_mode = overlap_mode;
    output_color_format = output_color_format;
    output_bit_depth = output_bit_depth;
    tile_widths_mb = tile_sizes.0;
    tile_heights_mb = tile_sizes.1;
    margins = margins;
  })

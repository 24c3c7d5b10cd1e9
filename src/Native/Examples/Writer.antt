-- ===== src/Native/Examples/Writer.antt =====
-- The round trip of the container at the smallest codestream, with a profile of three bytes.
use jxr.Base.{ℕ, ◌≡◌, refl, arith, Bool, true, false, List, [], ◌∷◌, none, some}
use jxr.Native.Step.Post.{Yields}
use jxr.Native.BitReader.{usize_max}
use jxr.Native.Step.{Outcome, done, failed, panicked}
use jxr.Native.BitReader as BitReader
use jxr.Native.Header as Header
use jxr.Native.Header.Types as HeaderTypes
use jxr.Native.Header.Fields as Fields
use jxr.Native.Header.Image as Image
use jxr.Native.Header.Plane as Plane
use jxr.Native.AnnexA as AnnexA
use jxr.Native.AnnexA.Ranges as Ranges
use jxr.Native.AnnexA.Directory as Directory
use jxr.Native.Tail as Tail
use jxr.Native.Tail.Cursor as Cursor
use jxr.Native.PixelFormat as PixelFormat
use jxr.Native.PixelFormat.Table as Table
use jxr.Native.Codestream as Codestream
use jxr.Native.Step as Step
use jxr.Native.Step.Plain as Plain
use jxr.Native.Writer as Writer
use jxr.Native.Writer.Layout as Layout
use jxr.Native.Writer.Buffer as Buffer
use jxr.Native.Writer.Entries as Entries
use jxr.Native.Writer.{write_annex_a}
use jxr.Native.Writer.Layout.{AnnexAWriteOptions, Orientation, new}
use jxr.Native.Writer.Layout.Bounds.{IsLayout, new-IsLayout}
use jxr.Native.Writer.RoundTrip.{IsOptions}
use jxr.Native.Writer.Complete.{IsInput, IsRoundTrip, write_annex_a-parse_annex_a}

abbrev primary : List ℕ
primary =
    87 ∷ 77 ∷ 80 ∷ 72 ∷ 79 ∷ 84 ∷ 79 ∷ 0 ∷ 17 ∷ 1 ∷ 128 ∷ 1 ∷ 0 ∷ 7 ∷ 0 ∷ 7 ∷ 16 ∷ 130 ∷ 128 ∷ 0 ∷ 0
    ∷ []

-- 8 grey bits, turned by 90 degrees, 96 dpi
abbrev options : AnnexAWriteOptions
options = record {
  width = 8;
  height = 8;
  pixel_format_guid =
      36 ∷ 195 ∷ 221 ∷ 111 ∷ 3 ∷ 78 ∷ 254 ∷ 75 ∷ 177 ∷ 133 ∷ 61 ∷ 119 ∷ 118 ∷ 141 ∷ 201 ∷ 8 ∷ [];
  orientation = Orientation.rotate_90;
  horizontal_resolution_dpi = 1119879168;
  vertical_resolution_dpi = 1119879168;
  icc_profile = some (1 ∷ 2 ∷ 3 ∷ []);
  separate_alpha = none;
}

primary-IsInput : IsInput primary
primary-IsInput = (omega arith, omega arith)

profile-IsInput : IsInput (1 ∷ 2 ∷ 3 ∷ [])
profile-IsInput = (omega arith, omega arith)

options-IsOptions : IsOptions options
options-IsOptions = record {
  guid_bytes = refl;
  width_bits = omega arith;
  height_bits = omega arith;
  horizontal_bits = omega arith;
  vertical_bits = omega arith;
}

write_annex_a-parse_annex_a_example :
    Yields (IsRoundTrip primary options) (write_annex_a primary options)
write_annex_a-parse_annex_a_example =
    write_annex_a-parse_annex_a primary options primary-IsInput options-IsOptions (omega arith)
      profile-IsInput tt

new-IsLayout_example : Yields (IsLayout primary options) (new primary options)
new-IsLayout_example = new-IsLayout primary options

abbrev is_written : {A : Type 0} → Outcome A → Bool
is_written (done a) = true
is_written (failed e) = false
is_written panicked = false

written_test : is_written (write_annex_a primary options) ≡ true
unfolding BitReader.new BitReader.read_loop BitReader.read_bits BitReader.read_flag
    BitReader.align_loop BitReader.align_zero Header.parse_alpha Header.parse_all
    Header.parse_codestream_headers HeaderTypes.fold_flags HeaderTypes.from_parsed
    HeaderTypes.hard_tiling HeaderTypes.frequency_mode HeaderTypes.index_table_present
    HeaderTypes.long_word HeaderTypes.short_header HeaderTypes.trim_flexbits
    HeaderTypes.red_blue_not_swapped HeaderTypes.premultiplied_alpha HeaderTypes.alpha_plane
    Fields.read_dimension Fields.require_value Fields.read_u8 Fields.read_u16
    Image.read_overlap_mode Image.inferred_margin Image.parse_margins Image.read_tile_sizes
    Image.parse_tiles Image.validate_output_codes Image.parse_image_header
    Plane.validate_internal_color Plane.validate_bands Plane.read_float_parameters
    Plane.parse_float_parameters Plane.parse_shift_bits Plane.read_chroma_centering
    Plane.parse_yuv420_layout Plane.parse_yuv422_layout Plane.read_long_count Plane.read_short_count
    Plane.parse_ncomponent_layout Plane.parse_yuv444_layout Plane.parse_component_layout
    Plane.separate_quantizers Plane.independent_quantizers Plane.uniform_quantizers
    Plane.quantizers_of_mode Plane.parse_quantizer_set Plane.some_quantizers
    Plane.parse_optional_quantizers Plane.parse_high_pass Plane.parse_low_and_high_pass
    Plane.parse_high_band_quantizers Plane.parse_plane_header AnnexA.validate_file_header
    AnnexA.alpha_range_of AnnexA.parse_alpha_range AnnexA.resolution_of AnnexA.optional_resolution
    AnnexA.blob_of AnnexA.optional_blob AnnexA.rest_of_file AnnexA.codestream_len AnnexA.build_image
    AnnexA.parse_annex_a Ranges.equal_bytes Ranges.slice Ranges.checked_range Ranges.from_le_bytes
    Ranges.read_u16 Ranges.read_u32 Ranges.is_padded Ranges.range_or_padded
    Ranges.checked_codestream_range Directory.read_entry Directory.check_sorted
    Directory.parse_entries Directory.parse_directory Directory.find_entry Directory.contains
    Directory.validate_entry Directory.required_entry Directory.scalar_of_type
    Directory.scalar_value Directory.required_scalar Directory.scalar_of Directory.optional_scalar
    Directory.element_size Tail.tile_count Tail.read_offsets Tail.parse_index Tail.profile_loop
    Tail.profiles_in Tail.parse_profile_area Tail.parse_at_cursor Tail.parse Cursor.position
    Cursor.set_position Cursor.require_position Cursor.new Cursor.read_u8 Cursor.read_be
    Cursor.read_u16 Cursor.read_u32 Cursor.read_u64 Cursor.read_short Cursor.read_vlw_from
    Cursor.read_vlw PixelFormat.classify_annex_a_pixel_format PixelFormat.output_color_code
    PixelFormat.bit_depth_matches PixelFormat.premultiplication_is_consistent
    PixelFormat.separate_plane PixelFormat.validate_known PixelFormat.validate_format
    PixelFormat.validate_annex PixelFormat.validate_annex_a_pixel_format
    PixelFormat.source_is_premultiplied Table.descriptor Table.luma_format Table.packed_rgb
    Table.rgb_format Table.cmyk_format Table.yuv_format Table.yuv_fixed Table.basic_descriptor
    Table.rgb_descriptor Table.cmyk_yuv_descriptor Table.rgba_descriptor Table.ncomponent_format
    Table.ncomponent_descriptor Table.known_descriptor Codestream.parse_raw
    Codestream.separate_alpha_of Codestream.parse_separate_alpha Codestream.parse_container
    Codestream.starts_with Codestream.parse_codestream Step.reject_if Step.some_or Plain.reject_if
    Plain.some_or Writer.write_directory Writer.put_optional Writer.write_payloads
    Writer.validate_raw_codestream Writer.validate_alpha Writer.validate_options
    Writer.write_annex_a Layout.orientation_code Layout.checked_usize Layout.checked_u32
    Layout.align_four Layout.checked_advance Layout.place_optional Layout.check_optional Layout.new
    Buffer.put Buffer.le_bytes Buffer.push Entries.as_u32 Entries.push_icc Entries.push_alpha
    Entries.push_all
written_test = refl

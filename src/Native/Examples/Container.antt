-- ===== src/Native/Examples/Container.antt =====
-- The theorems on the container at a file of the smallest codestream, of one grey component.
use jxr.Base.{ℕ, ◌≡◌, refl, arith, Bool, true, false, List, [], ◌∷◌, All, none, some}
use jxr.Entropy.BitReader.Bits.{IsByte}
use jxr.Native.Step.{Outcome, done, failed, panicked}
use jxr.Native.Step.Post.{Yields}
use jxr.Native.BitReader as BitReader
use jxr.Native.Header as Header
use jxr.Native.Header.Types as HeaderTypes
use jxr.Native.Header.Fields as Fields
use jxr.Native.Header.Image as Image
use jxr.Native.Header.Plane as Plane
use jxr.Native.AnnexA as AnnexA
use jxr.Native.AnnexA.Ranges as Ranges
use jxr.Native.AnnexA.Directory as Directory
use jxr.Native.Tail as Tail
use jxr.Native.Tail.Cursor as Cursor
use jxr.Native.PixelFormat as PixelFormat
use jxr.Native.PixelFormat.Table as Table
use jxr.Native.Codestream as Codestream
use jxr.Native.Step as Step
use jxr.Native.Step.Plain as Plain
use jxr.Native.BitReader.{usize_max}
use jxr.Native.Header.Types.{ParsedHeaders}
use jxr.Native.Header.Valid.{IsOptional}
use jxr.Native.AnnexA.{AnnexAImage, parse_annex_a}
use jxr.Native.AnnexA.Directory.{DirectoryEntry, parse_directory, find_entry}
use jxr.Native.AnnexA.Valid.Sorted.{IsDirectory, parse_directory-IsDirectory, find_entry-ascending}
use jxr.Native.AnnexA.Valid.Image.{IsAnnexA, parse_annex_a-IsAnnexA}
use jxr.Native.PixelFormat.{is_present}
use jxr.Native.PixelFormat.Table.{known_descriptor}
use jxr.Native.PixelFormat.Valid.{listed, IsDescriptor, known_descriptor-IsDescriptor}
use jxr.Native.Codestream.{parse_codestream}
use jxr.Native.Codestream.Valid.{IsParsedCodestream, parse_codestream-IsParsedCodestream}

abbrev file : List ℕ
file =
    73 ∷ 73 ∷ 188 ∷ 1 ∷ 8 ∷ 0 ∷ 0 ∷ 0 ∷ 5 ∷ 0 ∷ 1 ∷ 188 ∷ 1 ∷ 0 ∷ 16 ∷ 0 ∷ 0 ∷ 0 ∷ 70 ∷ 0 ∷ 0 ∷ 0
    ∷ 128 ∷ 188 ∷ 4 ∷ 0 ∷ 1 ∷ 0 ∷ 0 ∷ 0 ∷ 8 ∷ 0 ∷ 0 ∷ 0 ∷ 129 ∷ 188 ∷ 4 ∷ 0 ∷ 1 ∷ 0 ∷ 0 ∷ 0 ∷ 8 ∷ 0
    ∷ 0 ∷ 0 ∷ 192 ∷ 188 ∷ 4 ∷ 0 ∷ 1 ∷ 0 ∷ 0 ∷ 0 ∷ 86 ∷ 0 ∷ 0 ∷ 0 ∷ 193 ∷ 188 ∷ 4 ∷ 0 ∷ 1 ∷ 0 ∷ 0 ∷ 0
    ∷ 21 ∷ 0 ∷ 0 ∷ 0 ∷ 36 ∷ 195 ∷ 221 ∷ 111 ∷ 3 ∷ 78 ∷ 254 ∷ 75 ∷ 177 ∷ 133 ∷ 61 ∷ 119 ∷ 118 ∷ 141
    ∷ 201 ∷ 8 ∷ 87 ∷ 77 ∷ 80 ∷ 72 ∷ 79 ∷ 84 ∷ 79 ∷ 0 ∷ 17 ∷ 1 ∷ 128 ∷ 1 ∷ 0 ∷ 7 ∷ 0 ∷ 7 ∷ 16 ∷ 130
    ∷ 128 ∷ 0 ∷ 0 ∷ []

file_bytes : All IsByte file
file_bytes = omega arith

parse_codestream-IsParsedCodestream_example :
    Yields (IsParsedCodestream file) (parse_codestream file)
parse_codestream-IsParsedCodestream_example =
    parse_codestream-IsParsedCodestream file file_bytes (omega arith)

parse_annex_a-IsAnnexA_example : Yields (IsAnnexA file) (parse_annex_a file)
parse_annex_a-IsAnnexA_example = parse_annex_a-IsAnnexA file file_bytes

parse_directory-IsDirectory_example : Yields IsDirectory (parse_directory file 8)
parse_directory-IsDirectory_example = parse_directory-IsDirectory file file_bytes 8

abbrev entry : ℕ → ℕ → DirectoryEntry
entry tag value = record { tag = tag; element_type = 4; count = 1; value = value }

find_entry-ascending_example :
    find_entry (entry 48256 8 ∷ entry 48257 9 ∷ []) 48257 ≡ some (entry 48257 9)
find_entry-ascending_example =
    find_entry-ascending none (entry 48256 8 ∷ entry 48257 9 ∷ []) 1 (entry 48257 9)
      (tt, (omega arith, tt)) refl

known_descriptor-IsDescriptor_example :
    (is_present (known_descriptor 16) ≡ listed 16) × IsOptional IsDescriptor (known_descriptor 16)
known_descriptor-IsDescriptor_example = known_descriptor-IsDescriptor 16 (omega arith)

abbrev is_done : {A : Type 0} → Outcome A → Bool
is_done (done a) = true
is_done (failed e) = false
is_done panicked = false

file_test : is_done (parse_codestream file) ≡ true
unfolding BitReader.new BitReader.read_loop BitReader.read_bits BitReader.read_flag
    BitReader.align_loop BitReader.align_zero Header.parse_alpha Header.parse_all
    Header.parse_codestream_headers HeaderTypes.fold_flags HeaderTypes.from_parsed
    HeaderTypes.hard_tiling HeaderTypes.frequency_mode HeaderTypes.index_table_present
    HeaderTypes.long_word HeaderTypes.short_header HeaderTypes.trim_flexbits
    HeaderTypes.red_blue_not_swapped HeaderTypes.premultiplied_alpha HeaderTypes.alpha_plane
    Fields.read_dimension Fields.require_value Fields.read_u8 Fields.read_u16
    Image.read_overlap_mode Image.inferred_margin Image.parse_margins Image.read_tile_sizes
    Image.parse_tiles Image.validate_output_codes Image.parse_image_header
    Plane.validate_internal_color Plane.validate_bands Plane.read_float_parameters
    Plane.parse_float_parameters Plane.parse_shift_bits Plane.read_chroma_centering
    Plane.parse_yuv420_layout Plane.parse_yuv422_layout Plane.read_long_count Plane.read_short_count
    Plane.parse_ncomponent_layout Plane.parse_yuv444_layout Plane.parse_component_layout
    Plane.separate_quantizers Plane.independent_quantizers Plane.uniform_quantizers
    Plane.quantizers_of_mode Plane.parse_quantizer_set Plane.some_quantizers
    Plane.parse_optional_quantizers Plane.parse_high_pass Plane.parse_low_and_high_pass
    Plane.parse_high_band_quantizers Plane.parse_plane_header AnnexA.validate_file_header
    AnnexA.alpha_range_of AnnexA.parse_alpha_range AnnexA.resolution_of AnnexA.optional_resolution
    AnnexA.blob_of AnnexA.optional_blob AnnexA.rest_of_file AnnexA.codestream_len AnnexA.build_image
    AnnexA.parse_annex_a Ranges.equal_bytes Ranges.slice Ranges.checked_range Ranges.from_le_bytes
    Ranges.read_u16 Ranges.read_u32 Ranges.is_padded Ranges.range_or_padded
    Ranges.checked_codestream_range Directory.read_entry Directory.check_sorted
    Directory.parse_entries Directory.parse_directory Directory.find_entry Directory.contains
    Directory.validate_entry Directory.required_entry Directory.scalar_of_type
    Directory.scalar_value Directory.required_scalar Directory.scalar_of Directory.optional_scalar
    Directory.element_size Tail.tile_count Tail.read_offsets Tail.parse_index Tail.profile_loop
    Tail.profiles_in Tail.parse_profile_area Tail.parse_at_cursor Tail.parse Cursor.position
    Cursor.set_position Cursor.require_position Cursor.new Cursor.read_u8 Cursor.read_be
    Cursor.read_u16 Cursor.read_u32 Cursor.read_u64 Cursor.read_short Cursor.read_vlw_from
    Cursor.read_vlw PixelFormat.classify_annex_a_pixel_format PixelFormat.output_color_code
    PixelFormat.bit_depth_matches PixelFormat.premultiplication_is_consistent
    PixelFormat.separate_plane PixelFormat.validate_known PixelFormat.validate_format
    PixelFormat.validate_annex PixelFormat.validate_annex_a_pixel_format
    PixelFormat.source_is_premultiplied Table.descriptor Table.luma_format Table.packed_rgb
    Table.rgb_format Table.cmyk_format Table.yuv_format Table.yuv_fixed Table.basic_descriptor
    Table.rgb_descriptor Table.cmyk_yuv_descriptor Table.rgba_descriptor Table.ncomponent_format
    Table.ncomponent_descriptor Table.known_descriptor Codestream.parse_raw
    Codestream.separate_alpha_of Codestream.parse_separate_alpha Codestream.parse_container
    Codestream.starts_with Codestream.parse_codestream Step.reject_if Step.some_or Plain.reject_if
    Plain.some_or
file_test = refl

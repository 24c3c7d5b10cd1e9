-- ===== src/Native/PixelFormat.antt =====
-- crates/jxr-native/src/pixel_format.rs: the pixel format of a container against its codestream.
pub mod Types
pub mod Table
pub mod Valid
use jxr.Base.{
  ℕ, ◌+◌, ◌-◌, Bool, true, false, not, ◌&&◌, ◌||◌, List, [], ◌∷◌, take, get_or, String, Option,
  none, some, ltb, ◌==◌, if◌then◌else◌,
}
use jxr.Native.Step.{NativeError, Outcome, done, panicked, invalid_syntax}
use jxr.Native.Step.Plain.{◌>>=◌, ◌>>◌, reject_if}
use jxr.Native.Header.Types.{ParsedHeaders, ImagePlaneHeader, premultiplied_alpha}
use jxr.Native.AnnexA.{AnnexAImage}
use jxr.Native.AnnexA.Ranges.{equal_bytes}
use jxr.Native.Codestream.Types.{ParsedCodestream}
use jxr.Native.PixelFormat.Types.{
  ChromaSampling, AnnexAPixelFamily, AnnexABitDepth, AnnexAPixelFormatDescriptor, AnnexAPixelFormat,
  known, unknown,
}
use jxr.Native.PixelFormat.Table.{known_descriptor, one_if}

abbrev pub guid_prefix : List ℕ
guid_prefix = 36 ∷ 195 ∷ 221 ∷ 111 ∷ 3 ∷ 78 ∷ 254 ∷ 75 ∷ 177 ∷ 133 ∷ 61 ∷ 119 ∷ 118 ∷ 141 ∷ 201 ∷ []

abbrev pub known_or : List ℕ → Option AnnexAPixelFormatDescriptor → AnnexAPixelFormat
known_or guid none = unknown guid
known_or guid (some d) = known d

unfoldable pub classify_annex_a_pixel_format : List ℕ → AnnexAPixelFormat
classify_annex_a_pixel_format guid =
    if equal_bytes (take 15 guid) guid_prefix
    then known_or guid (known_descriptor (get_or guid 15 0))
    else unknown guid

unfoldable pub output_color_code : AnnexAPixelFamily → ℕ
output_color_code AnnexAPixelFamily.luma = 0
output_color_code (AnnexAPixelFamily.yuv ChromaSampling.cs420) = 1
output_color_code (AnnexAPixelFamily.yuv ChromaSampling.cs422) = 2
output_color_code (AnnexAPixelFamily.yuv ChromaSampling.cs444) = 3
output_color_code (AnnexAPixelFamily.cmyk false) = 4
output_color_code (AnnexAPixelFamily.cmyk true) = 5
output_color_code AnnexAPixelFamily.ncomponent = 6
output_color_code AnnexAPixelFamily.rgb = 7
output_color_code AnnexAPixelFamily.rgbe = 8

unfoldable pub bit_depth_matches : AnnexABitDepth → ℕ → Bool
bit_depth_matches AnnexABitDepth.bit1 code = (code == 0) || (code == 15)
bit_depth_matches AnnexABitDepth.u8 code = code == 1
bit_depth_matches AnnexABitDepth.u10 code = code == 9
bit_depth_matches AnnexABitDepth.rgb101010 code = code == 9
bit_depth_matches AnnexABitDepth.u16 code = code == 2
bit_depth_matches AnnexABitDepth.i16 code = code == 3
bit_depth_matches AnnexABitDepth.f16 code = code == 4
bit_depth_matches AnnexABitDepth.i32 code = code == 6
bit_depth_matches AnnexABitDepth.f32 code = code == 7
bit_depth_matches AnnexABitDepth.rgb555 code = code == 8
bit_depth_matches AnnexABitDepth.rgb565 code = code == 10

abbrev pub same_flag : Bool → Bool → Bool
same_flag true b = b
same_flag false b = not b

unfoldable pub premultiplication_is_consistent : Bool → Bool → Bool → Bool
premultiplication_is_consistent separate_alpha codestream_premultiplied annex_a_premultiplied =
    separate_alpha || same_flag codestream_premultiplied annex_a_premultiplied

abbrev pub is_present : {A : Type 0} → Option A → Bool
is_present none = false
is_present (some a) = true

-- The plane that a separate alpha codestream stores alpha in.
unfoldable pub separate_plane : Option ParsedHeaders → Option ImagePlaneHeader
separate_plane none = none
separate_plane (some headers) =
    some (elim headers.alpha [ none ↦ headers.primary | some plane ↦ plane ])

abbrev pub has_other_count : Option ImagePlaneHeader → Bool
has_other_count none = false
has_other_count (some plane) = not (plane.components == 1)

abbrev pub has_other_depth : AnnexABitDepth → Option ParsedHeaders → Bool
has_other_depth depth none = false
has_other_depth depth (some headers) = not (bit_depth_matches depth headers.image.output_bit_depth)

-- A subtraction of `u8` below zero panics.
abbrev pub checked_difference : ℕ → ℕ → Outcome ℕ
checked_difference a b = if ltb a b then panicked else done (a - b)

unfoldable pub validate_known : ParsedCodestream → AnnexAPixelFormatDescriptor → Outcome (Unit {0})
validate_known parsed format = do
  reject_if (not (parsed.headers.image.output_color_format == output_color_code format.family))
      (invalid_syntax "Annex-A pixel format colour declaration")
  reject_if (not (bit_depth_matches format.bit_depth parsed.headers.image.output_bit_depth))
      (invalid_syntax "Annex-A pixel format bit depth")
  primary_components ← checked_difference format.channels (one_if format.alpha)
  reject_if (not (parsed.headers.primary.components == primary_components))
      (invalid_syntax "Annex-A pixel format component count")
  reject_if
      (not (
        same_flag
          (is_present parsed.headers.alpha
            || is_present (separate_plane parsed.separate_alpha_headers))
          format.alpha))
      (invalid_syntax "Annex-A pixel format alpha declaration")
  reject_if
      (not (
        premultiplication_is_consistent (is_present parsed.separate_alpha_headers)
          (premultiplied_alpha parsed.headers.image.flags) format.premultiplied_alpha))
      (invalid_syntax "Annex-A pixel format premultiplied alpha")
  reject_if
      (has_other_count parsed.headers.alpha
        || has_other_count (separate_plane parsed.separate_alpha_headers))
      (invalid_syntax "Annex-A alpha component count")
  reject_if (has_other_depth format.bit_depth parsed.separate_alpha_headers)
      (invalid_syntax "Annex-A separate alpha bit depth")

unfoldable pub validate_format : ParsedCodestream → AnnexAPixelFormat → Outcome (Unit {0})
validate_format parsed (known format) = validate_known parsed format
validate_format parsed (unknown guid) = done tt

unfoldable pub validate_annex : ParsedCodestream → Option AnnexAImage → Outcome (Unit {0})
validate_annex parsed none = done tt
validate_annex parsed (some annex) =
    validate_format parsed (classify_annex_a_pixel_format annex.pixel_format_guid)

unfoldable pub validate_annex_a_pixel_format : ParsedCodestream → Outcome (Unit {0})
validate_annex_a_pixel_format parsed = validate_annex parsed parsed.annex_a

unfoldable pub source_is_premultiplied : ParsedCodestream → Bool
source_is_premultiplied parsed = elim parsed.separate_alpha_headers [
  | none ↦ premultiplied_alpha parsed.headers.image.flags
  | some headers ↦ elim parsed.annex_a [
    | none ↦ premultiplied_alpha parsed.headers.image.flags
    | some annex ↦ elim (classify_annex_a_pixel_format annex.pixel_format_guid) [
      | known format ↦ format.premultiplied_alpha
      | unknown guid ↦ premultiplied_alpha parsed.headers.image.flags
    ]
  ]
]

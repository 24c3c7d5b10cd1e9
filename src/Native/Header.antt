-- ===== src/Native/Header.antt =====
-- crates/jxr-native/src/header/mod.rs: the image header and the headers of its planes.
pub mod Types
pub mod Fields
pub mod Image
pub mod Plane
pub mod Valid
use jxr.Base.{ℕ, ◌+◌, ◌/◌, Bool, true, false, List, Option, none, some}
use jxr.Native.Step.{Outcome, done, failed, panicked, after, Parser, ◌>>=◌, return}
use jxr.Native.BitReader.{BitReader, new}
use jxr.Native.Header.Types.{ParsedHeaders, ImagePlaneHeader, alpha_plane}
use jxr.Native.Header.Image.{parse_image_header}
use jxr.Native.Header.Plane.{parse_plane_header}

-- `present.then(|| parse_plane_header(..)).transpose()?`
unfoldable pub parse_alpha : Bool → ℕ → Parser BitReader (Option ImagePlaneHeader)
parse_alpha false output_bit_depth = return none
parse_alpha true output_bit_depth = do
  plane ← parse_plane_header output_bit_depth
  return (some plane)

unfoldable pub parse_all : Parser BitReader ParsedHeaders
parse_all = do
  image ← parse_image_header
  primary ← parse_plane_header image.output_bit_depth
  alpha ← parse_alpha (alpha_plane image.flags) image.output_bit_depth
  λ reader. done (
    record {
      image = image;
      primary = primary;
      alpha = alpha;
      bytes_consumed = (reader.bit_position + 7) / 8;
    },
    reader,
  )

abbrev pub parsed_value : {A : Type 0} → A × BitReader → Outcome A
parsed_value (a, reader) = done a

unfoldable pub parse_codestream_headers : List ℕ → Outcome ParsedHeaders
parse_codestream_headers bytes = after (parse_all (new bytes)) parsed_value

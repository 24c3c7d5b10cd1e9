-- ===== src/Native/Codestream.antt =====
-- crates/jxr-native/src/codestream.rs: a file as a raw codestream or as a container of one.
pub mod Types
pub mod Valid
use jxr.Base.{
  ℕ, Bool, true, false, not, ◌||◌, List, [], ◌∷◌, length, take, Option, none, some, ◌==◌,
  if◌then◌else◌,
}
use jxr.Native.Step.{Outcome, done, invalid_syntax, reserved_value}
use jxr.Native.Step.Plain.{◌>>=◌, ◌>>◌, reject_if}
use jxr.Native.Header.{parse_codestream_headers}
use jxr.Native.Header.Types.{ParsedHeaders}
use jxr.Native.AnnexA.{AnnexAImage, parse_annex_a}
use jxr.Native.AnnexA.Ranges.{Range, slice, equal_bytes}
use jxr.Native.Tail as Tail
use jxr.Native.Tail.{CodestreamDirectory}
use jxr.Native.Codestream.Types.{ParsedCodestream}
use jxr.Native.PixelFormat.{validate_annex_a_pixel_format}

unfoldable pub parse_raw : List ℕ → Outcome ParsedCodestream
parse_raw bytes = do
  headers ← parse_codestream_headers bytes
  directory ← Tail.parse bytes headers
  done (record {
    codestream_range = record { start = 0; end = length bytes };
    headers = headers;
    directory = directory;
    separate_alpha_headers = none;
    separate_alpha_directory = none;
    annex_a = none;
  })

unfoldable pub separate_alpha_of :
    List ℕ
    → AnnexAImage
    → Option Range
    → Outcome (Option ParsedHeaders × Option CodestreamDirectory)
separate_alpha_of bytes annex_a none = done (none, none)
separate_alpha_of bytes annex_a (some range) = do
  codestream ← slice bytes range
  headers ← parse_codestream_headers codestream
  reject_if
      (not (headers.image.width == annex_a.width) || not (headers.image.height == annex_a.height))
      (invalid_syntax "separate alpha dimensions")
  directory ← Tail.parse codestream headers
  done (some headers, some directory)

unfoldable pub parse_separate_alpha :
    List ℕ → AnnexAImage → Outcome (Option ParsedHeaders × Option CodestreamDirectory)
parse_separate_alpha bytes annex_a = separate_alpha_of bytes annex_a annex_a.alpha_range

unfoldable pub parse_container : List ℕ → Outcome ParsedCodestream
parse_container bytes = do
  annex_a ← parse_annex_a bytes
  codestream ← slice bytes annex_a.codestream_range
  headers ← parse_codestream_headers codestream
  directory ← Tail.parse codestream headers
  reject_if
      (not (headers.image.width == annex_a.width) || not (headers.image.height == annex_a.height))
      (reserved_value "Annex-A/codestream dimension mismatch" 1)
  separate_alpha ← parse_separate_alpha bytes annex_a
  let parsed : ParsedCodestream = record {
    codestream_range = annex_a.codestream_range;
    headers = headers;
    directory = directory;
    separate_alpha_headers = separate_alpha.0;
    separate_alpha_directory = separate_alpha.1;
    annex_a = some annex_a;
  }
  validate_annex_a_pixel_format parsed
  done parsed

-- `bytes.starts_with(b"WMPHOTO\0")`
unfoldable pub starts_with : List ℕ → List ℕ → Bool
starts_with bytes prefix = equal_bytes (take (length prefix) bytes) prefix

abbrev pub raw_signature : List ℕ
raw_signature = 87 ∷ 77 ∷ 80 ∷ 72 ∷ 79 ∷ 84 ∷ 79 ∷ 0 ∷ []

unfoldable pub parse_codestream : List ℕ → Outcome ParsedCodestream
parse_codestream bytes =
    if starts_with bytes raw_signature then parse_raw bytes else parse_container bytes

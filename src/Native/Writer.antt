-- ===== src/Native/Writer.antt =====
-- crates/jxr-native/src/annex_a/writer.rs: a container around a raw codestream.
pub mod Layout
pub mod Buffer
pub mod Entries
pub mod Written
pub mod RoundTrip
pub mod Bytes
pub mod Complete
use jxr.Base.{
  ℕ, ◌+◌, ◌-◌, ◌/◌, ◌%◌, ◌^◌, Bool, true, false, not, ◌||◌, List, [], ◌∷◌, length, replicate,
  Option, none, some, ltb, leb, ◌==◌, if◌then◌else◌,
}
use jxr.Native.Step.{Outcome, done, after, invalid_syntax, integer_overflow}
use jxr.Native.Step.Plain.{◌>>=◌, ◌>>◌, reject_if}
use jxr.Native.Writer.Layout.{AnnexAWriteOptions, ContainerLayout, new}
use jxr.Native.Writer.Buffer.{DirectoryEntries, put, le_bytes}
use jxr.Native.Writer.Entries.{push_all}
use jxr.Native.Codestream.{parse_codestream, starts_with, raw_signature}

-- The signature, the offset of the directory, the number of its entries, and the entries from byte 10.
unfoldable pub write_directory :
    List ℕ → List ℕ → AnnexAWriteOptions → ContainerLayout → Outcome (List ℕ)
write_directory output primary options layout = do
  with_signature ← put output 0 (73 ∷ 73 ∷ 188 ∷ 1 ∷ [])
  with_offset ← put with_signature 4 (le_bytes 4 8)
  reject_if (ltb (2 ^ 16 - 1) layout.entry_count)
      (integer_overflow "representing Annex-A directory count")
  with_count ← put with_offset 8 (le_bytes 2 layout.entry_count)
  entries ← push_all primary options layout (record { output = with_count; offset = 10 })
  done entries.1.output

unfoldable pub put_optional : List ℕ → Option (List ℕ) → Option ℕ → Outcome (List ℕ)
put_optional output none offset = done output
put_optional output (some payload) none = done output
put_optional output (some payload) (some offset) = put output offset payload

unfoldable pub write_payloads :
    List ℕ → List ℕ → AnnexAWriteOptions → ContainerLayout → Outcome (List ℕ)
write_payloads output primary options layout = do
  with_guid ← put output layout.pixel_format_offset options.pixel_format_guid
  with_icc ← put_optional with_guid options.icc_profile layout.icc_offset
  with_primary ← put with_icc layout.primary_offset primary
  put_optional with_primary options.separate_alpha layout.alpha_offset

-- `f32::is_finite`, and `<= 0.0` of a finite number, on the bit pattern.
abbrev pub is_finite : ℕ → Bool
is_finite bits = not (bits / 2 ^ 23 % 2 ^ 8 == 255)

abbrev pub is_not_positive : ℕ → Bool
is_not_positive bits = (bits == 0) || leb (2 ^ 31) bits

unfoldable pub validate_raw_codestream : List ℕ → ℕ → ℕ → Bool → Outcome (Unit {0})
validate_raw_codestream bytes width height alpha = do
  reject_if (not (starts_with bytes raw_signature))
      (invalid_syntax "Annex-A writer requires a raw codestream")
  parsed ← parse_codestream bytes
  reject_if
      (not (parsed.headers.image.width == width) || not (parsed.headers.image.height == height))
      (invalid_syntax (
        if alpha
        then "Annex-A separate alpha dimensions"
        else "Annex-A/codestream dimension mismatch"))

abbrev pub is_empty_profile : Option (List ℕ) → Bool
is_empty_profile none = false
is_empty_profile (some profile) = length profile == 0

unfoldable pub validate_alpha : Option (List ℕ) → ℕ → ℕ → Outcome (Unit {0})
validate_alpha none width height = done tt
validate_alpha (some alpha) width height = validate_raw_codestream alpha width height true

unfoldable pub validate_options : List ℕ → AnnexAWriteOptions → Outcome (Unit {0})
validate_options primary options = do
  validate_raw_codestream primary options.width options.height false
  reject_if
      (not (is_finite options.horizontal_resolution_dpi)
        || is_not_positive options.horizontal_resolution_dpi
        || not (is_finite options.vertical_resolution_dpi)
        || is_not_positive options.vertical_resolution_dpi)
      (invalid_syntax "Annex-A display resolution")
  reject_if (is_empty_profile options.icc_profile) (invalid_syntax "empty Annex-A ICC profile")
  validate_alpha options.separate_alpha options.width options.height

unfoldable pub write_annex_a : List ℕ → AnnexAWriteOptions → Outcome (List ℕ)
write_annex_a primary options = do
  validate_options primary options
  layout ← new primary options
  directory ← write_directory (replicate layout.output_len 0) primary options layout
  output ← write_payloads directory primary options layout
  parsed ← parse_codestream output
  done output

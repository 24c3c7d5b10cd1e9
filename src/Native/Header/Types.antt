-- ===== src/Native/Header/Types.antt =====
-- crates/jxr-native/src/header/types.rs: the values of the parsed headers.
pub mod Flags
use jxr.Base.{
  ℕ, bit_and, bit_or, Bool, true, false, not, List, [], ◌∷◌, Option, if◌then◌else◌, ◌==◌,
}
use jxr.Base.Int.{ℤ}

pub record HeaderFlags : Type 0 where
  pub bits : ℕ

-- `HARD_TILING`, `FREQUENCY_MODE`, up to `ALPHA_PLANE`.
abbrev pub masks : List ℕ
masks = 1 ∷ 2 ∷ 4 ∷ 8 ∷ 16 ∷ 32 ∷ 64 ∷ 128 ∷ 256 ∷ []

unfoldable pub fold_flags : List Bool → List ℕ → ℕ → ℕ
fold_flags [] rest bits = bits
fold_flags (enabled ∷ values) [] bits = bits
fold_flags (enabled ∷ values) (mask ∷ rest) bits =
    fold_flags values rest (if enabled then bit_or bits mask else bits)

unfoldable pub from_parsed : List Bool → HeaderFlags
from_parsed values = record { bits = fold_flags values masks 0 }

unfoldable pub hard_tiling : HeaderFlags → Bool
hard_tiling f = not (bit_and f.bits 1 == 0)

unfoldable pub frequency_mode : HeaderFlags → Bool
frequency_mode f = not (bit_and f.bits 2 == 0)

unfoldable pub index_table_present : HeaderFlags → Bool
index_table_present f = not (bit_and f.bits 4 == 0)

unfoldable pub long_word : HeaderFlags → Bool
long_word f = not (bit_and f.bits 8 == 0)

unfoldable pub short_header : HeaderFlags → Bool
short_header f = not (bit_and f.bits 16 == 0)

unfoldable pub trim_flexbits : HeaderFlags → Bool
trim_flexbits f = not (bit_and f.bits 32 == 0)

unfoldable pub red_blue_not_swapped : HeaderFlags → Bool
red_blue_not_swapped f = not (bit_and f.bits 64 == 0)

unfoldable pub premultiplied_alpha : HeaderFlags → Bool
premultiplied_alpha f = not (bit_and f.bits 128 == 0)

unfoldable pub alpha_plane : HeaderFlags → Bool
alpha_plane f = not (bit_and f.bits 256 == 0)

pub record CodestreamHeader : Type 0 where
  pub width : ℕ
  pub height : ℕ
  pub flags : HeaderFlags
  pub orientation : ℕ
  pub overlap_mode : ℕ
  pub output_color_format : ℕ
  pub output_bit_depth : ℕ
  pub tile_widths_mb : List ℕ
  pub tile_heights_mb : List ℕ
  pub margins : List ℕ

pub record QuantizerSet : Type 0 where
  pub components : List ℕ

pub record ImagePlaneHeader : Type 0 where
  pub internal_color_format : ℕ
  pub scaled : Bool
  pub bands_present : ℕ
  pub components : ℕ
  pub chroma_centering_x : ℕ
  pub chroma_centering_y : ℕ
  pub shift_bits : ℕ
  pub mantissa_length : ℕ
  pub exponent_bias : ℤ
  pub dc_quantizers : Option QuantizerSet
  pub lp_quantizers : Option QuantizerSet
  pub hp_quantizers : Option QuantizerSet

pub record ParsedHeaders : Type 0 where
  pub image : CodestreamHeader
  pub primary : ImagePlaneHeader
  pub alpha : Option ImagePlaneHeader
  pub bytes_consumed : ℕ

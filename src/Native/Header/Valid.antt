-- ===== src/Native/Header/Valid.antt =====
-- What the fields of a parsed header are, and the postconditions of the field reads.
pub mod Image
pub mod Plane
pub mod Codestream
use jxr.Base.{
  ℕ, ◌+◌, ◌-◌, ◌*◌, ◌^◌, ◌≤◌, ◌<◌, ◌≡◌, ◌≢◌, refl, Bool, true, false, List, All, length, Option,
  none, some, arith, String, ltb, ◌==◌, if◌then◌else◌,
}
use jxr.Native.Step.{Outcome, Parser}
use jxr.Native.Step.Post.{Post, gives, fails, Post-after, Post-weaken, reject_if-Post}
use jxr.Native.BitReader.{BitReader}
use jxr.Native.BitReader.Reads.{IsInside, read_bits-Post}
use jxr.Native.Header.Types.{
  CodestreamHeader, QuantizerSet, ImagePlaneHeader, ParsedHeaders, short_header, alpha_plane,
}
use jxr.Native.Header.Fields.{read_dimension, require_value, read_u8, read_u16}
use jxr.Native.Header.Image.{reserved_depth}

pub record IsCodestreamHeader (h : CodestreamHeader) : Type 0 where
  pub has_width : (1 ≤ h.width) × (h.width < 2 ^ 32)
  pub has_height : (1 ≤ h.height) × (h.height < 2 ^ 32)
  pub short_size : short_header h.flags ≡ true → (h.width ≤ 2 ^ 16) × (h.height ≤ 2 ^ 16)
  pub orientation_bits : h.orientation < 8
  pub known_overlap : h.overlap_mode ≤ 2
  pub known_color : h.output_color_format ≤ 8
  pub known_depth : (h.output_bit_depth < 16) × (reserved_depth h.output_bit_depth ≡ false)
  pub tile_columns : (length h.tile_widths_mb < 4096) × All (λ size. size < 2 ^ 16) h.tile_widths_mb
  pub tile_rows : (length h.tile_heights_mb < 4096) × All (λ size. size < 2 ^ 16) h.tile_heights_mb
  pub four_margins : (length h.margins ≡ 4) × All (λ margin. margin < 64) h.margins

-- One byte for each of `components`.
pub record IsQuantizerSet (components : ℕ) (q : QuantizerSet) : Type 0 where
  pub each_component : length q.components ≡ components
  pub bytes : All (λ value. value < 2 ^ 8) q.components

abbrev pub IsOptional : {A : Type 0} → (A → Type 0) → Option A → Type 0
IsOptional P none = Unit {0}
IsOptional P (some a) = P a

pub record IsImagePlaneHeader (h : ImagePlaneHeader) : Type 0 where
  pub known_format : (h.internal_color_format ≤ 6) × (h.internal_color_format ≢ 5)
  pub known_bands : h.bands_present ≤ 3
  pub some_components : (1 ≤ h.components) × (h.components ≤ 4111)
  pub three_components :
      (1 ≤ h.internal_color_format) → (h.internal_color_format ≤ 3) → h.components ≡ 3
  pub centering_x : h.chroma_centering_x ≤ 7
  pub centering_y : h.chroma_centering_y ≤ 7
  pub dc : IsOptional (IsQuantizerSet h.components) h.dc_quantizers
  pub lp : IsOptional (IsQuantizerSet h.components) h.lp_quantizers
  pub hp : IsOptional (IsQuantizerSet h.components) h.hp_quantizers
  pub no_lp : h.bands_present ≡ 3 → h.lp_quantizers ≡ none
  pub no_hp : 2 ≤ h.bands_present → h.hp_quantizers ≡ none

module _ (bytes : List ℕ) where
  pub require_value-Post :
      (value expected : ℕ) (field : String) (r : BitReader)
      → IsInside bytes r
      → Post
          (IsInside bytes)
          (λ (_ : Unit {0}). value ≡ expected)
          (require_value value expected field r)
  unfolding require_value
  require_value-Post value expected field r v =
      Post-weaken (reject_if-Post _ _ r v) (λ _ same. ground arith)

  pub read_u8-Post :
      (bits : ℕ) (r : BitReader)
      → IsInside bytes r
      → Post (IsInside bytes) (λ value. (value < 2 ^ bits) × (value < 2 ^ 8)) (read_u8 bits r)
  unfolding read_u8
  read_u8-Post bits r v = Post-after _ (read_bits-Post bytes bits r v) (λ value below r v.
      Post-after _ (reject_if-Post _ _ r v) (λ _ fits r v. gives (below, ground arith) v))

  pub read_u16-Post :
      (bits : ℕ) (r : BitReader)
      → IsInside bytes r
      → Post (IsInside bytes) (λ value. (value < 2 ^ bits) × (value < 2 ^ 16)) (read_u16 bits r)
  unfolding read_u16
  read_u16-Post bits r v = Post-after _ (read_bits-Post bytes bits r v) (λ value below r v.
      Post-after _ (reject_if-Post _ _ r v) (λ _ fits r v. gives (below, ground arith) v))

  pub read_dimension-Post :
      (bits : ℕ) (operation : String) (r : BitReader)
      → IsInside bytes r
      → Post
          (IsInside bytes)
          (λ size. (1 ≤ size) × (size ≤ 2 ^ bits) × (size < 2 ^ 32))
          (read_dimension bits operation r)
  unfolding read_dimension
  read_dimension-Post bits operation r v =
      Post-after _ (read_bits-Post bytes bits r v) (λ minus_one below r v.
        Post-after _ (reject_if-Post _ _ r v) (λ _ fits r v.
          Post-after _ (reject_if-Post _ _ r v)
            (λ _ fits r v. gives (omega arith, omega arith, ground arith) v)))

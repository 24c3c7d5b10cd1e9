-- ===== src/Native/PixelFormat/Types.antt =====
-- crates/jxr-core/src/container.rs: the pixel formats of the container, and `ChromaSampling` of format.rs.
use jxr.Base.{ℕ, Bool, List}

pub data ChromaSampling : Type 0 where
  cs420 : ChromaSampling
  cs422 : ChromaSampling
  cs444 : ChromaSampling

pub data AnnexAPixelFamily : Type 0 where
  luma : AnnexAPixelFamily
  rgb : AnnexAPixelFamily
  rgbe : AnnexAPixelFamily
  cmyk : (direct : Bool) → AnnexAPixelFamily
  yuv : ChromaSampling → AnnexAPixelFamily
  ncomponent : AnnexAPixelFamily

pub data AnnexANumericKind : Type 0 where
  unsigned : AnnexANumericKind
  fixed_point : AnnexANumericKind
  float : AnnexANumericKind

pub data AnnexABitDepth : Type 0 where
  bit1 : AnnexABitDepth
  u8 : AnnexABitDepth
  u10 : AnnexABitDepth
  u16 : AnnexABitDepth
  i16 : AnnexABitDepth
  f16 : AnnexABitDepth
  i32 : AnnexABitDepth
  f32 : AnnexABitDepth
  rgb555 : AnnexABitDepth
  rgb565 : AnnexABitDepth
  rgb101010 : AnnexABitDepth

pub data AnnexAChannelOrder : Type 0 where
  luma : AnnexAChannelOrder
  rgb : AnnexAChannelOrder
  rgbx : AnnexAChannelOrder
  bgr : AnnexAChannelOrder
  bgrx : AnnexAChannelOrder
  rgba : AnnexAChannelOrder
  bgra : AnnexAChannelOrder
  cmyk : AnnexAChannelOrder
  yuv : AnnexAChannelOrder
  rgbe : AnnexAChannelOrder
  components : AnnexAChannelOrder
  packed_bgr : AnnexAChannelOrder

pub record AnnexAPixelFormatDescriptor : Type 0 where
  pub family : AnnexAPixelFamily
  pub channels : ℕ
  pub alpha : Bool
  pub premultiplied_alpha : Bool
  pub bit_depth : AnnexABitDepth
  pub numeric : AnnexANumericKind
  pub order : AnnexAChannelOrder

pub data AnnexAPixelFormat : Type 0 where
  known : AnnexAPixelFormatDescriptor → AnnexAPixelFormat
  unknown : List ℕ → AnnexAPixelFormat

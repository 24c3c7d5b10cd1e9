-- ===== src/Native/PixelFormat/Table.antt =====
-- crates/jxr-native/src/pixel_format/table.rs: the descriptors of the container's pixel formats.
use jxr.Base.{ℕ, ◌+◌, ◌-◌, Bool, true, false, ◌&&◌, Option, none, some, leb, ◌==◌, if◌then◌else◌}
use jxr.Native.PixelFormat.Types.{
  ChromaSampling, AnnexAPixelFamily, AnnexANumericKind, AnnexABitDepth, AnnexAChannelOrder,
  AnnexAPixelFormatDescriptor,
}

unfoldable pub descriptor :
    AnnexAPixelFamily
    → ℕ
    → Bool
    → Bool
    → AnnexABitDepth
    → AnnexANumericKind
    → AnnexAChannelOrder
    → AnnexAPixelFormatDescriptor
descriptor family channels alpha premultiplied_alpha bit_depth numeric order = record {
  family = family;
  channels = channels;
  alpha = alpha;
  premultiplied_alpha = premultiplied_alpha;
  bit_depth = bit_depth;
  numeric = numeric;
  order = order;
}

unfoldable pub luma_format : AnnexABitDepth → AnnexANumericKind → AnnexAPixelFormatDescriptor
luma_format depth numeric =
    descriptor AnnexAPixelFamily.luma 1 false false depth numeric AnnexAChannelOrder.luma

unfoldable pub packed_rgb : AnnexABitDepth → AnnexAPixelFormatDescriptor
packed_rgb depth =
    descriptor AnnexAPixelFamily.rgb 3 false false depth AnnexANumericKind.unsigned
      AnnexAChannelOrder.packed_bgr

unfoldable pub rgb_format :
    ℕ
    → Bool
    → Bool
    → AnnexABitDepth
    → AnnexANumericKind
    → AnnexAChannelOrder
    → AnnexAPixelFormatDescriptor
rgb_format channels alpha premultiplied depth numeric order =
    descriptor AnnexAPixelFamily.rgb channels alpha premultiplied depth numeric order

-- `alpha as u8`
abbrev pub one_if : Bool → ℕ
one_if true = 1
one_if false = 0

unfoldable pub cmyk_format : Bool → Bool → AnnexABitDepth → AnnexAPixelFormatDescriptor
cmyk_format direct alpha depth =
    descriptor (AnnexAPixelFamily.cmyk direct) (4 + one_if alpha) alpha false depth
      AnnexANumericKind.unsigned AnnexAChannelOrder.cmyk

unfoldable pub yuv_format : ChromaSampling → Bool → AnnexABitDepth → AnnexAPixelFormatDescriptor
yuv_format sampling alpha depth =
    descriptor (AnnexAPixelFamily.yuv sampling) (3 + one_if alpha) alpha false depth
      AnnexANumericKind.unsigned AnnexAChannelOrder.yuv

unfoldable pub yuv_fixed : ChromaSampling → Bool → AnnexAPixelFormatDescriptor
yuv_fixed sampling alpha =
    descriptor (AnnexAPixelFamily.yuv sampling) (3 + one_if alpha) alpha false AnnexABitDepth.i16
      AnnexANumericKind.fixed_point AnnexAChannelOrder.yuv

unfoldable pub basic_descriptor : ℕ → Option AnnexAPixelFormatDescriptor
basic_descriptor code =
    if code == 5
    then some (luma_format AnnexABitDepth.bit1 AnnexANumericKind.unsigned)
    else if code == 8
    then some (luma_format AnnexABitDepth.u8 AnnexANumericKind.unsigned)
    else if code == 11
    then some (luma_format AnnexABitDepth.u16 AnnexANumericKind.unsigned)
    else if code == 19
    then some (luma_format AnnexABitDepth.i16 AnnexANumericKind.fixed_point)
    else if code == 62
    then some (luma_format AnnexABitDepth.f16 AnnexANumericKind.float)
    else if code == 63
    then some (luma_format AnnexABitDepth.i32 AnnexANumericKind.fixed_point)
    else if code == 17
    then some (luma_format AnnexABitDepth.f32 AnnexANumericKind.float)
    else if code == 9
    then some (packed_rgb AnnexABitDepth.rgb555)
    else if code == 10
    then some (packed_rgb AnnexABitDepth.rgb565)
    else if code == 20
    then some (packed_rgb AnnexABitDepth.rgb101010)
    else if code == 61
    then some (
        descriptor AnnexAPixelFamily.rgbe 3 false false AnnexABitDepth.u8 AnnexANumericKind.float
          AnnexAChannelOrder.rgbe)
    else none

unfoldable pub rgb_descriptor : ℕ → Option AnnexAPixelFormatDescriptor
rgb_descriptor code =
    if code == 13
    then some (
        rgb_format 3 false false AnnexABitDepth.u8 AnnexANumericKind.unsigned
          AnnexAChannelOrder.rgb)
    else if code == 12
    then some (
        rgb_format 3 false false AnnexABitDepth.u8 AnnexANumericKind.unsigned
          AnnexAChannelOrder.bgr)
    else if code == 14
    then some (
        rgb_format 3 false false AnnexABitDepth.u8 AnnexANumericKind.unsigned
          AnnexAChannelOrder.bgrx)
    else if code == 21
    then some (
        rgb_format 3 false false AnnexABitDepth.u16 AnnexANumericKind.unsigned
          AnnexAChannelOrder.rgb)
    else if code == 18
    then some (
        rgb_format 3 false false AnnexABitDepth.i16 AnnexANumericKind.fixed_point
          AnnexAChannelOrder.rgb)
    else if code == 64
    then some (
        rgb_format 3 false false AnnexABitDepth.i16 AnnexANumericKind.fixed_point
          AnnexAChannelOrder.rgbx)
    else if code == 59
    then some
        (rgb_format 3 false false AnnexABitDepth.f16 AnnexANumericKind.float AnnexAChannelOrder.rgb)
    else if code == 66
    then some (
        rgb_format 3 false false AnnexABitDepth.f16 AnnexANumericKind.float AnnexAChannelOrder.rgbx)
    else if code == 24
    then some (
        rgb_format 3 false false AnnexABitDepth.i32 AnnexANumericKind.fixed_point
          AnnexAChannelOrder.rgb)
    else if code == 65
    then some (
        rgb_format 3 false false AnnexABitDepth.i32 AnnexANumericKind.fixed_point
          AnnexAChannelOrder.rgbx)
    else if code == 27
    then some (
        rgb_format 3 false false AnnexABitDepth.f32 AnnexANumericKind.float AnnexAChannelOrder.rgbx)
    else none

unfoldable pub cmyk_yuv_descriptor : ℕ → Option AnnexAPixelFormatDescriptor
cmyk_yuv_descriptor code =
    if code == 28
    then some (cmyk_format false false AnnexABitDepth.u8)
    else if code == 44
    then some (cmyk_format false true AnnexABitDepth.u8)
    else if code == 31
    then some (cmyk_format false false AnnexABitDepth.u16)
    else if code == 45
    then some (cmyk_format false true AnnexABitDepth.u16)
    else if code == 84
    then some (cmyk_format true false AnnexABitDepth.u8)
    else if code == 86
    then some (cmyk_format true true AnnexABitDepth.u8)
    else if code == 85
    then some (cmyk_format true false AnnexABitDepth.u16)
    else if code == 67
    then some (cmyk_format true true AnnexABitDepth.u16)
    else if code == 68
    then some (yuv_format ChromaSampling.cs420 false AnnexABitDepth.u8)
    else if code == 69
    then some (yuv_format ChromaSampling.cs422 false AnnexABitDepth.u8)
    else if code == 70
    then some (yuv_format ChromaSampling.cs422 false AnnexABitDepth.u10)
    else if code == 71
    then some (yuv_format ChromaSampling.cs422 false AnnexABitDepth.u16)
    else if code == 72
    then some (yuv_format ChromaSampling.cs444 false AnnexABitDepth.u8)
    else if code == 73
    then some (yuv_format ChromaSampling.cs444 false AnnexABitDepth.u10)
    else if code == 74
    then some (yuv_format ChromaSampling.cs444 false AnnexABitDepth.u16)
    else if code == 75
    then some (yuv_fixed ChromaSampling.cs444 false)
    else if code == 76
    then some (yuv_format ChromaSampling.cs420 true AnnexABitDepth.u8)
    else if code == 77
    then some (yuv_format ChromaSampling.cs422 true AnnexABitDepth.u8)
    else if code == 78
    then some (yuv_format ChromaSampling.cs422 true AnnexABitDepth.u10)
    else if code == 79
    then some (yuv_format ChromaSampling.cs422 true AnnexABitDepth.u16)
    else if code == 80
    then some (yuv_format ChromaSampling.cs444 true AnnexABitDepth.u8)
    else if code == 81
    then some (yuv_format ChromaSampling.cs444 true AnnexABitDepth.u10)
    else if code == 82
    then some (yuv_format ChromaSampling.cs444 true AnnexABitDepth.u16)
    else if code == 83
    then some (yuv_fixed ChromaSampling.cs444 true)
    else none

unfoldable pub rgba_descriptor : ℕ → Option AnnexAPixelFormatDescriptor
rgba_descriptor code =
    if code == 15
    then some (
        rgb_format 4 true false AnnexABitDepth.u8 AnnexANumericKind.unsigned
          AnnexAChannelOrder.bgra)
    else if code == 22
    then some (
        rgb_format 4 true false AnnexABitDepth.u16 AnnexANumericKind.unsigned
          AnnexAChannelOrder.rgba)
    else if code == 29
    then some (
        rgb_format 4 true false AnnexABitDepth.i16 AnnexANumericKind.fixed_point
          AnnexAChannelOrder.rgba)
    else if code == 58
    then some
        (rgb_format 4 true false AnnexABitDepth.f16 AnnexANumericKind.float AnnexAChannelOrder.rgba)
    else if code == 30
    then some (
        rgb_format 4 true false AnnexABitDepth.i32 AnnexANumericKind.fixed_point
          AnnexAChannelOrder.rgba)
    else if code == 25
    then some
        (rgb_format 4 true false AnnexABitDepth.f32 AnnexANumericKind.float AnnexAChannelOrder.rgba)
    else if code == 16
    then some (
        rgb_format 4 true true AnnexABitDepth.u8 AnnexANumericKind.unsigned AnnexAChannelOrder.bgra)
    else if code == 23
    then some (
        rgb_format 4 true true AnnexABitDepth.u16 AnnexANumericKind.unsigned
          AnnexAChannelOrder.rgba)
    else if code == 26
    then some
        (rgb_format 4 true true AnnexABitDepth.f32 AnnexANumericKind.float AnnexAChannelOrder.rgba)
    else none

unfoldable pub ncomponent_format : ℕ → Bool → AnnexABitDepth → AnnexAPixelFormatDescriptor
ncomponent_format channels alpha depth =
    descriptor AnnexAPixelFamily.ncomponent channels alpha false depth AnnexANumericKind.unsigned
      AnnexAChannelOrder.components

-- 0x20 to 0x25, 0x2e to 0x33, 0x26 to 0x2b, and 0x34 to 0x39
unfoldable pub ncomponent_descriptor : ℕ → Option AnnexAPixelFormatDescriptor
ncomponent_descriptor code =
    if leb 32 code && leb code 37
    then some (ncomponent_format (code - 32 + 3) false AnnexABitDepth.u8)
    else if leb 46 code && leb code 51
    then some (ncomponent_format (code - 46 + 4) true AnnexABitDepth.u8)
    else if leb 38 code && leb code 43
    then some (ncomponent_format (code - 38 + 3) false AnnexABitDepth.u16)
    else if leb 52 code && leb code 57
    then some (ncomponent_format (code - 52 + 4) true AnnexABitDepth.u16)
    else none

abbrev pub or_else :
    Option AnnexAPixelFormatDescriptor
    → Option AnnexAPixelFormatDescriptor
    → Option AnnexAPixelFormatDescriptor
or_else (some d) other = some d
or_else none other = other

unfoldable pub known_descriptor : ℕ → Option AnnexAPixelFormatDescriptor
known_descriptor code = or_else (ncomponent_descriptor code) (
    or_else (basic_descriptor code)
      (or_else (rgb_descriptor code) (or_else (rgba_descriptor code) (cmyk_yuv_descriptor code))))

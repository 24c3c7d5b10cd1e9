-- ===== src/Native/Header/Plane.antt =====
-- crates/jxr-native/src/header/plane.rs: the `IMAGE_PLANE_HEADER`.
use jxr.Base.{
  ℕ, zero, suc, ◌+◌, ◌-◌, ◌^◌, Bool, true, false, ◌||◌, List, [], ◌∷◌, replicate, set, Option, none,
  some, ltb, ◌==◌, if◌then◌else◌,
}
use jxr.Base.Int.{ℤ, pos, negsuc}
use jxr.Native.Step.{
  panicked, Parser, ◌>>=◌, ◌>>◌, return, fail, reject_if, reserved_value, integer_overflow,
}
use jxr.Native.BitReader.{BitReader, read_bits, read_flag, align_zero}
use jxr.Native.Header.Types.{ImagePlaneHeader, QuantizerSet}
use jxr.Native.Header.Fields.{read_u8, read_u16}

unfoldable pub validate_internal_color : ℕ → Parser BitReader (Unit {0})
validate_internal_color value =
    reject_if ((value == 5) || (value == 7)) (reserved_value "INTERNAL_CLR_FMT" value)

unfoldable pub validate_bands : ℕ → Parser BitReader (Unit {0})
validate_bands value = reject_if (ltb 3 value) (reserved_value "BANDS_PRESENT" value)

-- `u8::cast_signed`
abbrev pub cast_signed : ℕ → ℤ
cast_signed byte = if ltb byte 128 then pos byte else negsuc (255 - byte)

abbrev pub when : {A : Type 0} → Bool → Parser BitReader A → A → Parser BitReader A
when true parser otherwise = parser
when false parser otherwise = return otherwise

unfoldable pub read_float_parameters : Parser BitReader (ℕ × ℤ)
read_float_parameters = do
  mantissa_length ← read_u8 8
  exponent_bias ← read_u8 8
  return (mantissa_length, cast_signed exponent_bias)

unfoldable pub parse_float_parameters : ℕ → Parser BitReader (ℕ × ℤ)
parse_float_parameters output_bit_depth =
    when (output_bit_depth == 7) read_float_parameters (0, pos 0)

unfoldable pub parse_shift_bits : ℕ → Parser BitReader ℕ
parse_shift_bits output_bit_depth =
    when ((output_bit_depth == 2) || (output_bit_depth == 3) || (output_bit_depth == 6)) (read_u8 8)
      0

unfoldable pub read_chroma_centering : Parser BitReader ℕ
read_chroma_centering = do
  value ← read_u8 3
  return (if (value == 5) || (value == 6) then 7 else value)

-- The components, and the two chroma centerings.
unfoldable pub parse_yuv420_layout : Parser BitReader (ℕ × ℕ × ℕ)
parse_yuv420_layout = do
  reserved_e ← read_flag
  x ← read_chroma_centering
  reserved_g ← read_flag
  y ← read_chroma_centering
  return (3, x, y)

unfoldable pub parse_yuv422_layout : Parser BitReader (ℕ × ℕ × ℕ)
parse_yuv422_layout = do
  reserved_e ← read_flag
  x ← read_chroma_centering
  reserved_h ← read_bits 4
  return (3, x, 0)

unfoldable pub read_long_count : Parser BitReader ℕ
read_long_count = do
  value ← read_u16 12
  reject_if (ltb (2 ^ 16 - 1) (value + 16)) (integer_overflow "computing component count")
  return (value + 16)

unfoldable pub read_short_count : ℕ → Parser BitReader ℕ
read_short_count short_count = do reserved_h ← read_bits 4; return (short_count + 1)

unfoldable pub parse_ncomponent_layout : Parser BitReader (ℕ × ℕ × ℕ)
parse_ncomponent_layout = do
  short_count ← read_u16 4
  components ← if short_count == 15 then read_long_count else read_short_count short_count
  return (components, 0, 0)

unfoldable pub parse_yuv444_layout : Parser BitReader (ℕ × ℕ × ℕ)
parse_yuv444_layout = do reserved_f ← read_bits 4; reserved_h ← read_bits 4; return (3, 0, 0)

unfoldable pub parse_component_layout : ℕ → Parser BitReader (ℕ × ℕ × ℕ)
parse_component_layout color =
    if color == 0
    then return (1, 0, 0)
    else if color == 1
    then parse_yuv420_layout
    else if color == 2
    then parse_yuv422_layout
    else if color == 3
    then parse_yuv444_layout
    else if color == 4
    then return (4, 0, 0)
    else if color == 6
    then parse_ncomponent_layout
    else fail (reserved_value "INTERNAL_CLR_FMT" color)

unfoldable pub separate_quantizers : ℕ → Parser BitReader (List ℕ)
separate_quantizers components = do
  luma ← read_u8 8
  chroma ← read_u8 8
  return (set (replicate components chroma) 0 luma)

unfoldable pub independent_quantizers : ℕ → Parser BitReader (List ℕ)
independent_quantizers zero = return []
independent_quantizers (suc components) = do
  value ← read_u8 8
  values ← independent_quantizers components
  return (value ∷ values)

unfoldable pub uniform_quantizers : ℕ → Parser BitReader (List ℕ)
uniform_quantizers components = do value ← read_u8 8; return (replicate components value)

-- The last case is `unreachable!`.
unfoldable pub quantizers_of_mode : ℕ → ℕ → Parser BitReader (List ℕ)
quantizers_of_mode mode components =
    if mode == 0
    then uniform_quantizers components
    else if mode == 1
    then separate_quantizers components
    else if mode == 2
    then independent_quantizers components
    else if mode == 3
    then fail (reserved_value "COMPONENT_MODE" 3)
    else λ r. panicked

unfoldable pub parse_quantizer_set : ℕ → Parser BitReader QuantizerSet
parse_quantizer_set components = do
  mode ← if components == 1 then return 0 else read_u8 2
  values ← quantizers_of_mode mode components
  return (record { components = values })

unfoldable pub some_quantizers : ℕ → Parser BitReader (Option QuantizerSet)
some_quantizers components = do
  quantizers ← parse_quantizer_set components
  return (some quantizers)

unfoldable pub parse_optional_quantizers : ℕ → Parser BitReader (Option QuantizerSet)
parse_optional_quantizers components = do
  present ← read_flag
  when present (some_quantizers components) none

unfoldable pub parse_high_pass : ℕ → Parser BitReader (Option QuantizerSet)
parse_high_pass components = do reserved_j ← read_flag; parse_optional_quantizers components

unfoldable pub parse_low_and_high_pass :
    ℕ → ℕ → Parser BitReader (Option QuantizerSet × Option QuantizerSet)
parse_low_and_high_pass components bands_present = do
  reserved_i ← read_flag
  low_pass ← parse_optional_quantizers components
  high_pass ← if bands_present == 2 then return none else parse_high_pass components
  return (low_pass, high_pass)

unfoldable pub parse_high_band_quantizers :
    ℕ → ℕ → Parser BitReader (Option QuantizerSet × Option QuantizerSet)
parse_high_band_quantizers components bands_present =
    if bands_present == 3
    then return (none, none)
    else parse_low_and_high_pass components bands_present

unfoldable pub parse_plane_header : ℕ → Parser BitReader ImagePlaneHeader
parse_plane_header output_bit_depth = do
  internal_color_format ← read_u8 3
  validate_internal_color internal_color_format
  scaled ← read_flag
  bands_present ← read_u8 4
  validate_bands bands_present
  layout ← parse_component_layout internal_color_format
  shift_bits ← parse_shift_bits output_bit_depth
  float ← parse_float_parameters output_bit_depth
  dc_quantizers ← parse_optional_quantizers layout.0
  high_bands ← parse_high_band_quantizers layout.0 bands_present
  align_zero
  return (record {
    internal_color_format = internal_color_format;
    scaled = scaled;
    bands_present = bands_present;
    components = layout.0;
    chroma_centering_x = layout.1;
    chroma_centering_y = layout.2;
    shift_bits = shift_bits;
    mantissa_length = float.0;
    exponent_bias = float.1;
    dc_quantizers = dc_quantizers;
    lp_quantizers = high_bands.0;
    hp_quantizers = high_bands.1;
  })

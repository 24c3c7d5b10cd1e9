-- ===== src/Native/Examples.antt =====
-- The theorems on the headers at the smallest codestream: eight by eight pixels of one component.
mod Container
mod Writer
use jxr.Base.{ℕ, ◌≡◌, ◌≢◌, refl, arith, true, false, List, [], ◌∷◌, All, none, some}
use jxr.Base.Int.{pos}
use jxr.Entropy.BitReader as Packet
use jxr.Entropy.BitReader.{PacketBitReader}
use jxr.Entropy.BitReader.Bits.{IsByte, stream_bits}
use jxr.Entropy.BitReader.Cache.{IsValid, new-IsValid}
use jxr.Native.Step.{done, failed, invalid_signature, reject_if}
use jxr.Native.Step.Post.{Post, Yields}
use jxr.Native.BitReader.{BitReader, new, read_bits, read_loop, read_flag, align_zero, align_loop}
use jxr.Native.BitReader.Reads.{
  IsInside, IsAligned, value_of, packet_value, read_bits-packet_value, align_zero-IsAligned,
}
use jxr.Native.Header.{parse_codestream_headers, parse_all, parse_alpha}
use jxr.Native.Header.Types.{from_parsed, fold_flags, alpha_plane}
use jxr.Native.Header.Types.Flags.{accessors, accessors-from_parsed}
use jxr.Native.Header.Fields.{read_u8, read_u16, read_dimension, require_value}
use jxr.Native.Header.Image.{
  gdi_signature, read_overlap_mode, inferred_margin, parse_margins, parse_tiles,
  validate_output_codes, parse_image_header,
}
use jxr.Native.Header.Plane.{
  validate_internal_color, validate_bands, parse_float_parameters, parse_shift_bits,
  parse_component_layout, uniform_quantizers, quantizers_of_mode, parse_quantizer_set,
  some_quantizers, parse_optional_quantizers, parse_high_pass, parse_low_and_high_pass,
  parse_high_band_quantizers, parse_plane_header,
}
use jxr.Native.Header.Valid.Codestream.{
  IsParsedHeaders, parse_codestream_headers-IsParsedHeaders, parse_codestream_headers_signature,
}

abbrev codestream : List ℕ
codestream =
    87 ∷ 77 ∷ 80 ∷ 72 ∷ 79 ∷ 84 ∷ 79 ∷ 0 ∷ 17 ∷ 1 ∷ 128 ∷ 113 ∷ 0 ∷ 7 ∷ 0 ∷ 7 ∷ 16 ∷ 130 ∷ 128 ∷ []

codestream_bytes : All IsByte codestream
codestream_bytes = omega arith

codestream_test :
    parse_codestream_headers codestream
    ≡ done (record {
      image = record {
        width = 8;
        height = 8;
        flags = record { bits = 16 };
        orientation = 0;
        overlap_mode = 1;
        output_color_format = 7;
        output_bit_depth = 1;
        tile_widths_mb = [];
        tile_heights_mb = [];
        margins = 0 ∷ 0 ∷ 8 ∷ 8 ∷ [];
      };
      primary = record {
        internal_color_format = 0;
        scaled = true;
        bands_present = 0;
        components = 1;
        chroma_centering_x = 0;
        chroma_centering_y = 0;
        shift_bits = 0;
        mantissa_length = 0;
        exponent_bias = pos 0;
        dc_quantizers = some (record { components = 5 ∷ [] });
        lp_quantizers = none;
        hp_quantizers = none;
      };
      alpha = none;
      bytes_consumed = 19;
    })
unfolding parse_codestream_headers parse_all parse_alpha parse_image_header parse_plane_header
    read_u8 read_u16 read_dimension require_value reject_if new read_bits read_loop read_flag
    align_zero align_loop read_overlap_mode inferred_margin parse_margins parse_tiles
    validate_output_codes from_parsed fold_flags alpha_plane validate_internal_color validate_bands
    parse_float_parameters parse_shift_bits parse_component_layout uniform_quantizers
    quantizers_of_mode parse_quantizer_set some_quantizers parse_optional_quantizers parse_high_pass
    parse_low_and_high_pass parse_high_band_quantizers
codestream_test = refl

parse_codestream_headers-IsParsedHeaders_example :
    Yields (IsParsedHeaders codestream) (parse_codestream_headers codestream)
parse_codestream_headers-IsParsedHeaders_example =
    parse_codestream_headers-IsParsedHeaders codestream (omega arith)

abbrev no_codestream : List ℕ
no_codestream = 73 ∷ 73 ∷ 188 ∷ 1 ∷ 8 ∷ 0 ∷ 0 ∷ 0 ∷ []

no_signature : stream_bits no_codestream 0 64 ≢ gdi_signature
unfolding stream_bits
no_signature = omega arith

parse_codestream_headers_signature_example :
    parse_codestream_headers no_codestream ≡ failed invalid_signature
parse_codestream_headers_signature_example =
    parse_codestream_headers_signature no_codestream (omega arith) no_signature

accessors-from_parsed_example :
    accessors (from_parsed (true ∷ false ∷ true ∷ true ∷ false ∷ false ∷ true ∷ false ∷ true ∷ []))
    ≡ true ∷ false ∷ true ∷ true ∷ false ∷ false ∷ true ∷ false ∷ true ∷ []
accessors-from_parsed_example =
    accessors-from_parsed (true ∷ false ∷ true ∷ true ∷ false ∷ false ∷ true ∷ false ∷ true ∷ [])
      refl

abbrev reader : BitReader
reader = record { bytes = codestream; bit_position = 146 }

reader-IsInside : IsInside codestream reader
reader-IsInside = record { same_bytes = refl; within = omega arith; usize_fits = omega arith }

align_zero-IsAligned_example :
    Post (IsAligned codestream) (λ (_ : Unit {0}). Unit {0}) (align_zero reader)
align_zero-IsAligned_example = align_zero-IsAligned codestream reader reader-IsInside

abbrev packet_reader : PacketBitReader
packet_reader = record {
  bytes = codestream;
  bit_position = 0;
  bit_length = 152;
  cache = 0;
  cached = 0;
}

packet_reader-IsValid : IsValid packet_reader
unfolding Packet.new
packet_reader-IsValid = new-IsValid codestream codestream_bytes

read_bits-packet_value_example :
    value_of (read_bits 20 (record { bytes = codestream; bit_position = 0 }))
    ≡ packet_value (Packet.read_bits 20 packet_reader)
read_bits-packet_value_example =
    read_bits-packet_value 20 packet_reader packet_reader-IsValid refl (omega arith)

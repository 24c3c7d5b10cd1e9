-- ===== src/Native/Header/Valid/Codestream.antt =====
-- The headers of a codestream together: header/mod.rs.
use jxr.Base.{
  ℕ, ◌+◌, ◌*◌, ◌≤◌, ◌≡◌, ◌≢◌, refl, Bool, true, false, List, length, Option, none, some, arith, ltb,
  ◌==◌, if◌then◌else◌, inl, inr, Bool-cases,
}
use jxr.Entropy.BitReader.Bits.{stream_bits}
use jxr.Native.Step.{Outcome, failed, after, truncated, invalid_signature, reject_if}
use jxr.Native.Step.Post.{Post, gives, fails, Yields, yields, refuses, Post-after}
use jxr.Native.BitReader.{BitReader, new, read_bits, usize_max}
use jxr.Native.BitReader.Reads.{IsInside, IsAligned, bits_result, read_bits-bits_result}
use jxr.Native.Header.{parse_alpha, parse_all, parsed_value, parse_codestream_headers}
use jxr.Native.Header.Types.{ParsedHeaders, alpha_plane}
use jxr.Native.Header.Image.{parse_image_header, gdi_signature}
use jxr.Native.Header.Valid.{IsCodestreamHeader, IsImagePlaneHeader, IsOptional}
use jxr.Native.Header.Valid.Image.{parse_image_header-Post}
use jxr.Native.Header.Valid.Plane.{parse_plane_header-Post}

-- Whether there is an alpha plane.
abbrev pub is_some : {A : Type 0} → Option A → Bool
is_some none = false
is_some (some a) = true

-- The headers at the start of `bytes`.
pub record IsParsedHeaders (bytes : List ℕ) (h : ParsedHeaders) : Type 0 where
  pub image : IsCodestreamHeader h.image
  pub primary : IsImagePlaneHeader h.primary
  pub alpha : IsOptional IsImagePlaneHeader h.alpha
  pub alpha_flag : is_some h.alpha ≡ alpha_plane h.image.flags
  pub inside : h.bytes_consumed ≤ length bytes

module _ (bytes : List ℕ) where
  parse_alpha-Post :
      (present : Bool) (depth : ℕ) (r : BitReader)
      → IsAligned bytes r
      → Post
          (IsAligned bytes)
          (λ plane. IsOptional IsImagePlaneHeader plane × (is_some plane ≡ present))
          (parse_alpha present depth r)
  unfolding parse_alpha
  parse_alpha-Post false depth r v = gives (tt, refl) v
  parse_alpha-Post true depth r v =
      Post-after _ (parse_plane_header-Post bytes depth r v.inside)
        (λ plane valid r v. gives (valid, refl) v)

  parse_all-Post :
      (r : BitReader)
      → IsInside bytes r
      → Post (IsAligned bytes) (IsParsedHeaders bytes) (parse_all r)
  unfolding parse_all
  parse_all-Post r v = Post-after _ (parse_image_header-Post bytes r v) (λ image i r v.
      Post-after _ (parse_plane_header-Post bytes image.output_bit_depth r v) (λ primary p r v.
        Post-after _ (parse_alpha-Post (alpha_plane image.flags) image.output_bit_depth r v)
          (λ alpha (a, flag) r v.
            let within = v.inside.within in
            let boundary = v.boundary in
            gives
              (record {
                image = i;
                primary = p;
                alpha = a;
                alpha_flag = flag;
                inside = omega arith;
              })
              v)))

  parsed_value-Yields :
      {A : Type 0} {I : BitReader → Type 0} {P : A → Type 0} {x : Outcome (A × BitReader)}
      → Post I P x
      → Yields P (after x parsed_value)
  parsed_value-Yields (gives p i) = yields p
  parsed_value-Yields fails = refuses

  new-IsInside : 8 * length bytes + 64 ≤ usize_max → IsInside bytes (new bytes)
  unfolding new
  new-IsInside fits = record { same_bytes = refl; within = omega arith; usize_fits = fits }

  -- On each input of bytes whose bits can be counted in a `usize`, the headers are refused with an
  -- error or parsed without a panic, and then all fields are in range, an alpha header stands there
  -- exactly if the flag is set, and the bytes consumed lie inside the input.
  pub parse_codestream_headers-IsParsedHeaders :
      8 * length bytes + 64 ≤ usize_max
      → Yields (IsParsedHeaders bytes) (parse_codestream_headers bytes)
  unfolding parse_codestream_headers
  parse_codestream_headers-IsParsedHeaders fits =
      parsed_value-Yields (parse_all-Post (new bytes) (new-IsInside fits))

  -- An input that does not start with the signature is refused with the error that says so, or with
  -- the truncation error if it is shorter than the eight bytes of the signature.
  pub parse_codestream_headers_signature :
      8 * length bytes + 64 ≤ usize_max
      → stream_bits bytes 0 64 ≢ gdi_signature
      → parse_codestream_headers bytes
        ≡ failed (if ltb (length bytes) 8 then truncated 0 64 else invalid_signature)
  unfolding parse_codestream_headers parse_all parse_image_header bits_result new reject_if
  parse_codestream_headers_signature fits wrong =
      let other : (stream_bits bytes 0 64 == gdi_signature) ≡ false = ground arith in
      let start : read_bits 64 (new bytes) ≡ bits_result 64 (new bytes) =
        read_bits-bits_result 64 (new bytes) bytes (new-IsInside fits) in
      elim (Bool-cases (ltb (length bytes) 8)) [
        | inl short ↦
            let few : ltb (8 * length bytes) 64 ≡ true = ground arith in rw (start, few, short) refl
        | inr long ↦
            let enough : ltb (8 * length bytes) 64 ≡ false = ground arith in
            rw (start, enough, long, other) refl
      ]

-- ===== src/Native/Codestream/Valid.antt =====
-- The whole parse of codestream.rs: what it passes on is consistent.
use jxr.Base.{
  ℕ, ◌+◌, ◌-◌, ◌*◌, ◌≤◌, ◌≡◌, refl, ap, true, false, not, ◌||◌, List, [], ◌∷◌, All, length, take,
  Option, none, some, arith, leb, ◌==◌,
}
use jxr.Entropy.BitReader.Bits.{IsByte}
use jxr.Native.Step.{done}
use jxr.Native.Step.Post.{Yields, yields}
use jxr.Native.Step.Plain.{
  Yields-after, Yields-weaken, Yields-equation, reject_if-Yields, if-Yields,
}
use jxr.Native.BitReader.{usize_max}
use jxr.Native.Header.{parse_codestream_headers}
use jxr.Native.Header.Types.{ParsedHeaders}
use jxr.Native.Header.Valid.{IsOptional}
use jxr.Native.Header.Valid.Codestream.{IsParsedHeaders, parse_codestream_headers-IsParsedHeaders}
use jxr.Native.AnnexA.{AnnexAImage}
use jxr.Native.AnnexA.Ranges.{Range, slice}
use jxr.Native.AnnexA.Valid.{IsRange, slice-Yields}
use jxr.Native.AnnexA.Valid.Image.{IsAnnexA, parse_annex_a-IsAnnexA}
use jxr.Native.Tail as Tail
use jxr.Native.Tail.{CodestreamDirectory}
use jxr.Native.Tail.Valid.{IsDirectory, parse-IsDirectory}
use jxr.Native.PixelFormat.Valid.{
  IsConsistentAnnex, validate_annex_a_pixel_format-IsConsistentAnnex,
}
use jxr.Native.Codestream.Types.{ParsedCodestream}
use jxr.Native.Codestream.{
  parse_raw, separate_alpha_of, parse_separate_alpha, parse_container, starts_with, raw_signature,
  parse_codestream,
}

-- Headers and directory of the codestream at a range of the file.
pub record IsParsed (bytes : List ℕ) (r : Range) (h : ParsedHeaders) (d : CodestreamDirectory)
    : Type 0 where
  codestream : List ℕ
  at_range : slice bytes r ≡ done codestream
  headers : IsParsedHeaders codestream h
  directory : IsDirectory codestream h d

abbrev pub IsSameSize : ParsedHeaders → AnnexAImage → Type 0
IsSameSize h a = (h.image.width ≡ a.width) × (h.image.height ≡ a.height)

-- A separate alpha codestream, in the range for it and of the size that the container declares.
pub data IsSeparate (bytes : List ℕ) (a : AnnexAImage)
    : Option ParsedHeaders → Option CodestreamDirectory → Type 0 where
  no_alpha : a.alpha_range ≡ none → IsSeparate bytes a none none
  with_alpha :
      {h : ParsedHeaders} {d : CodestreamDirectory} {r : Range}
      → a.alpha_range ≡ some r
      → IsSameSize h a
      → IsParsed bytes r h d
      → IsSeparate bytes a (some h) (some d)

-- Agreement with a container.
pub record IsContained (bytes : List ℕ) (p : ParsedCodestream) (a : AnnexAImage) : Type 0 where
  pub container : IsAnnexA bytes a
  pub same_range : p.codestream_range ≡ a.codestream_range
  pub same_size : IsSameSize p.headers a
  pub separate_alpha : IsSeparate bytes a p.separate_alpha_headers p.separate_alpha_directory

pub record IsParsedCodestream (bytes : List ℕ) (p : ParsedCodestream) : Type 0 where
  pub range : IsRange bytes p.codestream_range
  pub parsed : IsParsed bytes p.codestream_range p.headers p.directory
  pub contained : IsOptional (IsContained bytes p) p.annex_a
  pub consistent : IsConsistentAnnex p p.annex_a

size_lem : (a b c d : ℕ) → (not (a == b) || not (c == d)) ≡ false → (a ≡ b) × (c ≡ d)
size_lem a b c d h = (ground arith, ground arith)

take_all : (xs : List ℕ) → take (length xs) xs ≡ xs
take_all [] = refl
take_all (x ∷ xs) = ap (x ∷◌) (take_all xs)

slice-whole : (xs : List ℕ) → slice xs (record { start = 0; end = length xs }) ≡ done xs
unfolding slice
slice-whole xs =
    let whole : leb (length xs) (length xs) ≡ true = ground arith in
    let all : length xs - 0 ≡ length xs = omega arith in
    let start : leb 0 (length xs) ≡ true = ground arith in rw (whole, start, all, take_all xs) refl

module _ (bytes : List ℕ) (all_bytes : All IsByte bytes)
    (fits : 8 * length bytes + 64 ≤ usize_max) where
  -- The slice at a range, and the headers and the directory in it.
  parse_codestream_headers_lem :
      (xs : List ℕ)
      → length xs ≤ length bytes
      → Yields (IsParsedHeaders xs) (parse_codestream_headers xs)
  parse_codestream_headers_lem xs h = parse_codestream_headers-IsParsedHeaders xs (omega arith)

  parse_lem :
      (xs : List ℕ) (h : ParsedHeaders)
      → All IsByte xs
      → length xs ≤ length bytes
      → Yields (IsDirectory xs h) (Tail.parse xs h)
  parse_lem xs h all k = parse-IsDirectory xs all h (omega arith)

  slice_lem :
      (r : Range)
      → IsRange bytes r
      → Yields
          (λ xs. (slice bytes r ≡ done xs) × (length xs ≤ length bytes) × All IsByte xs)
          (slice bytes r)
  slice_lem r v =
      let ordered = v.ordered in
      let inside = v.inside in
      Yields-weaken
        (Yields-equation (slice-Yields bytes all_bytes r (r.end - r.start) v (omega arith)))
        (λ xs ((size, all), found). (found, omega arith, all))

  parse_raw-IsParsedCodestream : Yields (IsParsedCodestream bytes) (parse_raw bytes)
  unfolding parse_raw
  parse_raw-IsParsedCodestream =
      Yields-after _ (parse_codestream_headers_lem bytes (omega arith)) (λ headers h.
        Yields-after _ (parse_lem bytes headers all_bytes (omega arith)) (λ directory d.
          yields (record {
            range = record { ordered = omega arith; inside = omega arith };
            parsed = record {
              codestream = bytes;
              at_range = slice-whole bytes;
              headers = h;
              directory = d;
            };
            contained = tt;
            consistent = tt;
          })))

  separate_alpha_of-Yields :
      (a : AnnexAImage) (range : Option Range)
      → a.alpha_range ≡ range
      → IsOptional (IsRange bytes) range
      → Yields (λ alpha. IsSeparate bytes a alpha.0 alpha.1) (separate_alpha_of bytes a range)
  unfolding separate_alpha_of
  separate_alpha_of-Yields a none e v = yields (no_alpha e)
  separate_alpha_of-Yields a (some range) e v =
      Yields-after _ (slice_lem range v) (λ xs (found, inside, all).
        Yields-after _ (parse_codestream_headers_lem xs inside) (λ headers h.
          Yields-after _ (reject_if-Yields _ _) (λ _ sizes.
            Yields-after _ (parse_lem xs headers all inside) (λ directory d. yields (
              with_alpha e (size_lem _ _ _ _ sizes)
                (record { codestream = xs; at_range = found; headers = h; directory = d }))))))

  parse_container-IsParsedCodestream : Yields (IsParsedCodestream bytes) (parse_container bytes)
  unfolding parse_container parse_separate_alpha
  parse_container-IsParsedCodestream =
      Yields-after _ (parse_annex_a-IsAnnexA bytes all_bytes) (λ a v.
        Yields-after _ (slice_lem a.codestream_range v.codestream) (λ xs (found, inside, all).
          Yields-after _ (parse_codestream_headers_lem xs inside) (λ headers h.
            Yields-after _ (parse_lem xs headers all inside) (λ directory d.
              Yields-after _ (reject_if-Yields _ _) (λ _ sizes.
                Yields-after _ (separate_alpha_of-Yields a a.alpha_range refl v.alpha)
                  (λ separate s.
                    Yields-after _ (validate_annex_a_pixel_format-IsConsistentAnnex _ v.guid.1)
                      (λ _ consistent. yields (record {
                        range = v.codestream;
                        parsed = record {
                          codestream = xs;
                          at_range = found;
                          headers = h;
                          directory = d;
                        };
                        contained = record {
                          container = v;
                          same_range = refl;
                          same_size = size_lem _ _ _ _ sizes;
                          separate_alpha = s;
                        };
                        consistent = consistent;
                      }))))))))

  -- On each file of bytes that a usize can count in bits, the parse ends in an error or, without a
  -- panic, in a codestream range inside the file, with headers and tile directory inside that range;
  -- where a container is there, its size and pixel format agree with the headers, and a separate alpha
  -- codestream has its range and size.
  pub parse_codestream-IsParsedCodestream :
      Yields (IsParsedCodestream bytes) (parse_codestream bytes)
  unfolding parse_codestream
  parse_codestream-IsParsedCodestream =
      if-Yields (starts_with bytes raw_signature) _ _ (λ _. parse_raw-IsParsedCodestream)
        (λ _. parse_container-IsParsedCodestream)

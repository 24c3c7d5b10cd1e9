-- ===== src/Native/Writer/Complete.antt =====
-- `write_annex_a` of annex_a/writer.rs as a whole, against the parser of annex_a.rs.
use jxr.Base.{
  ℕ, ◌+◌, ◌*◌, ◌≤◌, ◌≡◌, Bool, true, false, not, List, [], ◌∷◌, All, length, length-replicate,
  replicate, Option, none, some, arith,
}
use jxr.Entropy.BitReader.Bits.{IsByte}
use jxr.Native.Step.{done}
use jxr.Native.Step.Post.{Yields, yields}
use jxr.Native.Step.Plain.{Yields-after, Yields-weaken, Yields-equation, reject_if-Yields}
use jxr.Native.BitReader.{usize_max}
use jxr.Native.AnnexA.{parse_annex_a}
use jxr.Native.AnnexA.Ranges.{slice, equal_bytes}
use jxr.Native.Codestream.{parse_codestream, starts_with, raw_signature}
use jxr.Native.Codestream.Types.{ParsedCodestream}
use jxr.Native.Codestream.Valid.{parse_codestream-IsParsedCodestream}
use jxr.Native.Writer.{validate_raw_codestream, validate_alpha, validate_options, write_annex_a}
use jxr.Native.Writer.Layout.{AnnexAWriteOptions, ContainerLayout}
use jxr.Native.Writer.Layout.Bounds.{IsPlaced, IsLayout, absent, present, new-IsLayout}
use jxr.Native.Writer.Buffer.Copies.{slice-IsAt}
use jxr.Native.Writer.Written.{IsAtOptional, write_directory-IsHead, write_payloads-IsFile}
use jxr.Native.Writer.RoundTrip.{IsOptions, described, parse_annex_a_lem}
use jxr.Native.Writer.Bytes.{
  IsBytesOptional, Yields-Gives, All-zeros, write_directory-Gives, write_payloads-Gives,
}

-- Bytes whose bits a `usize` counts.
abbrev pub IsInput : List ℕ → Type 0
IsInput bytes = All IsByte bytes × (8 * length bytes + 64 ≤ usize_max)

abbrev pub IsInputOptional : Option (List ℕ) → Type 0
IsInputOptional none = Unit {0}
IsInputOptional (some bytes) = IsInput bytes

abbrev pub IsSliceOptional : List ℕ → Option (List ℕ) → Option ℕ → Type 0
IsSliceOptional output none offset = Unit {0}
IsSliceOptional output (some payload) none = Unit {0}
IsSliceOptional output (some payload) (some offset) =
    slice output (record { start = offset; end = offset + length payload }) ≡ done payload

pub record IsRoundTrip (primary : List ℕ) (options : AnnexAWriteOptions) (output : List ℕ)
    : Type 0 where
  layout : ContainerLayout
  placed : IsLayout primary options layout
  parsed : parse_annex_a output ≡ done (described primary options layout)
  codestream :
      slice output
        (record { start = layout.primary_offset; end = layout.primary_offset + length primary })
      ≡ done primary
  icc : IsSliceOptional output options.icc_profile layout.icc_offset
  alpha : IsSliceOptional output options.separate_alpha layout.alpha_offset
  accepted : (p : ParsedCodestream) × (parse_codestream output ≡ done p)

starts_with-nonempty :
    (bytes : List ℕ) → not (starts_with bytes raw_signature) ≡ false → 1 ≤ length bytes
unfolding starts_with equal_bytes
starts_with-nonempty [] h = absurd (ground (arith, h))
starts_with-nonempty (x ∷ bytes) h = omega arith

validate_raw-Yields :
    (bytes : List ℕ) (width height : ℕ) (alpha : Bool)
    → IsInput bytes
    → Yields (λ (_ : Unit {0}). 1 ≤ length bytes) (validate_raw_codestream bytes width height alpha)
unfolding validate_raw_codestream
validate_raw-Yields bytes width height alpha (all_bytes, fits) =
    Yields-after _ (reject_if-Yields _ _) (λ _ raw.
      Yields-after _ (parse_codestream-IsParsedCodestream bytes all_bytes fits)
        (λ p _. Yields-weaken (reject_if-Yields _ _) (λ _ _. starts_with-nonempty bytes raw)))

validate_alpha-Yields :
    (alpha : Option (List ℕ)) (width height : ℕ)
    → IsInputOptional alpha
    → Yields (λ (_ : Unit {0}). Unit {0}) (validate_alpha alpha width height)
unfolding validate_alpha
validate_alpha-Yields none width height h = yields tt
validate_alpha-Yields (some alpha) width height h =
    Yields-weaken (validate_raw-Yields alpha width height true h) (λ _ _. tt)

validate_options-Yields :
    (primary : List ℕ) (options : AnnexAWriteOptions)
    → IsInput primary
    → IsInputOptional options.separate_alpha
    → Yields (λ (_ : Unit {0}). 1 ≤ length primary) (validate_options primary options)
unfolding validate_options
validate_options-Yields primary options p a =
    Yields-after _ (validate_raw-Yields primary options.width options.height false p)
      (λ _ some_bytes. Yields-after _ (reject_if-Yields _ _) (λ _ _.
        Yields-after _ (reject_if-Yields _ _) (λ _ _.
          Yields-weaken
            (validate_alpha-Yields options.separate_alpha options.width options.height a)
            (λ _ _. some_bytes))))

bytes_optional : (payload : Option (List ℕ)) → IsInputOptional payload → IsBytesOptional payload
bytes_optional none h = tt
bytes_optional (some bytes) h = h.0

slice_optional :
    (output : List ℕ) (payload : Option (List ℕ)) (offset : Option ℕ)
    → IsAtOptional output payload offset
    → IsSliceOptional output payload offset
slice_optional output none offset v = tt
slice_optional output (some payload) none v = tt
slice_optional output (some payload) (some offset) v = slice-IsAt output offset payload v

placed_room :
    {low high : ℕ} {payload : Option (List ℕ)} {offset : Option ℕ}
    → IsPlaced low high payload offset
    → low ≤ high
placed_room (absent h) = h
placed_room (present a b c) = omega arith

-- With codestreams of bytes whose bits a `usize` counts, and options of their types, the writer returns
-- an error or, without a panic, a file that the parsers accept: the container parser gives back the
-- size, the identifier, the orientation, the resolutions and the ranges of the layout, and in these
-- ranges stand the codestream, the profile and the alpha codestream.
pub write_annex_a-parse_annex_a :
    (primary : List ℕ) (options : AnnexAWriteOptions)
    → IsInput primary
    → IsOptions options
    → All IsByte options.pixel_format_guid
    → IsInputOptional options.icc_profile
    → IsInputOptional options.separate_alpha
    → Yields (IsRoundTrip primary options) (write_annex_a primary options)
unfolding write_annex_a
write_annex_a-parse_annex_a primary options p o g i a =
    Yields-after _ (validate_options-Yields primary options p a) (λ _ some_bytes.
      Yields-after _ (new-IsLayout primary options) (λ layout placed.
        let zeros = length-replicate layout.output_len 0 in
        let small = placed.small in
        let behind = placed.behind_directory in
        let icc_room = placed_room placed.icc in
        let alpha_room = placed_room placed.alpha in
        Yields-after _
          (Yields-Gives
            (write_directory-IsHead primary options layout (replicate layout.output_len 0) placed
              zeros (omega arith))
            (write_directory-Gives _ primary options layout (All-zeros layout.output_len)))
          (λ directory (head, head_bytes).
            Yields-after _
              (Yields-Gives (write_payloads-IsFile primary options layout directory placed head) (
                write_payloads-Gives directory primary options layout head_bytes p.0 g
                  (bytes_optional _ i) (bytes_optional _ a)))
              (λ output (file, all_bytes).
                let size = file.head.size in
                Yields-after _
                  (Yields-equation
                    (parse_codestream-IsParsedCodestream output all_bytes (omega arith)))
                  (λ parsed (_, accepted). yields (record {
                    layout = layout;
                    placed = placed;
                    parsed =
                        parse_annex_a_lem primary options layout output placed o file some_bytes;
                    codestream = slice-IsAt output layout.primary_offset primary file.codestream;
                    icc = slice_optional output options.icc_profile layout.icc_offset file.icc;
                    alpha =
                        slice_optional output options.separate_alpha layout.alpha_offset file.alpha;
                    accepted = (parsed, accepted);
                  }))))))

-- ===== src/Native/PixelFormat/Valid.antt =====
-- The table of pixel_format/table.rs over all codes, and the consistency that pixel_format.rs demands.
use jxr.Base.{
  ℕ, zero, suc, [], ◌∷◌, ◌+◌, ◌≤◌, ◌<◌, ◌≡◌, refl, sym, ap, ◌∙◌, Bool, true, false, not, ◌&&◌, ◌||◌,
  List, All, get_or, take, Option, none, some, all_below, all_below_sound, arith, ltb, leb, ◌==◌,
  inl, inr, Bool-cases,
}
use jxr.Native.Step.Post.{Yields, yields}
use jxr.Native.Step.Plain.{Yields-after, Yields-weaken, reject_if-Yields, if-Yields}
use jxr.Entropy.BitReader.Bits.{IsByte}
use jxr.Native.Header.Valid.{IsOptional}
use jxr.Native.Header.Types.{ParsedHeaders, premultiplied_alpha}
use jxr.Native.AnnexA.{AnnexAImage}
use jxr.Native.AnnexA.Ranges.{equal_bytes}
use jxr.Native.Codestream.Types.{ParsedCodestream}
use jxr.Native.PixelFormat.Types.{AnnexAPixelFormatDescriptor, AnnexAPixelFormat, known, unknown}
use jxr.Native.PixelFormat.Table.{
  one_if, descriptor, luma_format, packed_rgb, rgb_format, cmyk_format, yuv_format, yuv_fixed,
  ncomponent_format, ncomponent_descriptor, basic_descriptor, rgb_descriptor, rgba_descriptor,
  cmyk_yuv_descriptor, known_descriptor,
}
use jxr.Native.PixelFormat.{
  guid_prefix, known_or, classify_annex_a_pixel_format, output_color_code, bit_depth_matches,
  same_flag, is_present, premultiplication_is_consistent, separate_plane, checked_difference,
  validate_known, validate_format, validate_annex, validate_annex_a_pixel_format,
}

-- The codes of Table A.6: 0x05, 0x08 to 0x3b, and 0x3d to 0x56.
abbrev pub listed : ℕ → Bool
listed code = (code == 5) || (leb 8 code && leb code 59) || (leb 61 code && leb code 86)

-- At least one colour channel, nine channels at most, and no premultiplication without alpha.
abbrev is_sound : AnnexAPixelFormatDescriptor → Bool
is_sound d =
    leb (one_if d.alpha + 1) d.channels
    && leb d.channels 9
    && (not d.premultiplied_alpha || d.alpha)

abbrev same_presence : Bool → Option AnnexAPixelFormatDescriptor → Bool
same_presence present none = not present
same_presence present (some d) = present && is_sound d

table_test : all_below 256 (λ code. same_presence (listed code) (known_descriptor code)) ≡ true
unfolding all_below descriptor luma_format packed_rgb rgb_format cmyk_format yuv_format yuv_fixed
    ncomponent_format ncomponent_descriptor basic_descriptor rgb_descriptor rgba_descriptor
    cmyk_yuv_descriptor known_descriptor
table_test = refl

pub record IsDescriptor (d : AnnexAPixelFormatDescriptor) : Type 0 where
  pub some_color : one_if d.alpha + 1 ≤ d.channels
  pub few_channels : d.channels ≤ 9
  pub only_with_alpha : d.premultiplied_alpha ≡ true → d.alpha ≡ true

presence_lem :
    (present : Bool) (d : Option AnnexAPixelFormatDescriptor)
    → same_presence present d ≡ true
    → (is_present d ≡ present) × IsOptional IsDescriptor d
presence_lem true none h = absurd (ground (arith, h))
presence_lem false none h = (refl, tt)
presence_lem false (some d) h = absurd (ground (arith, h))
presence_lem true (some d) h = (
  refl,
  record {
    some_color = ground arith;
    few_channels = ground arith;
    only_with_alpha = λ e. ground arith;
  },
)

-- A code of one byte has a descriptor exactly if Table A.6 lists it, and then the descriptor has a
-- colour channel, nine channels at most, and premultiplication only with alpha.
pub known_descriptor-IsDescriptor :
    (code : ℕ)
    → code < 256
    → (is_present (known_descriptor code) ≡ listed code)
      × IsOptional IsDescriptor (known_descriptor code)
known_descriptor-IsDescriptor code h = presence_lem (listed code) (known_descriptor code) (
    all_below_sound 256 (λ code. same_presence (listed code) (known_descriptor code)) code
      table_test h)

-- What a codestream has in common with the format that its container declares.
pub record IsConsistent (p : ParsedCodestream) (d : AnnexAPixelFormatDescriptor) : Type 0 where
  pub color : p.headers.image.output_color_format ≡ output_color_code d.family
  pub depth : bit_depth_matches d.bit_depth p.headers.image.output_bit_depth ≡ true
  pub channels : p.headers.primary.components + one_if d.alpha ≡ d.channels
  pub alpha : (is_present p.headers.alpha || is_present p.separate_alpha_headers) ≡ d.alpha
  pub premultiplied :
      is_present p.separate_alpha_headers ≡ false
      → premultiplied_alpha p.headers.image.flags ≡ d.premultiplied_alpha

abbrev pub IsConsistentFormat : ParsedCodestream → AnnexAPixelFormat → Type 0
IsConsistentFormat p (known d) = IsConsistent p d
IsConsistentFormat p (unknown guid) = Unit {0}

same_flag_sound : (a b : Bool) → not (same_flag a b) ≡ false → a ≡ b
same_flag_sound true true h = refl
same_flag_sound true false h = absurd (ground (arith, h))
same_flag_sound false true h = absurd (ground (arith, h))
same_flag_sound false false h = refl

premultiplied_lem :
    (separate a b : Bool)
    → not (premultiplication_is_consistent separate a b) ≡ false
    → separate ≡ false
    → a ≡ b
unfolding premultiplication_is_consistent
premultiplied_lem true a b h e = absurd (ground (arith, e))
premultiplied_lem false a b h e = same_flag_sound a b h

separate_plane-present :
    (headers : Option ParsedHeaders) → is_present (separate_plane headers) ≡ is_present headers
unfolding separate_plane
separate_plane-present none = refl
separate_plane-present (some headers) = refl

checked_difference-Yields :
    (a b : ℕ) → b ≤ a → Yields (λ difference. difference + b ≡ a) (checked_difference a b)
checked_difference-Yields a b h =
    if-Yields (ltb a b) _ _ (λ below. absurd (ground arith)) (λ _. yields (omega arith))

-- The check of a format with at least one colour channel does not panic, and what it passes is
-- consistent.
validate_known-IsConsistent :
    (p : ParsedCodestream) (d : AnnexAPixelFormatDescriptor)
    → IsDescriptor d
    → Yields (λ (_ : Unit {0}). IsConsistent p d) (validate_known p d)
unfolding validate_known
validate_known-IsConsistent p d sound = Yields-after _ (reject_if-Yields _ _) (λ _ color.
    Yields-after _ (reject_if-Yields _ _) (λ _ depth.
      Yields-after _
        (let some_color = sound.some_color in
          checked_difference-Yields d.channels (one_if d.alpha) (omega arith))
        (λ difference channels. Yields-after _ (reject_if-Yields _ _) (λ _ components.
          Yields-after _ (reject_if-Yields _ _) (λ _ alpha.
            Yields-after _ (reject_if-Yields _ _) (λ _ premultiplied.
              Yields-after _ (reject_if-Yields _ _) (λ _ _.
                Yields-weaken (reject_if-Yields _ _) (λ _ _. record {
                  color = ground arith;
                  depth = ground arith;
                  channels = ground arith;
                  alpha =
                      ap (λ b. is_present p.headers.alpha || b)
                        (sym (separate_plane-present p.separate_alpha_headers))
                      ∙ same_flag_sound _ d.alpha alpha;
                  premultiplied = premultiplied_lem _ _ d.premultiplied_alpha premultiplied;
                }))))))))

known_or-Yields :
    (p : ParsedCodestream) (guid : List ℕ) (d : Option AnnexAPixelFormatDescriptor)
    → IsOptional IsDescriptor d
    → Yields
        (λ (_ : Unit {0}). IsConsistentFormat p (known_or guid d))
        (validate_format p (known_or guid d))
unfolding validate_format
known_or-Yields p guid none h = yields tt
known_or-Yields p guid (some d) h = validate_known-IsConsistent p d h

byte_at : (xs : List ℕ) (i : ℕ) → All IsByte xs → get_or xs i 0 < 256
byte_at [] i h = omega arith
byte_at (x ∷ xs) zero h = h.0
byte_at (x ∷ xs) (suc i) h = byte_at xs i h.1

validate_guid :
    (p : ParsedCodestream) (guid : List ℕ)
    → All IsByte guid
    → Yields
        (λ (_ : Unit {0}). IsConsistentFormat p (classify_annex_a_pixel_format guid))
        (validate_format p (classify_annex_a_pixel_format guid))
unfolding classify_annex_a_pixel_format
validate_guid p guid h = elim (Bool-cases (equal_bytes (take 15 guid) guid_prefix)) [
  | inl standard ↦ rw standard (
      known_or-Yields p guid (known_descriptor (get_or guid 15 0))
        (known_descriptor-IsDescriptor (get_or guid 15 0) (byte_at guid 15 h)).1)
  | inr other ↦ rw other (unfold validate_format in yields tt)
]

abbrev pub IsConsistentAnnex : ParsedCodestream → Option AnnexAImage → Type 0
IsConsistentAnnex p none = Unit {0}
IsConsistentAnnex p (some annex) =
    IsConsistentFormat p (classify_annex_a_pixel_format annex.pixel_format_guid)

-- The check of the container's pixel format never panics, and what it passes agrees with the format
-- in colour, depth, channels, alpha and premultiplication.
pub validate_annex_a_pixel_format-IsConsistentAnnex :
    (p : ParsedCodestream)
    → IsOptional (λ annex. All IsByte annex.pixel_format_guid) p.annex_a
    → Yields (λ (_ : Unit {0}). IsConsistentAnnex p p.annex_a) (validate_annex_a_pixel_format p)
unfolding validate_annex_a_pixel_format validate_annex
validate_annex_a_pixel_format-IsConsistentAnnex p h = of_annex p.annex_a h
  where
    of_annex :
        (annex : Option AnnexAImage)
        → IsOptional (λ a. All IsByte a.pixel_format_guid) annex
        → Yields (λ (_ : Unit {0}). IsConsistentAnnex p annex) (validate_annex p annex)
    of_annex none h = yields tt
    of_annex (some annex) h = validate_guid p annex.pixel_format_guid h

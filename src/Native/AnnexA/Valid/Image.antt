-- ===== src/Native/AnnexA/Valid/Image.antt =====
-- The image that annex_a.rs builds from a directory, and the parse of a whole file.
use jxr.Base.{
  ℕ, ◌*◌, ◌^◌, ◌≤◌, ◌<◌, ◌≡◌, ◌⊎◌, false, ◌&&◌, List, [], ◌∷◌, All, length, Option, none, some,
  arith, ◌==◌, inl, inr, Bool-cases,
}
use std.Path.{subst}
use jxr.Base.Bits.{bit_and_low_mask}
use jxr.Entropy.BitReader.Bits.{IsByte}
use jxr.Native.Step.Post.{Yields, yields, refuses}
use jxr.Native.Step.Plain.{Yields-after, reject_if-Yields, some_or-Yields, if-Yields}
use jxr.Native.Header.Valid.{IsOptional}
use jxr.Native.AnnexA.{
  AnnexAImage, validate_file_header, alpha_range_of, parse_alpha_range, resolution_of,
  optional_resolution, blob_of, optional_blob, rest_of_file, codestream_len, overlaps, build_image,
  parse_annex_a, tag_icc_profile, tag_image_width, tag_image_height, tag_image_offset,
  tag_image_byte_count, tag_transformation, tag_alpha_offset, tag_alpha_byte_count,
}
use jxr.Native.AnnexA.Ranges.{Range}
use jxr.Native.AnnexA.Directory.{
  DirectoryEntry, find_entry, contains, validate_entry, required_entry, scalar_of_type,
  scalar_value, required_scalar, scalar_of, optional_scalar,
}
use jxr.Native.AnnexA.Valid.{
  IsRange, checked_range-Yields, checked_codestream_range-Yields, slice-Yields, read_u32-Yields,
}
use jxr.Native.AnnexA.Valid.Sorted.{IsEntry, parse_directory-IsDirectory}

abbrev pub IsDisjoint : Range → Option Range → Type 0
IsDisjoint codestream none = Unit {0}
IsDisjoint codestream (some alpha) = (alpha.end ≤ codestream.start) ⊎ (codestream.end ≤ alpha.start)

pub record IsAnnexA (bytes : List ℕ) (image : AnnexAImage) : Type 0 where
  pub size : (image.width < 2 ^ 32) × (image.height < 2 ^ 32)
  pub guid : (length image.pixel_format_guid ≡ 16) × All IsByte image.pixel_format_guid
  pub codestream : IsRange bytes image.codestream_range
  pub alpha : IsOptional (IsRange bytes) image.alpha_range
  pub disjoint : IsDisjoint image.codestream_range image.alpha_range
  pub icc_profile : IsOptional (IsRange bytes) image.metadata.icc_profile_range

scalar_value-Yields :
    (entry : DirectoryEntry) → IsEntry entry → Yields (λ value. value < 2 ^ 32) (scalar_value entry)
unfolding scalar_value validate_entry contains scalar_of_type
scalar_value-Yields entry fields = Yields-after _ (reject_if-Yields _ _) (λ _ allowed.
    if-Yields (entry.element_type == 1) _ _
      (λ _. yields (let low = bit_and_low_mask 8 entry.value in omega arith))
      (λ not_1.
        if-Yields (entry.element_type == 3) _ _
          (λ _. yields (let low = bit_and_low_mask 16 entry.value in omega arith))
          (λ not_3.
            if-Yields (entry.element_type == 4) _ _ (λ _. yields fields.value_bits)
              (λ not_4. absurd (ground arith)))))

find_entry-IsEntry :
    (entries : List DirectoryEntry) (tag : ℕ)
    → All IsEntry entries
    → IsOptional IsEntry (find_entry entries tag)
unfolding find_entry
find_entry-IsEntry [] tag h = tt
find_entry-IsEntry (entry ∷ entries) tag h = elim (Bool-cases (entry.tag == tag)) [
  | inl found ↦ rw found h.0
  | inr other ↦ rw other (find_entry-IsEntry entries tag h.1)
]

required_scalar-Yields :
    (entries : List DirectoryEntry) (tag : ℕ)
    → All IsEntry entries
    → Yields (λ value. value < 2 ^ 32) (required_scalar entries tag)
unfolding required_scalar required_entry
required_scalar-Yields entries tag h = Yields-after _ (some_or-Yields _ _) (λ entry found.
    scalar_value-Yields entry (subst (IsOptional IsEntry) found (find_entry-IsEntry entries tag h)))

scalar_of-Yields :
    (entry : Option DirectoryEntry)
    → IsOptional IsEntry entry
    → Yields (λ (_ : Option ℕ). Unit {0}) (scalar_of entry)
unfolding scalar_of
scalar_of-Yields none h = yields tt
scalar_of-Yields (some entry) h = Yields-after _ (scalar_value-Yields entry h) (λ _ _. yields tt)

optional_scalar-Yields :
    (entries : List DirectoryEntry) (tag : ℕ)
    → All IsEntry entries
    → Yields (λ (_ : Option ℕ). Unit {0}) (optional_scalar entries tag)
unfolding optional_scalar
optional_scalar-Yields entries tag h =
    scalar_of-Yields (find_entry entries tag) (find_entry-IsEntry entries tag h)

resolution_of-Yields :
    (horizontal vertical : Option DirectoryEntry)
    → Yields (λ (_ : Option (ℕ × ℕ)). Unit {0}) (resolution_of horizontal vertical)
unfolding resolution_of validate_entry
resolution_of-Yields none none = yields tt
resolution_of-Yields (some h) none = refuses
resolution_of-Yields none (some v) = refuses
resolution_of-Yields (some h) (some v) =
    Yields-after _ (reject_if-Yields _ _)
      (λ _ _. Yields-after _ (reject_if-Yields _ _) (λ _ _. yields tt))

disjoint_lem :
    (codestream : Range) (alpha : Option Range)
    → overlaps codestream alpha ≡ false
    → IsDisjoint codestream alpha
disjoint_lem codestream none h = tt
disjoint_lem codestream (some alpha) h = ground arith

module _ (bytes : List ℕ) where
  alpha_range_of-Yields :
      (offset count : Option ℕ)
      → Yields (IsOptional (IsRange bytes)) (alpha_range_of bytes offset count)
  unfolding alpha_range_of
  alpha_range_of-Yields none none = yields tt
  alpha_range_of-Yields (some offset) none = refuses
  alpha_range_of-Yields none (some count) = refuses
  alpha_range_of-Yields (some offset) (some count) =
      if-Yields ((offset == 0) && (count == 0)) _ _ (λ _. yields tt)
        (λ _.
          Yields-after _ (checked_codestream_range-Yields bytes "ALPHA_BYTE_COUNT" offset count)
            (λ range inside. yields inside))

  blob_of-Yields :
      (tag : ℕ) (entry : Option DirectoryEntry)
      → Yields (IsOptional (IsRange bytes)) (blob_of bytes tag entry)
  unfolding blob_of
  blob_of-Yields tag none = yields tt
  blob_of-Yields tag (some entry) = Yields-after _ (some_or-Yields _ _) (λ size _.
      Yields-after _ (reject_if-Yields _ _) (λ _ _.
        Yields-after _
          (checked_range-Yields bytes "Annex-A metadata" entry.value (size * entry.count))
          (λ range (inside, _). yields inside)))

  codestream_len-Yields :
      (offset count : ℕ) → Yields (λ (_ : ℕ). Unit {0}) (codestream_len bytes offset count)
  unfolding codestream_len rest_of_file
  codestream_len-Yields offset count =
      if-Yields (count == 0) _ _ (λ _. Yields-after _ (reject_if-Yields _ _) (λ _ _. yields tt))
        (λ _. yields tt)

  module _ (all_bytes : All IsByte bytes) where
    build_image-IsAnnexA :
        (entries : List DirectoryEntry)
        → All IsEntry entries
        → Yields (IsAnnexA bytes) (build_image bytes entries)
    unfolding build_image required_entry validate_entry parse_alpha_range optional_resolution
        optional_blob
    build_image-IsAnnexA entries h = Yields-after _ (some_or-Yields _ _) (λ pixel_entry _.
        Yields-after _ (reject_if-Yields _ _) (λ _ _.
          Yields-after _ (checked_range-Yields bytes "PIXEL_FORMAT" pixel_entry.value 16)
            (λ guid_range (inside, sixteen).
              Yields-after _ (slice-Yields bytes all_bytes guid_range 16 inside sixteen) (λ guid g.
                Yields-after _ (required_scalar-Yields entries tag_image_width h) (λ width w.
                  Yields-after _ (required_scalar-Yields entries tag_image_height h) (λ height k.
                    Yields-after _ (required_scalar-Yields entries tag_image_offset h) (λ offset _.
                      Yields-after _ (required_scalar-Yields entries tag_image_byte_count h)
                        (λ count _. Yields-after _ (codestream_len-Yields offset count) (λ len _.
                          Yields-after _
                            (checked_codestream_range-Yields bytes "IMAGE_BYTE_COUNT" offset len)
                            (λ codestream c.
                              Yields-after _
                                (Yields-after _ (optional_scalar-Yields entries tag_alpha_offset h)
                                  (λ alpha_offset _.
                                    Yields-after _
                                      (optional_scalar-Yields entries tag_alpha_byte_count h)
                                      (λ alpha_count _.
                                        alpha_range_of-Yields alpha_offset alpha_count)))
                                (λ alpha a. Yields-after _ (reject_if-Yields _ _) (λ _ apart.
                                  Yields-after _
                                    (optional_scalar-Yields entries tag_transformation h)
                                    (λ transformation _.
                                      Yields-after _ (resolution_of-Yields _ _) (λ resolution _.
                                        Yields-after _
                                          (blob_of-Yields tag_icc_profile
                                            (find_entry entries tag_icc_profile))
                                          (λ icc i. yields (record {
                                            size = (w, k);
                                            guid = g;
                                            codestream = c;
                                            alpha = a;
                                            disjoint = disjoint_lem codestream alpha apart;
                                            icc_profile = i;
                                          }))))))))))))))))

    -- On each file of bytes, the container is refused with an error or parsed without a panic; then
    -- the codestream, the alpha codestream and the profile lie inside the file, and the two
    -- codestreams have no byte in common.
    pub parse_annex_a-IsAnnexA : Yields (IsAnnexA bytes) (parse_annex_a bytes)
    unfolding parse_annex_a validate_file_header
    parse_annex_a-IsAnnexA =
        Yields-after _ (Yields-after _ (reject_if-Yields _ _) (λ _ _. reject_if-Yields _ _)) (λ _ _.
          Yields-after _ (read_u32-Yields bytes all_bytes 4 "FIRST_IFD_OFFSET") (λ offset _.
            Yields-after _ (reject_if-Yields _ _) (λ _ _.
              Yields-after _ (parse_directory-IsDirectory bytes all_bytes offset)
                (λ entries directory. build_image-IsAnnexA entries directory.fields))))

-- ===== src/Native/Writer/RoundTrip.antt =====
-- What annex_a.rs parses of a file that annex_a/writer.rs writes.
use jxr.Base.{
  ℕ, ◌+◌, ◌*◌, ◌^◌, ◌≤◌, ◌<◌, ◌≡◌, refl, false, List, [], ◌∷◌, ◌++◌, All, length, take, min, Option,
  none, some, arith, ltb, ◌==◌,
}
use std.Path.{subst}
use jxr.Native.Step.{done}
use jxr.Native.Step.Plain.{reject_if, some_or}
use jxr.Native.BitReader.{usize_max}
use jxr.Native.AnnexA.{
  AnnexAImage, validate_file_header, alpha_range_of, parse_alpha_range, resolution_of,
  optional_resolution, blob_of, optional_blob, codestream_len, build_image, parse_annex_a,
}
use jxr.Native.AnnexA.Ranges.{
  Range, slice, checked_range, range_or_padded, checked_codestream_range, equal_bytes,
}
use jxr.Native.AnnexA.Directory.{
  DirectoryEntry, parse_directory, parse_entries, find_entry, contains, validate_entry,
  required_entry, scalar_of_type, scalar_value, required_scalar, scalar_of, optional_scalar,
  element_size,
}
use jxr.Native.AnnexA.Valid.Sorted.{IsEntry, IsAscending}
use jxr.Native.Writer.Layout.{AnnexAWriteOptions, ContainerLayout, orientation_code, Orientation}
use jxr.Native.Writer.Layout.Bounds.{IsPlaced, IsLayout, absent, present}
use jxr.Native.Writer.Buffer.Copies.{slice-IsAt, take-IsAt, checked_range-fits}
use jxr.Native.Writer.Buffer.Pushed.{read_u16-IsAt, read_u32-IsAt, parse_entries-IsTable}
use jxr.Native.Writer.Entries.Written.{all_entries, icc_entries, then_image, then_alpha, entry}
use jxr.Native.Writer.Written.{IsFile, IsAtOptional, signature}

-- The widths of the options' types.
pub record IsOptions (options : AnnexAWriteOptions) : Type 0 where
  pub guid_bytes : length options.pixel_format_guid ≡ 16
  pub width_bits : options.width < 2 ^ 32
  pub height_bits : options.height < 2 ^ 32
  pub horizontal_bits : options.horizontal_resolution_dpi < 2 ^ 32
  pub vertical_bits : options.vertical_resolution_dpi < 2 ^ 32

abbrev pub range_of : Option (List ℕ) → Option ℕ → Option Range
range_of none offset = none
range_of (some payload) none = none
range_of (some payload) (some offset) =
    some (record { start = offset; end = offset + length payload })

-- The image that the options and the layout describe.
abbrev pub described : List ℕ → AnnexAWriteOptions → ContainerLayout → AnnexAImage
described primary options layout = record {
  width = options.width;
  height = options.height;
  pixel_format_guid = options.pixel_format_guid;
  codestream_range = record {
    start = layout.primary_offset;
    end = layout.primary_offset + length primary;
  };
  alpha_range = range_of options.separate_alpha layout.alpha_offset;
  metadata = record {
    transformation = some (orientation_code options.orientation);
    resolution_dpi_bits = some (options.horizontal_resolution_dpi, options.vertical_resolution_dpi);
    icc_profile_range = range_of options.icc_profile layout.icc_offset;
  };
}

All-snoc :
    (entries : List DirectoryEntry) (e : DirectoryEntry)
    → All IsEntry entries
    → IsEntry e
    → All IsEntry (entries ++ e ∷ [])
All-snoc [] e h k = (k, tt)
All-snoc (x ∷ entries) e h k = (h.0, All-snoc entries e h.1 k)

orientation_code-lt : (o : Orientation) → orientation_code o < 8
unfolding orientation_code
orientation_code-lt Orientation.identity = omega arith
orientation_code-lt Orientation.mirror_vertical = omega arith
orientation_code-lt Orientation.mirror_horizontal = omega arith
orientation_code-lt Orientation.rotate_180 = omega arith
orientation_code-lt Orientation.rotate_90 = omega arith
orientation_code-lt Orientation.transverse = omega arith
orientation_code-lt Orientation.transpose = omega arith
orientation_code-lt Orientation.rotate_270 = omega arith

entry-IsEntry :
    (tag element_type count value : ℕ)
    → tag < 2 ^ 16
    → element_type < 2 ^ 16
    → count < 2 ^ 32
    → value < 2 ^ 32
    → IsEntry (entry tag element_type count value)
entry-IsEntry tag element_type count value a b c d = record {
  tag_bits = a;
  type_bits = b;
  count_bits = c;
  value_bits = d;
}

placed_bounds :
    {low high : ℕ} {payload : Option (List ℕ)} {offset : Option ℕ}
    → IsPlaced low high payload offset
    → low ≤ high
placed_bounds (absent h) = h
placed_bounds (present a b c) = omega arith

module _ (primary : List ℕ) (options : AnnexAWriteOptions) (layout : ContainerLayout)
    (placed : IsLayout primary options layout) (o : IsOptions options) where
  icc-IsEntry :
      {low high : ℕ} {profile : Option (List ℕ)} {offset : Option ℕ}
      → IsPlaced low high profile offset
      → high < 2 ^ 32
      → All IsEntry (icc_entries profile offset)
  icc-IsEntry (absent h) small = tt
  icc-IsEntry (present a b c) small =
      (entry-IsEntry _ _ _ _ (omega arith) (omega arith) (omega arith) (omega arith), tt)

  alpha-IsEntry :
      {low high : ℕ} {alpha : Option (List ℕ)} {offset : Option ℕ} (entries : List DirectoryEntry)
      → IsPlaced low high alpha offset
      → high < 2 ^ 32
      → All IsEntry entries
      → All IsEntry (then_alpha entries alpha offset)
  alpha-IsEntry entries (absent h) small v = v
  alpha-IsEntry entries (present a b c) small v =
      All-snoc _ _
        (All-snoc _ _ v
          (entry-IsEntry _ _ _ _ (omega arith) (omega arith) (omega arith) (omega arith)))
        (entry-IsEntry _ _ _ _ (omega arith) (omega arith) (omega arith) (omega arith))

  all_entries-IsEntry : All IsEntry (all_entries primary options layout)
  all_entries-IsEntry =
      let small = placed.small in
      let icc_end = placed_bounds placed.icc in
      let alpha_end = placed_bounds placed.alpha in
      let code = orientation_code-lt options.orientation in
      alpha-IsEntry _ placed.alpha small (
        All-snoc _ _
          (All-snoc _ _
            (All-snoc _ _
              (All-snoc _ _
                (All-snoc _ _
                  (All-snoc _ _
                    (All-snoc _ _
                      (All-snoc _ _ (icc-IsEntry placed.icc (omega arith)) (
                        entry-IsEntry 48129 1 16 _ (omega arith) (omega arith) (omega arith)
                          (omega arith)))
                      (entry-IsEntry 48130 4 1 _ (omega arith) (omega arith) (omega arith)
                        (omega arith)))
                    (entry-IsEntry 48256 4 1 _ (omega arith) (omega arith) (omega arith)
                      o.width_bits))
                  (entry-IsEntry 48257 4 1 _ (omega arith) (omega arith) (omega arith)
                    o.height_bits))
                (entry-IsEntry 48258 11 1 _ (omega arith) (omega arith) (omega arith)
                  o.horizontal_bits))
              (entry-IsEntry 48259 11 1 _ (omega arith) (omega arith) (omega arith)
                o.vertical_bits))
            (entry-IsEntry 48320 4 1 _ (omega arith) (omega arith) (omega arith) (omega arith)))
          (entry-IsEntry 48321 4 1 _ (omega arith) (omega arith) (omega arith) (omega arith)))

ascending_lem :
    {low high low' high' : ℕ} {icc alpha : Option (List ℕ)} {i a : Option ℕ} (primary : List ℕ)
    (options : AnnexAWriteOptions) (layout : ContainerLayout)
    → IsPlaced low high icc i
    → IsPlaced low' high' alpha a
    → IsAscending none (then_alpha (then_image (icc_entries icc i) primary options layout) alpha a)
ascending_lem primary options layout (absent h) (absent k) = omega arith
ascending_lem primary options layout (absent h) (present a b c) = omega arith
ascending_lem primary options layout (present a b c) (absent k) = omega arith
ascending_lem primary options layout (present a b c) (present d e f) = omega arith

-- The image from the entries of the layout.
build_image_lem :
    (primary : List ℕ) (options : AnnexAWriteOptions) (layout : ContainerLayout) (output : List ℕ)
    → IsLayout primary options layout
    → IsOptions options
    → IsFile primary options layout output
    → 1 ≤ length primary
    → build_image output (all_entries primary options layout)
      ≡ done (described primary options layout)
unfolding build_image required_entry find_entry some_or validate_entry contains reject_if
    required_scalar scalar_value scalar_of_type codestream_len checked_codestream_range
    range_or_padded parse_alpha_range optional_scalar scalar_of alpha_range_of optional_resolution
    resolution_of optional_blob blob_of element_size
build_image_lem primary options layout output placed o file some_bytes =
    let size = file.head.size in
    let small = placed.small in
    let fits : length output ≤ usize_max = omega arith in
    let sixteen = o.guid_bytes in
    let guid_within = file.guid.within in
    let guid_range =
      checked_range-fits output "PIXEL_FORMAT" layout.pixel_format_offset 16 (omega arith) fits in
    let guid : slice output
          (record { start = layout.pixel_format_offset; end = layout.pixel_format_offset + 16 })
        ≡ done options.pixel_format_guid =
      subst
        (λ k.
          slice output
            (record { start = layout.pixel_format_offset; end = layout.pixel_format_offset + k })
          ≡ done options.pixel_format_guid)
        sixteen (slice-IsAt output _ _ file.guid) in
    let given : (length primary == 0) ≡ false = ground arith in
    let codestream =
      checked_range-fits output "IMAGE_BYTE_COUNT" layout.primary_offset (length primary)
        file.codestream.within fits in
    cases options.icc_profile layout.icc_offset options.separate_alpha layout.alpha_offset
      placed.icc placed.alpha file.icc file.alpha fits guid_range guid given codestream
  where
    cases :
        (icc : Option (List ℕ)) (i : Option ℕ) (alpha : Option (List ℕ)) (a : Option ℕ)
        → IsPlaced
            (layout.pixel_format_offset + length options.pixel_format_guid)
            layout.primary_offset
            icc
            i
        → IsPlaced (layout.primary_offset + length primary) layout.output_len alpha a
        → IsAtOptional output icc i
        → IsAtOptional output alpha a
        → length output ≤ usize_max
        → checked_range output "PIXEL_FORMAT" layout.pixel_format_offset 16
          ≡ done
              (record { start = layout.pixel_format_offset; end = layout.pixel_format_offset + 16 })
        → slice output
            (record { start = layout.pixel_format_offset; end = layout.pixel_format_offset + 16 })
          ≡ done options.pixel_format_guid
        → (length primary == 0) ≡ false
        → checked_range output "IMAGE_BYTE_COUNT" layout.primary_offset (length primary)
          ≡ done (record {
            start = layout.primary_offset;
            end = layout.primary_offset + length primary;
          })
        → build_image output
            (then_alpha (then_image (icc_entries icc i) primary options layout) alpha a)
          ≡ done (record {
            width = options.width;
            height = options.height;
            pixel_format_guid = options.pixel_format_guid;
            codestream_range = record {
              start = layout.primary_offset;
              end = layout.primary_offset + length primary;
            };
            alpha_range = range_of alpha a;
            metadata = record {
              transformation = some (orientation_code options.orientation);
              resolution_dpi_bits =
                  some (options.horizontal_resolution_dpi, options.vertical_resolution_dpi);
              icc_profile_range = range_of icc i;
            };
          })
    cases none none none none (absent h) (absent k) u v fits guid_range guid given codestream =
        rw (guid_range, guid, given, codestream) refl
    cases (some profile) (some i) none none (present b c d) (absent k) u v fits guid_range guid
          given codestream =
        let one : 1 * length profile ≡ length profile = omega arith in
        let no_overflow : ltb usize_max (length profile) ≡ false = ground (arith, u.within, fits) in
        let icc = checked_range-fits output "Annex-A metadata" i (length profile) u.within fits in
        rw (guid_range, guid, given, codestream, one, no_overflow, icc) refl
    cases none none (some alpha) (some a) (absent h) (present e f g) u v fits guid_range guid given
          codestream =
        let zero_no : (a == 0) ≡ false = ground arith in
        let apart : ltb a (layout.primary_offset + length primary) ≡ false = ground arith in
        let alpha_range =
          checked_range-fits output "ALPHA_BYTE_COUNT" a (length alpha) v.within fits in
        rw (guid_range, guid, given, codestream, zero_no, alpha_range, apart) refl
    cases (some profile) (some i) (some alpha) (some a) (present b c d) (present e f g) u v fits
          guid_range guid given codestream =
        let zero_no : (a == 0) ≡ false = ground arith in
        let apart : ltb a (layout.primary_offset + length primary) ≡ false = ground arith in
        let alpha_range =
          checked_range-fits output "ALPHA_BYTE_COUNT" a (length alpha) v.within fits in
        let one : 1 * length profile ≡ length profile = omega arith in
        let no_overflow : ltb usize_max (length profile) ≡ false = ground (arith, u.within, fits) in
        let icc = checked_range-fits output "Annex-A metadata" i (length profile) u.within fits in
        rw (guid_range, guid, given, codestream, zero_no, alpha_range, apart, one, no_overflow, icc)
          refl
    cases none (some i) alpha a p q u v fits guid_range guid given codestream = elim p [ ]
    cases (some profile) none alpha a p q u v fits guid_range guid given codestream = elim p [ ]
    cases none none none (some a) p q u v fits guid_range guid given codestream = elim q [ ]
    cases none none (some alpha) none p q u v fits guid_range guid given codestream = elim q [ ]
    cases (some profile) (some i) none (some a) p q u v fits guid_range guid given codestream =
        elim q [ ]
    cases (some profile) (some i) (some alpha) none p q u v fits guid_range guid given codestream =
        elim q [ ]

parse_directory_lem :
    (primary : List ℕ) (options : AnnexAWriteOptions) (layout : ContainerLayout) (output : List ℕ)
    → IsLayout primary options layout
    → IsOptions options
    → IsFile primary options layout output
    → parse_directory output 8 ≡ done (all_entries primary options layout)
unfolding parse_directory reject_if
parse_directory_lem primary options layout output placed o file =
    let head = file.head in
    let size = head.size in
    let small = placed.small in
    let behind = placed.behind_directory in
    let number = placed.count in
    let count_bits = head.count_bits in
    let guid_within = file.guid.within in
    let fits : length output ≤ usize_max = omega arith in
    let count =
      read_u16-IsAt output 8 layout.entry_count "NUM_ENTRIES" head.entry_count head.count_bits
        fits in
    let some_entry : (layout.entry_count == 0) ≡ false = ground arith in
    let bytes : min (layout.entry_count * 12) usize_max ≡ 12 * layout.entry_count = omega arith in
    let table =
      checked_range-fits output "IMAGE_FILE_DIRECTORY" 10 (12 * layout.entry_count) (omega arith)
        fits in
    let entries : parse_entries output 10 0 layout.entry_count none
        ≡ done (all_entries primary options layout) =
      subst (λ n. parse_entries output 10 0 n none ≡ done (all_entries primary options layout))
        head.entries_length
        (parse_entries-IsTable output 10 0 (all_entries primary options layout) none head.table
          (ascending_lem primary options layout placed.icc placed.alpha)
          (all_entries-IsEntry primary options layout placed o) fits) in
    rw (count, some_entry, bytes, table, entries) refl

-- The parse of a file that is written for a layout gives the image that the options describe.
pub parse_annex_a_lem :
    (primary : List ℕ) (options : AnnexAWriteOptions) (layout : ContainerLayout) (output : List ℕ)
    → IsLayout primary options layout
    → IsOptions options
    → IsFile primary options layout output
    → 1 ≤ length primary
    → parse_annex_a output ≡ done (described primary options layout)
unfolding parse_annex_a validate_file_header reject_if equal_bytes
parse_annex_a_lem primary options layout output placed o file some_bytes =
    let size = file.head.size in
    let small = placed.small in
    let behind = placed.behind_directory in
    let guid_within = file.guid.within in
    let fits : length output ≤ usize_max = omega arith in
    let long : ltb (length output) 8 ≡ false = ground arith in
    let magic : take 4 output ≡ signature = take-IsAt output signature file.head.magic in
    let offset =
      read_u32-IsAt output 4 8 "FIRST_IFD_OFFSET" file.head.directory_offset (omega arith) fits in
    rw
      (
        long,
        magic,
        offset,
        parse_directory_lem primary options layout output placed o file,
        build_image_lem primary options layout output placed o file some_bytes,
      )
      refl

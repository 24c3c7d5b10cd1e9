-- ===== src/Native/Header/Valid/Image.antt =====
-- The fields of the image header of header/image.rs, after a successful parse.
use jxr.Base.{
  ℕ, zero, suc, ◌^◌, ◌≤◌, ◌<◌, ◌≡◌, refl, sym, ap, ◌∙◌, Bool, true, false, List, [], ◌∷◌, All,
  length, arith, if◌then◌else◌, get_or,
}
use jxr.Native.Step.Post.{Post, gives, Post-after, Post-weaken, reject_if-Post}
use jxr.Native.BitReader.{BitReader}
use jxr.Native.BitReader.Reads.{IsInside, read_bits-Post, read_flag-Post}
use jxr.Native.Header.Types.{from_parsed, short_header}
use jxr.Native.Header.Types.Flags.{accessors, accessors-from_parsed}
use jxr.Native.Header.Image.{
  read_overlap_mode, inferred_margin, parse_margins, read_tile_sizes, parse_tiles, reserved_depth,
  validate_output_codes, parse_image_header,
}
use jxr.Native.Header.Valid.{
  IsCodestreamHeader, require_value-Post, read_u8-Post, read_u16-Post, read_dimension-Post,
}

inferred_margin-lt : (dimension : ℕ) → inferred_margin dimension < 64
unfolding inferred_margin
inferred_margin-lt dimension = ground arith

-- A tile-size field.
abbrev IsTileList : List ℕ → Type 0
IsTileList sizes = (length sizes < 4096) × All (λ size. size < 2 ^ 16) sizes

-- The fifth flag of a list that is known.
short_header-from_parsed :
    (a b c d short f g h i : Bool)
    → short_header (from_parsed (a ∷ b ∷ c ∷ d ∷ short ∷ f ∷ g ∷ h ∷ i ∷ [])) ≡ short
unfolding accessors
short_header-from_parsed a b c d short f g h i =
    ap (λ flags. get_or flags 4 false)
      (accessors-from_parsed (a ∷ b ∷ c ∷ d ∷ short ∷ f ∷ g ∷ h ∷ i ∷ []) refl)

short_size :
    (short : Bool) (size : ℕ) → size ≤ 2 ^ (if short then 16 else 32) → short ≡ true → size ≤ 2 ^ 16
short_size true size h e = h
short_size false size h e = absurd (ground (arith, e))

module _ (bytes : List ℕ) where
  read_overlap_mode-Post :
      (r : BitReader)
      → IsInside bytes r
      → Post (IsInside bytes) (λ mode. mode ≤ 2) (read_overlap_mode r)
  unfolding read_overlap_mode
  read_overlap_mode-Post r v = Post-after _ (read_u8-Post bytes 2 r v) (λ value (below, byte) r v.
      Post-after _ (reject_if-Post _ _ r v) (λ _ known r v. gives (ground arith) v))

  parse_margins-Post :
      (windowing : Bool) (width height : ℕ) (r : BitReader)
      → IsInside bytes r
      → Post
          (IsInside bytes)
          (λ margins. (length margins ≡ 4) × All (λ margin. margin < 64) margins)
          (parse_margins windowing width height r)
  unfolding parse_margins
  parse_margins-Post true width height r v =
      Post-after _ (read_u8-Post bytes 6 r v) (λ top (t, _) r v.
        Post-after _ (read_u8-Post bytes 6 r v) (λ left (l, _) r v.
          Post-after _ (read_u8-Post bytes 6 r v) (λ bottom (b, _) r v.
            Post-after _ (read_u8-Post bytes 6 r v)
              (λ right (e, _) r v. gives (refl, (t, (l, (b, (e, tt))))) v))))
  parse_margins-Post false width height r v =
      gives
        (
          refl,
          (omega arith, (omega arith, (inferred_margin-lt height, (inferred_margin-lt width, tt)))),
        )
        v

  read_tile_sizes-Post :
      (count bits : ℕ) (r : BitReader)
      → IsInside bytes r
      → Post
          (IsInside bytes)
          (λ sizes. (length sizes ≡ count) × All (λ size. size < 2 ^ 16) sizes)
          (read_tile_sizes count bits r)
  unfolding read_tile_sizes
  read_tile_sizes-Post zero bits r v = gives (refl, tt) v
  read_tile_sizes-Post (suc count) bits r v =
      Post-after _ (read_u16-Post bytes bits r v) (λ size (_, below) r v.
        Post-after _ (read_tile_sizes-Post count bits r v)
          (λ sizes (number, all_below) r v. gives (ap suc number, (below, all_below)) v))

  parse_tiles-Post :
      (tiling short : Bool) (r : BitReader)
      → IsInside bytes r
      → Post
          (IsInside bytes)
          (λ tiles. IsTileList tiles.0 × IsTileList tiles.1)
          (parse_tiles tiling short r)
  unfolding parse_tiles
  parse_tiles-Post false short r v = gives ((omega arith, tt), (omega arith, tt)) v
  parse_tiles-Post true short r v = Post-after _ (read_u16-Post bytes 12 r v) (λ columns (c, _) r v.
      Post-after _ (read_u16-Post bytes 12 r v) (λ rows (h, _) r v.
        Post-after _ (read_tile_sizes-Post columns _ r v) (λ widths (columns_read, w) r v.
          Post-after _ (read_tile_sizes-Post rows _ r v)
            (λ heights (rows_read, k) r v. gives ((omega arith, w), (omega arith, k)) v))))

  validate_output_codes-Post :
      (color depth : ℕ) (r : BitReader)
      → IsInside bytes r
      → Post
          (IsInside bytes)
          (λ (_ : Unit {0}). (color ≤ 8) × (reserved_depth depth ≡ false))
          (validate_output_codes color depth r)
  unfolding validate_output_codes
  validate_output_codes-Post color depth r v =
      Post-after _ (reject_if-Post _ _ r v)
        (λ _ known r v. Post-weaken (reject_if-Post _ _ r v) (λ _ valid. (ground arith, valid)))

  -- An image header is parsed without a panic, and each of its fields is in range.
  pub parse_image_header-Post :
      (r : BitReader)
      → IsInside bytes r
      → Post (IsInside bytes) IsCodestreamHeader (parse_image_header r)
  unfolding parse_image_header
  parse_image_header-Post r v = Post-after _ (read_bits-Post bytes 64 r v) (λ _ _ r v.
      Post-after _ (reject_if-Post _ _ r v) (λ _ _ r v.
        Post-after _ (read_bits-Post bytes 4 r v) (λ b _ r v.
          Post-after _ (require_value-Post bytes b 1 "RESERVED_B" r v) (λ _ _ r v.
            Post-after _ (read_flag-Post bytes r v) (λ hard _ r v.
              Post-after _ (read_bits-Post bytes 3 r v) (λ _ _ r v.
                Post-after _ (read_flag-Post bytes r v) (λ tiling _ r v.
                  Post-after _ (read_flag-Post bytes r v) (λ frequency _ r v.
                    Post-after _ (read_u8-Post bytes 3 r v) (λ _ (orientation, _) r v.
                      Post-after _ (read_flag-Post bytes r v) (λ indexed _ r v.
                        Post-after _ (read_overlap_mode-Post r v) (λ _ overlap r v.
                          Post-after _ (read_flag-Post bytes r v) (λ short _ r v.
                            Post-after _ (read_flag-Post bytes r v) (λ long _ r v.
                              Post-after _ (read_flag-Post bytes r v) (λ windowing _ r v.
                                Post-after _ (read_flag-Post bytes r v) (λ trim _ r v.
                                  Post-after _ (read_flag-Post bytes r v) (λ _ _ r v.
                                    Post-after _ (read_flag-Post bytes r v) (λ unswapped _ r v.
                                      Post-after _ (read_flag-Post bytes r v)
                                        (λ premultiplied _ r v.
                                          Post-after _ (read_flag-Post bytes r v) (λ alpha _ r v.
                                            Post-after _ (read_u8-Post bytes 4 r v) (λ color _ r v.
                                              Post-after _ (read_u8-Post bytes 4 r v)
                                                (λ depth (depth_bits, _) r v.
                                                  Post-after _
                                                    (validate_output_codes-Post color depth r v)
                                                    (λ _ (known_color, known_depth) r v.
                                                      Post-after _
                                                        (read_dimension-Post bytes _ _ r v)
                                                        (λ width (w, w_bits, w_max) r v.
                                                          Post-after _
                                                            (read_dimension-Post bytes _ _ r v)
                                                            (λ height (h, h_bits, h_max) r v.
                                                            Post-after _
                                                            (parse_tiles-Post tiling short r v)
                                                            (λ _ (columns, rows) r v.
                                                            Post-after _
                                                            (parse_margins-Post windowing width
                                                            height r v)
                                                            (λ _ margins r v.
                                                            let flag =
                                                            short_header-from_parsed hard frequency
                                                            indexed long short trim unswapped
                                                            premultiplied alpha in
                                                            gives
                                                            (record {
                                                            has_width = (w, w_max);
                                                            has_height = (h, h_max);
                                                            short_size = λ e.
                                                            let s = sym flag ∙ e in
                                                            (
                                                            short_size short width w_bits s,
                                                            short_size short height h_bits s,
                                                            );
                                                            orientation_bits = orientation;
                                                            known_overlap = overlap;
                                                            known_color = known_color;
                                                            known_depth = (depth_bits, known_depth);
                                                            tile_columns = columns;
                                                            tile_rows = rows;
                                                            four_margins = margins;
                                                            })
                                                            v))))))))))))))))))))))))))

-- ===== src/Native/Writer/Entries/Written.antt =====
-- The entries that `write_directory` of annex_a/writer.rs pushes, in their order.
use jxr.Base.{
  ℕ, ◌+◌, ◌*◌, ◌≤◌, ◌≡◌, refl, ◌∙◌, List, [], ◌∷◌, ◌++◌, length, length-append, String, Option,
  none, some, arith,
}
use std.Path.{subst}
use jxr.Native.Step.{Outcome}
use jxr.Native.Step.Post.{Post, gives, fails, Post-after, reject_if-Post}
use jxr.Native.AnnexA.{
  tag_icc_profile, tag_pixel_format, tag_transformation, tag_image_width, tag_image_height,
  tag_horizontal_resolution, tag_vertical_resolution, tag_image_offset, tag_image_byte_count,
  tag_alpha_offset, tag_alpha_byte_count,
}
use jxr.Native.AnnexA.Directory.{DirectoryEntry}
use jxr.Native.Writer.Layout.{AnnexAWriteOptions, ContainerLayout, orientation_code, count_if}
use jxr.Native.Writer.Layout.Bounds.{IsPlaced, IsLayout, absent, present}
use jxr.Native.Writer.Buffer.{DirectoryEntries, push}
use jxr.Native.Writer.Buffer.Pushed.{IsWriting, push-IsWriting}
use jxr.Native.Writer.Entries.{as_u32, push_icc, push_alpha, push_all}

abbrev pub entry : ℕ → ℕ → ℕ → ℕ → DirectoryEntry
entry tag element_type count value = record {
  tag = tag;
  element_type = element_type;
  count = count;
  value = value;
}

abbrev pub icc_entries : Option (List ℕ) → Option ℕ → List DirectoryEntry
icc_entries none offset = []
icc_entries (some profile) none = []
icc_entries (some profile) (some offset) = entry tag_icc_profile 7 (length profile) offset ∷ []

abbrev pub then_alpha : List DirectoryEntry → Option (List ℕ) → Option ℕ → List DirectoryEntry
then_alpha entries none offset = entries
then_alpha entries (some alpha) none = entries
then_alpha entries (some alpha) (some offset) =
    (entries ++ entry tag_alpha_offset 4 1 offset ∷ [])
    ++ entry tag_alpha_byte_count 4 1 (length alpha) ∷ []

abbrev pub then_image :
    List DirectoryEntry → List ℕ → AnnexAWriteOptions → ContainerLayout → List DirectoryEntry
then_image entries primary options layout =
    (((((((entries ++ entry tag_pixel_format 1 16 layout.pixel_format_offset ∷ [])
                ++ entry tag_transformation 4 1 (orientation_code options.orientation) ∷ [])
              ++ entry tag_image_width 4 1 options.width ∷ [])
            ++ entry tag_image_height 4 1 options.height ∷ [])
          ++ entry tag_horizontal_resolution 11 1 options.horizontal_resolution_dpi ∷ [])
        ++ entry tag_vertical_resolution 11 1 options.vertical_resolution_dpi ∷ [])
      ++ entry tag_image_offset 4 1 layout.primary_offset ∷ [])
    ++ entry tag_image_byte_count 4 1 (length primary) ∷ []

abbrev pub all_entries : List ℕ → AnnexAWriteOptions → ContainerLayout → List DirectoryEntry
all_entries primary options layout =
    then_alpha
      (then_image (icc_entries options.icc_profile layout.icc_offset) primary options layout)
      options.separate_alpha layout.alpha_offset

-- A buffer with `n` entries.
pub record IsCounted (before : List ℕ) (n : ℕ) (entries : List DirectoryEntry)
    (s : DirectoryEntries) : Type 0 where
  pub counted : length entries ≡ n
  pub writing : IsWriting before entries s

recount :
    {before : List ℕ} {m n : ℕ} {entries : List DirectoryEntry}
    {x : Outcome (Unit {0} × DirectoryEntries)}
    → m ≡ n
    → Post (IsCounted before m entries) (λ (_ : Unit {0}). Unit {0}) x
    → Post (IsCounted before n entries) (λ (_ : Unit {0}). Unit {0}) x
recount e (gives u v) = gives u (record { counted = v.counted ∙ e; writing = v.writing })
recount e fails = fails

module _ (before : List ℕ) where
  as_u32-Post :
      (n : ℕ) (entries : List DirectoryEntry) (value : ℕ) (operation : String)
      (s : DirectoryEntries)
      → IsCounted before n entries s
      → Post (IsCounted before n entries) (λ v. v ≡ value) (as_u32 value operation s)
  unfolding as_u32
  as_u32-Post n entries value operation s v =
      Post-after _ (reject_if-Post _ _ s v) (λ _ _ s v. gives refl v)

  push-Post :
      (n : ℕ) (entries : List DirectoryEntry) (tag element_type count value count' value' : ℕ)
      (s : DirectoryEntries)
      → IsCounted before n entries s
      → count' ≡ count
      → value' ≡ value
      → 10 + 12 * (n + 1) ≤ length before
      → Post
          (IsCounted before (n + 1) (entries ++ entry tag element_type count value ∷ []))
          (λ (_ : Unit {0}). Unit {0})
          (push tag element_type count' value' s)
  push-Post n entries tag element_type count value count' value' s v same_count same_value h =
      let number = v.counted in
      counted_lem (
        subst
          (λ c.
            Post (IsWriting before (entries ++ entry tag element_type c value ∷ []))
              (λ (_ : Unit {0}). Unit {0}) (push tag element_type count' value' s))
          same_count
          (subst
            (λ w.
              Post (IsWriting before (entries ++ entry tag element_type count' w ∷ []))
                (λ (_ : Unit {0}). Unit {0}) (push tag element_type count' value' s))
            same_value
            (push-IsWriting before entries tag element_type count' value' s v.writing
              (omega arith))))
    where
      counted_lem :
          {x : Outcome (Unit {0} × DirectoryEntries)}
          → Post
              (IsWriting before (entries ++ entry tag element_type count value ∷ []))
              (λ (_ : Unit {0}). Unit {0})
              x
          → Post
              (IsCounted before (n + 1) (entries ++ entry tag element_type count value ∷ []))
              (λ (_ : Unit {0}). Unit {0})
              x
      counted_lem (gives u w) =
          let number = v.counted in
          let sum = length-append entries (entry tag element_type count value ∷ []) in
          gives u (record { counted = omega (arith, number, sum); writing = w })
      counted_lem fails = fails

  push_icc-Post :
      (low high : ℕ) (profile : Option (List ℕ)) (offset : Option ℕ) (s : DirectoryEntries)
      → IsPlaced low high profile offset
      → IsCounted before 0 [] s
      → 22 ≤ length before
      → Post
          (IsCounted before (count_if profile) (icc_entries profile offset))
          (λ (_ : Unit {0}). Unit {0})
          (push_icc profile offset s)
  unfolding push_icc
  push_icc-Post low high none none s (absent h) v room = gives tt v
  push_icc-Post low high none (some offset) s p v room = elim p [ ]
  push_icc-Post low high (some profile) none s p v room = elim p [ ]
  push_icc-Post low high (some profile) (some offset) s (present a b c) v room =
      Post-after _ (as_u32-Post 0 [] (length profile) "representing ICC profile length" s v)
        (λ len l s v.
          Post-after _ (as_u32-Post 0 [] offset "representing ICC profile offset" s v)
            (λ place p s v.
              push-Post 0 [] tag_icc_profile 7 (length profile) offset len place s v l p
                (omega arith)))

  push_alpha-Post :
      (n low high : ℕ) (entries : List DirectoryEntry) (alpha : Option (List ℕ)) (offset : Option ℕ)
      (s : DirectoryEntries)
      → IsPlaced low high alpha offset
      → IsCounted before n entries s
      → 10 + 12 * (n + 2 * count_if alpha) ≤ length before
      → Post
          (IsCounted before (n + 2 * count_if alpha) (then_alpha entries alpha offset))
          (λ (_ : Unit {0}). Unit {0})
          (push_alpha alpha offset s)
  unfolding push_alpha
  push_alpha-Post n low high entries none none s (absent h) v room =
      let same : n ≡ n + 2 * 0 = omega arith in
      gives tt (subst (λ k. IsCounted before k entries s) same v)
  push_alpha-Post n low high entries none (some offset) s p v room = elim p [ ]
  push_alpha-Post n low high entries (some alpha) none s p v room = elim p [ ]
  push_alpha-Post n low high entries (some alpha) (some offset) s (present a b c) v room =
      let same : n + 1 + 1 ≡ n + 2 * 1 = omega arith in
      recount same (
        Post-after _ (as_u32-Post n entries offset "representing alpha codestream offset" s v)
          (λ place p s v.
            Post-after _
              (push-Post n entries tag_alpha_offset 4 1 offset 1 place s v refl p (omega arith))
              (λ _ _ s v.
                Post-after _
                  (as_u32-Post (n + 1) _ (length alpha) "representing alpha codestream length" s v)
                  (λ len l s v.
                    push-Post (n + 1) _ tag_alpha_byte_count 4 1 (length alpha) 1 len s v refl l
                      (omega arith)))))

  module _ (primary : List ℕ) (options : AnnexAWriteOptions) (layout : ContainerLayout)
      (placed : IsLayout primary options layout) where
    -- All entries of the layout are pushed, in ascending order of their tags.
    pub push_all-Post :
        (s : DirectoryEntries)
        → IsCounted before 0 [] s
        → 10 + 12 * layout.entry_count ≤ length before
        → Post
            (IsCounted before layout.entry_count (all_entries primary options layout))
            (λ (_ : Unit {0}). Unit {0})
            (push_all primary options layout s)
    unfolding push_all
    push_all-Post s v room =
        let n : ℕ = count_if options.icc_profile in
        let count = placed.count in
        let same : n + 1 + 1 + 1 + 1 + 1 + 1 + 1 + 1 + 2 * count_if options.separate_alpha
            ≡ layout.entry_count =
          omega arith in
        recount same (
          Post-after _
            (push_icc-Post _ _ options.icc_profile layout.icc_offset s placed.icc v (omega arith))
            (λ _ _ s v.
              Post-after _
                (as_u32-Post n _ layout.pixel_format_offset "representing pixel format offset" s v)
                (λ pixel_format p s v.
                  Post-after _
                    (push-Post n _ tag_pixel_format 1 16 layout.pixel_format_offset 16 pixel_format
                      s v refl p (omega arith))
                    (λ _ _ s v.
                      Post-after _
                        (push-Post (n + 1) _ tag_transformation 4 1 _ 1 _ s v refl refl
                          (omega arith))
                        (λ _ _ s v.
                          Post-after _
                            (push-Post (n + 1 + 1) _ tag_image_width 4 1 _ 1 _ s v refl refl
                              (omega arith))
                            (λ _ _ s v.
                              Post-after _
                                (push-Post (n + 1 + 1 + 1) _ tag_image_height 4 1 _ 1 _ s v refl
                                  refl (omega arith))
                                (λ _ _ s v.
                                  Post-after _
                                    (push-Post (n + 1 + 1 + 1 + 1) _ tag_horizontal_resolution 11 1
                                      _ 1 _ s v refl refl (omega arith))
                                    (λ _ _ s v.
                                      Post-after _
                                        (push-Post (n + 1 + 1 + 1 + 1 + 1) _ tag_vertical_resolution
                                          11 1 _ 1 _ s v refl refl (omega arith))
                                        (λ _ _ s v.
                                          Post-after _
                                            (as_u32-Post (n + 1 + 1 + 1 + 1 + 1 + 1) _
                                              layout.primary_offset
                                              "representing primary codestream offset" s v)
                                            (λ place o s v.
                                              Post-after _
                                                (push-Post (n + 1 + 1 + 1 + 1 + 1 + 1) _
                                                  tag_image_offset 4 1 layout.primary_offset 1 place
                                                  s v refl o (omega arith))
                                                (λ _ _ s v.
                                                  Post-after _
                                                    (as_u32-Post (n + 1 + 1 + 1 + 1 + 1 + 1 + 1) _
                                                      (length primary)
                                                      "representing primary codestream length" s v)
                                                    (λ len l s v.
                                                      Post-after _
                                                        (push-Post (n + 1 + 1 + 1 + 1 + 1 + 1 + 1) _
                                                          tag_image_byte_count 4 1 (length primary)
                                                          1 len s v refl l (omega arith))
                                                        (λ _ _ s v.
                                                          push_alpha-Post
                                                            (n + 1 + 1 + 1 + 1 + 1 + 1 + 1 + 1) _ _
                                                            _ options.separate_alpha
                                                            layout.alpha_offset s placed.alpha v
                                                            (omega arith))))))))))))))

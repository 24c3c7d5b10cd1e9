-- ===== src/Native/Writer/Written.antt =====
-- The file that annex_a/writer.rs writes: what stands where.
use jxr.Base.{
  ℕ, ◌+◌, ◌*◌, ◌^◌, ◌≤◌, ◌<◌, ◌≡◌, refl, ◌∙◌, List, [], ◌∷◌, length, Option, none, some, arith, inl,
}
use jxr.Native.Step.Post.{Yields, yields}
use jxr.Native.Step.Plain.{Yields-after, Yields-weaken, Post-Yields, reject_if-Yields}
use jxr.Native.Writer.{write_directory, write_payloads, put_optional}
use jxr.Native.Writer.Layout.{AnnexAWriteOptions, ContainerLayout}
use jxr.Native.Writer.Layout.Bounds.{IsPlaced, IsLayout, absent, present}
use jxr.Native.Writer.Buffer.{le_bytes}
use jxr.Native.Writer.Buffer.Copies.{IsAt, IsWrite, put-Yields, at_kept, IsWrite-widen}
use jxr.Native.Writer.Buffer.Pushed.{IsTable, table_kept}
use jxr.Native.Writer.Entries.Written.{all_entries, push_all-Post}

abbrev pub signature : List ℕ
signature = 73 ∷ 73 ∷ 188 ∷ 1 ∷ []

abbrev pub IsAtOptional : List ℕ → Option (List ℕ) → Option ℕ → Type 0
IsAtOptional output none offset = Unit {0}
IsAtOptional output (some payload) none = Unit {0}
IsAtOptional output (some payload) (some offset) = IsAt output offset payload

module _ (primary : List ℕ) (options : AnnexAWriteOptions) (layout : ContainerLayout) where
  -- The header of the file and its directory.
  pub record IsHead (output : List ℕ) : Type 0 where
    pub size : length output ≡ layout.output_len
    pub magic : IsAt output 0 signature
    pub directory_offset : IsAt output 4 (le_bytes 4 8)
    pub entry_count : IsAt output 8 (le_bytes 2 layout.entry_count)
    pub entries_length : length (all_entries primary options layout) ≡ layout.entry_count
    pub count_bits : layout.entry_count < 2 ^ 16
    pub table : IsTable output 10 (all_entries primary options layout)

  pub record IsFile (output : List ℕ) : Type 0 where
    pub head : IsHead output
    pub guid : IsAt output layout.pixel_format_offset options.pixel_format_guid
    pub icc : IsAtOptional output options.icc_profile layout.icc_offset
    pub codestream : IsAt output layout.primary_offset primary
    pub alpha : IsAtOptional output options.separate_alpha layout.alpha_offset

  IsHead-kept :
      {low high : ℕ} {before after : List ℕ}
      → IsWrite low high before after
      → 10 + 12 * layout.entry_count ≤ low
      → IsHead before
      → IsHead after
  unfolding le_bytes
  IsHead-kept w h v =
      let number = v.entries_length in
      record {
        size = w.same_length ∙ v.size;
        magic = at_kept w (inl (omega arith)) v.magic;
        directory_offset = at_kept w (inl (omega arith)) v.directory_offset;
        entry_count = at_kept w (inl (omega arith)) v.entry_count;
        entries_length = number;
        count_bits = v.count_bits;
        table = table_kept 10 (all_entries primary options layout) w (omega arith) v.table;
      }

  pub write_directory-IsHead :
      (output : List ℕ)
      → IsLayout primary options layout
      → length output ≡ layout.output_len
      → 10 + 12 * layout.entry_count ≤ length output
      → Yields IsHead (write_directory output primary options layout)
  unfolding write_directory le_bytes
  write_directory-IsHead output placed size room =
      Yields-after _ (put-Yields output 0 signature (omega arith)) (λ o1 (a, u1).
        let s1 = u1.same_length in
        Yields-after _ (put-Yields o1 4 (le_bytes 4 8) (omega arith)) (λ o2 (b, u2).
          let s2 = u2.same_length in
          Yields-after _ (reject_if-Yields _ _) (λ _ count_bits.
            Yields-after _ (put-Yields o2 8 (le_bytes 2 layout.entry_count) (omega arith))
              (λ o3 (c, u3).
                let s3 = u3.same_length in
                Post-Yields _
                  (push_all-Post o3 primary options layout placed
                    (record { output = o3; offset = 10 })
                    (record {
                      counted = refl;
                      writing = record {
                        place = refl;
                        written = record { same_length = refl; kept = λ j apart. refl };
                        table = tt;
                      };
                    })
                    (omega arith))
                  (λ _ _ s v.
                    let w = v.writing.written in
                    yields (record {
                      size = w.same_length ∙ s3 ∙ s2 ∙ s1 ∙ size;
                      magic =
                          at_kept w (inl (omega arith))
                            (at_kept u3 (inl (omega arith)) (at_kept u2 (inl (omega arith)) a));
                      directory_offset =
                          at_kept w (inl (omega arith)) (at_kept u3 (inl (omega arith)) b);
                      entry_count = at_kept w (inl (omega arith)) c;
                      entries_length = v.counted;
                      count_bits = ground arith;
                      table = v.writing.table;
                    }))))))

put_optional-Yields :
    (output : List ℕ) (low high : ℕ) (payload : Option (List ℕ)) (offset : Option ℕ)
    → IsPlaced low high payload offset
    → high ≤ length output
    → Yields
        (λ after. IsAtOptional after payload offset × IsWrite low high output after)
        (put_optional output payload offset)
unfolding put_optional
put_optional-Yields output low high none none (absent h) room =
    yields (tt, record { same_length = refl; kept = λ j apart. refl })
put_optional-Yields output low high none (some offset) p room = elim p [ ]
put_optional-Yields output low high (some payload) none p room = elim p [ ]
put_optional-Yields output low high (some payload) (some offset) (present a b c) room =
    Yields-weaken (put-Yields output offset payload (omega arith))
      (λ after (at, w). (at, IsWrite-widen a c w))

optional_kept :
    {low high bottom top : ℕ} {before after : List ℕ} {payload : Option (List ℕ)}
    {offset : Option ℕ}
    → IsPlaced bottom top payload offset
    → IsWrite low high before after
    → top ≤ low
    → IsAtOptional before payload offset
    → IsAtOptional after payload offset
optional_kept (absent h) w k v = tt
optional_kept (present a b c) w k v = at_kept w (inl (omega arith)) v

placed_end :
    {low high : ℕ} {payload : Option (List ℕ)} {offset : Option ℕ}
    → IsPlaced low high payload offset
    → low ≤ high
placed_end (absent h) = h
placed_end (present a b c) = omega arith

-- Directory and payloads are written without a panic, each to its place.
pub write_payloads-IsFile :
    (primary : List ℕ) (options : AnnexAWriteOptions) (layout : ContainerLayout) (output : List ℕ)
    → IsLayout primary options layout
    → IsHead primary options layout output
    → Yields (IsFile primary options layout) (write_payloads output primary options layout)
unfolding write_payloads
write_payloads-IsFile primary options layout output placed head =
    let size = head.size in
    let behind = placed.behind_directory in
    let icc_end = placed_end placed.icc in
    let alpha_end = placed_end placed.alpha in
    Yields-after _
      (put-Yields output layout.pixel_format_offset options.pixel_format_guid (omega arith))
      (λ o1 (guid, u1).
        let s1 = u1.same_length in
        Yields-after _
          (put_optional-Yields o1 _ _ options.icc_profile layout.icc_offset placed.icc
            (omega arith))
          (λ o2 (icc, u2).
            let s2 = u2.same_length in
            Yields-after _ (put-Yields o2 layout.primary_offset primary (omega arith))
              (λ o3 (codestream, u3).
                let s3 = u3.same_length in
                Yields-weaken
                  (put_optional-Yields o3 _ _ options.separate_alpha layout.alpha_offset
                    placed.alpha (omega arith))
                  (λ o4 (alpha, u4). record {
                    head = IsHead-kept primary options layout u4 (omega arith) (
                        IsHead-kept primary options layout u3 (omega arith) (
                          IsHead-kept primary options layout u2 (omega arith)
                            (IsHead-kept primary options layout u1 (omega arith) head)));
                    guid =
                        at_kept u4 (inl (omega arith))
                          (at_kept u3 (inl (omega arith)) (at_kept u2 (inl (omega arith)) guid));
                    icc =
                        optional_kept placed.icc u4 (omega arith)
                          (optional_kept placed.icc u3 (omega arith) icc);
                    codestream = at_kept u4 (inl (omega arith)) codestream;
                    alpha = alpha;
                  }))))

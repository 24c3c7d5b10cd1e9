-- ===== src/Native/Writer/Layout/Bounds.antt =====
-- The layout of annex_a/writer.rs: where the parts of a container stand.
use jxr.Base.{
  ℕ, ◌+◌, ◌*◌, ◌%◌, ◌^◌, ◌≤◌, ◌<◌, ◌≡◌, refl, List, length, String, Option, none, some, arith,
}
use std.Path.{subst}
use jxr.Native.Step.Post.{Yields, yields}
use jxr.Native.Step.Plain.{Yields-after, reject_if-Yields}
use jxr.Native.Writer.Layout.{
  AnnexAWriteOptions, ContainerLayout, checked_usize, checked_u32, align_four, checked_advance,
  place_optional, check_optional, count_if, new,
}

-- An optional payload between `low` and `high`, at a multiple of four.
pub data IsPlaced (low high : ℕ) : Option (List ℕ) → Option ℕ → Type 0 where
  absent : low ≤ high → IsPlaced low high none none
  present :
      {payload : List ℕ} {offset : ℕ}
      → low ≤ offset
      → offset % 4 ≡ 0
      → offset + length payload ≤ high
      → IsPlaced low high (some payload) (some offset)

-- Directory, identifier, profile, codestream and alpha, one behind the other.
pub record IsLayout (primary : List ℕ) (options : AnnexAWriteOptions) (layout : ContainerLayout)
    : Type 0 where
  pub count :
      layout.entry_count ≡ 8 + count_if options.icc_profile + 2 * count_if options.separate_alpha
  pub behind_directory : 14 + 12 * layout.entry_count ≤ layout.pixel_format_offset
  pub guid_aligned : layout.pixel_format_offset % 4 ≡ 0
  pub icc :
      IsPlaced
        (layout.pixel_format_offset + length options.pixel_format_guid)
        layout.primary_offset
        options.icc_profile
        layout.icc_offset
  pub primary_aligned : layout.primary_offset % 4 ≡ 0
  pub alpha :
      IsPlaced
        (layout.primary_offset + length primary)
        layout.output_len
        options.separate_alpha
        layout.alpha_offset
  pub small : layout.output_len < 2 ^ 32

checked_usize-Yields :
    (value : ℕ) (operation : String) → Yields (λ v. v ≡ value) (checked_usize value operation)
unfolding checked_usize
checked_usize-Yields value operation = Yields-after _ (reject_if-Yields _ _) (λ _ _. yields refl)

checked_u32-Yields :
    (value : ℕ) (operation : String)
    → Yields (λ v. (v ≡ value) × (value < 2 ^ 32)) (checked_u32 value operation)
unfolding checked_u32
checked_u32-Yields value operation =
    Yields-after _ (reject_if-Yields _ _) (λ _ fits. yields (refl, ground arith))

align_four-Yields : (value : ℕ) → Yields (λ v. (value ≤ v) × (v % 4 ≡ 0)) (align_four value)
unfolding align_four
align_four-Yields value =
    Yields-after _ (checked_usize-Yields (value + 3) _)
      (λ raised e. yields (omega arith, omega arith))

place_optional-Yields :
    (cursor : ℕ) (payload : Option (List ℕ))
    → Yields
        (λ x. (cursor ≤ x.1) × ((high : ℕ) → x.1 ≤ high → IsPlaced cursor high payload x.0))
        (place_optional cursor payload)
unfolding place_optional checked_advance
place_optional-Yields cursor none = yields (omega arith, λ high h. absent h)
place_optional-Yields cursor (some payload) =
    Yields-after _ (align_four-Yields cursor) (λ offset (behind, aligned).
      Yields-after _ (checked_usize-Yields (offset + length payload) _)
        (λ end e. yields (omega arith, λ high h. present behind aligned (omega arith))))

check_optional-Yields :
    (payload : Option (List ℕ)) (operation : String)
    → Yields (λ (_ : Unit {0}). Unit {0}) (check_optional payload operation)
unfolding check_optional
check_optional-Yields none operation = yields tt
check_optional-Yields (some payload) operation =
    Yields-after _ (checked_u32-Yields (length payload) operation) (λ _ _. yields tt)

-- A layout is refused with an error, or its parts stand one behind the other, at multiples of four,
-- within a length of 32 bits.
pub new-IsLayout :
    (primary : List ℕ) (options : AnnexAWriteOptions)
    → Yields (IsLayout primary options) (new primary options)
unfolding new checked_advance
new-IsLayout primary options = Yields-after _ (checked_usize-Yields _ _) (λ table t.
    Yields-after _ (checked_usize-Yields _ _) (λ with_count c.
      Yields-after _ (checked_usize-Yields _ _) (λ directory d.
        Yields-after _ (checked_usize-Yields _ _) (λ start s.
          Yields-after _ (align_four-Yields start) (λ pixel_format (p, p_aligned).
            Yields-after _ (checked_usize-Yields _ _) (λ behind_guid g.
              Yields-after _ (place_optional-Yields behind_guid options.icc_profile)
                (λ icc (_, icc_placed).
                  Yields-after _ (align_four-Yields icc.1) (λ primary_offset (o, o_aligned).
                    Yields-after _ (checked_usize-Yields _ _) (λ behind_primary b.
                      Yields-after _ (place_optional-Yields behind_primary options.separate_alpha)
                        (λ alpha (_, alpha_placed). Yields-after _ (checked_u32-Yields _ _) (λ _ _.
                          Yields-after _ (check_optional-Yields options.icc_profile _) (λ _ _.
                            Yields-after _ (check_optional-Yields options.separate_alpha _) (λ _ _.
                              Yields-after _ (checked_u32-Yields alpha.1 _)
                                (λ output_len (l, small). yields (record {
                                  count = refl;
                                  behind_directory = omega arith;
                                  guid_aligned = p_aligned;
                                  icc =
                                      subst
                                        (λ q. IsPlaced q primary_offset options.icc_profile icc.0) g
                                        (icc_placed primary_offset o);
                                  primary_aligned = o_aligned;
                                  alpha =
                                      subst
                                        (λ q. IsPlaced q output_len options.separate_alpha alpha.0)
                                        b (alpha_placed output_len (omega arith));
                                  small = omega arith;
                                })))))))))))))))

-- ===== src/Native/Header/Types/Flags.antt =====
-- The packed flags of header/types.rs, and the accessors that read them back.
use jxr.Base.{ℕ, zero, suc, Bool, true, false, ◌&&◌, List, [], ◌∷◌, length, ◌≡◌, refl, ap, arith}
use jxr.Native.Header.Types.{
  HeaderFlags, fold_flags, from_parsed, hard_tiling, frequency_mode, index_table_present, long_word,
  short_header, trim_flexbits, red_blue_not_swapped, premultiplied_alpha, alpha_plane,
}

-- All accessors, in the order of the fields of `from_parsed`.
unfoldable pub accessors : HeaderFlags → List Bool
accessors f =
    hard_tiling f
    ∷ frequency_mode f
    ∷ index_table_present f
    ∷ long_word f
    ∷ short_header f
    ∷ trim_flexbits f
    ∷ red_blue_not_swapped f
    ∷ premultiplied_alpha f
    ∷ alpha_plane f
    ∷ []

unfoldable same : List Bool → List Bool → Bool
same [] [] = true
same [] (b ∷ ys) = false
same (a ∷ xs) [] = false
same (true ∷ xs) (true ∷ ys) = same xs ys
same (false ∷ xs) (false ∷ ys) = same xs ys
same (true ∷ xs) (false ∷ ys) = false
same (false ∷ xs) (true ∷ ys) = false

same_sound : (xs ys : List Bool) → same xs ys ≡ true → xs ≡ ys
unfolding same
same_sound [] [] h = refl
same_sound [] (b ∷ ys) h = absurd (ground (arith, h))
same_sound (a ∷ xs) [] h = absurd (ground (arith, h))
same_sound (true ∷ xs) (true ∷ ys) h = ap (true ∷◌) (same_sound xs ys h)
same_sound (false ∷ xs) (false ∷ ys) h = ap (false ∷◌) (same_sound xs ys h)
same_sound (true ∷ xs) (false ∷ ys) h = absurd (ground (arith, h))
same_sound (false ∷ xs) (true ∷ ys) h = absurd (ground (arith, h))

-- The test on every list of `n` Booleans.
unfoldable all_lists : ℕ → (List Bool → Bool) → Bool
all_lists zero test = test []
all_lists (suc n) test =
    all_lists n (λ ys. test (true ∷ ys)) && all_lists n (λ ys. test (false ∷ ys))

&&-left : (a b : Bool) → (a && b) ≡ true → a ≡ true
&&-left true b h = refl
&&-left false b h = h

&&-right : (a b : Bool) → (a && b) ≡ true → b ≡ true
&&-right true b h = h
&&-right false b h = absurd (ground (arith, h))

all_lists_sound :
    (n : ℕ) (test : List Bool → Bool) (ys : List Bool)
    → all_lists n test ≡ true
    → length ys ≡ n
    → test ys ≡ true
unfolding all_lists
all_lists_sound zero test [] h e = h
all_lists_sound zero test (b ∷ ys) h e = absurd (omega arith)
all_lists_sound (suc n) test [] h e = absurd (omega arith)
all_lists_sound (suc n) test (true ∷ ys) h e =
    all_lists_sound n (λ ys. test (true ∷ ys)) ys (&&-left _ _ h) (omega arith)
all_lists_sound (suc n) test (false ∷ ys) h e =
    all_lists_sound n (λ ys. test (false ∷ ys)) ys (&&-right _ _ h) (omega arith)

all_flags : all_lists 9 (λ ys. same (accessors (from_parsed ys)) ys) ≡ true
unfolding all_lists same accessors from_parsed fold_flags hard_tiling frequency_mode
    index_table_present long_word short_header trim_flexbits red_blue_not_swapped
    premultiplied_alpha alpha_plane
all_flags = refl

-- Nine flags, packed and read back by their accessors, are the flags.
pub accessors-from_parsed :
    (values : List Bool) → length values ≡ 9 → accessors (from_parsed values) ≡ values
accessors-from_parsed values h =
    same_sound _ values
      (all_lists_sound 9 (λ ys. same (accessors (from_parsed ys)) ys) values all_flags h)

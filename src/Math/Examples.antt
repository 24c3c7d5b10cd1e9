-- ===== src/Math/Examples.antt =====
-- The theorems on the transforms at one block, and the blocks that the tests of transform.rs check.
use jxr.Base.{◌≡◌, refl, arith, some, List, [], ◌∷◌, ℕ, replicate}
use jxr.Base.Int.{ℤ, pos, negsuc, ◌+ℤ◌, ◌-ℤ◌, ◌*ℤ◌, shr_ℤ}
use jxr.Math.Overlap.{
  inverse_overlap_filter_2, inverse_overlap_filter_2x2, inverse_overlap_filter_4,
  inverse_overlap_filter_4x4, apply_pair, inverse_hadamard_zero, inverse_rotate, inverse_scale,
  inverse_todd_odd_post, inverse_hadamard_post, checked_neg,
}
use jxr.Math.Overlap.Undo.{undo_2x2, undo_2x2-inverse_overlap_filter_2x2}
use jxr.Math.Alpha.Bounds.{IsPremultiplied, premultiply_unsigned-IsPremultiplied}
use jxr.Math.Sampling.{new_centering, weighted_pair, upsample_chroma_pair}
use jxr.Math.Sampling.Bounds.{IsBetween, upsample_chroma_pair-IsBetween}
use jxr.Math.Arithmetic.{value, checked_add, checked_sub, checked_mul}
use jxr.Math.Transform.{
  Quad, t2x2h, inverse_todd, inverse_todd_odd, transform_group, inverse_permute,
  inverse_hadamard_2x2, inverse_core_transform, inverse_chroma_420, inverse_chroma_422,
  inverse_t2pt,
}
use jxr.Math.Transform.Inverse.{IsI32, middle_exchanged, t2x2h_involution, inverse_chroma_420-t2x2h}

abbrev quad : ℤ → ℤ → ℤ → ℤ → Quad
quad a b c d = record { at_0 = a; at_1 = b; at_2 = c; at_3 = d }

abbrev before : Quad
before = quad (pos 5) (pos 6) (pos 7) (pos 8)

after_lem : t2x2h (pos 0) before ≡ value (quad (pos 13) (negsuc 1) (negsuc 0) (pos 0))
unfolding t2x2h checked_add checked_sub ◌+ℤ◌ ◌-ℤ◌ shr_ℤ
after_lem = refl

before-IsI32 : IsI32 before
before-IsI32 = record { fits_0 = refl; fits_1 = refl; fits_2 = refl; fits_3 = refl }

t2x2h_involution_example :
    t2x2h (pos 0) (quad (pos 13) (negsuc 1) (negsuc 0) (pos 0)) ≡ value before
t2x2h_involution_example =
    t2x2h_involution (pos 0) before (quad (pos 13) (negsuc 1) (negsuc 0) (pos 0)) before-IsI32
      after_lem

chroma_lem : inverse_chroma_420 before ≡ value (quad (pos 13) (negsuc 0) (negsuc 1) (pos 0))
unfolding inverse_chroma_420 t2x2h checked_add checked_sub ◌+ℤ◌ ◌-ℤ◌ shr_ℤ
chroma_lem = refl

inverse_chroma_420-t2x2h_example :
    t2x2h (pos 0) (middle_exchanged (quad (pos 13) (negsuc 0) (negsuc 1) (pos 0))) ≡ value before
inverse_chroma_420-t2x2h_example =
    inverse_chroma_420-t2x2h before (quad (pos 13) (negsuc 0) (negsuc 1) (pos 0)) before-IsI32
      chroma_lem

chroma_422_test :
    inverse_chroma_422 (quad (pos 1) (pos 2) (pos 3) (pos 4)) (quad (pos 5) (pos 6) (pos 7) (pos 8))
    ≡ value (
      quad (pos 4) (negsuc 2) (negsuc 3) (negsuc 1),
      quad (pos 12) (negsuc 1) (negsuc 2) (negsuc 0),
    )
unfolding inverse_chroma_422 inverse_t2pt t2x2h checked_add checked_sub ◌+ℤ◌ ◌-ℤ◌ shr_ℤ
chroma_422_test = refl

-- The permutation that the build writes from data/reconstruction.abi.
abbrev inverse_permutation : List ℕ
inverse_permutation = 0 ∷ 8 ∷ 4 ∷ 13 ∷ 2 ∷ 15 ∷ 3 ∷ 14 ∷ 1 ∷ 12 ∷ 5 ∷ 9 ∷ 7 ∷ 11 ∷ 6 ∷ 10 ∷ []

uniform_block_test :
    inverse_core_transform inverse_permutation (pos 16 ∷ replicate 15 (pos 0))
    ≡ value (replicate 16 (pos 4))
unfolding inverse_core_transform transform_group inverse_permute inverse_todd inverse_todd_odd t2x2h
    checked_add checked_sub checked_mul ◌+ℤ◌ ◌-ℤ◌ ◌*ℤ◌ shr_ℤ
uniform_block_test = refl

signed_rounding_test :
    inverse_core_transform inverse_permutation (
      pos 50
      ∷ negsuc 41
      ∷ pos 9
      ∷ pos 21
      ∷ pos 126
      ∷ pos 33
      ∷ negsuc 5
      ∷ negsuc 17
      ∷ negsuc 23
      ∷ pos 21
      ∷ negsuc 2
      ∷ negsuc 8
      ∷ negsuc 5
      ∷ negsuc 32
      ∷ pos 6
      ∷ pos 15
      ∷ [])
    ≡ value (
        pos 50
        ∷ pos 50
        ∷ pos 47
        ∷ pos 49
        ∷ pos 39
        ∷ pos 38
        ∷ pos 41
        ∷ pos 41
        ∷ negsuc 29
        ∷ negsuc 43
        ∷ pos 27
        ∷ pos 36
        ∷ negsuc 46
        ∷ negsuc 54
        ∷ negsuc 22
        ∷ negsuc 19
        ∷ [])
unfolding inverse_core_transform transform_group inverse_permute inverse_todd inverse_todd_odd t2x2h
    checked_add checked_sub checked_mul ◌+ℤ◌ ◌-ℤ◌ ◌*ℤ◌ shr_ℤ
signed_rounding_test = refl

-- The results that the tests of overlap.rs expect.
filter_2_test : inverse_overlap_filter_2 (pos 1, pos 2) ≡ value (pos 2, pos 3)
unfolding inverse_overlap_filter_2 checked_add checked_sub checked_mul ◌+ℤ◌ ◌-ℤ◌ ◌*ℤ◌ shr_ℤ
filter_2_test = refl

filter_2x2_test :
    inverse_overlap_filter_2x2 (quad (pos 1) (pos 2) (pos 3) (pos 4))
    ≡ value (quad (pos 3) (pos 4) (pos 4) (pos 5))
unfolding inverse_overlap_filter_2x2 checked_add checked_sub checked_mul ◌+ℤ◌ ◌-ℤ◌ ◌*ℤ◌ shr_ℤ
filter_2x2_test = refl

filter_4x4_test : inverse_overlap_filter_4x4 (replicate 16 (pos 0)) ≡ value (replicate 16 (pos 0))
unfolding inverse_overlap_filter_4x4 transform_group apply_pair inverse_hadamard_zero
    inverse_hadamard_2x2 t2x2h inverse_rotate inverse_scale inverse_todd_odd_post
    inverse_hadamard_post checked_add checked_sub checked_mul ◌+ℤ◌ ◌-ℤ◌ ◌*ℤ◌ shr_ℤ
filter_4x4_test = refl

filter_4_test :
    inverse_overlap_filter_4 (quad (pos 0) (pos 0) (pos 0) (pos 0))
    ≡ value (quad (pos 0) (pos 0) (pos 0) (pos 0))
unfolding inverse_overlap_filter_4 inverse_scale inverse_rotate checked_neg checked_add checked_sub
    checked_mul ◌+ℤ◌ ◌-ℤ◌ ◌*ℤ◌ shr_ℤ
filter_4_test = refl

undo_2x2-inverse_overlap_filter_2x2_example :
    undo_2x2 (quad (pos 3) (pos 4) (pos 4) (pos 5)) ≡ quad (pos 1) (pos 2) (pos 3) (pos 4)
undo_2x2-inverse_overlap_filter_2x2_example =
    undo_2x2-inverse_overlap_filter_2x2 (quad (pos 1) (pos 2) (pos 3) (pos 4))
      (quad (pos 3) (pos 4) (pos 4) (pos 5)) filter_2x2_test

premultiply_unsigned-IsPremultiplied_example : (result : ℕ) × IsPremultiplied 200 128 255 result
premultiply_unsigned-IsPremultiplied_example =
    premultiply_unsigned-IsPremultiplied 200 128 255 (omega arith) (omega arith)

upsample_test :
    upsample_chroma_pair (negsuc 8) (negsuc 3) (pos 3) (record { offset = 2 })
    ≡ some (value (negsuc 4, negsuc 1))
unfolding upsample_chroma_pair weighted_pair checked_add checked_mul ◌+ℤ◌ ◌*ℤ◌ shr_ℤ
upsample_test = refl

new_centering_test : new_centering 2 ≡ some (record { offset = 2 })
unfolding new_centering
new_centering_test = refl

upsample_chroma_pair-IsBetween_example :
    (even : ℤ) × (odd : ℤ) × (upsample_chroma_pair
        (negsuc 8)
        (negsuc 3)
        (pos 3)
        (record { offset = 2 })
      ≡ some (value (even, odd)))
    × IsBetween (negsuc 8) (pos 3) even
    × IsBetween (negsuc 8) (pos 3) odd
upsample_chroma_pair-IsBetween_example =
    upsample_chroma_pair-IsBetween 2 (record { offset = 2 }) (negsuc 8) (pos 3) (negsuc 8)
      (negsuc 3) (pos 3) new_centering_test (omega arith, omega arith) (omega arith, omega arith)
      (omega arith, omega arith) (omega arith, omega arith) (omega arith, omega arith)
      (omega arith, omega arith)

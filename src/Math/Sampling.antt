-- ===== src/Math/Sampling.antt =====
-- crates/jxr-math/src/sampling.rs: the interpolation of subsampled chroma.
pub mod Bounds
use jxr.Base.{ℕ, Option, none, some, if◌then◌else◌, leb, ◌==◌}
use jxr.Base.Int.{ℤ, pos, shr_ℤ}
use jxr.Math.Arithmetic.{Checked, value, ◌>>=◌, checked_add, checked_mul}

-- The offset is a `u8`.
pub record ChromaCentering : Type 0 where
  pub offset : ℕ

unfoldable pub new_centering : ℕ → Option ChromaCentering
new_centering given = if leb given 4 then some (record { offset = given }) else none

pub record Coefficients : Type 0 where
  h0 : ℤ
  h1 : ℤ
  h2 : ℤ
  h3 : ℤ

abbrev pub weights : ℕ → ℕ → ℕ → ℕ → Option Coefficients
weights a b c d = some (record { h0 = pos a; h1 = pos b; h2 = pos c; h3 = pos d })

-- `none` where the code is `unreachable!`.
abbrev pub coefficients_at : ℕ → Option Coefficients
coefficients_at offset =
    if offset == 0
    then weights 4 4 0 8
    else if offset == 1
    then weights 5 3 1 7
    else if offset == 2
    then weights 6 2 2 6
    else if offset == 3
    then weights 7 1 3 5
    else if offset == 4
    then weights 8 0 4 4
    else none

abbrev pub coefficients : ChromaCentering → Option Coefficients
coefficients centering = coefficients_at centering.offset

unfoldable pub weighted_pair : ℤ → ℤ → ℤ → ℤ → Checked ℤ
weighted_pair first first_weight second second_weight = do
  a ← checked_mul first first_weight
  b ← checked_mul second second_weight
  sum ← checked_add a b
  rounded ← checked_add sum (pos 4)
  value (shr_ℤ rounded 3)

abbrev pub upsample_with : ℤ → ℤ → ℤ → Coefficients → Checked (ℤ × ℤ)
upsample_with previous current next h = do
  even ← weighted_pair previous h.h2 current h.h3
  odd ← weighted_pair current h.h0 next h.h1
  value (even, odd)

abbrev option_map : {A B : Type 0} → (A → B) → Option A → Option B
option_map f none = none
option_map f (some a) = some (f a)

unfoldable pub upsample_chroma_pair : ℤ → ℤ → ℤ → ChromaCentering → Option (Checked (ℤ × ℤ))
upsample_chroma_pair previous current next centering =
    option_map (upsample_with previous current next) (coefficients centering)

-- ===== src/Native/AnnexA/Valid.antt =====
-- The ranges and scalars that annex_a.rs takes from a file lie inside it.
pub mod Sorted
pub mod Image
use jxr.Base.{
  ℕ, zero, suc, ◌+◌, ◌-◌, ◌*◌, ◌^◌, ◌≤◌, ◌<◌, ◌≡◌, refl, ap, ◌∙◌, Bool, true, false, ◌&&◌, List, [],
  ◌∷◌, All, length, length-drop, take, drop, String, arith, ltb, leb, ◌==◌, if◌then◌else◌, inl, inr,
  Bool-cases,
}
use std.Path.{subst}
use native.Mathlib.Nat.{pow-suc}
use jxr.Entropy.BitReader.Bits.{IsByte}
use jxr.Native.Step.{Outcome, done, failed, panicked}
use jxr.Native.Step.Post.{Yields, yields, refuses}
use jxr.Native.Step.Plain.{Yields-after, Yields-weaken, reject_if-Yields, if-Yields}
use jxr.Native.AnnexA.Ranges.{
  Range, slice, checked_range, from_le_bytes, read_u16, read_u32, is_range_outside_input, is_padded,
  range_or_padded, checked_codestream_range,
}

pub record IsRange (bytes : List ℕ) (r : Range) : Type 0 where
  pub ordered : r.start ≤ r.end
  pub inside : r.end ≤ length bytes

pub length-take : (n : ℕ) (xs : List ℕ) → n ≤ length xs → length (take n xs) ≡ n
length-take zero xs h = refl
length-take (suc n) [] h = absurd (omega arith)
length-take (suc n) (x ∷ xs) h = ap suc (length-take n xs (omega arith))

pub All-take : (n : ℕ) (xs : List ℕ) → All IsByte xs → All IsByte (take n xs)
All-take zero xs h = tt
All-take (suc n) [] h = tt
All-take (suc n) (x ∷ xs) h = (h.0, All-take n xs h.1)

pub All-drop : (n : ℕ) (xs : List ℕ) → All IsByte xs → All IsByte (drop n xs)
All-drop zero xs h = h
All-drop (suc n) [] h = tt
All-drop (suc n) (x ∷ xs) h = All-drop n xs h.1

from_le_bytes-lt : (xs : List ℕ) → All IsByte xs → from_le_bytes xs < 256 ^ length xs
unfolding from_le_bytes
from_le_bytes-lt [] h = omega arith
from_le_bytes-lt (x ∷ xs) h =
    let byte : x < 256 = h.0 in
    let power : 256 ^ suc (length xs) ≡ 256 ^ length xs * 256 = pow-suc 256 (length xs) in
    omega (arith, from_le_bytes-lt xs h.1, byte, power)

below_power : {n value : ℕ} (k : ℕ) → n ≡ k → value < 256 ^ n → value < 256 ^ k
below_power {value = value} k same h = subst (λ m. value < 256 ^ m) same h

module _ (bytes : List ℕ) where
  pub checked_range-Yields :
      (field : String) (offset len : ℕ)
      → Yields
          (λ r. IsRange bytes r × (r.end ≡ r.start + len))
          (checked_range bytes field offset len)
  unfolding checked_range
  checked_range-Yields field offset len = Yields-after _ (reject_if-Yields _ _) (λ _ _.
      Yields-after _ (reject_if-Yields _ _)
        (λ _ fits. yields (record { ordered = omega arith; inside = ground arith }, refl)))

  range_or_padded-Yields :
      (offset len : ℕ) (x : Outcome Range)
      → Yields (IsRange bytes) x
      → Yields (IsRange bytes) (range_or_padded bytes offset len x)
  unfolding range_or_padded is_padded
  range_or_padded-Yields offset len (done range) (yields valid) = yields valid
  range_or_padded-Yields offset len panicked h = elim h [ ]
  range_or_padded-Yields offset len (failed e) h =
      if-Yields (is_range_outside_input e && is_padded bytes offset len) _ _
        (λ padded. yields (record { ordered = ground arith; inside = omega arith })) (λ _. refuses)

  pub checked_codestream_range-Yields :
      (field : String) (offset len : ℕ)
      → Yields (IsRange bytes) (checked_codestream_range bytes field offset len)
  unfolding checked_codestream_range
  checked_codestream_range-Yields field offset len =
      range_or_padded-Yields offset len (checked_range bytes field offset len)
        (Yields-weaken (checked_range-Yields field offset len) (λ r (valid, size). valid))

  module _ (all_bytes : All IsByte bytes) where
    -- A slice at a range inside the file does not panic.
    pub slice-Yields :
        (r : Range) (len : ℕ)
        → IsRange bytes r
        → r.end ≡ r.start + len
        → Yields (λ xs. (length xs ≡ len) × All IsByte xs) (slice bytes r)
    unfolding slice
    slice-Yields r len valid size =
        if-Yields (leb r.start r.end && leb r.end (length bytes)) _ _
          (λ _.
            let ordered = valid.ordered in
            let inside = valid.inside in
            let dropped = length-drop r.start bytes in
            let taken = length-take (r.end - r.start) (drop r.start bytes) (omega arith) in
            yields (omega arith, All-take _ _ (All-drop r.start bytes all_bytes)))
          (λ outside.
            let ordered = valid.ordered in let inside = valid.inside in absurd (ground arith))

    pub read_u16-Yields :
        (offset : ℕ) (field : String)
        → Yields (λ value. value < 2 ^ 16) (read_u16 bytes offset field)
    unfolding read_u16
    read_u16-Yields offset field =
        Yields-after _ (checked_range-Yields field offset 2) (λ r (valid, size).
          Yields-after _ (slice-Yields r 2 valid size)
            (λ xs (two, ok). yields (below_power 2 two (from_le_bytes-lt xs ok))))

    pub read_u32-Yields :
        (offset : ℕ) (field : String)
        → Yields (λ value. value < 2 ^ 32) (read_u32 bytes offset field)
    unfolding read_u32
    read_u32-Yields offset field =
        Yields-after _ (checked_range-Yields field offset 4) (λ r (valid, size).
          Yields-after _ (slice-Yields r 4 valid size)
            (λ xs (four, ok). yields (below_power 4 four (from_le_bytes-lt xs ok))))

-- ===== src/Math/Sampling/Bounds.antt =====
-- The chroma interpolation of crates/jxr-math/src/sampling.rs: its range.
use jxr.Base.{ℕ, ◌+◌, ◌-◌, ◌*◌, ◌^◌, ◌≤◌, ◌≡◌, refl, ap, some, arith}
use jxr.Base.Int.{ℤ, pos, pos_part, neg_part, shr_ℤ, ◌≤ℤ◌, ◌*ℤ◌, ◌+ℤ◌, +ℤ_parts}
use jxr.Math.Arithmetic.{value, checked_add, checked_mul}
use jxr.Math.Sampling.{
  ChromaCentering, new_centering, weights, coefficients_at, weighted_pair, upsample_with,
  upsample_chroma_pair,
}
use native.Mathlib.Nat.{mul-le-mul}

-- A sample of 27 bits beside its sign.
abbrev pub IsSample : ℤ → Type 0
IsSample a = (pos_part a ≤ 2 ^ 27) × (neg_part a ≤ 2 ^ 27)

-- A result of the code between two values.
abbrev pub IsBetween : ℤ → ℤ → ℤ → Type 0
IsBetween low high a = (low ≤ℤ a) × (a ≤ℤ high)

at_most : (n : ℕ) → n ≤ n
at_most n = omega arith

mul_le :
    (a b : ℤ) (w : ℕ) → a ≤ℤ b → pos_part a * w + neg_part b * w ≤ pos_part b * w + neg_part a * w
mul_le a b w h =
    let product : (pos_part a + neg_part b) * w ≤ (pos_part b + neg_part a) * w =
      mul-le-mul h (omega arith) in
    omega (arith, product)

-- Weights of a sum of eight.
eight : (n w v : ℕ) → w + v ≡ 8 → n * w + n * v ≡ n * 8
eight n w v h = let e : n * (w + v) ≡ n * 8 = ap (λ x. n * x) h in omega (arith, e)

times_parts :
    (a : ℤ) (w : ℕ)
    → pos_part (a *ℤ pos w) + neg_part a * w ≡ neg_part (a *ℤ pos w) + pos_part a * w
unfolding ◌*ℤ◌
times_parts a w = ground arith

-- An eighth rounded down.
shr_low :
    (low s : ℤ) → pos_part low * 8 + neg_part s ≤ pos_part s + neg_part low * 8 → low ≤ℤ shr_ℤ s 3
unfolding shr_ℤ
shr_low low s h = ground arith

shr_high :
    (high s : ℤ)
    → pos_part s + neg_part high * 8 ≤ pos_part high * 8 + neg_part s + 7
    → shr_ℤ s 3 ≤ℤ high
unfolding shr_ℤ
shr_high high s h = ground arith

-- With weights of a sum of eight, nothing overflows.
weighted_pair_exact :
    (a b : ℤ) (w v : ℕ)
    → w + v ≡ 8
    → IsSample a
    → IsSample b
    → weighted_pair a (pos w) b (pos v) ≡ value (shr_ℤ (a *ℤ pos w +ℤ b *ℤ pos v +ℤ pos 4) 3)
unfolding weighted_pair checked_add checked_mul ◌*ℤ◌ ◌+ℤ◌ shr_ℤ
weighted_pair_exact a b w v h sa sb =
    let pa : pos_part a * w ≤ 2 ^ 27 * w = mul-le-mul sa.0 (at_most w) in
    let na : neg_part a * w ≤ 2 ^ 27 * w = mul-le-mul sa.1 (at_most w) in
    let pb : pos_part b * v ≤ 2 ^ 27 * v = mul-le-mul sb.0 (at_most v) in
    let nb : neg_part b * v ≤ 2 ^ 27 * v = mul-le-mul sb.1 (at_most v) in ground arith

-- The rounded mean of two samples is between the bounds of both.
weighted_pair-IsBetween :
    (low high a b : ℤ) (w v : ℕ)
    → w + v ≡ 8
    → IsSample a
    → IsSample b
    → IsBetween low high a
    → IsBetween low high b
    → (c : ℤ) × (weighted_pair a (pos w) b (pos v) ≡ value c) × IsBetween low high c
weighted_pair-IsBetween low high a b w v h sa sb ia ib =
    let a_low = mul_le low a w ia.0 in
    let a_high = mul_le a high w ia.1 in
    let b_low = mul_le low b v ib.0 in
    let b_high = mul_le b high v ib.1 in
    let p_low = eight (pos_part low) w v h in
    let n_low = eight (neg_part low) w v h in
    let p_high = eight (pos_part high) w v h in
    let n_high = eight (neg_part high) w v h in
    let s : ℤ = a *ℤ pos w +ℤ b *ℤ pos v +ℤ pos 4 in
    let ta = times_parts a w in
    let tb = times_parts b v in
    let t = +ℤ_parts (a *ℤ pos w) (b *ℤ pos v) in
    let r = +ℤ_parts (a *ℤ pos w +ℤ b *ℤ pos v) (pos 4) in
    (
      shr_ℤ s 3,
      weighted_pair_exact a b w v h sa sb,
      (shr_low low s (omega arith), shr_high high s (omega arith)),
    )

-- The table of coefficients, in one formula.
coefficients_at_lem : (n : ℕ) → n ≤ 4 → coefficients_at n ≡ weights (4 + n) (4 - n) n (8 - n)
coefficients_at_lem n h = ground arith

new_centering-some :
    (given : ℕ) (centering : ChromaCentering)
    → new_centering given ≡ some centering
    → centering.offset ≤ 4
unfolding new_centering
new_centering-some given centering h = ground arith

upsample_with_lem :
    (previous current next : ℤ) (a b c d : ℕ) (even odd : ℤ)
    → weighted_pair previous (pos c) current (pos d) ≡ value even
    → weighted_pair current (pos a) next (pos b) ≡ value odd
    → upsample_with previous current next
        (record { h0 = pos a; h1 = pos b; h2 = pos c; h3 = pos d })
      ≡ value (even, odd)
upsample_with_lem previous current next a b c d even odd e o = rw (e, o) refl

-- With a centering that its constructor accepts and samples of 27 bits beside their sign, the
-- interpolation neither overflows nor panics, and both results are between any bounds of the samples.
pub upsample_chroma_pair-IsBetween :
    (given : ℕ) (centering : ChromaCentering) (low high previous current next : ℤ)
    → new_centering given ≡ some centering
    → IsSample previous
    → IsSample current
    → IsSample next
    → IsBetween low high previous
    → IsBetween low high current
    → IsBetween low high next
    → (even : ℤ) × (odd : ℤ) × (upsample_chroma_pair previous current next centering
        ≡ some (value (even, odd)))
      × IsBetween low high even
      × IsBetween low high odd
unfolding upsample_chroma_pair
upsample_chroma_pair-IsBetween given centering low high p c n made sp sc sn ip ic in_ =
    let m = centering.offset in
    let small : m ≤ 4 = new_centering-some given centering made in
    let (even, even_is, even_in) =
      weighted_pair-IsBetween low high p c m (8 - m) (omega arith) sp sc ip ic in
    let (odd, odd_is, odd_in) =
      weighted_pair-IsBetween low high c n (4 + m) (4 - m) (omega arith) sc sn ic in_ in
    let same = upsample_with_lem p c n (4 + m) (4 - m) m (8 - m) even odd even_is odd_is in
    (even, odd, rw (coefficients_at_lem m small, same) refl, even_in, odd_in)

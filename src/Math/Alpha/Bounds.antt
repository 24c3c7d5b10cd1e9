-- ===== src/Math/Alpha/Bounds.antt =====
-- The integer premultiplication of crates/jxr-math/src/alpha.rs: its range and its ends.
use jxr.Base.{
  ℕ, ◌+◌, ◌-◌, ◌*◌, ◌/◌, ◌^◌, ◌≤◌, ◌<◌, ◌≡◌, refl, min, false, arith, ltb, ◌==◌, inl, inr,
  Bool-cases,
}
use jxr.Math.Arithmetic.{value}
use jxr.Math.Alpha.{premultiply_unsigned}
use native.Mathlib.Nat.{div-mul-le_self, mul-le-mul, le-div_iff_mul-le}

-- The rounded quotient of a product.
rounded_le : (s a m : ℕ) → 1 ≤ m → a ≤ m → (s * a + m / 2) / m ≤ s
rounded_le s a m h k = elim (Bool-cases (ltb s ((s * a + m / 2) / m))) [
  | inl above ↦
      let q : ℕ = (s * a + m / 2) / m in
      let top : q * m ≤ s * a + m / 2 = div-mul-le_self (s * a + m / 2) m in
      let bigger : (s + 1) * m ≤ q * m = mul-le-mul (ground arith) (omega arith) in
      let product : s * a ≤ s * m = mul-le-mul (omega arith) k in
      absurd (omega (arith, top, bigger, product))
  | inr below ↦ ground arith
]

-- The product of the cut sample and the cut alpha.
abbrev pub scaled_by : ℕ → ℕ → ℕ → ℕ
scaled_by sample alpha maximum = min sample maximum * min alpha maximum

-- A premultiplied sample: the nearest to the exact quotient, not above the sample.
pub record IsPremultiplied (sample alpha maximum result : ℕ) : Type 0 where
  pub computed : premultiply_unsigned sample alpha maximum ≡ value result
  pub not_above : result ≤ min sample maximum
  pub nearest_below : 2 * (result * maximum) ≤ 2 * scaled_by sample alpha maximum + maximum
  pub nearest_above : 2 * scaled_by sample alpha maximum ≤ 2 * (result * maximum) + maximum
  pub opaque : maximum ≤ alpha → result ≡ min sample maximum
  pub transparent : alpha ≡ 0 → result ≡ 0

quotient_above : (n m : ℕ) → 1 ≤ m → n < (n / m + 1) * m
quotient_above n m h = elim (Bool-cases (ltb n ((n / m + 1) * m))) [
  | inl below ↦ ground arith
  | inr above ↦ absurd (
      omega
        (arith, (le-div_iff_mul-le {k = m} {x = n / m + 1} {y = n} (omega arith)).1 (ground arith)))
]

full_quotient : (s m : ℕ) → 1 ≤ m → (s * m + m / 2) / m ≡ s
full_quotient s m h = omega (
  arith,
  rounded_le s m m h (omega arith),
  (le-div_iff_mul-le {k = m} {x = s} {y = s * m + m / 2} (omega arith)).1 (omega arith),
)

-- With a range of at least one and less than 2^32, premultiplication never overflows; it rounds to the
-- nearest, never exceeds the sample cut to the range, keeps that sample at full alpha and is zero at
-- no alpha.
pub premultiply_unsigned-IsPremultiplied :
    (sample alpha maximum : ℕ)
    → 1 ≤ maximum
    → maximum < 2 ^ 32
    → (result : ℕ) × IsPremultiplied sample alpha maximum result
unfolding premultiply_unsigned
premultiply_unsigned-IsPremultiplied sample alpha maximum h k =
    let x : ℕ = scaled_by sample alpha maximum in
    let q : ℕ = (x + maximum / 2) / maximum in
    let bound : q ≤ min sample maximum =
      rounded_le (min sample maximum) (min alpha maximum) maximum h (omega arith) in
    let given : (maximum == 0) ≡ false = ground arith in
    let fits : ltb (2 ^ 32 - 1) q ≡ false = ground arith in
    let below : q * maximum ≤ x + maximum / 2 = div-mul-le_self (x + maximum / 2) maximum in
    let above : x + maximum / 2 < (q + 1) * maximum = quotient_above (x + maximum / 2) maximum h in
    (
      q,
      record {
        computed = rw (given, fits) refl;
        not_above = bound;
        nearest_below = omega (arith, below);
        nearest_above = omega (arith, above);
        opaque = λ full.
            let whole : min alpha maximum ≡ maximum = omega arith in
            rw whole (full_quotient (min sample maximum) maximum h);
        transparent = λ clear.
            let zero_alpha : min alpha maximum ≡ 0 = omega arith in
            let no_product : min sample maximum * 0 ≡ 0 * 0 = omega arith in
            let small = rounded_le 0 0 maximum h (omega arith) in
            rw (zero_alpha, no_product) (omega (arith, small));
      },
    )

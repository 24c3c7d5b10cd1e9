-- ===== src/Base/Bits.antt =====
-- Powers of two, and `&` and `|` on the fields of a word, as arithmetic.
use Prim.Native.Nat.{
  ℕ, zero, suc, ◌+◌, ◌-◌, ◌*◌, ◌/◌, ◌%◌, ◌^◌, ◌≤◌, ◌<◌, min, max, bit_and, bit_or, digits,
  bit_and-bitwise, bit_or-bitwise,
}
use mathlib.Core.Path.{◌≡◌, refl, ap, ◌∙◌}
use native.Mathlib.Nat.{
  pow-suc, one-le-pow, mul_assoc, add-zero, add-suc, mul-add-div_right, div-eq_of_lt, div-add-mod',
  div-div-eq-div-mul, mul-lt-mul_of_pos_right, div-one, mul-one, pow-succ',
}
use native.Mathlib.Omega.{arith}

pub pow_add : (a b : ℕ) → 2 ^ (a + b) ≡ 2 ^ a * 2 ^ b
pow_add a zero = rw add-zero (omega arith)
pow_add a (suc b) = rw (add-suc, pow-suc, pow-suc) (rw (pow_add a b) (mul_assoc (2 ^ a) (2 ^ b) 2))

pub pow_split : (a b n : ℕ) → n ≡ a + b → 2 ^ n ≡ 2 ^ a * 2 ^ b
pow_split a b n e = rw e (pow_add a b)

-- The quotient and remainder of a number that is written as one.
pub div_mod_fields : (q r m : ℕ) → r < m → ((q * m + r) / m ≡ q) × ((q * m + r) % m ≡ r)
div_mod_fields q r m h =
    let quotient : (q * m + r) / m ≡ q =
      mul-add-div_right (omega arith) q r ∙ omega (arith, div-eq_of_lt h) in
    (quotient, omega (arith, div-add-mod' (q * m + r) m, ap (λ (t : ℕ). t * m) quotient))

pub div_div : (a b c : ℕ) → a / b / c ≡ a / (b * c)
div_div a b c = div-div-eq-div-mul a b c

-- One binary digit of `&` and `|`; the native operations stand for such a recursion with fuel.
module _ (z : ℕ → ℕ) (f : ℕ → ℕ → ℕ) where
  -- Fuel that covers the first number is enough, however much there is.
  digits_enough :
      (a b fuel more : ℕ) → (a ≤ fuel) × (a ≤ more) → digits z f fuel a b ≡ digits z f more a b
  digits_enough (suc a) b (suc fuel) (suc more) h =
      let rest = digits_enough (suc a / 2) (b / 2) fuel more (omega arith, omega arith) in
      omega (arith, rest)
  digits_enough (suc a) b zero more h = absurd (omega arith)
  digits_enough (suc a) b (suc fuel) zero h = absurd (omega arith)
  digits_enough zero b zero zero h = refl
  digits_enough zero b zero (suc more) h = refl
  digits_enough zero b (suc fuel) zero h = refl
  digits_enough zero b (suc fuel) (suc more) h = refl

pub bit_and_digit : (a b : ℕ) → bit_and a b ≡ bit_and (a / 2) (b / 2) * 2 + min (a % 2) (b % 2)
bit_and_digit zero b = omega (arith, bit_and-bitwise 0 b, bit_and-bitwise 0 (b / 2))
bit_and_digit (suc a) b = omega (
  arith,
  bit_and-bitwise (suc a) b,
  bit_and-bitwise (suc a / 2) (b / 2),
  digits_enough (λ y. 0) min (suc a / 2) (b / 2) a (suc a / 2) (omega arith, omega arith),
)

pub bit_or_digit : (a b : ℕ) → bit_or a b ≡ bit_or (a / 2) (b / 2) * 2 + max (a % 2) (b % 2)
bit_or_digit zero b = omega (arith, bit_or-bitwise 0 b, bit_or-bitwise 0 (b / 2))
bit_or_digit (suc a) b = omega (
  arith,
  bit_or-bitwise (suc a) b,
  bit_or-bitwise (suc a / 2) (b / 2),
  digits_enough (λ y. y) max (suc a / 2) (b / 2) a (suc a / 2) (omega arith, omega arith),
)

-- By halving, down to the mask 0.
bit_and_zero_below : (n a : ℕ) → a ≤ n → bit_and a 0 ≡ 0
bit_and_zero_below n zero h = bit_and-bitwise 0 0
bit_and_zero_below zero (suc a) h = absurd (omega arith)
bit_and_zero_below (suc n) (suc a) h =
    omega (arith, bit_and_digit (suc a) 0, bit_and_zero_below n (suc a / 2) (omega arith))

bit_or_zero_below : (n a : ℕ) → a ≤ n → bit_or a 0 ≡ a
bit_or_zero_below n zero h = bit_or-bitwise 0 0
bit_or_zero_below zero (suc a) h = absurd (omega arith)
bit_or_zero_below (suc n) (suc a) h =
    omega (arith, bit_or_digit (suc a) 0, bit_or_zero_below n (suc a / 2) (omega arith))

halves : (a k : ℕ) → (a * 2 ^ suc k / 2 ≡ a * 2 ^ k) × (a * 2 ^ suc k % 2 ≡ 0)
halves a k = omega (arith, ap (λ (t : ℕ). a * t) (pow-suc 2 k))

div_halves : (a k : ℕ) → a / 2 ^ suc k ≡ a / 2 / 2 ^ k
div_halves a k = rw (pow-succ', ← div_div) refl

mod_halves : (a k : ℕ) → a % 2 ^ suc k ≡ a / 2 % 2 ^ k * 2 + a % 2
mod_halves a k = omega (
  arith,
  div-add-mod' a (2 ^ suc k),
  div-add-mod' (a / 2) (2 ^ k),
  ap (λ (t : ℕ). t * 2 ^ suc k) (div_halves a k),
  ap (λ (t : ℕ). a / 2 / 2 ^ k * t) (pow-suc 2 k),
)

-- `x & (2^k - 1)` is the remainder.
pub bit_and_low_mask : (k a : ℕ) → bit_and a (2 ^ k - 1) ≡ a % 2 ^ k
bit_and_low_mask zero a = omega (arith, bit_and_zero_below a a (omega arith))
bit_and_low_mask (suc k) a =
    let low : (2 ^ suc k - 1) / 2 ≡ 2 ^ k - 1 = omega (arith, pow-suc 2 k, one-le-pow k 2) in
    let split : a % 2 ^ suc k ≡ a / 2 % 2 ^ k * 2 + a % 2 = mod_halves a k in
    omega (
      arith,
      pow-suc 2 k,
      one-le-pow k 2,
      bit_and_digit a (2 ^ suc k - 1),
      ap (λ (t : ℕ). bit_and (a / 2) t) low,
      bit_and_low_mask k (a / 2),
      split,
    )

-- `x & (m << k)` leaves the low `k` bits out.
pub bit_and_shifted : (k a m : ℕ) → bit_and a (m * 2 ^ k) ≡ bit_and (a / 2 ^ k) m * 2 ^ k
bit_and_shifted zero a m = rw (mul-one, div-one, mul-one) refl
bit_and_shifted (suc k) a m = omega (
  arith,
  bit_and_digit a (m * 2 ^ suc k),
  halves m k,
  ap (λ (t : ℕ). bit_and (a / 2) t) (halves m k).0,
  bit_and_shifted k (a / 2) m,
  ap (λ (t : ℕ). bit_and t m * 2 ^ suc k) (div_halves a k),
  ap (λ (t : ℕ). bit_and (a / 2 / 2 ^ k) m * t) (pow-suc 2 k),
)

-- `(q << k) | r` is a sum when `r` fits `k` bits.
pub bit_or_shifted : (k q r : ℕ) → r < 2 ^ k → bit_or (q * 2 ^ k) r ≡ q * 2 ^ k + r
bit_or_shifted zero q r h =
    let none_left : r ≡ 0 = omega arith in
    rw (none_left, mul-one, add-zero) (bit_or_zero_below q q (omega arith))
bit_or_shifted (suc k) q r h = omega (
  arith,
  bit_or_digit (q * 2 ^ suc k) r,
  halves q k,
  pow-suc 2 k,
  ap (λ (t : ℕ). bit_or t (r / 2)) (halves q k).0,
  bit_or_shifted k q (r / 2) (omega (arith, pow-suc 2 k)),
)

-- Two fields shifted up by `e` bits.
pub fields_shifted :
    (q r d e k : ℕ)
    → k ≡ d + e
    → r < 2 ^ d
    → ((q * 2 ^ d + r) * 2 ^ e ≡ q * 2 ^ k + r * 2 ^ e) × (r * 2 ^ e < 2 ^ k)
fields_shifted q r d e k total fits = (
  omega (arith, ap (λ (t : ℕ). q * t) (pow_split d e k total)),
  rw (pow_split d e k total) (mul-lt-mul_of_pos_right fits (one-le-pow e 2 (omega arith))),
)

-- Shifting a word left drops the fields that leave it.
pub shift_out :
    (q r d e k : ℕ) → k ≡ d + e → r < 2 ^ d → (q * 2 ^ d + r) * 2 ^ e % 2 ^ k ≡ r * 2 ^ e
shift_out q r d e k total fits =
    let (sum, below) = fields_shifted q r d e k total fits in
    rw sum (div_mod_fields q (r * 2 ^ e) (2 ^ k) below).1

-- The leading field of a word, by the shift that is split to stay below the width.
pub leading_field :
    (q r d e c k : ℕ) → k ≡ d + e → suc c ≡ k → r < 2 ^ d → (q * 2 ^ d + r) * 2 ^ e / 2 / 2 ^ c ≡ q
leading_field q r d e c k total split fits =
    let (sum, below) = fields_shifted q r d e k total fits in
    rw (sum, div_div, ← pow-succ', split) (div_mod_fields q (r * 2 ^ e) (2 ^ k) below).0

ones_shifted : (n k : ℕ) → (suc n * suc k - 1) * suc k ≡ k * (suc n * suc k) + n * suc k
ones_shifted n k =
    let ones : suc n * suc k - 1 ≡ n * suc k + k = omega arith in rw ones (omega arith)

suc-sub-one : (n : ℕ) → suc n - 1 ≡ n
suc-sub-one n = omega arith

high_ones :
    (n k : ℕ)
    → 0 < n
    → 0 < k
    → ((n * k - 1) * k ≡ (k - 1) * (n * k) + (n - 1) * k) × ((n - 1) * k < n * k)
high_ones zero k h g = absurd (omega arith)
high_ones (suc n) zero h g = absurd (omega arith)
high_ones (suc n) (suc k) h g =
    (rw (suc-sub-one, suc-sub-one) (ones_shifted n k), rw suc-sub-one (omega arith))

-- The mask of the `n` high bits of a word of `w` bits.
pub high_mask : (n k w : ℕ) → w ≡ n + k → (2 ^ w - 1) * 2 ^ k % 2 ^ w ≡ (2 ^ n - 1) * 2 ^ k
high_mask n k w total =
    let (sum, below) =
      high_ones (2 ^ n) (2 ^ k) (one-le-pow n 2 (omega arith)) (one-le-pow k 2 (omega arith)) in
    rw (pow_split n k w total, sum) (div_mod_fields (2 ^ k - 1) ((2 ^ n - 1) * 2 ^ k) _ below).1

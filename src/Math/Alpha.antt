-- ===== src/Math/Alpha.antt =====
-- crates/jxr-math/src/alpha.rs: alpha premultiplication on integers.
pub mod Bounds
use jxr.Base.{
  ℕ, ◌+◌, ◌-◌, ◌*◌, ◌/◌, ◌%◌, ◌^◌, min, bit_and, bit_or, Bool, true, false, ltb, ◌==◌,
  if◌then◌else◌,
}
use jxr.Base.Int.{ℤ, pos, negsuc, pos_part, neg_part, sub_ℕ, in_i32, ltb_ℤ}
use jxr.Math.Arithmetic.{Checked, value, overflow, ◌>>=◌}

-- `u32` arguments; the product and the sum stay below 2^64.
unfoldable pub premultiply_unsigned : ℕ → ℕ → ℕ → Checked ℕ
premultiply_unsigned sample alpha maximum =
    if maximum == 0
    then overflow "zero alpha normalization range"
    else (let scaled = (min sample maximum * min alpha maximum + maximum / 2) / maximum in
        if ltb (2 ^ 32 - 1) scaled
        then overflow "unsigned alpha premultiplication"
        else value scaled)

-- BD16F: a sign bit and fifteen bits of magnitude, in a `u16`. The `expect` on the magnitude is
-- left out, since fifteen bits fit.
unfoldable pub premultiply_sign_magnitude_15 : ℕ → ℕ → Checked ℕ
premultiply_sign_magnitude_15 value_bits alpha_bits = do
  magnitude ←
      premultiply_unsigned (bit_and value_bits 32767)
        (if bit_and alpha_bits 32768 == 0 then bit_and alpha_bits 32767 else 0) 32767
  value (bit_or (bit_and value_bits 32768) magnitude)

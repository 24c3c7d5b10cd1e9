-- ===== src/Entropy/Refinement.antt =====
-- crates/jxr-native/src/entropy/refinement.rs: flexbits and low-pass refinement.
pub mod Fast
use jxr.Base.{
  ℕ, zero, suc, ◌+◌, ◌-◌, ◌*◌, ◌%◌, ◌^◌, Bool, true, false, ◌||◌, Option, none, some, List, [], ◌∷◌,
  ltb, leb, ◌==◌, if◌then◌else◌, set, length, replicate,
}
use jxr.Base.Int.{ℤ, pos, negsuc, ◌+ℤ◌, i32_checked}
use jxr.Entropy.Step.{
  Result, ok, err, panic, Step, ◌>>=◌, ◌>>◌, return, fail, some_or, index, reject_if,
  invalid_parameter, coefficient_overflow,
}
use jxr.Entropy.BitReader.{PacketBitReader, read_bits, read_bit, read_magnitude_and_sign}

abbrev pub transpose_tail : List ℕ
transpose_tail = 4 ∷ 8 ∷ 12 ∷ 1 ∷ 5 ∷ 9 ∷ 13 ∷ 2 ∷ 6 ∷ 10 ∷ 14 ∷ 3 ∷ 7 ∷ 11 ∷ 15 ∷ []

-- `checked_neg`
unfoldable pub negate : ℤ → ℤ
negate (pos zero) = pos 0
negate (pos (suc n)) = negsuc n
negate (negsuc n) = pos (suc n)

-- `i32::try_from` of an unsigned value
abbrev pub i32_of : ℕ → Option ℤ
i32_of n = i32_checked (pos n)

-- The 32-bit pattern of an integer, and the integer of a pattern.
unfoldable pub wrap_i32 : ℤ → ℤ
wrap_i32 (pos n) =
    let low = n % 2 ^ 32 in if ltb low (2 ^ 31) then pos low else negsuc (2 ^ 32 - 1 - low)
wrap_i32 (negsuc n) =
    let low = n % 2 ^ 32 in if ltb low (2 ^ 31) then negsuc low else pos (2 ^ 32 - 1 - low)

abbrev pub shifted : ℤ → ℕ → ℤ
shifted (pos n) k = pos (n * 2 ^ k)
shifted (negsuc n) k = negsuc ((n + 1) * 2 ^ k - 1)

-- `i32::checked_shl` refuses only a shift by 32 bits or more, and drops the bits that leave the word.
unfoldable pub checked_shl : ℤ → ℕ → Option ℤ
checked_shl a k = if leb 32 k then none else some (wrap_i32 (shifted a k))

unfoldable pub signed : {S : Type 0} → ℤ → Bool → S → Result ℤ × S
signed magnitude negative =
    if negative
    then some_or (i32_checked (negate magnitude)) coefficient_overflow
    else return magnitude

abbrev pub is_zero : ℤ → Bool
is_zero (pos n) = n == 0
is_zero (negsuc n) = false

abbrev pub is_negative : ℤ → Bool
is_negative (pos n) = false
is_negative (negsuc n) = true

unfoldable pub apply_sign : ℤ → Step PacketBitReader ℤ
apply_sign value = if is_zero value then return (pos 0) else (do bit ← read_bit; signed value bit)

unfoldable pub decode_flex : ℤ → ℕ → Step PacketBitReader ℤ
decode_flex vlc_coefficient flex_bits =
    if ltb 29 flex_bits then fail (invalid_parameter "flexbits width" (pos flex_bits)) else (do
      bits ← read_bits flex_bits
      value ← some_or (i32_of bits) coefficient_overflow
      if is_negative vlc_coefficient
          then signed value true
          else if is_zero vlc_coefficient
          then (if is_zero value then return (pos 0) else apply_sign value)
          else return value)

-- The value of a magnitude that has passed `i32::try_from`, and its sign.
abbrev pub fast_value : ℤ → Option ℤ → Bool → Result ℤ
fast_value vlc_coefficient none negative = err coefficient_overflow
fast_value vlc_coefficient (some magnitude) negative =
    ok (if negative || is_negative vlc_coefficient then negate magnitude else magnitude)

abbrev pub fast_or_slow : ℤ → ℕ → Option (ℕ × Bool) → Step PacketBitReader ℤ
fast_or_slow vlc_coefficient flex_bits none = decode_flex vlc_coefficient flex_bits
fast_or_slow vlc_coefficient flex_bits (some (magnitude, negative)) =
    λ r. (fast_value vlc_coefficient (i32_of magnitude) negative, r)

-- The callers pass 15 bits at most, which the source asserts.
unfoldable pub decode_flex_fast : ℤ → ℕ → Step PacketBitReader ℤ
decode_flex_fast vlc_coefficient flex_bits r =
    let quick = read_magnitude_and_sign flex_bits (is_zero vlc_coefficient) r in
    fast_or_slow vlc_coefficient flex_bits quick.0 quick.1

-- `output[position] = …` and `coefficients[position] = …`
abbrev pub store : {S : Type 0} → List ℤ → ℕ → ℤ → S → Result (List ℤ) × S
store values i value s = if ltb i (length values) then (ok (set values i value), s) else (panic, s)

-- The loop of `decode_flex_block`, over the positions that are left.
unfoldable pub flex_block_loop : List ℤ → ℕ → ℕ → List ℕ → List ℤ → Step PacketBitReader (List ℤ)
flex_block_loop vlc_coefficients bits_left trim [] output = return output
flex_block_loop vlc_coefficients bits_left trim (position ∷ positions) output = do
  coefficient ← index vlc_coefficients position
  flex ← decode_flex_fast coefficient bits_left
  value ← some_or (checked_shl flex trim) coefficient_overflow
  output' ← store output position value
  flex_block_loop vlc_coefficients bits_left trim positions output'

unfoldable pub decode_flex_block : List ℤ → ℕ → ℕ → Step PacketBitReader (List ℤ)
decode_flex_block vlc_coefficients model_bits trim_flexbits = do
  reject_if (ltb 15 model_bits) (invalid_parameter "HP model bits" (pos model_bits))
  reject_if (ltb 15 trim_flexbits) (invalid_parameter "trim flexbits" (pos trim_flexbits))
  if model_bits - trim_flexbits == 0
      then return (replicate 16 (pos 0))
      else flex_block_loop vlc_coefficients (model_bits - trim_flexbits) trim_flexbits
          transpose_tail (replicate 16 (pos 0))

unfoldable pub refinement_at : ℤ → ℕ → Step PacketBitReader ℤ
refinement_at coefficient model_bits =
    if leb model_bits 15
    then decode_flex_fast coefficient model_bits
    else decode_flex coefficient model_bits

-- The coefficients that the caller lent are returned; after an error they are discarded.
unfoldable pub decode_lp_refinement_at : List ℤ → List ℕ → ℕ → Step PacketBitReader (List ℤ)
decode_lp_refinement_at coefficients [] model_bits = return coefficients
decode_lp_refinement_at coefficients (position ∷ positions) model_bits = do
  reject_if ((position == 0) || leb (length coefficients) position)
      (invalid_parameter "LP refinement position" (pos position))
  coefficient ← index coefficients position
  refinement ← refinement_at coefficient model_bits
  high ← some_or (checked_shl coefficient model_bits) coefficient_overflow
  value ← some_or (i32_checked (high +ℤ refinement)) coefficient_overflow
  coefficients' ← store coefficients position value
  decode_lp_refinement_at coefficients' positions model_bits

unfoldable pub decode_lp_refinement : List ℤ → ℕ → Step PacketBitReader (List ℤ)
decode_lp_refinement coefficients model_bits =
    decode_lp_refinement_at coefficients transpose_tail model_bits

-- ===== src/Native/Header/Fields.antt =====
-- crates/jxr-native/src/header/fields.rs: reads of fields with the width of a machine integer.
use jxr.Base.{ℕ, ◌+◌, ◌-◌, ◌^◌, not, String, ltb, ◌==◌}
use jxr.Native.Step.{Parser, ◌>>=◌, ◌>>◌, return, reject_if, reserved_value, integer_overflow}
use jxr.Native.BitReader.{BitReader, read_bits}

-- Both conversions to `u32`, of the field and of its successor, are checked.
unfoldable pub read_dimension : ℕ → String → Parser BitReader ℕ
read_dimension bits operation = do
  minus_one ← read_bits bits
  reject_if (ltb (2 ^ 32 - 1) minus_one) (integer_overflow operation)
  reject_if (ltb (2 ^ 32 - 1) (minus_one + 1)) (integer_overflow operation)
  return (minus_one + 1)

unfoldable pub require_value : ℕ → ℕ → String → Parser BitReader (Unit {0})
require_value value expected field =
    reject_if (not (value == expected)) (reserved_value field value)

unfoldable pub read_u8 : ℕ → Parser BitReader ℕ
read_u8 bits = do
  value ← read_bits bits
  reject_if (ltb (2 ^ 8 - 1) value) (integer_overflow "converting parsed field to u8")
  return value

unfoldable pub read_u16 : ℕ → Parser BitReader ℕ
read_u16 bits = do
  value ← read_bits bits
  reject_if (ltb (2 ^ 16 - 1) value) (integer_overflow "converting parsed field to u16")
  return value

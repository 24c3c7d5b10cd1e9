-- ===== src/Native/AnnexA/Ranges.antt =====
-- Byte ranges of annex_a.rs: `Range<usize>`, its checks, and little-endian reads.
use jxr.Base.{
  ℕ, ◌+◌, ◌-◌, ◌*◌, ◌%◌, Bool, true, false, ◌&&◌, List, [], ◌∷◌, length, take, drop, String, ltb,
  leb, ◌==◌, if◌then◌else◌,
}
use jxr.Native.Step.{
  NativeError, Outcome, done, failed, panicked, range_outside_input, integer_overflow,
}
use jxr.Native.Step.Plain.{◌>>=◌, ◌>>◌, reject_if}
use jxr.Native.BitReader.{usize_max}

pub record Range : Type 0 where
  pub start : ℕ
  pub end : ℕ

unfoldable pub equal_bytes : List ℕ → List ℕ → Bool
equal_bytes [] [] = true
equal_bytes [] (y ∷ ys) = false
equal_bytes (x ∷ xs) [] = false
equal_bytes (x ∷ xs) (y ∷ ys) = (x == y) && equal_bytes xs ys

-- `bytes[range]`
unfoldable pub slice : List ℕ → Range → Outcome (List ℕ)
slice bytes range =
    if leb range.start range.end && leb range.end (length bytes)
    then done (take (range.end - range.start) (drop range.start bytes))
    else panicked

unfoldable pub checked_range : List ℕ → String → ℕ → ℕ → Outcome Range
checked_range bytes field offset len = do
  reject_if (ltb usize_max (offset + len)) (integer_overflow "computing input byte range")
  reject_if (ltb (length bytes) (offset + len))
      (range_outside_input field offset len (length bytes))
  done (record { start = offset; end = offset + len })

-- `u16::from_le_bytes` and `u32::from_le_bytes`
unfoldable pub from_le_bytes : List ℕ → ℕ
from_le_bytes [] = 0
from_le_bytes (byte ∷ bytes) = byte + 256 * from_le_bytes bytes

unfoldable pub read_u16 : List ℕ → ℕ → String → Outcome ℕ
read_u16 bytes offset field = do
  range ← checked_range bytes field offset 2
  data_bytes ← slice bytes range
  done (from_le_bytes data_bytes)

unfoldable pub read_u32 : List ℕ → ℕ → String → Outcome ℕ
read_u32 bytes offset field = do
  range ← checked_range bytes field offset 4
  data_bytes ← slice bytes range
  done (from_le_bytes data_bytes)

abbrev pub is_range_outside_input : NativeError → Bool
is_range_outside_input e = elim e [ range_outside_input field offset len total ↦ true | _ ↦ false ]

-- An even length that ends one byte past the input.
unfoldable pub is_padded : List ℕ → ℕ → ℕ → Bool
is_padded bytes offset len =
    (len % 2 == 0)
    && leb offset (length bytes)
    && leb (length bytes - offset + 1) usize_max
    && (length bytes - offset + 1 == len)

unfoldable pub range_or_padded : List ℕ → ℕ → ℕ → Outcome Range → Outcome Range
range_or_padded bytes offset len (done range) = done range
range_or_padded bytes offset len panicked = panicked
range_or_padded bytes offset len (failed e) =
    if is_range_outside_input e && is_padded bytes offset len
    then done (record { start = offset; end = length bytes })
    else failed e

unfoldable pub checked_codestream_range : List ℕ → String → ℕ → ℕ → Outcome Range
checked_codestream_range bytes field offset len =
    range_or_padded bytes offset len (checked_range bytes field offset len)

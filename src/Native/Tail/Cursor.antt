-- ===== src/Native/Tail/Cursor.antt =====
-- `ByteCursor` of tail.rs.
use jxr.Base.{ℕ, zero, suc, ◌+◌, ◌*◌, min, List, length, get_elem?, ltb, leb, ◌==◌, if◌then◌else◌}
use jxr.Native.Step.{
  Outcome, done, after, Parser, ◌>>=◌, return, reject_if, some_or, range_outside_input, truncated,
}
use jxr.Native.BitReader.{usize_max}

pub record ByteCursor : Type 0 where
  pub bytes : List ℕ
  pub position : ℕ

unfoldable pub position : Parser ByteCursor ℕ
position c = done (c.position, c)

unfoldable pub set_position : ℕ → Parser ByteCursor (Unit {0})
set_position place c = done (tt, record c { position = place })

unfoldable pub require_position : ℕ → Parser ByteCursor (Unit {0})
require_position place c =
    reject_if (ltb (length c.bytes) place)
      (range_outside_input "codestream syntax" place 0 (length c.bytes)) c

unfoldable pub new : List ℕ → ℕ → Outcome ByteCursor
new bytes place =
    after (require_position place (record { bytes = bytes; position = place })) (λ x. done x.1)

unfoldable pub read_u8 : Parser ByteCursor ℕ
read_u8 c =
    after (some_or (get_elem? c.bytes c.position) (truncated (min (c.position * 8) usize_max) 8) c)
      (λ x. done (x.0, record x.1 { position = x.1.position + 1 }))

-- The bytes of `from_be_bytes`, after those in `value`.
unfoldable pub read_be : ℕ → ℕ → Parser ByteCursor ℕ
read_be zero value = return value
read_be (suc count) value = do byte ← read_u8; read_be count (value * 256 + byte)

unfoldable pub read_u16 : Parser ByteCursor ℕ
read_u16 = read_be 2 0

unfoldable pub read_u32 : Parser ByteCursor ℕ
read_u32 = read_be 4 0

unfoldable pub read_u64 : Parser ByteCursor ℕ
read_u64 = read_be 8 0

unfoldable pub read_short : ℕ → Parser ByteCursor ℕ
read_short first = do second ← read_u8; return (first * 256 + second)

-- 0x00 to 0xFA, 0xFB, 0xFC, and 0xFD to 0xFF
unfoldable pub read_vlw_from : ℕ → Parser ByteCursor ℕ
read_vlw_from first =
    if leb first 250
    then read_short first
    else if first == 251
    then read_u32
    else if first == 252
    then read_u64
    else return 0

unfoldable pub read_vlw : Parser ByteCursor ℕ
read_vlw = do first ← read_u8; read_vlw_from first

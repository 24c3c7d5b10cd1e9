-- ===== src/Entropy/Vlc/Serial.antt =====
-- The normative bit-serial search, `serial_decode` in the tests of vlc.rs, and what it finds in
-- the next eight bits.
use jxr.Base.{
  ℕ, zero, suc, ◌+◌, ◌-◌, ◌*◌, ◌/◌, ◌^◌, max, ◌&&◌, Option, none, some, List, [], ◌∷◌, String, leb,
  ◌==◌, if◌then◌else◌,
}
use jxr.Entropy.Step.{Step, ◌>>=◌, return, fail, invalid_vlc}
use jxr.Entropy.BitReader.{PacketBitReader, read_bit}
use jxr.Entropy.Vlc.{VlcCode, PrefixTable, entry_at, entry_length, entry_symbol, new}
use jxr.Entropy.Vlc.Codes.{Table, codes_of}

unfoldable pub longest : List VlcCode → ℕ
longest [] = 0
longest (c ∷ codes) = max c.code_length (longest codes)

-- The symbol of the code with this length and these bits.
unfoldable pub find_code : List VlcCode → ℕ → ℕ → Option ℕ
find_code [] n prefix = none
find_code (c ∷ codes) n prefix =
    if (c.code_length == n) && (c.bits == prefix) then some c.symbol else find_code codes n prefix

pub data Outcome : Type 0 where
  found : (symbol len : ℕ) → Outcome
  ended : (len : ℕ) → Outcome
  no_code : Outcome

-- `if let Some(code) = … { return Ok(code.2) }`
abbrev pub found_or : Option ℕ → Step PacketBitReader ℕ → Step PacketBitReader ℕ
found_or none rest = rest
found_or (some symbol) rest = return symbol

abbrev pub outcome_or : Option ℕ → ℕ → Outcome → Outcome
outcome_or none len rest = rest
outcome_or (some symbol) len rest = found symbol len

module _ (syntax_name : String) (codes : List VlcCode) (start : ℕ) where
  -- The loop with `left` lengths to try, behind `len` bits that spell `prefix`.
  unfoldable pub serial_loop : ℕ → ℕ → ℕ → Step PacketBitReader ℕ
  serial_loop zero len prefix = fail (invalid_vlc syntax_name start)
  serial_loop (suc left) len prefix = do
    bit ← read_bit
    let longer = prefix * 2 + (if bit then 1 else 0)
    found_or (find_code codes (suc len) longer) (serial_loop left (suc len) longer)

unfoldable pub serial_decode : String → List VlcCode → Step PacketBitReader ℕ
serial_decode syntax_name codes r =
    serial_loop syntax_name codes r.bit_position (longest codes) 0 0 r

-- The search over a byte of which the first `shown` bits belong to the packet.
unfoldable pub search_byte : List VlcCode → ℕ → ℕ → ℕ → ℕ → Outcome
search_byte codes byte shown zero len = no_code
search_byte codes byte shown (suc left) len =
    let rest = search_byte codes byte shown left (suc len) in
    if leb shown len
    then ended len
    else outcome_or (find_code codes (suc len) (byte / 2 ^ (8 - suc len))) (suc len) rest

-- The look-up of the same byte.
unfoldable pub lookup_byte : PrefixTable → ℕ → ℕ → Outcome
lookup_byte t byte shown =
    let entry = entry_at t byte in
    let missing = if leb t.max_length shown then no_code else ended shown in
    if entry == 0
    then missing
    else if leb (entry_length entry) shown
    then found (entry_symbol entry) (entry_length entry)
    else missing

abbrev no_table : PrefixTable
no_table = record { max_length = 0; lookup = [] }

-- The tables that the program compiles.
unfoldable pub table : Table → PrefixTable
table t = elim (new (codes_of t)) [ none ↦ no_table | some compiled ↦ compiled ]

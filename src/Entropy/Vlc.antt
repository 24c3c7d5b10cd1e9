-- ===== src/Entropy/Vlc.antt =====
-- crates/jxr-native/src/entropy/vlc.rs: prefix codes, and their decoding by one table look-up.
pub mod Codes
pub mod Serial
pub mod Tables
pub mod Decode
pub mod Agree
use jxr.Base.{
  ℕ, zero, suc, ◌+◌, ◌-◌, ◌*◌, ◌/◌, ◌%◌, ◌^◌, max, bit_or, Bool, true, false, not, ◌&&◌, Option,
  none, some, List, [], ◌∷◌, String, ltb, leb, ◌==◌, if◌then◌else◌, get_or, set, replicate, length,
}
use jxr.Entropy.Step.{Result, ok, err, Step, invalid_vlc}
use jxr.Entropy.BitReader.{
  PacketBitReader, peek_byte, skip_cached, bits_remaining, unexpected_end_after,
}

pub record VlcCode : Type 0 where
  pub bits : ℕ
  pub code_length : ℕ
  pub symbol : ℕ

abbrev pub lookup_bits : ℕ
lookup_bits = 8

-- Each entry is `(length << 8) | symbol`; zero marks a prefix that no code matches.
pub record PrefixTable : Type 0 where
  pub max_length : ℕ
  pub lookup : List ℕ

-- The slots from `slot` on; a slot that is taken or out of range fails compilation.
fill_slots : ℕ → ℕ → ℕ → List ℕ → Option (List ℕ)
fill_slots zero slot entry lookup = some lookup
fill_slots (suc span) slot entry lookup =
    let rest = fill_slots span (slot + 1) entry (set lookup slot entry) in
    if ltb slot (length lookup) && (get_or lookup slot 0 == 0) then rest else none

add_codes : List VlcCode → PrefixTable → Option PrefixTable
add_codes [] t = some t
add_codes (c ∷ codes) t =
    let span = 2 ^ (lookup_bits - c.code_length) in
    let entry = bit_or (c.code_length * 2 ^ 8 % 2 ^ 16) c.symbol in
    let filled = fill_slots span (c.bits * span) entry t.lookup in
    let sound =
      ltb 0 c.code_length && leb c.code_length lookup_bits && (c.bits / 2 ^ c.code_length == 0) in
    if sound
    then elim filled [
      | none ↦ none
      | some lookup ↦ add_codes codes (record {
        max_length = if ltb t.max_length c.code_length then c.code_length else t.max_length;
        lookup = lookup;
      })
    ]
    else none

-- `None` is a table that does not compile.
unfoldable pub new : List VlcCode → Option PrefixTable
unfolding fill_slots add_codes
new codes = add_codes codes (record { max_length = 0; lookup = replicate 256 0 })

-- `PrefixTable::entry`
abbrev pub entry_at : PrefixTable → ℕ → ℕ
entry_at t prefix = get_or t.lookup prefix 0

-- The bytes of an entry.
abbrev pub entry_length : ℕ → ℕ
entry_length entry = entry / 256

abbrev pub entry_symbol : ℕ → ℕ
entry_symbol entry = entry % 256

unmatched : String → PrefixTable → Step PacketBitReader ℕ
unmatched syntax_name t r =
    if ltb (bits_remaining r) t.max_length
    then (unexpected_end_after (bits_remaining r) r, r)
    else (err (invalid_vlc syntax_name r.bit_position), r)

unfoldable pub decode : String → PrefixTable → Step PacketBitReader ℕ
unfolding unmatched
decode syntax_name t r =
    let entry = entry_at t (peek_byte r).0 in
    let peeked = (peek_byte r).1 in
    let skip = skip_cached (entry_length entry) peeked in
    if entry == 0
    then unmatched syntax_name t peeked
    else if skip.0
    then (ok (entry_symbol entry), skip.1)
    else unmatched syntax_name t skip.1

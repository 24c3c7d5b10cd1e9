-- ===== src/Entropy/Vlc/Agree.antt =====
-- `decode` of vlc.rs and `serial_decode` of its tests.
use jxr.Base.{ℕ, ◌<◌, ◌≡◌, refl, sym, ◌∙◌, arith, true, String}
use jxr.Entropy.Step.{Result, ok, err, panic, run_eq}
use jxr.Entropy.Step.Post.{Post, returns, raises}
use jxr.Entropy.BitReader.{PacketBitReader}
use jxr.Entropy.BitReader.Bits.{stream_bits}
use jxr.Entropy.BitReader.Cache.{IsValid}
use jxr.Entropy.BitReader.Read.{IsAfter, IsAfter-none}
use jxr.Entropy.BitReader.Peek.{shown}
use jxr.Entropy.Vlc.{PrefixTable, decode, entry_at, entry_symbol}
use jxr.Entropy.Vlc.Codes.{Table, codes_of}
use jxr.Entropy.Vlc.Serial.{
  Outcome, found, ended, no_code, lookup_byte, longest, serial_decode, table,
}
use jxr.Entropy.Vlc.Tables.{
  lookup_byte-search_byte, max_length-longest, symbol_bound, entry_symbol-lt, has_symbol,
  entry_symbol-has_symbol,
}
use jxr.Entropy.Vlc.Decode.{
  outcome_result, taken, next_byte, next_byte-lt, decode-lookup_byte, serial_loop-search_byte,
}

serial_decode-lookup_byte :
    (t : Table) (syntax_name : String) (r : PacketBitReader)
    → IsValid r
    → let x = lookup_byte (table t) (next_byte r) (shown r) in
      ((serial_decode syntax_name (codes_of t) r).0 ≡ outcome_result syntax_name r x)
      × ((symbol n : ℕ)
          → x ≡ found symbol n
          → IsAfter n r (serial_decode syntax_name (codes_of t) r).1)
unfolding serial_decode
serial_decode-lookup_byte t syntax_name r v =
    rw (lookup_byte-search_byte t (next_byte r) (shown r) (next_byte-lt r) (omega arith)) (
      unfold stream_bits in
      serial_loop-search_byte (codes_of t) syntax_name r r (longest (codes_of t)) 0 v
        (IsAfter-none v) (omega arith) (omega (arith, max_length-longest t)))

-- Where the look-up decoder stands: behind the symbol of the search, or still at the start.
abbrev pub resting : PacketBitReader → Result ℕ × PacketBitReader → ℕ
resting r (ok symbol, s) = s.bit_position
resting r (err e, s) = r.bit_position
resting r (panic, s) = r.bit_position

same_place :
    (x : Outcome) (syntax_name : String) (r q : PacketBitReader) (s : Result ℕ × PacketBitReader)
    → IsAfter (taken x) r q
    → s.0 ≡ outcome_result syntax_name r x
    → ((symbol n : ℕ) → x ≡ found symbol n → IsAfter n r s.1)
    → q.bit_position ≡ resting r s
same_place (found a n) syntax_name r q s after e other =
    rw (run_eq s e) (after.moved ∙ sym (other a n refl).moved)
same_place (ended n) syntax_name r q s after e other = rw (run_eq s e) (omega (arith, after.moved))
same_place no_code syntax_name r q s after e other = rw (run_eq s e) (omega (arith, after.moved))

outcome-Post :
    {P : ℕ → Type 0} (x : Outcome) (syntax_name : String) (r : PacketBitReader)
    (q : Result ℕ × PacketBitReader)
    → q.0 ≡ outcome_result syntax_name r x
    → IsAfter (taken x) r q.1
    → ((symbol n : ℕ) → x ≡ found symbol n → P symbol)
    → Post IsValid P q
outcome-Post (found a n) syntax_name r q h after good =
    rw (run_eq q h) (returns (good a n refl) after.valid)
outcome-Post (ended n) syntax_name r q h after good = rw (run_eq q h) (raises after.valid)
outcome-Post no_code syntax_name r q h after good = rw (run_eq q h) (raises after.valid)

lookup_byte_symbol :
    (t : PrefixTable) (byte n symbol len : ℕ)
    → lookup_byte t byte n ≡ found symbol len
    → entry_symbol (entry_at t byte) ≡ symbol
unfolding lookup_byte
lookup_byte_symbol t byte n symbol len h = ground arith

-- The look-up decoder gives the result of the bit-serial search, for each table, name and valid
-- reader. On a symbol both stand at the same bit of the packet; on an error the look-up decoder has
-- consumed nothing.
pub decode-serial_decode :
    (t : Table) (syntax_name : String) (r : PacketBitReader)
    → IsValid r
    → ((decode syntax_name (table t) r).0 ≡ (serial_decode syntax_name (codes_of t) r).0)
      × ((decode syntax_name (table t) r).1.bit_position
          ≡ resting r (serial_decode syntax_name (codes_of t) r))
decode-serial_decode t syntax_name r v =
    let quick = decode-lookup_byte t syntax_name r v in
    let slow = serial_decode-lookup_byte t syntax_name r v in
    (
      quick.0 ∙ sym slow.0,
      same_place (lookup_byte (table t) (next_byte r) (shown r)) syntax_name r
          (decode syntax_name (table t) r).1 (serial_decode syntax_name (codes_of t) r) quick.1
          slow.0 slow.1,
    )

-- What holds for the symbol of each entry holds for each decoded symbol.
decode_entries :
    {P : ℕ → Type 0} (t : Table) (syntax_name : String) (r : PacketBitReader)
    → IsValid r
    → ((byte : ℕ) → byte < 256 → P (entry_symbol (entry_at (table t) byte)))
    → Post IsValid P (decode syntax_name (table t) r)
decode_entries {P} t syntax_name r v good =
    let quick = decode-lookup_byte t syntax_name r v in
    outcome-Post (lookup_byte (table t) (next_byte r) (shown r)) syntax_name r
      (decode syntax_name (table t) r) quick.0 quick.1
      (λ symbol n e.
        rw (← lookup_byte_symbol (table t) (next_byte r) (shown r) symbol n e)
          (good (next_byte r) (next_byte-lt r)))

-- For each table, name and valid reader, decoding does not panic and leaves a valid reader, and a
-- decoded symbol is that of a code of the table.
pub decode-has_symbol :
    (t : Table) (syntax_name : String) (r : PacketBitReader)
    → IsValid r
    → Post IsValid
        (λ symbol. has_symbol (codes_of t) symbol ≡ true)
        (decode syntax_name (table t) r)
decode-has_symbol t syntax_name r v = decode_entries t syntax_name r v (entry_symbol-has_symbol t)

-- A decoded symbol is below the bound of its table.
pub decode-Post :
    (t : Table) (syntax_name : String) (r : PacketBitReader)
    → IsValid r
    → Post IsValid (λ symbol. symbol < symbol_bound t) (decode syntax_name (table t) r)
decode-Post t syntax_name r v = decode_entries t syntax_name r v (entry_symbol-lt t)

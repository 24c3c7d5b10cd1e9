-- ===== src/Entropy/Coefficients/Block.antt =====
-- One 4-by-4 block: its run/level pairs, and its direct placement through an adaptive scan.
pub mod Safe
pub mod Scanned
pub mod Direct
pub mod Same
use jxr.Base.{
  ℕ, zero, suc, ◌+◌, ◌-◌, ◌*◌, ◌/◌, ◌^◌, bit_and, Bool, true, false, not, ◌&&◌, ◌||◌, List, [], ◌∷◌,
  ◌++◌, Option, none, some, ltb, leb, ◌==◌, if◌then◌else◌, length,
}
use jxr.Base.Int.{ℤ, pos}
use jxr.Entropy.Step.{
  Result, ok, err, panic, Step, ◌>>=◌, ◌>>◌, return, fail, some_or, reject_if, invalid_parameter,
  coefficient_overflow,
}
use jxr.Entropy.BitReader.{PacketBitReader, read_bit}
use jxr.Entropy.Band.{FrequencyBand, dc, lowpass, highpass, at, put_at, band_index}
use jxr.Entropy.Adaptive.{AdaptiveVlc, AcVlcState}
use jxr.Entropy.Scan.{LpTarget, HpTarget, HpScanDirection, place_lp, place_hp}
use jxr.Entropy.Coefficients.Run.{decode_run_cached}
use jxr.Entropy.Coefficients.Symbols.{
  Selecting, decode_abs_level, decode_first_index, decode_index, signed,
}

-- What a block decoder changes: the reader, the selectors, and what `emit` writes to.
pub record AcWorld (S : Type 0) : Type 0 where
  pub reader : PacketBitReader
  pub vlc : AcVlcState
  pub sink : S

module _ {S : Type 0} where
  abbrev pub reading : {A : Type 0} → Step PacketBitReader A → Step (AcWorld S) A
  reading m w = let (x, r) = m w.reader in (x, record w { reader = r })

  abbrev pub emitting : {A : Type 0} → Step S A → Step (AcWorld S) A
  emitting m w = let (x, t) = m w.sink in (x, record w { sink = t })

  -- A symbol that is read by the selector which `get` and `put` choose.
  abbrev pub selecting :
      {A : Type 0}
      → (AcVlcState → AdaptiveVlc)
      → (AdaptiveVlc → AcVlcState → AcVlcState)
      → Step Selecting A
      → Step (AcWorld S) A
  selecting get put m w =
      let (x, s) = m (record { reader = w.reader; vlc = get w.vlc }) in
      (x, record w { reader = s.reader; vlc = put s.vlc w.vlc })

abbrev pub get_first : Bool → AcVlcState → AdaptiveVlc
get_first chroma v = at chroma v.first_index

abbrev pub put_first : Bool → AdaptiveVlc → AcVlcState → AcVlcState
put_first chroma a v = record v { first_index = put_at chroma a v.first_index }

abbrev pub get_index : Bool → Bool → AcVlcState → AdaptiveVlc
get_index chroma context v = at context (at chroma v.index_vlc)

abbrev pub put_index : Bool → Bool → AdaptiveVlc → AcVlcState → AcVlcState
put_index chroma context a v = record v {
  index_vlc = put_at chroma (put_at context a (at chroma v.index_vlc)) v.index_vlc;
}

abbrev pub get_level : Bool → AcVlcState → AdaptiveVlc
get_level context v = at context v.abs_level

abbrev pub put_level : Bool → AdaptiveVlc → AcVlcState → AcVlcState
put_level context a v = record v { abs_level = put_at context a v.abs_level }

-- `n & 1 != 0`
abbrev pub odd : ℕ → Bool
odd n = not (bit_and n 1 == 0)

unfoldable pub advance_location : {S : Type 0} → ℕ → ℕ → S → Result ℕ × S
advance_location location run =
    let next = location + run + 1 in
    if ltb 255 (location + run) || ltb 255 next
    then fail (invalid_parameter "coefficient location" (pos next))
    else if ltb 16 next
    then fail (invalid_parameter "coefficient location" (pos next))
    else return next

module _ {S : Type 0} (chroma : Bool) (emit : ℕ → ℕ → ℤ → Step S (Unit {0})) where
  unfoldable pub decode_magnitude : Bool → Bool → Step (AcWorld S) ℤ
  decode_magnitude coded context =
      if coded
      then selecting (get_level context) (put_level context) decode_abs_level
      else return (pos 1)

  unfoldable pub decode_zero_run : Bool → ℕ → Step (AcWorld S) ℕ
  decode_zero_run zero_run location =
      if zero_run then reading (decode_run_cached (15 - location)) else return 0

  -- The first coefficient; the location behind it.
  unfoldable pub first_coefficient : ℕ → Bool → Bool → ℕ → Step (AcWorld S) ℕ
  first_coefficient first sign context start = do
    magnitude ← decode_magnitude (not (bit_and first 2 == 0)) context
    run ← decode_zero_run (not (odd first)) start
    location ← advance_location start run
    level ← signed magnitude sign
    emitting (emit run (location - 1) level)
    return location

  -- One round of the loop behind its location: the symbol that starts the next round, if any.
  unfoldable pub next_coefficient : Bool → ℕ → ℕ → Step (AcWorld S) ℕ
  next_coefficient context run location = do
    i ← selecting (get_index chroma context) (put_index chroma context) (decode_index location)
    sign ← reading read_bit
    magnitude ← decode_magnitude (odd i) (context && odd (i / 2))
    level ← signed magnitude sign
    emitting (emit run (location - 1) level)
    return (i / 2)

  -- `while successors != 0`. Each round moves the location, which ends at 16; running out of fuel
  -- counts as a panic.
  unfoldable pub coefficient_loop : ℕ → ℕ → ℕ → Bool → ℕ → Step (AcWorld S) ℕ
  coefficient_loop zero location successors context non_zero =
      if successors == 0 then return non_zero else (λ w. (panic, w))
  coefficient_loop (suc fuel) location successors context non_zero =
      if successors == 0 then return non_zero else (do
        run ← decode_zero_run (not (odd successors)) location
        location' ← advance_location location run
        successors' ← next_coefficient context run location'
        coefficient_loop fuel location' successors' (context && odd successors') (non_zero + 1))

  unfoldable pub decode_ac_coefficients : FrequencyBand → ℕ → Step (AcWorld S) ℕ
  decode_ac_coefficients dc start =
      fail (invalid_parameter "AC frequency band" (pos (band_index dc)))
  decode_ac_coefficients band start = do
    reject_if (ltb start 1 || ltb 15 start) (invalid_parameter "block start location" (pos start))
    first ← selecting (get_first chroma) (put_first chroma) decode_first_index
    sign ← reading read_bit
    let context = odd first && odd (first / 4)
    location ← first_coefficient first sign context start
    coefficient_loop 16 location (first / 4) context 1

pub record RunLevel : Type 0 where
  pub run : ℕ
  pub level : ℤ

-- `entries` are the pairs below `len`; the array holds 15.
pub record DecodedBlock : Type 0 where
  pub entries : List RunLevel
  pub start_location : ℕ

unfoldable pub push : ℕ → ℤ → Step DecodedBlock (Unit {0})
push run level b =
    if ltb (length b.entries) 15
    then (ok tt, record b { entries = b.entries ++ (record { run = run; level = level } ∷ []) })
    else (err (invalid_parameter "non-zero coefficients in block" (pos (length b.entries + 1))), b)

-- A block that is read whole, before any scan.
unfoldable pub decode_ac_block : FrequencyBand → Bool → ℕ → Step (AcWorld DecodedBlock) ℕ
decode_ac_block band chroma start =
    decode_ac_coefficients chroma (λ run location level. push run level) band start

unfoldable pub decode_lp_block : Bool → ℕ → Step (AcWorld LpTarget) ℕ
decode_lp_block chroma start =
    decode_ac_coefficients chroma (λ run location level. place_lp location level) lowpass start

unfoldable pub decode_hp_block : Bool → HpScanDirection → Step (AcWorld HpTarget) ℕ
decode_hp_block chroma direction =
    decode_ac_coefficients chroma (λ run location level. place_hp direction location level) highpass
      1

-- `scan_entries`: the pairs of a block placed at their locations.
module _ {S : Type 0} (place : ℕ → ℤ → Step S (Unit {0})) where
  unfoldable pub scan_entries : ℕ → List RunLevel → Step S (Unit {0})
  scan_entries i [] = return tt
  scan_entries i (e ∷ entries) = do
    reject_if (ltb 255 (i + e.run)) coefficient_overflow
    place (i + e.run) e.level
    reject_if (ltb 255 (i + e.run + 1)) coefficient_overflow
    scan_entries (i + e.run + 1) entries

unfoldable pub inverse_scan_lp : DecodedBlock → Step LpTarget (Unit {0})
inverse_scan_lp b = scan_entries place_lp b.start_location b.entries

unfoldable pub inverse_scan_hp : HpScanDirection → DecodedBlock → Step HpTarget (Unit {0})
inverse_scan_hp direction b = scan_entries (place_hp direction) b.start_location b.entries

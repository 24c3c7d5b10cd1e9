-- ===== src/Entropy/Coefficients/Block/Same.antt =====
-- The direct scans of a block against `inverse_scan_lp` and `inverse_scan_hp` of the block read whole.
use jxr.Base.{
  ℕ, ◌+◌, ◌<◌, ◌≤◌, ◌≡◌, refl, ap, arith, Bool, true, false, ltb, List, [], ◌∷◌, ◌++◌, length,
  length-append,
}
use jxr.Base.Int.{ℤ}
use jxr.Entropy.Step.{ok, Step}
use jxr.Entropy.BitReader.{PacketBitReader}
use jxr.Entropy.Band.{FrequencyBand, lowpass, highpass}
use jxr.Entropy.Adaptive.{AcVlcState}
use jxr.Entropy.Scan.{LpTarget, place_lp, placed_lp, put_back, HpTarget, HpScanDirection, place_hp}
use jxr.Entropy.Coefficients.Block.{
  RunLevel, DecodedBlock, push, decode_ac_block, decode_lp_block, decode_hp_block,
  decode_ac_coefficients, scan_entries, inverse_scan_lp, inverse_scan_hp,
}
use jxr.Entropy.Coefficients.Block.Direct.{Both, Both-weaken, decode_ac_coefficients-Both}
use jxr.Entropy.Coefficients.Block.Scanned.{IsLp, IsHp, put_back-IsHp, selected-IsPlacing}
use jxr.Entropy.Scan.Order.{place_and_adapt_inside, adapted-IsPlacing, placed-IsPlacing}

module _ {T : Type 0} (place : ℕ → ℤ → Step T (Unit {0})) where
  -- The pairs, placed one after the other inside the block.
  data Scans : ℕ → List RunLevel → T → ℕ → T → Type 0 where
    no_pairs : {i : ℕ} {t : T} → Scans i [] t i t
    one_pair :
        {i j : ℕ} {e : RunLevel} {entries : List RunLevel} {t t' u : T}
        → i + e.run + 1 ≤ 16
        → place (i + e.run) e.level t ≡ (ok tt, t')
        → Scans (i + e.run + 1) entries t' j u
        → Scans i (e ∷ entries) t j u

  Scans-append :
      {i j : ℕ} {entries : List RunLevel} {t u u' : T} (e : RunLevel)
      → Scans i entries t j u
      → j + e.run + 1 ≤ 16
      → place (j + e.run) e.level u ≡ (ok tt, u')
      → Scans i (entries ++ (e ∷ [])) t (j + e.run + 1) u'
  Scans-append e no_pairs h g = one_pair h g no_pairs
  Scans-append e (one_pair inside p rest) h g = one_pair inside p (Scans-append e rest h g)

  Scans-scan_entries :
      {i j : ℕ} {entries : List RunLevel} {t u : T}
      → Scans i entries t j u
      → scan_entries place i entries t ≡ (ok tt, u)
  unfolding scan_entries
  Scans-scan_entries no_pairs = refl
  Scans-scan_entries {i} (one_pair {e = e} inside p rest) =
      let low : ltb 255 (i + e.run) ≡ false = ground arith in
      let high : ltb 255 (i + e.run + 1) ≡ false = ground arith in
      rw (low, p, high) (Scans-scan_entries rest)

-- A block with no pairs yet, as `decode_ac_block` starts it.
abbrev pub empty_block : ℕ → DecodedBlock
empty_block start = record { entries = []; start_location = start }

module _ {T : Type 0} (place : ℕ → ℤ → Step T (Unit {0})) (K : T → Type 0)
    (places : (i : ℕ) (value : ℤ) (t : T)
      → 0 < i
      → i < 16
      → K t
      → (t' : T) × (place i value t ≡ (ok tt, t')) × K t') where
  -- What has been read so far, and what has been placed.
  record Scanned (start : ℕ) (origin : T) (location : ℕ) (b : DecodedBlock) (t : T) : Type 0 where
    positive : 0 < start
    starts : b.start_location ≡ start
    room : length b.entries + start ≤ location
    scans : Scans place start b.entries origin location t
    kept : K t

  emits-Scanned :
      (start : ℕ) (origin : T) (location run : ℕ) (level : ℤ) (b : DecodedBlock) (t : T)
      → location + run + 1 ≤ 16
      → Scanned start origin location b t
      → (b' : DecodedBlock) × (t' : T) × (push run level b ≡ (ok tt, b'))
        × (place (location + run) level t ≡ (ok tt, t'))
        × Scanned start origin (location + run + 1) b' t'
  unfolding push
  emits-Scanned start origin location run level b t inside h =
      let positive = h.positive in
      let room = h.room in
      let fits : ltb (length b.entries) 15 ≡ true = ground arith in
      let (t', e, kept) = places (location + run) level t (omega arith) (omega arith) h.kept in
      (
        record b { entries = b.entries ++ (record { run = run; level = level } ∷ []) },
        t',
        rw fits refl,
        e,
        record {
          positive = positive;
          starts = h.starts;
          room = omega (arith, length-append b.entries (record { run = run; level = level } ∷ []));
          scans = Scans-append place (record { run = run; level = level }) h.scans inside e;
          kept = kept;
        },
      )

  decode_ac_block-Both :
      (band : FrequencyBand) (chroma : Bool) (start : ℕ) (r : PacketBitReader) (v : AcVlcState)
      (origin : T)
      → K origin
      → Both
          (λ n b t. scan_entries place b.start_location b.entries origin ≡ (ok tt, t))
          (decode_ac_block band chroma start
            (record { reader = r; vlc = v; sink = empty_block start }))
          (decode_ac_coefficients chroma
            (λ run location level. place location level)
            band
            start
            (record { reader = r; vlc = v; sink = origin }))
  unfolding decode_ac_block
  decode_ac_block-Both band chroma start r v origin k =
      Both-weaken
        (decode_ac_coefficients-Both (Scanned start origin) chroma
          (λ run location level. push run level) (λ run location level. place location level)
          (λ location run level b t inside h.
            emits-Scanned start origin location run level b t inside h)
          band start r v (empty_block start) origin
          (λ test. record {
            positive = ground arith;
            starts = refl;
            room = omega arith;
            scans = no_pairs;
            kept = k;
          }))
        (λ n b t (end, h). rw h.starts (Scans-scan_entries place h.scans))

place_lp_inside :
    (i : ℕ) (value : ℤ) (t : LpTarget)
    → 0 < i
    → i < 16
    → IsLp t
    → (t' : LpTarget) × (place_lp i value t ≡ (ok tt, t')) × IsLp t'
unfolding place_lp
place_lp_inside i value t h g k = (
  _,
  ap placed_lp (place_and_adapt_inside i value _ k.placing h g),
  record { placing = adapted-IsPlacing i _ (placed-IsPlacing i value _ k.placing) g },
)

place_hp_inside :
    (direction : HpScanDirection) (i : ℕ) (value : ℤ) (t : HpTarget)
    → 0 < i
    → i < 16
    → IsHp t
    → (t' : HpTarget) × (place_hp direction i value t ≡ (ok tt, t')) × IsHp t'
unfolding place_hp
place_hp_inside direction i value t h g k =
    let valid = selected-IsPlacing direction t k in
    (
      _,
      ap (λ q. (q.0, put_back direction q.1 t.scan)) (place_and_adapt_inside i value _ valid h g),
      put_back-IsHp direction _ t k (adapted-IsPlacing i _ (placed-IsPlacing i value _ valid) g),
    )

-- The direct low-pass decoder and the reading of the whole block have the same result, reader and
-- selectors on every packet; where that result is a count, `inverse_scan_lp` of the block does not
-- fail and writes what the direct decoder has written.
pub decode_lp_block-Both :
    (chroma : Bool) (start : ℕ) (r : PacketBitReader) (v : AcVlcState) (t : LpTarget)
    → IsLp t
    → Both
        (λ n b u. inverse_scan_lp b t ≡ (ok tt, u))
        (decode_ac_block lowpass chroma start
          (record { reader = r; vlc = v; sink = empty_block start }))
        (decode_lp_block chroma start (record { reader = r; vlc = v; sink = t }))
unfolding decode_lp_block inverse_scan_lp
decode_lp_block-Both chroma start r v t k =
    decode_ac_block-Both place_lp IsLp place_lp_inside lowpass chroma start r v t k

-- The direct high-pass decoder and the reading of the whole block have the same result, reader and
-- selectors on every packet and in both directions; where that result is a count, `inverse_scan_hp` of
-- the block does not fail and writes what the direct decoder has written.
pub decode_hp_block-Both :
    (chroma : Bool) (direction : HpScanDirection) (r : PacketBitReader) (v : AcVlcState)
    (t : HpTarget)
    → IsHp t
    → Both
        (λ n b u. inverse_scan_hp direction b t ≡ (ok tt, u))
        (decode_ac_block highpass chroma 1 (record { reader = r; vlc = v; sink = empty_block 1 }))
        (decode_hp_block chroma direction (record { reader = r; vlc = v; sink = t }))
unfolding decode_hp_block inverse_scan_hp
decode_hp_block-Both chroma direction r v t k =
    decode_ac_block-Both (place_hp direction) IsHp (place_hp_inside direction) highpass chroma 1 r v
      t k

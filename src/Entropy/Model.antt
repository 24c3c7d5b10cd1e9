-- ===== src/Entropy/Model.antt =====
-- crates/jxr-native/src/entropy/model.rs: the adaptive number of model bits of a band.
pub mod Bounds
use jxr.Base.{
  ℕ, ◌+◌, ◌-◌, ◌%◌, Bool, true, false, ◌||◌, Option, none, some, List, [], ◌∷◌, leb, ltb, ◌==◌,
  if◌then◌else◌,
}
use jxr.Base.Int.{ℤ, pos, negsuc, ◌+ℤ◌, ◌-ℤ◌, ◌*ℤ◌, shr_ℤ, ltb_ℤ, leb_ℤ, max_ℤ, min_ℤ, i32_checked}
use jxr.Entropy.Step.{
  Result, ok, err, panic, Step, ◌>>=◌, ◌>>◌, return, fail, some_or, index, reject_if,
  invalid_parameter, coefficient_overflow,
}
use jxr.Entropy.Band.{FrequencyBand, dc, lowpass, highpass, band_index, Two, both}

abbrev pub luma_weight : List ℤ
luma_weight = pos 240 ∷ pos 12 ∷ pos 1 ∷ []

abbrev pub other_weight : List (List ℤ)
other_weight =
    (pos 0
      ∷ pos 240
      ∷ pos 120
      ∷ pos 80
      ∷ pos 60
      ∷ pos 48
      ∷ pos 40
      ∷ pos 34
      ∷ pos 30
      ∷ pos 27
      ∷ pos 24
      ∷ pos 22
      ∷ pos 20
      ∷ pos 18
      ∷ pos 17
      ∷ pos 16
      ∷ [])
    ∷ (pos 0
        ∷ pos 12
        ∷ pos 6
        ∷ pos 4
        ∷ pos 3
        ∷ pos 2
        ∷ pos 2
        ∷ pos 2
        ∷ pos 2
        ∷ pos 1
        ∷ pos 1
        ∷ pos 1
        ∷ pos 1
        ∷ pos 1
        ∷ pos 1
        ∷ pos 1
        ∷ [])
    ∷ (pos 0
        ∷ pos 16
        ∷ pos 8
        ∷ pos 5
        ∷ pos 4
        ∷ pos 3
        ∷ pos 3
        ∷ pos 2
        ∷ pos 2
        ∷ pos 2
        ∷ pos 2
        ∷ pos 1
        ∷ pos 1
        ∷ pos 1
        ∷ pos 1
        ∷ pos 1
        ∷ [])
    ∷ []

abbrev pub subsampled_weight_420 : List ℤ
subsampled_weight_420 = pos 120 ∷ pos 37 ∷ pos 2 ∷ []

abbrev pub subsampled_weight_422 : List ℤ
subsampled_weight_422 = pos 120 ∷ pos 18 ∷ pos 1 ∷ []

pub data ColourModel : Type 0 where
  luma_only yuv420 yuv422 : ColourModel
  other : (components : ℕ) → ColourModel

pub record CoefficientModel : Type 0 where
  pub band : FrequencyBand
  pub state : Two ℤ
  pub bits : Two ℕ

abbrev initial_bits : FrequencyBand → ℕ
initial_bits dc = 8
initial_bits lowpass = 4
initial_bits highpass = 0

unfoldable pub new : FrequencyBand → CoefficientModel
new band = record { band = band; state = both (pos 0); bits = both (initial_bits band) }

unfoldable pub reset_tile : CoefficientModel → CoefficientModel
reset_tile m = new m.band

-- The integrator and the model bits of one component class; the bits are a `u8`.
pub record Slot : Type 0 where
  pub level : ℤ
  pub width : ℕ

unfoldable pub lowered : ℤ → Slot → Slot
lowered delta s =
    let level = s.level +ℤ max_ℤ (delta +ℤ pos 4) (negsuc 15) in
    if ltb_ℤ level (negsuc 7)
    then (if s.width == 0
        then record { level = negsuc 7; width = s.width }
        else record { level = pos 0; width = (s.width + 255) % 256 })
    else record { level = level; width = s.width }

unfoldable pub raised : ℤ → Slot → Slot
raised delta s =
    let level = s.level +ℤ min_ℤ (delta -ℤ pos 4) (pos 15) in
    if ltb_ℤ (pos 8) level
    then (if leb 15 s.width
        then record { level = pos 8; width = 15 }
        else record { level = pos 0; width = s.width + 1 })
    else record { level = level; width = s.width }

-- The body of `update_one` behind the subtraction.
unfoldable pub adjust : ℤ → Slot → Slot
adjust delta s =
    if leb_ℤ delta (negsuc 7)
    then lowered delta s
    else if leb_ℤ (pos 8) delta
    then raised delta s
    else s

-- A mean below `i32::MIN + 70` overflows the subtraction.
abbrev pub adjusted : Option ℤ → Slot → Result Slot
adjusted none s = panic
adjusted (some difference) s = ok (adjust (shr_ℤ difference 2) s)

unfoldable pub update_one : Slot → ℤ → Result Slot
update_one s lap_mean = adjusted (i32_checked (lap_mean -ℤ pos 70)) s

unfoldable pub weighted : {S : Type 0} → List ℤ → ℕ → ℤ → S → Result ℤ × S
weighted weights i mean = do
  weight ← index weights i
  some_or (i32_checked (mean *ℤ weight)) coefficient_overflow

-- `if band == Highpass { chroma >>= 4 }`
abbrev pub scaled_down : FrequencyBand → ℤ → ℤ
scaled_down highpass chroma = shr_ℤ chroma 4
scaled_down dc chroma = chroma
scaled_down lowpass chroma = chroma

-- The chroma mean of a model with two classes, `None` for luma only.
unfoldable pub chroma_mean : FrequencyBand → ℤ → ColourModel → Step CoefficientModel (Option ℤ)
chroma_mean band mean luma_only = return none
chroma_mean band mean yuv420 = do
  scaled ← weighted subsampled_weight_420 (band_index band) mean
  return (some scaled)
chroma_mean band mean yuv422 = do
  scaled ← weighted subsampled_weight_422 (band_index band) mean
  return (some scaled)
chroma_mean band mean (other components) = do
  reject_if (ltb components 2 || ltb 16 components)
      (invalid_parameter "coefficient-model component count" (pos components))
  row ← index other_weight (band_index band)
  scaled ← weighted row (components - 1) mean
  return (some (scaled_down band scaled))

abbrev pub luma_slot : CoefficientModel → Slot
luma_slot m = record { level = m.state.first; width = m.bits.first }

abbrev pub chroma_slot : CoefficientModel → Slot
chroma_slot m = record { level = m.state.second; width = m.bits.second }

abbrev pub with_luma : Result Slot → CoefficientModel → Result (Unit {0}) × CoefficientModel
with_luma (ok s) m = (
  ok tt,
  record m {
    state = record { first = s.level; second = m.state.second };
    bits = record { first = s.width; second = m.bits.second };
  },
)
with_luma (err e) m = (err e, m)
with_luma panic m = (panic, m)

abbrev pub with_chroma : Result Slot → CoefficientModel → Result (Unit {0}) × CoefficientModel
with_chroma (ok s) m = (
  ok tt,
  record m {
    state = record { first = m.state.first; second = s.level };
    bits = record { first = m.bits.first; second = s.width };
  },
)
with_chroma (err e) m = (err e, m)
with_chroma panic m = (panic, m)

unfoldable pub update_luma : ℤ → Step CoefficientModel (Unit {0})
update_luma mean m = with_luma (update_one (luma_slot m) mean) m

unfoldable pub update_chroma : Option ℤ → Step CoefficientModel (Unit {0})
update_chroma none m = (ok tt, m)
update_chroma (some mean) m = with_chroma (update_one (chroma_slot m) mean) m

unfoldable pub update : Two ℤ → ColourModel → Step CoefficientModel (Unit {0})
update lap_mean colour m =
    (do
      luma ← weighted luma_weight (band_index m.band) lap_mean.first
      chroma ← chroma_mean m.band lap_mean.second colour
      update_luma luma
      update_chroma chroma)
      m

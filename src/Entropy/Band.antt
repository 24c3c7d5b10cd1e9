-- ===== src/Entropy/Band.antt =====
-- The frequency bands of coefficients.rs, and arrays of two that a boolean indexes.
use jxr.Base.{ℕ, Bool, true, false}

pub data FrequencyBand : Type 0 where
  dc lowpass highpass : FrequencyBand

-- `band as usize`
abbrev pub band_index : FrequencyBand → ℕ
band_index dc = 0
band_index lowpass = 1
band_index highpass = 2

-- `[A; 2]` indexed by `usize::from(flag)`.
pub record Two (A : Type 0) : Type 0 where
  pub first : A
  pub second : A

abbrev pub both : {A : Type 0} → A → Two A
both a = record { first = a; second = a }

abbrev pub at : {A : Type 0} → Bool → Two A → A
at false p = p.first
at true p = p.second

abbrev pub put_at : {A : Type 0} → Bool → A → Two A → Two A
put_at false a p = record p { first = a }
put_at true a p = record p { second = a }

abbrev pub each : {A B : Type 0} → (A → B) → Two A → Two B
each f p = record { first = f p.first; second = f p.second }

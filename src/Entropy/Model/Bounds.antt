-- ===== src/Entropy/Model/Bounds.antt =====
-- The integrators and model bits of `CoefficientModel` in model.rs.
use jxr.Base.{
  ℕ, ◌+◌, ◌-◌, ◌*◌, ◌≤◌, ◌<◌, ◌≡◌, get_or, refl, sym, ap, ◌∙◌, [], ◌∷◌, ◌&&◌, ◌||◌, arith, Bool,
  true, false, Option, none, some, ltb, ◌^◌, ◌/◌, length, List, All, Bool-cases, inl, inr,
}
use jxr.Base.Int.{
  ℤ, pos, negsuc, ◌≤ℤ◌, ◌+ℤ◌, ◌-ℤ◌, shr_ℤ, i32_checked, leb_ℤ, in_i32, i32_checked-some, ◌*ℤ◌,
}
use jxr.Entropy.Step.{ok, coefficient_overflow}
use jxr.Entropy.Step.Post.{Post, returns, Post-continue, index-Post, some_or-Post, reject_if-Post}
use std.Path.{subst}
use jxr.Entropy.Band.{Two, FrequencyBand, dc, lowpass, highpass, band_index}
use jxr.Entropy.Model.{
  CoefficientModel, ColourModel, luma_only, yuv420, yuv422, other, Slot, lowered, raised, adjust,
  update_one, update, update_luma, update_chroma, chroma_mean, weighted, luma_slot, chroma_slot,
  scaled_down, other_weight, luma_weight, subsampled_weight_420, subsampled_weight_422,
}

-- The integrator stays in -8..8 and the model bits in 0..15.
pub record IsSlot (s : Slot) : Type 0 where
  pub low : negsuc 7 ≤ℤ s.level
  pub high : s.level ≤ℤ pos 8
  pub narrow : s.width ≤ 15

lowered-IsSlot : (delta : ℤ) (s : Slot) → IsSlot s → delta ≤ℤ negsuc 7 → IsSlot (lowered delta s)
unfolding lowered ◌+ℤ◌
lowered-IsSlot delta s h g =
    let low = h.low in
    let high = h.high in
    let narrow = h.narrow in
    record { low = ground arith; high = ground arith; narrow = ground arith }

raised-IsSlot : (delta : ℤ) (s : Slot) → IsSlot s → pos 8 ≤ℤ delta → IsSlot (raised delta s)
unfolding raised ◌+ℤ◌ ◌-ℤ◌
raised-IsSlot delta s h g =
    let low = h.low in
    let high = h.high in
    let narrow = h.narrow in
    record { low = ground arith; high = ground arith; narrow = ground arith }

pub adjust-IsSlot : (delta : ℤ) (s : Slot) → IsSlot s → IsSlot (adjust delta s)
unfolding adjust lowered raised
adjust-IsSlot delta s h = elim (Bool-cases (leb_ℤ delta (negsuc 7))) [
  | inl down ↦ rw down (lowered-IsSlot delta s h (ground arith))
  | inr not_down ↦ elim (Bool-cases (leb_ℤ (pos 8) delta)) [
    | inl up ↦ rw (not_down, up) (raised-IsSlot delta s h (ground arith))
    | inr level ↦ rw (not_down, level) h
  ]
]

-- What an adjustment makes of a component class.
pub record IsAdjusted (delta : ℤ) (s t : Slot) : Type 0 where
  pub in_range : IsSlot t
  pub not_raised : delta ≤ℤ pos 7 → t.width ≤ s.width
  pub not_lowered : negsuc 6 ≤ℤ delta → s.width ≤ t.width
  pub lowered_by_one : s.width ≤ t.width + 1
  pub raised_by_one : t.width ≤ s.width + 1
  pub restarted : ¬ (t.width ≡ s.width) → t.level ≡ pos 0
  pub untouched : negsuc 6 ≤ℤ delta → delta ≤ℤ pos 7 → t ≡ s

-- An adjustment of a component class in range keeps it in range. A delta below 8 does not raise the
-- model bits and one above -8 does not lower them; they move by one at most, and the integrator then
-- restarts at zero. A delta between both changes nothing.
pub adjust-IsAdjusted : (delta : ℤ) (s : Slot) → IsSlot s → IsAdjusted delta s (adjust delta s)
unfolding adjust lowered raised
adjust-IsAdjusted delta s h =
    let narrow = h.narrow in
    record {
      in_range = adjust-IsSlot delta s h;
      not_raised = λ g. ground arith;
      not_lowered = λ g. ground arith;
      lowered_by_one = ground arith;
      raised_by_one = ground arith;
      restarted = λ g. ground arith;
      untouched = λ g k. ground arith;
    }

-- A mean that is no negative number.
pub record IsCount (a : ℤ) : Type 0 where
  pub value : ℕ
  pub is_value : a ≡ pos value
  pub fits : value < 2 ^ 31

update_one_lem :
    (s : Slot) (mean : ℤ) → IsCount mean → (delta : ℤ) × (update_one s mean ≡ ok (adjust delta s))
unfolding update_one
update_one_lem s mean g =
    let small : in_i32 (pos g.value -ℤ pos 70) ≡ true =
      let h = g.fits in unfold ◌-ℤ◌ in ground arith in
    (shr_ℤ (mean -ℤ pos 70) 2, rw (g.is_value, small) refl)

-- The two slots of a model.
pub record IsModel (m : CoefficientModel) : Type 0 where
  pub luma : IsSlot (luma_slot m)
  pub chroma : IsSlot (chroma_slot m)

update_luma-Post :
    (mean : ℤ) (m : CoefficientModel)
    → IsCount mean
    → IsModel m
    → Post IsModel (λ (_ : Unit {0}). Unit {0}) (update_luma mean m)
unfolding update_luma
update_luma-Post mean m g h =
    let (delta, e) = update_one_lem (luma_slot m) mean g in
    rw e (returns tt (record { luma = adjust-IsSlot delta _ h.luma; chroma = h.chroma }))

update_chroma-Post :
    (mean : Option ℤ) (m : CoefficientModel)
    → ((a : ℤ) → mean ≡ some a → IsCount a)
    → IsModel m
    → Post IsModel (λ (_ : Unit {0}). Unit {0}) (update_chroma mean m)
unfolding update_chroma
update_chroma-Post none m g h = returns tt h
update_chroma-Post (some mean) m g h =
    let (delta, e) = update_one_lem (chroma_slot m) mean (g mean refl) in
    rw e (returns tt (record { luma = h.luma; chroma = adjust-IsSlot delta _ h.chroma }))

pos-mul : (x y : ℕ) → pos x *ℤ pos y ≡ pos (x * y)
unfolding ◌*ℤ◌
pos-mul x y = ground arith

in_i32_lt : (n : ℕ) → in_i32 (pos n) ≡ true → n < 2 ^ 31
in_i32_lt n h = ground arith

scaled-IsCount : (a w b : ℤ) → IsCount a → IsCount w → i32_checked (a *ℤ w) ≡ some b → IsCount b
scaled-IsCount a w b h g e =
    let (same, inside) = i32_checked-some (a *ℤ w) e in
    let product : a *ℤ w ≡ pos (h.value * g.value) =
      rw (h.is_value, g.is_value) (pos-mul h.value g.value) in
    record {
      value = h.value * g.value;
      is_value = same ∙ product;
      fits = in_i32_lt (h.value * g.value) (sym (ap in_i32 product) ∙ inside);
    }

weighted-Post :
    {S : Type 0} {I : S → Type 0} (weights : List ℤ) (i : ℕ) (mean : ℤ) (s : S)
    → All IsCount weights
    → i < length weights
    → IsCount mean
    → I s
    → Post I IsCount (weighted weights i mean s)
unfolding weighted
weighted-Post weights i mean s h inside g v =
    Post-continue (index-Post weights i s h inside v) (λ weight w s' v'.
      some_or-Post _ coefficient_overflow s' (λ a e. scaled-IsCount mean weight a g w e) v')

abbrev all_counts : List ℤ → Bool
all_counts [] = true
all_counts (pos n ∷ weights) = ltb n (2 ^ 31) && all_counts weights
all_counts (negsuc n ∷ weights) = false

all_counts-IsCount : (weights : List ℤ) → all_counts weights ≡ true → All IsCount weights
all_counts-IsCount [] h = tt
all_counts-IsCount (pos n ∷ weights) h = (
  record { value = n; is_value = refl; fits = ground arith },
  all_counts-IsCount weights (ground arith),
)
all_counts-IsCount (negsuc n ∷ weights) h = absurd (ground arith)

band_index-lt : (band : FrequencyBand) → band_index band < 3
band_index-lt dc = omega arith
band_index-lt lowpass = omega arith
band_index-lt highpass = omega arith

scaled_down-IsCount : (band : FrequencyBand) {a : ℤ} → IsCount a → IsCount (scaled_down band a)
scaled_down-IsCount dc h = h
scaled_down-IsCount lowpass h = h
scaled_down-IsCount highpass h = record {
  value = h.value / 2 ^ 4;
  is_value = rw h.is_value (unfold shr_ℤ in refl);
  fits = let g = h.fits in omega arith;
}

-- A row of 16 weights.
abbrev IsWeights : List ℤ → Type 0
IsWeights row = (length row ≡ 16) × All IsCount row

other_weight-IsWeights : All IsWeights other_weight
other_weight-IsWeights = (
  (refl, all_counts-IsCount (get_or other_weight 0 []) refl),
  (
    (refl, all_counts-IsCount (get_or other_weight 1 []) refl),
    ((refl, all_counts-IsCount (get_or other_weight 2 []) refl), tt),
  ),
)

-- The chroma mean, where there is one.
abbrev pub IsMean : Option ℤ → Type 0
IsMean mean = (a : ℤ) → mean ≡ some a → IsCount a

abbrev some_value : Option ℤ → ℤ
some_value none = pos 0
some_value (some a) = a

some-IsMean : {a : ℤ} → IsCount a → IsMean (some a)
some-IsMean h a e = subst IsCount (ap (λ o. some_value o) e) h

chroma_mean-Post :
    {I : CoefficientModel → Type 0} (band : FrequencyBand) (mean : ℤ) (colour : ColourModel)
    (m : CoefficientModel)
    → IsCount mean
    → I m
    → Post I IsMean (chroma_mean band mean colour m)
unfolding chroma_mean
chroma_mean-Post band mean luma_only m g v = returns (λ a e. absurd (ground arith)) v
chroma_mean-Post band mean yuv420 m g v =
    Post-continue
      (weighted-Post _ _ mean m (all_counts-IsCount subsampled_weight_420 refl) (band_index-lt band)
        g v)
      (λ a h s v'. returns (some-IsMean h) v')
chroma_mean-Post band mean yuv422 m g v =
    Post-continue
      (weighted-Post _ _ mean m (all_counts-IsCount subsampled_weight_422 refl) (band_index-lt band)
        g v)
      (λ a h s v'. returns (some-IsMean h) v')
chroma_mean-Post band mean (other components) m g v =
    Post-continue (reject_if-Post (ltb components 2 || ltb 16 components) _ m v) (λ _ in_range s v'.
      Post-continue
        (index-Post {P = IsWeights} other_weight (band_index band) s other_weight-IsWeights
          (band_index-lt band) v')
        (λ row row_ok s' w.
          Post-continue (weighted-Post row (components - 1) mean s' row_ok.1 (ground arith) g w)
            (λ a h s'' w'. returns (some-IsMean (scaled_down-IsCount band h)) w')))

-- With means that are not negative, an update never panics. It keeps the integrators and the model
-- bits of both component classes in range, also where it is refused.
pub update-IsModel :
    (lap_mean : Two ℤ) (colour : ColourModel) (m : CoefficientModel)
    → IsCount lap_mean.first
    → IsCount lap_mean.second
    → IsModel m
    → Post IsModel (λ (_ : Unit {0}). Unit {0}) (update lap_mean colour m)
unfolding update
update-IsModel lap_mean colour m g h v =
    Post-continue
      (weighted-Post _ _ lap_mean.first m (all_counts-IsCount luma_weight refl)
        (band_index-lt m.band) g v)
      (λ luma l s v'.
        Post-continue (chroma_mean-Post m.band lap_mean.second colour s h v') (λ chroma c s' w.
          Post-continue (update_luma-Post luma s' l w)
            (λ _ _ s'' w'. update_chroma-Post chroma s'' c w')))

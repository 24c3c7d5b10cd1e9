-- ===== src/Entropy/Coefficients/Block/Direct.antt =====
-- Two runs of `decode_ac_coefficients` of coefficients.rs that differ in their sinks only.
use jxr.Base.{
  ℕ, zero, suc, ◌+◌, ◌-◌, ◌/◌, ◌≤◌, ◌≡◌, refl, arith, Bool, true, false, not, ◌&&◌, ◌||◌, inl, inr,
  Bool-cases, ltb, ◌==◌, bit_and, ◌^◌,
}
use jxr.Base.Int.{ℤ, negsuc, leb_ℤ}
use jxr.Entropy.Step.{Result, ok, err, panic, EntropyError, Step, continue, ◌>>=◌, ◌>>◌, return}
use jxr.Entropy.BitReader.{PacketBitReader, read_bit}
use jxr.Entropy.Band.{FrequencyBand, dc, lowpass, highpass}
use jxr.Entropy.Adaptive.{AdaptiveVlc, AcVlcState}
use jxr.Entropy.Coefficients.Run.{decode_run_cached}
use jxr.Entropy.Coefficients.Symbols.{
  Selecting, signed, decode_abs_level, decode_first_index, decode_index,
}
use jxr.Entropy.Coefficients.Block.{
  AcWorld, emitting, get_first, put_first, get_index, put_index, get_level, put_level, odd,
  advance_location, decode_magnitude, decode_zero_run, first_coefficient, next_coefficient,
  coefficient_loop, decode_ac_coefficients,
}

-- Two runs with the same result, which leave the same reader and selectors, and related sinks.
pub data Both {S T A : Type 0} (P : A → S → T → Type 0)
    : Result A × AcWorld S → Result A × AcWorld T → Type 0 where
  both_ok :
      {a : A} {r : PacketBitReader} {v : AcVlcState} {s : S} {t : T}
      → P a s t
      → Both P
          (ok a, record { reader = r; vlc = v; sink = s })
          (ok a, record { reader = r; vlc = v; sink = t })
  both_err :
      {e : EntropyError} {r : PacketBitReader} {v : AcVlcState} {s : S} {t : T}
      → Both P
          (err e, record { reader = r; vlc = v; sink = s })
          (err e, record { reader = r; vlc = v; sink = t })
  both_panic :
      {r : PacketBitReader} {v : AcVlcState} {s : S} {t : T}
      → Both P
          (panic, record { reader = r; vlc = v; sink = s })
          (panic, record { reader = r; vlc = v; sink = t })

module _ {S T : Type 0} where
  Both-continue :
      {A B : Type 0} {P : A → S → T → Type 0} {Q : B → S → T → Type 0} {x : Result A × AcWorld S}
      {y : Result A × AcWorld T} (f : A → Step (AcWorld S) B) (g : A → Step (AcWorld T) B)
      → Both P x y
      → ((a : A) (r : PacketBitReader) (v : AcVlcState) (s : S) (t : T)
          → P a s t
          → Both Q
              (f a (record { reader = r; vlc = v; sink = s }))
              (g a (record { reader = r; vlc = v; sink = t })))
      → Both Q (continue x f) (continue y g)
  Both-continue f g (both_ok p) k = k _ _ _ _ _ p
  Both-continue f g both_err k = both_err
  Both-continue f g both_panic k = both_panic

  pub Both-weaken :
      {A : Type 0} {P Q : A → S → T → Type 0} {x : Result A × AcWorld S} {y : Result A × AcWorld T}
      → Both P x y
      → ((a : A) (s : S) (t : T) → P a s t → Q a s t)
      → Both Q x y
  Both-weaken (both_ok p) k = both_ok (k _ _ _ p)
  Both-weaken both_err k = both_err
  Both-weaken both_panic k = both_panic

  reading-Both :
      {A : Type 0} (P : A → S → T → Type 0) (q : Result A × PacketBitReader) (v : AcVlcState)
      (s : S) (t : T)
      → ((a : A) → P a s t)
      → Both P
          (q.0, record { reader = q.1; vlc = v; sink = s })
          (q.0, record { reader = q.1; vlc = v; sink = t })
  reading-Both P (ok a, r) v s t p = both_ok (p a)
  reading-Both P (err e, r) v s t p = both_err
  reading-Both P (panic, r) v s t p = both_panic

  selecting-Both :
      {A : Type 0} (P : A → S → T → Type 0) (put : AdaptiveVlc → AcVlcState → AcVlcState)
      (q : Result A × Selecting) (v : AcVlcState) (s : S) (t : T)
      → ((a : A) → P a s t)
      → Both P
          (q.0, record { reader = q.1.reader; vlc = put q.1.vlc v; sink = s })
          (q.0, record { reader = q.1.reader; vlc = put q.1.vlc v; sink = t })
  selecting-Both P put (ok a, w) v s t p = both_ok (p a)
  selecting-Both P put (err e, w) v s t p = both_err
  selecting-Both P put (panic, w) v s t p = both_panic

-- The same value in both worlds, with sinks related at a location.
abbrev Kept : {S T A : Type 0} → (S → T → Type 0) → A → S → T → Type 0
Kept R a s t = R s t

module _ {S T : Type 0} (R : ℕ → S → T → Type 0) (chroma : Bool)
    (emit : ℕ → ℕ → ℤ → Step S (Unit {0})) (emit' : ℕ → ℕ → ℤ → Step T (Unit {0}))
    (emits : (location run : ℕ) (level : ℤ) (s : S) (t : T)
      → location + run + 1 ≤ 16
      → R location s t
      → (s' : S) × (t' : T) × (emit run (location + run) level s ≡ (ok tt, s'))
        × (emit' run (location + run) level t ≡ (ok tt, t'))
        × R (location + run + 1) s' t') where
  magnitude-Both :
      (coded context : Bool) (location : ℕ) (r : PacketBitReader) (v : AcVlcState) (s : S) (t : T)
      → R location s t
      → Both
          (Kept {A = ℤ} (R location))
          (decode_magnitude chroma emit coded context (record { reader = r; vlc = v; sink = s }))
          (decode_magnitude chroma emit' coded context (record { reader = r; vlc = v; sink = t }))
  unfolding decode_magnitude
  magnitude-Both false context location r v s t h = both_ok h
  magnitude-Both true context location r v s t h =
      selecting-Both (Kept {A = ℤ} (R location)) (put_level context)
        (decode_abs_level (record { reader = r; vlc = get_level context v })) v s t (λ a. h)

  zero_run-Both :
      (zero_run : Bool) (max_run location : ℕ) (r : PacketBitReader) (v : AcVlcState) (s : S)
      (t : T)
      → R location s t
      → Both
          (Kept {A = ℕ} (R location))
          (decode_zero_run chroma emit zero_run max_run (record { reader = r; vlc = v; sink = s }))
          (decode_zero_run chroma emit' zero_run max_run (record { reader = r; vlc = v; sink = t }))
  unfolding decode_zero_run
  zero_run-Both false max_run location r v s t h = both_ok h
  zero_run-Both true max_run location r v s t h =
      reading-Both (Kept {A = ℕ} (R location)) (decode_run_cached (15 - max_run) r) v s t (λ a. h)

  signed-Both :
      (magnitude : ℤ) (sign : Bool) (location run : ℕ) (r : PacketBitReader) (v : AcVlcState)
      (s : S) (t : T)
      → R location s t
      → Both
          (Kept {A = ℤ} (R location))
          (signed magnitude sign (record { reader = r; vlc = v; sink = s }))
          (signed magnitude sign (record { reader = r; vlc = v; sink = t }))
  unfolding signed
  signed-Both magnitude sign location run r v s t h =
      elim (Bool-cases (sign && leb_ℤ magnitude (negsuc (2 ^ 31 - 1)))) [
        | inl lowest ↦ rw lowest both_err
        | inr rest ↦ rw rest (both_ok h)
      ]

  -- A level is emitted behind its run.
  emit-Both :
      {P : ℕ → S → T → Type 0} (location run result : ℕ) (magnitude : ℤ) (sign : Bool)
      (r : PacketBitReader) (v : AcVlcState) (s : S) (t : T)
      → location + run + 1 ≤ 16
      → ((s' : S) (t' : T) → R (location + run + 1) s' t' → P result s' t')
      → R location s t
      → Both P
          ((do
            level ← signed magnitude sign
            emitting (emit run (location + run + 1 - 1) level)
            return result)
            (record { reader = r; vlc = v; sink = s }))
          ((do
            level ← signed magnitude sign
            emitting (emit' run (location + run + 1 - 1) level)
            return result)
            (record { reader = r; vlc = v; sink = t }))
  emit-Both location run result magnitude sign r v s t inside p h =
      Both-continue _ _ (signed-Both magnitude sign location run r v s t h) (λ level r v s t h.
        let (s', t', e, e', h') = emits location run level s t inside h in
        let at_place : location + run + 1 - 1 ≡ location + run = omega arith in
        rw (at_place, e, e') (both_ok (p s' t' h')))

  location-Both :
      (location run : ℕ) (r : PacketBitReader) (v : AcVlcState) (s : S) (t : T)
      → R location s t
      → Both
          (λ next s t. (next ≡ location + run + 1) × (location + run + 1 ≤ 16) × R location s t)
          (advance_location location run (record { reader = r; vlc = v; sink = s }))
          (advance_location location run (record { reader = r; vlc = v; sink = t }))
  unfolding advance_location
  location-Both location run r v s t h =
      let next = location + run + 1 in
      elim (Bool-cases (ltb 255 (location + run) || ltb 255 next)) [
        | inl over ↦ rw over both_err
        | inr byte ↦ elim (Bool-cases (ltb 16 next)) [
          | inl beyond ↦ rw (byte, beyond) both_err
          | inr inside ↦ rw (byte, inside) (both_ok (refl, ground arith, h))
        ]
      ]

  first-Both :
      (first : ℕ) (sign context : Bool) (start : ℕ) (r : PacketBitReader) (v : AcVlcState) (s : S)
      (t : T)
      → R start s t
      → Both
          (λ location. R location)
          (first_coefficient chroma emit first sign context start
            (record { reader = r; vlc = v; sink = s }))
          (first_coefficient chroma emit' first sign context start
            (record { reader = r; vlc = v; sink = t }))
  unfolding first_coefficient
  first-Both first sign context start r v s t h =
      Both-continue _ _ (magnitude-Both (not (bit_and first 2 == 0)) context start r v s t h)
        (λ magnitude r v s t h.
          Both-continue _ _ (zero_run-Both (not (odd first)) start start r v s t h)
            (λ run r v s t h.
              Both-continue _ _ (location-Both start run r v s t h)
                (λ location r v s t (same, inside, h). rw same (
                  emit-Both {P = λ location. R location} start run (start + run + 1) magnitude sign
                    r v s t inside (λ s' t' h'. h') h))))

  next-Both :
      (context : Bool) (run location : ℕ) (r : PacketBitReader) (v : AcVlcState) (s : S) (t : T)
      → location + run + 1 ≤ 16
      → R location s t
      → Both
          (Kept {A = ℕ} (R (location + run + 1)))
          (next_coefficient chroma emit context run
            (location + run + 1)
            (record { reader = r; vlc = v; sink = s }))
          (next_coefficient chroma emit' context run
            (location + run + 1)
            (record { reader = r; vlc = v; sink = t }))
  unfolding next_coefficient
  next-Both context run location r v s t inside h =
      Both-continue _ _
        (selecting-Both (Kept {A = ℕ} (R location)) (put_index chroma context)
          (decode_index (location + run + 1)
            (record { reader = r; vlc = get_index chroma context v }))
          v s t (λ a. h))
        (λ i r v s t h.
          Both-continue _ _
            (reading-Both (Kept {A = Bool} (R location)) (read_bit r) v s t (λ a. h))
            (λ sign r v s t h.
              Both-continue _ _ (magnitude-Both (odd i) (context && odd (i / 2)) location r v s t h)
                (λ magnitude r v s t h.
                  emit-Both {P = Kept {A = ℕ} (R (location + run + 1))} location run (i / 2)
                    magnitude sign r v s t inside (λ s' t' h'. h') h)))

  loop-Both :
      (fuel location successors : ℕ) (context : Bool) (non_zero : ℕ) (r : PacketBitReader)
      (v : AcVlcState) (s : S) (t : T)
      → R location s t
      → Both
          (λ n s t. (end : ℕ) × R end s t)
          (coefficient_loop chroma emit fuel location successors context non_zero
            (record { reader = r; vlc = v; sink = s }))
          (coefficient_loop chroma emit' fuel location successors context non_zero
            (record { reader = r; vlc = v; sink = t }))
  unfolding coefficient_loop
  loop-Both zero location successors context non_zero r v s t h =
      elim (Bool-cases (successors == 0)) [
        | inl last ↦ rw last (both_ok (location, h))
        | inr more ↦ rw more both_panic
      ]
  loop-Both (suc fuel) location successors context non_zero r v s t h =
      elim (Bool-cases (successors == 0)) [
        | inl last ↦ rw last (both_ok (location, h))
        | inr more ↦ rw more (
            Both-continue _ _ (zero_run-Both (not (odd successors)) location location r v s t h)
              (λ run r v s t h.
                Both-continue _ _ (location-Both location run r v s t h)
                  (λ next r v s t (same, inside, h). rw same (
                    Both-continue _ _ (next-Both context run location r v s t inside h)
                      (λ after r v s t h.
                        loop-Both fuel (location + run + 1) after (context && odd after)
                          (non_zero + 1) r v s t h)))))
      ]

  coded-Both :
      (start : ℕ) (r : PacketBitReader) (v : AcVlcState) (s : S) (t : T)
      → ((ltb start 1 || ltb 15 start) ≡ false → R start s t)
      → Both
          (λ n s t. (end : ℕ) × R end s t)
          (decode_ac_coefficients chroma emit lowpass start
            (record { reader = r; vlc = v; sink = s }))
          (decode_ac_coefficients chroma emit' lowpass start
            (record { reader = r; vlc = v; sink = t }))
  unfolding decode_ac_coefficients
  coded-Both start r v s t h = elim (Bool-cases (ltb start 1 || ltb 15 start)) [
    | inl bad ↦ rw bad both_err
    | inr inside ↦ rw inside (
        Both-continue _ _
          (selecting-Both (Kept {A = ℕ} (R start)) (put_first chroma)
            (decode_first_index (record { reader = r; vlc = get_first chroma v })) v s t
            (λ a. h inside))
          (λ first r v s t h.
            Both-continue _ _ (reading-Both (Kept {A = Bool} (R start)) (read_bit r) v s t (λ a. h))
              (λ sign r v s t h.
                Both-continue _ _
                  (first-Both first sign (odd first && odd (first / 4)) start r v s t h)
                  (λ location r v s t h.
                    loop-Both 16 location (first / 4) (odd first && odd (first / 4)) 1 r v s t h))))
  ]

  -- Two block decodings whose emissions keep the sinks related.
  pub decode_ac_coefficients-Both :
      (band : FrequencyBand) (start : ℕ) (r : PacketBitReader) (v : AcVlcState) (s : S) (t : T)
      → ((ltb start 1 || ltb 15 start) ≡ false → R start s t)
      → Both
          (λ n s t. (end : ℕ) × R end s t)
          (decode_ac_coefficients chroma emit band start (record { reader = r; vlc = v; sink = s }))
          (decode_ac_coefficients chroma emit' band start
            (record { reader = r; vlc = v; sink = t }))
  unfolding decode_ac_coefficients
  decode_ac_coefficients-Both dc start r v s t h = both_err
  decode_ac_coefficients-Both lowpass start r v s t h = coded-Both start r v s t h
  decode_ac_coefficients-Both highpass start r v s t h = coded-Both start r v s t h

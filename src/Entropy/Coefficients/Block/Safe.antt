-- ===== src/Entropy/Coefficients/Block/Safe.antt =====
-- `decode_ac_coefficients` of coefficients.rs on any packet.
use jxr.Base.{
  ℕ, zero, suc, ◌+◌, ◌-◌, ◌/◌, ◌<◌, ◌≤◌, arith, Bool, true, false, not, ◌&&◌, ◌||◌, inl, inr,
  Bool-cases, ltb, ◌==◌, bit_and,
}
use jxr.Base.Int.{ℤ}
use jxr.Entropy.Step.{Result, Step, ◌>>=◌, ◌>>◌, return}
use jxr.Entropy.Step.Post.{Post, returns, raises, Post-continue, reject_if-Post}
use jxr.Entropy.BitReader.{PacketBitReader, read_bit}
use jxr.Entropy.BitReader.Cache.{IsValid}
use jxr.Entropy.BitReader.Safe.{Any, read_bit-Post}
use jxr.Entropy.Band.{FrequencyBand, dc, lowpass, highpass}
use jxr.Entropy.Adaptive.{AdaptiveVlc, AcVlcState}
use jxr.Entropy.Adaptive.Bounds.{IsPair, IsMultiple, IsAc}
use jxr.Entropy.Coefficients.Run.{decode_run_cached}
use jxr.Entropy.Coefficients.Run.Agree.{decode_run_cached-Post}
use jxr.Entropy.Coefficients.Symbols.{
  Selecting, signed, decode_abs_level, decode_first_index, decode_index,
}
use jxr.Entropy.Coefficients.Symbols.Bounds.{
  IsSelecting, signed-Post, decode_abs_level-Post, decode_first_index-Post, decode_index-Post,
}
use jxr.Entropy.Coefficients.Block.{
  AcWorld, reading, emitting, selecting, get_first, put_first, get_index, put_index, get_level,
  put_level, odd, advance_location, decode_magnitude, decode_zero_run, first_coefficient,
  next_coefficient, coefficient_loop, decode_ac_coefficients,
}

-- A valid reader, selectors in range, and a sink with a property.
abbrev pub IsWorld : {S : Type 0} → (S → Type 0) → AcWorld S → Type 0
IsWorld K w = IsValid w.reader × IsAc w.vlc × K w.sink

module _ {S : Type 0} (K : S → Type 0) {A : Type 0} {P : A → Type 0} where
  after_reading :
      (q : Result A × PacketBitReader) (w : AcWorld S)
      → IsWorld K w
      → Post IsValid P q
      → Post (IsWorld K) P (q.0, record w { reader = q.1 })
  after_reading q w (r, v, k) (returns p i) = returns p (i, v, k)
  after_reading q w (r, v, k) (raises i) = raises (i, v, k)

  reading-IsWorld :
      (m : Step PacketBitReader A) (w : AcWorld S)
      → IsWorld K w
      → Post IsValid P (m w.reader)
      → Post (IsWorld K) P (reading m w)
  reading-IsWorld m w h p = after_reading (m w.reader) w h p

  after_emitting :
      (q : Result A × S) (w : AcWorld S)
      → IsWorld K w
      → Post K P q
      → Post (IsWorld K) P (q.0, record w { sink = q.1 })
  after_emitting q w (r, v, k) (returns p i) = returns p (r, v, i)
  after_emitting q w (r, v, k) (raises i) = raises (r, v, i)

  emitting-IsWorld :
      (m : Step S A) (w : AcWorld S)
      → IsWorld K w
      → Post K P (m w.sink)
      → Post (IsWorld K) P (emitting m w)
  emitting-IsWorld m w h p = after_emitting (m w.sink) w h p

  after_selecting :
      {V : AdaptiveVlc → Type 0} (put : AdaptiveVlc → AcVlcState → AcVlcState)
      (q : Result A × Selecting) (w : AcWorld S)
      → ((a : AdaptiveVlc) → V a → IsAc (put a w.vlc))
      → IsWorld K w
      → Post (IsSelecting V) P q
      → Post (IsWorld K) P (q.0, record w { reader = q.1.reader; vlc = put q.1.vlc w.vlc })
  after_selecting put q w law (r, v, k) (returns p (i, a)) = returns p (i, law _ a, k)
  after_selecting put q w law (r, v, k) (raises (i, a)) = raises (i, law _ a, k)

  selecting-IsWorld :
      {V : AdaptiveVlc → Type 0} (get : AcVlcState → AdaptiveVlc)
      (put : AdaptiveVlc → AcVlcState → AcVlcState) (m : Step Selecting A) (w : AcWorld S)
      → ((a : AdaptiveVlc) → V a → IsAc (put a w.vlc))
      → IsWorld K w
      → Post (IsSelecting V) P (m (record { reader = w.reader; vlc = get w.vlc }))
      → Post (IsWorld K) P (selecting get put m w)
  selecting-IsWorld get put m w law h p =
      after_selecting put (m (record { reader = w.reader; vlc = get w.vlc })) w law h p

-- Each selector that a block uses is in range, and may be put back.
get_first-IsMultiple : (chroma : Bool) (v : AcVlcState) → IsAc v → IsMultiple 4 (get_first chroma v)
get_first-IsMultiple false v h = h.first_luma
get_first-IsMultiple true v h = h.first_chroma

put_first-IsAc :
    (chroma : Bool) (v : AcVlcState)
    → IsAc v
    → (a : AdaptiveVlc) → IsMultiple 4 a
    → IsAc (put_first chroma a v)
put_first-IsAc false v h a g = record {
  first_luma = g;
  first_chroma = h.first_chroma;
  index_luma_0 = h.index_luma_0;
  index_luma_1 = h.index_luma_1;
  index_chroma_0 = h.index_chroma_0;
  index_chroma_1 = h.index_chroma_1;
  level_0 = h.level_0;
  level_1 = h.level_1;
}
put_first-IsAc true v h a g = record {
  first_luma = h.first_luma;
  first_chroma = g;
  index_luma_0 = h.index_luma_0;
  index_luma_1 = h.index_luma_1;
  index_chroma_0 = h.index_chroma_0;
  index_chroma_1 = h.index_chroma_1;
  level_0 = h.level_0;
  level_1 = h.level_1;
}

get_index-IsMultiple :
    (chroma context : Bool) (v : AcVlcState) → IsAc v → IsMultiple 3 (get_index chroma context v)
get_index-IsMultiple false false v h = h.index_luma_0
get_index-IsMultiple false true v h = h.index_luma_1
get_index-IsMultiple true false v h = h.index_chroma_0
get_index-IsMultiple true true v h = h.index_chroma_1

put_index-IsAc :
    (chroma context : Bool) (v : AcVlcState)
    → IsAc v
    → (a : AdaptiveVlc) → IsMultiple 3 a
    → IsAc (put_index chroma context a v)
put_index-IsAc false false v h a g = record {
  first_luma = h.first_luma;
  first_chroma = h.first_chroma;
  index_luma_0 = g;
  index_luma_1 = h.index_luma_1;
  index_chroma_0 = h.index_chroma_0;
  index_chroma_1 = h.index_chroma_1;
  level_0 = h.level_0;
  level_1 = h.level_1;
}
put_index-IsAc false true v h a g = record {
  first_luma = h.first_luma;
  first_chroma = h.first_chroma;
  index_luma_0 = h.index_luma_0;
  index_luma_1 = g;
  index_chroma_0 = h.index_chroma_0;
  index_chroma_1 = h.index_chroma_1;
  level_0 = h.level_0;
  level_1 = h.level_1;
}
put_index-IsAc true false v h a g = record {
  first_luma = h.first_luma;
  first_chroma = h.first_chroma;
  index_luma_0 = h.index_luma_0;
  index_luma_1 = h.index_luma_1;
  index_chroma_0 = g;
  index_chroma_1 = h.index_chroma_1;
  level_0 = h.level_0;
  level_1 = h.level_1;
}
put_index-IsAc true true v h a g = record {
  first_luma = h.first_luma;
  first_chroma = h.first_chroma;
  index_luma_0 = h.index_luma_0;
  index_luma_1 = h.index_luma_1;
  index_chroma_0 = h.index_chroma_0;
  index_chroma_1 = g;
  level_0 = h.level_0;
  level_1 = h.level_1;
}

get_level-IsPair : (context : Bool) (v : AcVlcState) → IsAc v → IsPair (get_level context v)
get_level-IsPair false v h = h.level_0
get_level-IsPair true v h = h.level_1

put_level-IsAc :
    (context : Bool) (v : AcVlcState)
    → IsAc v
    → (a : AdaptiveVlc) → IsPair a
    → IsAc (put_level context a v)
put_level-IsAc false v h a g = record {
  first_luma = h.first_luma;
  first_chroma = h.first_chroma;
  index_luma_0 = h.index_luma_0;
  index_luma_1 = h.index_luma_1;
  index_chroma_0 = h.index_chroma_0;
  index_chroma_1 = h.index_chroma_1;
  level_0 = g;
  level_1 = h.level_1;
}
put_level-IsAc true v h a g = record {
  first_luma = h.first_luma;
  first_chroma = h.first_chroma;
  index_luma_0 = h.index_luma_0;
  index_luma_1 = h.index_luma_1;
  index_chroma_0 = h.index_chroma_0;
  index_chroma_1 = h.index_chroma_1;
  level_0 = h.level_0;
  level_1 = g;
}

pub advance_location-Post :
    {S : Type 0} {I : S → Type 0} (location run : ℕ) (s : S)
    → I s
    → Post I (λ next. (location < next) × (next ≤ 16)) (advance_location location run s)
unfolding advance_location
advance_location-Post location run s v =
    let next = location + run + 1 in
    elim (Bool-cases (ltb 255 (location + run) || ltb 255 next)) [
      | inl over ↦ rw over (raises v)
      | inr byte ↦ elim (Bool-cases (ltb 16 next)) [
        | inl beyond ↦ rw (byte, beyond) (raises v)
        | inr inside ↦ rw (byte, inside) (returns (omega arith, ground arith) v)
      ]
    ]

module _ {S : Type 0} (K : S → Type 0) (chroma : Bool) (emit : ℕ → ℕ → ℤ → Step S (Unit {0}))
    (start : ℕ)
    (emits : (run location : ℕ) (level : ℤ) (s : S)
      → start ≤ location
      → location < 16
      → K s
      → Post K Any (emit run location level s)) where
  decode_magnitude-Post :
      (coded context : Bool) (w : AcWorld S)
      → IsWorld K w
      → Post (IsWorld K) Any (decode_magnitude chroma emit coded context w)
  unfolding decode_magnitude
  decode_magnitude-Post false context w h = returns tt h
  decode_magnitude-Post true context w (r, v, k) =
      selecting-IsWorld K (get_level context) (put_level context) decode_abs_level w
        (put_level-IsAc context w.vlc v) (r, v, k)
        (decode_abs_level-Post _ (r, get_level-IsPair context w.vlc v))

  decode_zero_run-Post :
      (zero_run : Bool) (location : ℕ) (w : AcWorld S)
      → IsWorld K w
      → Post (IsWorld K) Any (decode_zero_run chroma emit zero_run location w)
  unfolding decode_zero_run
  decode_zero_run-Post false location w h = returns tt h
  decode_zero_run-Post true location w h =
      reading-IsWorld K (decode_run_cached (15 - location)) w h
        (decode_run_cached-Post (15 - location) w.reader h.0)

  emit_level-Post :
      {P : ℕ → Type 0} (run location result : ℕ) (magnitude : ℤ) (sign : Bool) (w : AcWorld S)
      → start < location
      → location ≤ 16
      → P result
      → IsWorld K w
      → Post (IsWorld K) P (
          (do
            level ← signed magnitude sign
            emitting (emit run (location - 1) level)
            return result)
            w)
  emit_level-Post run location result magnitude sign w low high p h =
      Post-continue (signed-Post magnitude sign w h) (λ level _ w h.
        Post-continue
          (emitting-IsWorld K (emit run (location - 1) level) w h
            (emits run (location - 1) level w.sink (omega arith) (omega arith) h.2))
          (λ _ _ w h. returns p h))

  first_coefficient-Post :
      (first : ℕ) (sign context : Bool) (w : AcWorld S)
      → IsWorld K w
      → Post
          (IsWorld K)
          (λ location. (start < location) × (location ≤ 16))
          (first_coefficient chroma emit first sign context start w)
  unfolding first_coefficient
  first_coefficient-Post first sign context w h =
      Post-continue (decode_magnitude-Post (not (bit_and first 2 == 0)) context w h)
        (λ magnitude _ w h.
          Post-continue (decode_zero_run-Post (not (odd first)) start w h) (λ run _ w h.
            Post-continue (advance_location-Post start run w h) (λ location bounds w h.
              emit_level-Post run location location magnitude sign w bounds.0 bounds.1 bounds h)))

  next_coefficient-Post :
      (context : Bool) (run location : ℕ) (w : AcWorld S)
      → start < location
      → location ≤ 16
      → IsWorld K w
      → Post (IsWorld K) Any (next_coefficient chroma emit context run location w)
  unfolding next_coefficient
  next_coefficient-Post context run location w low high (r, v, k) =
      Post-continue
        (selecting-IsWorld K (get_index chroma context) (put_index chroma context)
          (decode_index location) w (put_index-IsAc chroma context w.vlc v) (r, v, k)
          (decode_index-Post location _ (r, get_index-IsMultiple chroma context w.vlc v)))
        (λ i _ w h.
          Post-continue (reading-IsWorld K read_bit w h (read_bit-Post w.reader h.0)) (λ sign _ w h.
            Post-continue (decode_magnitude-Post (odd i) (context && odd (i / 2)) w h)
              (λ magnitude _ w h.
                emit_level-Post run location (i / 2) magnitude sign w low high tt h)))

  -- Each round moves the location, and `advance_location` refuses one past 16, so that the fuel is
  -- never used up.
  coefficient_loop-Post :
      (fuel location successors : ℕ) (context : Bool) (non_zero : ℕ) (w : AcWorld S)
      → start < location
      → location ≤ 16
      → 17 ≤ location + fuel
      → IsWorld K w
      → Post
          (IsWorld K)
          Any
          (coefficient_loop chroma emit fuel location successors context non_zero w)
  unfolding coefficient_loop
  coefficient_loop-Post zero location successors context non_zero w low high enough h =
      absurd (omega arith)
  coefficient_loop-Post (suc fuel) location successors context non_zero w low high enough h =
      elim (Bool-cases (successors == 0)) [
        | inl last ↦ rw last (returns tt h)
        | inr more ↦ rw more (
            Post-continue (decode_zero_run-Post (not (odd successors)) location w h) (λ run _ w h.
              Post-continue (advance_location-Post location run w h) (λ next (behind, inside) w h.
                Post-continue (next_coefficient-Post context run next w (omega arith) inside h)
                  (λ after _ w h.
                    coefficient_loop-Post fuel next after (context && odd after) (non_zero + 1) w
                      (omega arith) inside (omega arith) h))))
      ]

  coded-Post :
      (w : AcWorld S)
      → IsWorld K w
      → Post (IsWorld K) Any (decode_ac_coefficients chroma emit lowpass start w)
  unfolding decode_ac_coefficients
  coded-Post w h =
      Post-continue (reject_if-Post (ltb start 1 || ltb 15 start) _ w h) (λ _ _ w (r, v, k).
        Post-continue
          (selecting-IsWorld K (get_first chroma) (put_first chroma) decode_first_index w
            (put_first-IsAc chroma w.vlc v) (r, v, k)
            (decode_first_index-Post _ (r, get_first-IsMultiple chroma w.vlc v)))
          (λ first _ w h.
            Post-continue (reading-IsWorld K read_bit w h (read_bit-Post w.reader h.0))
              (λ sign _ w h.
                Post-continue (first_coefficient-Post first sign (odd first && odd (first / 4)) w h)
                  (λ location (low, high) w h.
                    coefficient_loop-Post 16 location (first / 4) (odd first && odd (first / 4)) 1 w
                      low high (omega arith) h))))

  -- No packet makes a block decoder panic or run on: where each emission inside the block keeps
  -- the property `K` of the sink, the decoder returns a count or an error, with the reader valid, the
  -- selectors in range, and `K` of the sink.
  pub decode_ac_coefficients-IsWorld :
      (w : AcWorld S)
      → (band : FrequencyBand) → IsWorld K w
      → Post (IsWorld K) Any (decode_ac_coefficients chroma emit band start w)
  unfolding decode_ac_coefficients
  decode_ac_coefficients-IsWorld w dc h = raises h
  decode_ac_coefficients-IsWorld w lowpass h = coded-Post w h
  decode_ac_coefficients-IsWorld w highpass h = coded-Post w h

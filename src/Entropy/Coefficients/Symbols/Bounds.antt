-- ===== src/Entropy/Coefficients/Symbols/Bounds.antt =====
-- The symbol decoders of coefficients.rs on any packet.
use jxr.Base.{
  ℕ, ◌+◌, ◌-◌, ◌<◌, ◌≡◌, refl, arith, Bool, true, false, ◌&&◌, inl, inr, Bool-cases, ltb, ◌==◌,
  if◌then◌else◌, List, All, ◌^◌, String,
}
use jxr.Base.Int.{ℤ, pos, negsuc, leb_ℤ, i32_checked, ◌+ℤ◌}
use jxr.Entropy.Step.{Result, Step, ◌>>=◌, some_or, coefficient_overflow}
use jxr.Entropy.Step.Post.{Post, returns, raises, Post-continue, Post-weaken, index-Post}
use jxr.Entropy.BitReader.{PacketBitReader, read_bits, read_bit}
use jxr.Entropy.BitReader.Cache.{IsValid}
use jxr.Entropy.BitReader.Safe.{Any, read_bits-Post, read_bit-Post, index-Any, some_or-Any}
use jxr.Entropy.Vlc.{decode}
use jxr.Entropy.Vlc.Codes.{Table}
use jxr.Entropy.Vlc.Serial.{table}
use jxr.Entropy.Vlc.Tables.{symbol_bound}
use jxr.Entropy.Vlc.Agree.{decode-Post}
use jxr.Entropy.Refinement.{i32_of, checked_shl}
use jxr.Entropy.Adaptive.{AdaptiveVlc, observe_abs_level, observe_first_index, observe_index}
use jxr.Entropy.Adaptive.Bounds.{IsPair, IsMultiple}
use jxr.Entropy.Adaptive.Observe.{
  observe_abs_level-Post, observe_first_index-Post, observe_index-Post,
}
use jxr.Entropy.Coefficients.Run.{u8_of}
use jxr.Entropy.Coefficients.Symbols.{
  Selecting, reading, observing, signed, small_level, escape_width, escaped_level, decode_abs_level,
  decode_first_index, decode_index_a, decode_index, abs_fixed_length, abs_remap, abs_level_tables,
  first_index_tables, index_a_tables,
}

-- A valid reader, and a selector with a property.
abbrev pub IsSelecting : (AdaptiveVlc → Type 0) → Selecting → Type 0
IsSelecting V w = IsValid w.reader × V w.vlc

module _ (V : AdaptiveVlc → Type 0) {A : Type 0} {P : A → Type 0} where
  with_reader-Post :
      (q : Result A × PacketBitReader) (w : Selecting)
      → Post IsValid P q
      → V w.vlc
      → Post (IsSelecting V) P (q.0, record w { reader = q.1 })
  with_reader-Post q w (returns p i) v = returns p (i, v)
  with_reader-Post q w (raises i) v = raises (i, v)

  with_vlc-Post :
      (q : Result A × AdaptiveVlc) (w : Selecting)
      → IsValid w.reader
      → Post V P q
      → Post (IsSelecting V) P (q.0, record w { vlc = q.1 })
  with_vlc-Post q w v (returns p i) = returns p (v, i)
  with_vlc-Post q w v (raises i) = raises (v, i)

  reading-Post :
      (m : Step PacketBitReader A) (w : Selecting)
      → Post IsValid P (m w.reader)
      → V w.vlc
      → Post (IsSelecting V) P (reading m w)
  reading-Post m w p v = with_reader-Post (m w.reader) w p v

  observing-Post :
      (m : Step AdaptiveVlc A) (w : Selecting)
      → IsValid w.reader
      → Post V P (m w.vlc)
      → Post (IsSelecting V) P (observing m w)
  observing-Post m w v p = with_vlc-Post (m w.vlc) w v p

pub signed-Post :
    {S : Type 0} {I : S → Type 0} (magnitude : ℤ) (negative : Bool) (s : S)
    → I s
    → Post I Any (signed magnitude negative s)
unfolding signed
signed-Post magnitude negative s v =
    elim (Bool-cases (negative && leb_ℤ magnitude (negsuc (2 ^ 31 - 1)))) [
      | inl lowest ↦ rw lowest (raises v)
      | inr rest ↦ rw rest (returns tt v)
    ]

small_level-Post :
    (symbol : ℕ) (r : PacketBitReader)
    → symbol < 6
    → IsValid r
    → Post IsValid Any (small_level symbol r)
unfolding small_level
small_level-Post symbol r h v =
    Post-continue (index-Any abs_fixed_length symbol r (omega arith) v) (λ fixed _ s v.
      Post-continue (read_bits-Post fixed s v) (λ bits _ s v.
        Post-continue (some_or-Any (i32_of bits) coefficient_overflow s v) (λ refinement _ s v.
          Post-continue (index-Any abs_remap symbol s (omega arith) v) (λ base _ s v.
            some_or-Any (i32_checked (base +ℤ refinement)) coefficient_overflow s v))))

-- The value of a few bits as a `u8`.
byte-Post :
    {B : Type 0} (n : ℕ) (r : PacketBitReader) (k : ℕ → Step PacketBitReader B)
    → ((low : ℕ) (s : PacketBitReader) → IsValid s → Post IsValid Any (k low s))
    → IsValid r
    → Post IsValid Any
        ((do bits ← read_bits n; low ← some_or (u8_of bits) coefficient_overflow; k low) r)
byte-Post n r k next v = Post-continue (read_bits-Post n r v) (λ bits _ s v.
    Post-continue (some_or-Any (u8_of bits) coefficient_overflow s v) (λ low _ s v. next low s v))

escape_width-Post : (r : PacketBitReader) → IsValid r → Post IsValid Any (escape_width r)
unfolding escape_width
escape_width-Post r v =
    byte-Post 4 r _
      (λ low s v. elim (Bool-cases (low + 4 == 19)) [
        | inr short ↦ rw short (returns tt v)
        | inl long ↦ rw long (
            byte-Post 2 s _
              (λ more s v. elim (Bool-cases (19 + more == 22)) [
                | inr short ↦ rw short (returns tt v)
                | inl long ↦ rw long (byte-Post 3 s _ (λ most s v. returns tt v) v)
              ])
              v)
      ])
      v

escaped_level-Post : (r : PacketBitReader) → IsValid r → Post IsValid Any (escaped_level r)
unfolding escaped_level
escaped_level-Post r v = Post-continue (escape_width-Post r v) (λ fixed _ s v.
    Post-continue (read_bits-Post fixed s v) (λ bits _ s v.
      Post-continue (some_or-Any (i32_of bits) coefficient_overflow s v) (λ refinement _ s v.
        Post-continue (some_or-Any (checked_shl (pos 1) fixed) coefficient_overflow s v)
          (λ power _ s v.
            Post-continue (some_or-Any (i32_checked (power +ℤ pos 2)) coefficient_overflow s v)
              (λ base _ s v.
                some_or-Any (i32_checked (base +ℤ refinement)) coefficient_overflow s v)))))

level_tail-Post :
    (symbol : ℕ) (r : PacketBitReader)
    → IsValid r
    → Post IsValid Any ((if ltb symbol 6 then small_level symbol else escaped_level) r)
level_tail-Post symbol r v = elim (Bool-cases (ltb symbol 6)) [
  | inl small ↦ rw small (small_level-Post symbol r (ground arith) v)
  | inr large ↦ rw large (escaped_level-Post r v)
]

-- The tables that a selector chooses from, with the symbols that they hold.
abbrev Holds : ℕ → List Table → Type 0
Holds bound tables = All (λ t. symbol_bound t ≡ bound) tables

symbol-Post :
    (V : AdaptiveVlc → Type 0) (bound : ℕ) (name : String) (t : Table) (w : Selecting)
    → symbol_bound t ≡ bound
    → IsValid w.reader
    → V w.vlc
    → Post (IsSelecting V) (λ symbol. symbol < bound) (reading (decode name (table t)) w)
symbol-Post V bound name t w same v h =
    reading-Post V (decode name (table t)) w
      (Post-weaken (decode-Post t name w.reader v) (λ a lt. omega (arith, same))) h

-- An absolute level is decoded without a panic, and its selector stays between its two tables.
pub decode_abs_level-Post :
    (w : Selecting) → IsSelecting IsPair w → Post (IsSelecting IsPair) Any (decode_abs_level w)
unfolding decode_abs_level
decode_abs_level-Post w (v, h) =
    Post-continue
      (index-Post {P = λ t. symbol_bound t ≡ 7} abs_level_tables w.vlc.table_index w
        (refl, (refl, tt)) (omega (arith, h.table_bound)) (v, h))
      (λ t same w (v, h). Post-continue (symbol-Post IsPair 7 _ t w same v h) (λ symbol lt w (v, h).
        Post-continue
          (observing-Post IsPair (observe_abs_level symbol) w v
            (observe_abs_level-Post symbol w.vlc lt h))
          (λ _ _ w (v, h).
            reading-Post IsPair (if ltb symbol 6 then small_level symbol else escaped_level) w
              (level_tail-Post symbol w.reader v) h)))

pub decode_first_index-Post :
    (w : Selecting)
    → IsSelecting (IsMultiple 4) w
    → Post (IsSelecting (IsMultiple 4)) (λ symbol. symbol < 12) (decode_first_index w)
unfolding decode_first_index
decode_first_index-Post w (v, h) =
    Post-continue
      (index-Post {P = λ t. symbol_bound t ≡ 12} first_index_tables w.vlc.table_index w
        (refl, (refl, (refl, (refl, (refl, tt))))) (omega (arith, h.table_bound)) (v, h))
      (λ t same w (v, h).
        Post-continue (symbol-Post (IsMultiple 4) 12 _ t w same v h) (λ symbol lt w (v, h).
          Post-continue
            (observing-Post (IsMultiple 4) (observe_first_index symbol) w v
              (observe_first_index-Post symbol w.vlc lt h))
            (λ _ _ w i. returns lt i)))

decode_index_a-Post :
    (w : Selecting)
    → IsSelecting (IsMultiple 3) w
    → Post (IsSelecting (IsMultiple 3)) (λ symbol. symbol < 6) (decode_index_a w)
unfolding decode_index_a
decode_index_a-Post w (v, h) =
    Post-continue
      (index-Post {P = λ t. symbol_bound t ≡ 6} index_a_tables w.vlc.table_index w
        (refl, (refl, (refl, (refl, tt)))) (omega (arith, h.table_bound)) (v, h))
      (λ t same w (v, h).
        Post-continue (symbol-Post (IsMultiple 3) 6 _ t w same v h) (λ symbol lt w (v, h).
          Post-continue
            (observing-Post (IsMultiple 3) (observe_index symbol) w v
              (observe_index-Post symbol w.vlc lt h))
            (λ _ _ w i. returns lt i)))

bit_bound : (bit : Bool) → (if bit then 1 else 0) < 2
bit_bound true = omega arith
bit_bound false = omega arith

-- The number of symbols that can follow a coefficient at a location.
abbrev pub index_bound : ℕ → ℕ
index_bound location = if ltb location 15 then 6 else if location == 15 then 4 else 2

pub decode_index-Post :
    (location : ℕ) (w : Selecting)
    → IsSelecting (IsMultiple 3) w
    → Post
        (IsSelecting (IsMultiple 3))
        (λ symbol. symbol < index_bound location)
        (decode_index location w)
unfolding decode_index
decode_index-Post location w (v, h) = elim (Bool-cases (ltb location 15)) [
  | inl early ↦ rw early (decode_index_a-Post w (v, h))
  | inr late ↦ elim (Bool-cases (location == 15)) [
    | inl last ↦ rw (late, last) (symbol-Post (IsMultiple 3) 4 "INDEX_B" Table.index_b w refl v h)
    | inr end ↦
        rw (late, end)
          (Post-continue (reading-Post (IsMultiple 3) read_bit w (read_bit-Post w.reader v) h)
            (λ bit _ w i. returns (bit_bound bit) i))
  ]
]

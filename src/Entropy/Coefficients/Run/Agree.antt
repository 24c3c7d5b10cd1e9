-- ===== src/Entropy/Coefficients/Run/Agree.antt =====
-- The two run decoders of coefficients.rs.
use jxr.Base.{
  ℕ, ◌+◌, ◌*◌, ◌-◌, ◌/◌, ◌^◌, ◌<◌, ◌≤◌, ◌≡◌, refl, arith, Bool, true, false, not, ◌&&◌, ◌||◌, inl,
  inr, Bool-cases, ltb, ◌==◌, none, some, bit_and, Option, get_elem?, leb, all_below,
  all_below_sound,
}
use jxr.Base.Int.{ℤ, pos, negsuc, ◌+ℤ◌, ◌*ℤ◌}
use jxr.Entropy.Step.{Result, coefficient_overflow}
use jxr.Entropy.Step.Post.{Post, returns, raises, Post-continue, Post-weaken, some_or-Post}
use jxr.Entropy.BitReader.{PacketBitReader, peek_byte, skip_cached}
use jxr.Entropy.BitReader.Cache.{IsValid}
use jxr.Entropy.BitReader.Peek.{peek_byte-stream_bits, skip_cached_enough, skip_cached_short}
use jxr.Entropy.BitReader.Safe.{Any, read_bits-lt}
use jxr.Entropy.Vlc.Codes.{Table, codes_of}
use jxr.Entropy.Vlc.Serial.{table}
use jxr.Entropy.Vlc.Tables.{has_symbol}
use jxr.Entropy.Vlc.Decode.{next_byte-lt}
use jxr.Entropy.Vlc.Agree.{decode-Post, decode-has_symbol}
use jxr.Entropy.Coefficients.Run.{
  decode_run, decode_long_run, decode_run_cached, run_entry, run_of_prefix, run_bin,
  run_fixed_length, run_remap, u8_of,
}
use jxr.Entropy.Vlc.{decode, new}
use std.Path.{subst}

abbrev is_bin : Option ℤ → Bool
is_bin (some (pos n)) = ltb n 3
is_bin (some (negsuc n)) = false
is_bin none = false

is_bin_sound : (o : Option ℤ) → is_bin o ≡ true → (n : ℕ) × (o ≡ some (pos n)) × (n < 3)
is_bin_sound (some (pos n)) h = (n, refl, ground arith)
is_bin_sound (some (negsuc n)) h = absurd (ground arith)
is_bin_sound none h = absurd (ground arith)

-- The row of the run tables for a maximum of 5 to 14.
run_bin_at :
    (max_run : ℕ)
    → 4 < max_run
    → max_run < 15
    → (n : ℕ) × (get_elem? run_bin max_run ≡ some (pos n)) × (n < 3)
unfolding all_below
run_bin_at max_run h g = is_bin_sound (get_elem? run_bin max_run) (
    ground
      (arith, all_below_sound 15 (λ m. leb m 4 || is_bin (get_elem? run_bin m)) max_run refl g))

table_index_lem : (i n : ℕ) → pos i +ℤ pos 5 *ℤ pos n ≡ pos (i + 5 * n)
unfolding ◌+ℤ◌ ◌*ℤ◌
table_index_lem i n = ground arith

-- A decoded run: 1 to 14, and not above a maximum that has a code list of its own.
pub record IsRun (max_run run : ℕ) : Type 0 where
  pub at_least : 1 ≤ run
  pub at_most : run ≤ 14
  pub short : max_run ≤ 4 → run ≤ max_run

-- A row of the tables of long runs: the base and the width of what is added.
is_row : Option ℕ → Option ℕ → Bool
is_row (some base) (some width) = leb 1 base && leb (base + 2 ^ width) 15
is_row _ _ = false

is_row_sound :
    (base width : Option ℕ)
    → is_row base width ≡ true
    → (a : ℕ) × (w : ℕ) × (base ≡ some a) × (width ≡ some w) × (1 ≤ a) × (a + 2 ^ w ≤ 15)
unfolding is_row
is_row_sound (some a) (some w) h = (a, w, refl, refl, ground arith, ground arith)
is_row_sound none w h = absurd (ground arith)
is_row_sound (some a) none h = absurd (ground arith)

rows_at :
    (i : ℕ)
    → i < 15
    → (a : ℕ) × (w : ℕ) × (get_elem? run_remap i ≡ some a)
      × (get_elem? run_fixed_length i ≡ some w)
      × (1 ≤ a)
      × (a + 2 ^ w ≤ 15)
unfolding all_below is_row
rows_at i h = is_row_sound (get_elem? run_remap i) (get_elem? run_fixed_length i) (
    all_below_sound 15 (λ j. is_row (get_elem? run_remap j) (get_elem? run_fixed_length j)) i refl
      h)

u8_of-some : (n a : ℕ) → u8_of n ≡ some a → a ≡ n
u8_of-some n a h = ground arith

decode_long_run-Post :
    (max_run : ℕ) (r : PacketBitReader)
    → 4 < max_run
    → max_run < 15
    → IsValid r
    → Post IsValid (IsRun max_run) (decode_long_run max_run r)
unfolding decode_long_run
decode_long_run-Post max_run r h g v =
    let (n, at_bin, row) = run_bin_at max_run h g in
    rw at_bin (
      Post-continue (decode-Post Table.run_index "RUN_INDEX" r v) (λ i small s v'.
        let (base, width, at_base, at_width, above, below) = rows_at (i + 5 * n) (omega arith) in
        rw (table_index_lem i n, at_width)
          (Post-continue (read_bits-lt width s v') (λ bits fits s₁ v₁.
            Post-continue (some_or-Post (u8_of bits) coefficient_overflow s₁ (u8_of-some bits) v₁)
              (λ refinement same s₂ v₂. rw at_base (
                returns
                  (record {
                    at_least = omega arith;
                    at_most = omega arith;
                    short = λ k. absurd (omega arith);
                  })
                  v₂))))))

symbol-IsRun :
    (max_run symbol : ℕ) → 1 ≤ symbol → symbol ≤ max_run → max_run ≤ 4 → IsRun max_run symbol
symbol-IsRun max_run symbol h g k = record { at_least = h; at_most = omega arith; short = λ _. g }

decode_value-Post :
    (t : Table) (max_run : ℕ) (r : PacketBitReader)
    → ((symbol : ℕ) → has_symbol (codes_of t) symbol ≡ true → IsRun max_run symbol)
    → IsValid r
    → Post IsValid (IsRun max_run) (decode "RUN_VALUE" (table t) r)
decode_value-Post t max_run r k v = Post-weaken (decode-has_symbol t "RUN_VALUE" r v) k

run_value_2-IsRun :
    (symbol : ℕ) → has_symbol (codes_of Table.run_value_2) symbol ≡ true → IsRun 2 symbol
unfolding codes_of
run_value_2-IsRun a h = symbol-IsRun 2 a (ground arith) (ground arith) (omega arith)

run_value_3-IsRun :
    (symbol : ℕ) → has_symbol (codes_of Table.run_value_3) symbol ≡ true → IsRun 3 symbol
unfolding codes_of
run_value_3-IsRun a h = symbol-IsRun 3 a (ground arith) (ground arith) (omega arith)

run_value_4-IsRun :
    (symbol : ℕ) → has_symbol (codes_of Table.run_value_4) symbol ≡ true → IsRun 4 symbol
unfolding codes_of
run_value_4-IsRun a h = symbol-IsRun 4 a (ground arith) (ground arith) (omega arith)

at_max :
    {m n : ℕ} {q : Result ℕ × PacketBitReader}
    → (m == n) ≡ true
    → Post IsValid (IsRun n) q
    → Post IsValid (IsRun m) q
at_max {m} {n} {q} h p =
    let same : n ≡ m = ground arith in subst (λ k. Post IsValid (IsRun k) q) same p

-- No run decoder panics, each leaves a valid reader, and a decoded run is in range.
pub decode_run-Post :
    (max_run : ℕ) (r : PacketBitReader)
    → IsValid r
    → Post IsValid (IsRun max_run) (decode_run max_run r)
unfolding decode_run
decode_run-Post max_run r v = elim (Bool-cases ((max_run == 0) || ltb 14 max_run)) [
  | inl bad ↦ rw bad (raises v)
  | inr ok_range ↦ elim (Bool-cases (max_run == 1)) [
    | inl one ↦
        rw (ok_range, one)
          (returns (symbol-IsRun max_run 1 (omega arith) (ground arith) (ground arith)) v)
    | inr n1 ↦ elim (Bool-cases (max_run == 2)) [
      | inl two ↦
          rw (ok_range, n1, two)
            (at_max two (decode_value-Post Table.run_value_2 2 r run_value_2-IsRun v))
      | inr n2 ↦ elim (Bool-cases (max_run == 3)) [
        | inl three ↦
            rw (ok_range, n1, n2, three)
              (at_max three (decode_value-Post Table.run_value_3 3 r run_value_3-IsRun v))
        | inr n3 ↦ elim (Bool-cases (max_run == 4)) [
          | inl four ↦
              rw (ok_range, n1, n2, n3, four)
                (at_max four (decode_value-Post Table.run_value_4 4 r run_value_4-IsRun v))
          | inr n4 ↦
              rw (ok_range, n1, n2, n3, n4)
                (decode_long_run-Post max_run r (ground arith) (ground arith) v)
        ]
      ]
    ]
  ]
]

skip_cached-IsValid : (n : ℕ) (r : PacketBitReader) → IsValid r → IsValid (skip_cached n r).1
skip_cached-IsValid n r v = elim (Bool-cases (ltb r.cached n)) [
  | inl short ↦ rw (skip_cached_short n r (ground arith)) v
  | inr held ↦ let (e, after) = skip_cached_enough n r v (ground arith) in rw e after.valid
]

-- Whether the run of an entry is in range for the maximum.
in_range : ℕ → ℕ → Bool
in_range max_run run = leb 1 run && leb run 14 && (leb 5 max_run || leb run max_run)

in_range_sound : (max_run run : ℕ) → in_range max_run run ≡ true → IsRun max_run run
unfolding in_range
in_range_sound max_run run h = record {
  at_least = ground arith;
  at_most = ground arith;
  short = λ k. ground arith;
}

row_in_range : ℕ → Bool
row_in_range max_run = all_below 256 (λ byte. in_range max_run (run_entry max_run byte / 2 ^ 3))

-- By evaluation of the whole look-up table.
entries_in_range : all_below 14 (λ m. row_in_range (m + 1)) ≡ true
unfolding all_below row_in_range in_range run_entry run_of_prefix table new codes_of ◌+ℤ◌ ◌*ℤ◌
entries_in_range = refl

run_entry-IsRun :
    (max_run byte : ℕ)
    → 1 ≤ max_run
    → max_run < 15
    → byte < 256
    → IsRun max_run (run_entry max_run byte / 2 ^ 3)
unfolding row_in_range
run_entry-IsRun max_run byte h g small =
    let back : max_run - 1 + 1 ≡ max_run = omega arith in
    let row : row_in_range (max_run - 1 + 1) ≡ true =
      all_below_sound 14 (λ m. row_in_range (m + 1)) (max_run - 1) entries_in_range (omega arith) in
    let held = all_below_sound 256 _ byte row small in
    subst (λ m. IsRun m (run_entry m byte / 2 ^ 3)) back (in_range_sound (max_run - 1 + 1) _ held)

-- For each maximum and valid reader the cached run decoder does not panic and leaves a valid reader,
-- and a decoded run is 1 to 14, and not above a maximum of four or less.
pub decode_run_cached-IsRun :
    (max_run : ℕ) (r : PacketBitReader)
    → IsValid r
    → Post IsValid (IsRun max_run) (decode_run_cached max_run r)
unfolding decode_run_cached
decode_run_cached-IsRun max_run r v =
    let (byte, after, _) = peek_byte-stream_bits r v in
    let small : (peek_byte r).0 < 256 = rw byte (next_byte-lt r) in
    let count = bit_and (run_entry max_run (peek_byte r).0) 7 in
    let behind = skip_cached-IsValid count (peek_byte r).1 after.valid in
    elim (Bool-cases (ltb max_run 15 && not (max_run == 0))) [
      | inl short ↦ elim (Bool-cases (skip_cached count (peek_byte r).1).0) [
        | inl held ↦
            rw (short, held)
              (returns (run_entry-IsRun max_run (peek_byte r).0 (ground arith) (ground arith) small)
                behind)
        | inr missing ↦ rw (short, missing) (decode_run-Post max_run _ behind)
      ]
      | inr other ↦ rw other (decode_run-Post max_run r v)
    ]

pub decode_run_cached-Post :
    (max_run : ℕ) (r : PacketBitReader) → IsValid r → Post IsValid Any (decode_run_cached max_run r)
decode_run_cached-Post max_run r v = Post-weaken (decode_run_cached-IsRun max_run r v) (λ _ _. tt)

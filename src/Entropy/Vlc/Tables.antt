-- ===== src/Entropy/Vlc/Tables.antt =====
-- The static tables of vlc.rs and the search through their codes, by evaluation.
use jxr.Base.{
  ℕ, ◌<◌, ◌≤◌, ◌≡◌, refl, Bool, true, false, ◌&&◌, ◌==◌, leb, ltb, all_below, all_below_sound,
  arith, List, [], ◌∷◌, ◌||◌,
}
use jxr.Entropy.Vlc.{VlcCode, PrefixTable, new, entry_at, entry_length, entry_symbol}
use jxr.Entropy.Vlc.Codes.{Table, codes_of}
use jxr.Entropy.Vlc.Serial.{
  Outcome, found, ended, no_code, search_byte, lookup_byte, longest, find_code, table,
}

same_outcome : Outcome → Outcome → Bool
same_outcome (found s n) (found t m) = (s == t) && (n == m)
same_outcome (ended n) (ended m) = n == m
same_outcome no_code no_code = true
same_outcome _ _ = false

same_outcome_sound : (x y : Outcome) → same_outcome x y ≡ true → x ≡ y
unfolding same_outcome
same_outcome_sound (found s n) (found t m) h = ground arith
same_outcome_sound (ended n) (ended m) h = ground arith
same_outcome_sound no_code no_code h = refl
same_outcome_sound _ _ h = ground arith

agrees : PrefixTable → List VlcCode → Bool
agrees t codes =
    all_below 256 (λ byte. all_below 9 (λ shown.
      same_outcome (lookup_byte t byte shown) (search_byte codes byte shown (longest codes) 0)))
    && (t.max_length == longest codes)
    && leb (longest codes) 8

agrees_parts :
    (t : PrefixTable) (codes : List VlcCode)
    → agrees t codes ≡ true
    → (all_below 256 (λ byte. all_below 9 (λ shown.
          same_outcome (lookup_byte t byte shown) (search_byte codes byte shown (longest codes) 0)))
        ≡ true)
      × (t.max_length ≡ longest codes)
      × (longest codes ≤ 8)
unfolding agrees
agrees_parts t codes h = ground arith

-- By evaluation of both on every byte and every number of bits shown.
table-agrees : (t : Table) → agrees (table t) (codes_of t) ≡ true
unfolding agrees all_below same_outcome lookup_byte search_byte longest find_code table new codes_of
table-agrees Table.abs_level_0 = refl
table-agrees Table.abs_level_1 = refl
table-agrees Table.run_value_2 = refl
table-agrees Table.run_value_3 = refl
table-agrees Table.run_value_4 = refl
table-agrees Table.run_index = refl
table-agrees Table.index_a_0 = refl
table-agrees Table.index_a_1 = refl
table-agrees Table.index_a_2 = refl
table-agrees Table.index_a_3 = refl
table-agrees Table.index_b = refl
table-agrees Table.first_index_0 = refl
table-agrees Table.first_index_1 = refl
table-agrees Table.first_index_2 = refl
table-agrees Table.first_index_3 = refl
table-agrees Table.first_index_4 = refl

pub lookup_byte-search_byte :
    (t : Table) (byte shown : ℕ)
    → byte < 256
    → shown ≤ 8
    → lookup_byte (table t) byte shown
      ≡ search_byte (codes_of t) byte shown (longest (codes_of t)) 0
lookup_byte-search_byte t byte shown hb hs = same_outcome_sound _ _ (
    all_below_sound 9 _ shown
      (all_below_sound 256 _ byte (agrees_parts (table t) (codes_of t) (table-agrees t)).0 hb)
      (omega arith))

pub max_length-longest :
    (t : Table) → ((table t).max_length ≡ longest (codes_of t)) × (longest (codes_of t) ≤ 8)
max_length-longest t =
    let parts = agrees_parts (table t) (codes_of t) (table-agrees t) in (parts.1, parts.2)

-- One more than the largest symbol of a table.
abbrev pub symbol_bound : Table → ℕ
symbol_bound Table.abs_level_0 = 7
symbol_bound Table.abs_level_1 = 7
symbol_bound Table.run_value_2 = 3
symbol_bound Table.run_value_3 = 4
symbol_bound Table.run_value_4 = 5
symbol_bound Table.run_index = 5
symbol_bound Table.index_a_0 = 6
symbol_bound Table.index_a_1 = 6
symbol_bound Table.index_a_2 = 6
symbol_bound Table.index_a_3 = 6
symbol_bound Table.index_b = 4
symbol_bound Table.first_index_0 = 12
symbol_bound Table.first_index_1 = 12
symbol_bound Table.first_index_2 = 12
symbol_bound Table.first_index_3 = 12
symbol_bound Table.first_index_4 = 12

bounded : PrefixTable → ℕ → Bool
bounded t bound =
    all_below 256
      (λ byte. ltb (entry_symbol (entry_at t byte)) bound && leb (entry_length (entry_at t byte)) 8)

symbols_bounded : (t : Table) → bounded (table t) (symbol_bound t) ≡ true
unfolding bounded all_below table new codes_of
symbols_bounded Table.abs_level_0 = refl
symbols_bounded Table.abs_level_1 = refl
symbols_bounded Table.run_value_2 = refl
symbols_bounded Table.run_value_3 = refl
symbols_bounded Table.run_value_4 = refl
symbols_bounded Table.run_index = refl
symbols_bounded Table.index_a_0 = refl
symbols_bounded Table.index_a_1 = refl
symbols_bounded Table.index_a_2 = refl
symbols_bounded Table.index_a_3 = refl
symbols_bounded Table.index_b = refl
symbols_bounded Table.first_index_0 = refl
symbols_bounded Table.first_index_1 = refl
symbols_bounded Table.first_index_2 = refl
symbols_bounded Table.first_index_3 = refl
symbols_bounded Table.first_index_4 = refl

bounded_parts :
    (t : PrefixTable) (bound byte : ℕ)
    → bounded t bound ≡ true
    → byte < 256
    → (entry_symbol (entry_at t byte) < bound) × (entry_length (entry_at t byte) ≤ 8)
unfolding bounded
bounded_parts t bound byte h small = ground (arith, all_below_sound 256 _ byte h small)

pub entry_symbol-lt :
    (t : Table) (byte : ℕ) → byte < 256 → entry_symbol (entry_at (table t) byte) < symbol_bound t
entry_symbol-lt t byte h = (bounded_parts (table t) (symbol_bound t) byte (symbols_bounded t) h).0

pub entry_length-le :
    (t : Table) (byte : ℕ) → byte < 256 → entry_length (entry_at (table t) byte) ≤ 8
entry_length-le t byte h = (bounded_parts (table t) (symbol_bound t) byte (symbols_bounded t) h).1

-- Whether a code of the list has the symbol.
abbrev pub has_symbol : List VlcCode → ℕ → Bool
has_symbol [] symbol = false
has_symbol (c ∷ codes) symbol = (c.symbol == symbol) || has_symbol codes symbol

known : PrefixTable → List VlcCode → Bool
known t codes = all_below 256 (λ byte. has_symbol codes (entry_symbol (entry_at t byte)))

-- The codes of each table are complete, so that each entry holds the symbol of one.
symbols_known : (t : Table) → known (table t) (codes_of t) ≡ true
unfolding known all_below table new codes_of
symbols_known Table.abs_level_0 = refl
symbols_known Table.abs_level_1 = refl
symbols_known Table.run_value_2 = refl
symbols_known Table.run_value_3 = refl
symbols_known Table.run_value_4 = refl
symbols_known Table.run_index = refl
symbols_known Table.index_a_0 = refl
symbols_known Table.index_a_1 = refl
symbols_known Table.index_a_2 = refl
symbols_known Table.index_a_3 = refl
symbols_known Table.index_b = refl
symbols_known Table.first_index_0 = refl
symbols_known Table.first_index_1 = refl
symbols_known Table.first_index_2 = refl
symbols_known Table.first_index_3 = refl
symbols_known Table.first_index_4 = refl

pub entry_symbol-has_symbol :
    (t : Table) (byte : ℕ)
    → byte < 256
    → has_symbol (codes_of t) (entry_symbol (entry_at (table t) byte)) ≡ true
unfolding known
entry_symbol-has_symbol t byte h = all_below_sound 256 _ byte (symbols_known t) h

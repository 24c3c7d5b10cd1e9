-- ===== src/Entropy/Vlc/Codes.antt =====
-- The normative codes of T.832 in crates/jxr-native/src/entropy/vlc.rs.
use jxr.Base.{ℕ, List, [], ◌∷◌}
use jxr.Entropy.Vlc.{VlcCode}

abbrev c : ℕ → ℕ → ℕ → VlcCode
c bits code_length symbol = record { bits = bits; code_length = code_length; symbol = symbol }

abbrev pub abs_level_codes_0 : List VlcCode
abs_level_codes_0 =
    c 0b01 2 0
    ∷ c 0b10 2 1
    ∷ c 0b11 2 2
    ∷ c 0b001 3 3
    ∷ c 0b0001 4 4
    ∷ c 0b00000 5 5
    ∷ c 0b00001 5 6
    ∷ []

abbrev pub abs_level_codes_1 : List VlcCode
abs_level_codes_1 =
    c 0b1 1 0
    ∷ c 0b01 2 1
    ∷ c 0b001 3 2
    ∷ c 0b0001 4 3
    ∷ c 0b00001 5 4
    ∷ c 0b000000 6 5
    ∷ c 0b000001 6 6
    ∷ []

abbrev pub index_a_codes_0 : List VlcCode
index_a_codes_0 =
    c 0b1 1 0 ∷ c 0b00000 5 1 ∷ c 0b001 3 2 ∷ c 0b00001 5 3 ∷ c 0b01 2 4 ∷ c 0b0001 4 5 ∷ []

abbrev pub index_a_codes_1 : List VlcCode
index_a_codes_1 =
    c 0b01 2 0 ∷ c 0b0000 4 1 ∷ c 0b10 2 2 ∷ c 0b0001 4 3 ∷ c 0b11 2 4 ∷ c 0b001 3 5 ∷ []

abbrev pub index_a_codes_2 : List VlcCode
index_a_codes_2 =
    c 0b0000 4 0 ∷ c 0b0001 4 1 ∷ c 0b01 2 2 ∷ c 0b10 2 3 ∷ c 0b11 2 4 ∷ c 0b001 3 5 ∷ []

abbrev pub index_a_codes_3 : List VlcCode
index_a_codes_3 =
    c 0b00000 5 0 ∷ c 0b00001 5 1 ∷ c 0b01 2 2 ∷ c 0b1 1 3 ∷ c 0b0001 4 4 ∷ c 0b001 3 5 ∷ []

abbrev pub first_index_codes_0 : List VlcCode
first_index_codes_0 =
    c 0b00001 5 0
    ∷ c 0b000001 6 1
    ∷ c 0b0000000 7 2
    ∷ c 0b0000001 7 3
    ∷ c 0b00100 5 4
    ∷ c 0b010 3 5
    ∷ c 0b00101 5 6
    ∷ c 0b1 1 7
    ∷ c 0b00110 5 8
    ∷ c 0b0001 4 9
    ∷ c 0b00111 5 10
    ∷ c 0b011 3 11
    ∷ []

abbrev pub first_index_codes_1 : List VlcCode
first_index_codes_1 =
    c 0b0010 4 0
    ∷ c 0b00010 5 1
    ∷ c 0b000000 6 2
    ∷ c 0b000001 6 3
    ∷ c 0b0011 4 4
    ∷ c 0b010 3 5
    ∷ c 0b00011 5 6
    ∷ c 0b11 2 7
    ∷ c 0b011 3 8
    ∷ c 0b100 3 9
    ∷ c 0b00001 5 10
    ∷ c 0b101 3 11
    ∷ []

abbrev pub first_index_codes_2 : List VlcCode
first_index_codes_2 =
    c 0b11 2 0
    ∷ c 0b001 3 1
    ∷ c 0b0000000 7 2
    ∷ c 0b0000001 7 3
    ∷ c 0b00001 5 4
    ∷ c 0b010 3 5
    ∷ c 0b0000010 7 6
    ∷ c 0b011 3 7
    ∷ c 0b100 3 8
    ∷ c 0b101 3 9
    ∷ c 0b0000011 7 10
    ∷ c 0b0001 4 11
    ∷ []

abbrev pub first_index_codes_3 : List VlcCode
first_index_codes_3 =
    c 0b001 3 0
    ∷ c 0b11 2 1
    ∷ c 0b0000000 7 2
    ∷ c 0b00001 5 3
    ∷ c 0b00010 5 4
    ∷ c 0b010 3 5
    ∷ c 0b0000001 7 6
    ∷ c 0b011 3 7
    ∷ c 0b00011 5 8
    ∷ c 0b100 3 9
    ∷ c 0b000001 6 10
    ∷ c 0b101 3 11
    ∷ []

abbrev pub first_index_codes_4 : List VlcCode
first_index_codes_4 =
    c 0b010 3 0
    ∷ c 0b1 1 1
    ∷ c 0b0000001 7 2
    ∷ c 0b0001 4 3
    ∷ c 0b0000010 7 4
    ∷ c 0b011 3 5
    ∷ c 0b00000000 8 6
    ∷ c 0b0010 4 7
    ∷ c 0b0000011 7 8
    ∷ c 0b0011 4 9
    ∷ c 0b00000001 8 10
    ∷ c 0b00001 5 11
    ∷ []

abbrev pub run_value_2_codes : List VlcCode
run_value_2_codes = c 0b1 1 1 ∷ c 0b0 1 2 ∷ []

abbrev pub run_value_3_codes : List VlcCode
run_value_3_codes = c 0b1 1 1 ∷ c 0b01 2 2 ∷ c 0b00 2 3 ∷ []

abbrev pub run_value_4_codes : List VlcCode
run_value_4_codes = c 0b1 1 1 ∷ c 0b01 2 2 ∷ c 0b001 3 3 ∷ c 0b000 3 4 ∷ []

abbrev pub run_index_codes : List VlcCode
run_index_codes = c 0b1 1 0 ∷ c 0b01 2 1 ∷ c 0b001 3 2 ∷ c 0b0000 4 3 ∷ c 0b0001 4 4 ∷ []

abbrev pub index_b_codes : List VlcCode
index_b_codes = c 0b0 1 0 ∷ c 0b10 2 2 ∷ c 0b110 3 1 ∷ c 0b111 3 3 ∷ []

-- The static tables of the decoder.
pub data Table : Type 0 where
  abs_level_0 abs_level_1 : Table
  run_value_2 run_value_3 run_value_4 run_index : Table
  index_a_0 index_a_1 index_a_2 index_a_3 index_b : Table
  first_index_0 first_index_1 first_index_2 first_index_3 first_index_4 : Table

unfoldable pub codes_of : Table → List VlcCode
codes_of abs_level_0 = abs_level_codes_0
codes_of abs_level_1 = abs_level_codes_1
codes_of run_value_2 = run_value_2_codes
codes_of run_value_3 = run_value_3_codes
codes_of run_value_4 = run_value_4_codes
codes_of run_index = run_index_codes
codes_of index_a_0 = index_a_codes_0
codes_of index_a_1 = index_a_codes_1
codes_of index_a_2 = index_a_codes_2
codes_of index_a_3 = index_a_codes_3
codes_of index_b = index_b_codes
codes_of first_index_0 = first_index_codes_0
codes_of first_index_1 = first_index_codes_1
codes_of first_index_2 = first_index_codes_2
codes_of first_index_3 = first_index_codes_3
codes_of first_index_4 = first_index_codes_4

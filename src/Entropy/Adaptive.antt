-- ===== src/Entropy/Adaptive.antt =====
-- crates/jxr-native/src/entropy/adaptive.rs: the adaptive choice of code tables.
-- `discrim` changes by at most 2 for each symbol and is cut back to 64 by each adaptation, so its
-- `i32` is taken for an integer.
pub mod Bounds
pub mod Observe
use jxr.Base.{ℕ, ◌+◌, ◌-◌, Bool, true, false, not, ◌&&◌, List, [], ◌∷◌, ◌==◌, if◌then◌else◌}
use jxr.Base.Int.{ℤ, pos, negsuc, ◌+ℤ◌, ltb_ℤ, clamp_ℤ}
use jxr.Entropy.Step.{Result, ok, Step, ◌>>=◌, index}
use jxr.Entropy.Band.{Two, both, at, put_at, each}

abbrev m1 : ℤ
m1 = negsuc 0

abbrev m2 : ℤ
m2 = negsuc 1

abbrev p0 : ℤ
p0 = pos 0

abbrev p1 : ℤ
p1 = pos 1

abbrev p2 : ℤ
p2 = pos 2

abbrev pub abs_level_delta : List ℤ
abs_level_delta = p1 ∷ p0 ∷ m1 ∷ m1 ∷ m1 ∷ m1 ∷ m1 ∷ []

abbrev pub first_index_delta : List (List ℤ)
first_index_delta =
    (p1 ∷ p1 ∷ p1 ∷ p1 ∷ p1 ∷ p0 ∷ p0 ∷ m1 ∷ p2 ∷ p1 ∷ p0 ∷ p0 ∷ [])
    ∷ (p2 ∷ p2 ∷ m1 ∷ m1 ∷ m1 ∷ p0 ∷ m2 ∷ m1 ∷ p0 ∷ p0 ∷ m2 ∷ m1 ∷ [])
    ∷ (m1 ∷ p1 ∷ p0 ∷ p2 ∷ p0 ∷ p0 ∷ p0 ∷ p0 ∷ m2 ∷ p0 ∷ p1 ∷ p1 ∷ [])
    ∷ (p0 ∷ p1 ∷ p0 ∷ p1 ∷ m2 ∷ p0 ∷ m1 ∷ m1 ∷ m2 ∷ m1 ∷ m2 ∷ m2 ∷ [])
    ∷ []

abbrev pub index_delta : List (List ℤ)
index_delta =
    (m1 ∷ p1 ∷ p1 ∷ p1 ∷ p0 ∷ p1 ∷ [])
    ∷ (m2 ∷ p0 ∷ p0 ∷ p2 ∷ p0 ∷ p0 ∷ [])
    ∷ (m1 ∷ m1 ∷ p0 ∷ p1 ∷ m2 ∷ p0 ∷ [])
    ∷ []

pub record AdaptiveVlc : Type 0 where
  pub discrim_0 : ℤ
  pub discrim_1 : ℤ
  pub table_index : ℕ
  pub delta_index_0 : ℕ
  pub delta_index_1 : ℕ

abbrev pub two_tables : AdaptiveVlc
two_tables = record {
  discrim_0 = p0;
  discrim_1 = p0;
  table_index = 0;
  delta_index_0 = 0;
  delta_index_1 = 0;
}

abbrev pub multiple_tables : AdaptiveVlc
multiple_tables = record {
  discrim_0 = p0;
  discrim_1 = p0;
  table_index = 1;
  delta_index_0 = 0;
  delta_index_1 = 1;
}

unfoldable pub observe_one : ℕ → List ℤ → Step AdaptiveVlc (Unit {0})
observe_one symbol delta = do
  change ← index delta symbol
  λ s. (ok tt, record s { discrim_0 = s.discrim_0 +ℤ change })

-- `observe_two`, and `observe_two_index` at its own table.
unfoldable pub observe_two : ℕ → List (List ℤ) → Step AdaptiveVlc (Unit {0})
observe_two symbol delta s =
    (do
      row ← index delta s.delta_index_0
      change ← index row symbol
      row' ← λ s'. index delta s'.delta_index_1 s'
      change' ← index row' symbol
      λ s'. (
        ok tt,
        record s' { discrim_0 = s'.discrim_0 +ℤ change; discrim_1 = s'.discrim_1 +ℤ change' },
      ))
      s

unfoldable pub adapt_one : AdaptiveVlc → AdaptiveVlc
adapt_one s =
    if ltb_ℤ s.discrim_0 (negsuc 7) && not (s.table_index == 0)
    then record s { table_index = s.table_index - 1; discrim_0 = p0 }
    else if ltb_ℤ (pos 8) s.discrim_0 && not (s.table_index == 1)
    then record s { table_index = s.table_index + 1; discrim_0 = p0 }
    else record s { discrim_0 = clamp_ℤ s.discrim_0 (negsuc 63) (pos 64) }

-- A change of table starts both counts again and selects the rows for the new neighbours.
unfoldable pub changed_to : ℕ → ℕ → AdaptiveVlc
changed_to max_table_index i = record {
  discrim_0 = p0;
  discrim_1 = p0;
  table_index = i;
  delta_index_0 = if i == max_table_index then i - 1 else if i == 0 then 0 else i - 1;
  delta_index_1 = if i == max_table_index then i - 1 else if i == 0 then 0 else i;
}

unfoldable pub adapt_two : ℕ → AdaptiveVlc → AdaptiveVlc
unfolding changed_to
adapt_two max_table_index s =
    if ltb_ℤ s.discrim_0 (negsuc 7) && not (s.table_index == 0)
    then changed_to max_table_index (s.table_index - 1)
    else if ltb_ℤ (pos 8) s.discrim_1 && not (s.table_index == max_table_index)
    then changed_to max_table_index (s.table_index + 1)
    else record s {
      discrim_0 = clamp_ℤ s.discrim_0 (negsuc 63) (pos 64);
      discrim_1 = clamp_ℤ s.discrim_1 (negsuc 63) (pos 64);
    }

pub record DcVlcState : Type 0 where
  pub abs_level : Two AdaptiveVlc

abbrev pub new_dc : DcVlcState
new_dc = record { abs_level = both two_tables }

unfoldable pub adapt_dc : DcVlcState → DcVlcState
adapt_dc s = record { abs_level = each adapt_one s.abs_level }

-- `first_index` by chroma, `index` by chroma and context, `abs_level` by context.
pub record AcVlcState : Type 0 where
  pub first_index : Two AdaptiveVlc
  pub index_vlc : Two (Two AdaptiveVlc)
  pub abs_level : Two AdaptiveVlc

abbrev pub new_ac : AcVlcState
new_ac = record {
  first_index = both multiple_tables;
  index_vlc = both (both multiple_tables);
  abs_level = both two_tables;
}

unfoldable pub adapt_ac : AcVlcState → AcVlcState
adapt_ac s = record {
  first_index = each (adapt_two 4) s.first_index;
  index_vlc = each (each (adapt_two 3)) s.index_vlc;
  abs_level = each adapt_one s.abs_level;
}

unfoldable pub observe_abs_level : ℕ → Step AdaptiveVlc (Unit {0})
observe_abs_level symbol = observe_one symbol abs_level_delta

unfoldable pub observe_first_index : ℕ → Step AdaptiveVlc (Unit {0})
observe_first_index symbol = observe_two symbol first_index_delta

unfoldable pub observe_index : ℕ → Step AdaptiveVlc (Unit {0})
observe_index symbol = observe_two symbol index_delta

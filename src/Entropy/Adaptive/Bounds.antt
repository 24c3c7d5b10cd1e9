-- ===== src/Entropy/Adaptive/Bounds.antt =====
-- The table indices and counts of the selectors of adaptive.rs.
use jxr.Base.{ℕ, ◌+◌, ◌≤◌, ◌<◌, ◌≡◌, ◌⊎◌, arith}
use jxr.Base.Int.{pos, negsuc, ◌≤ℤ◌}
use jxr.Entropy.Adaptive.{
  AdaptiveVlc, DcVlcState, AcVlcState, new_ac, adapt_one, adapt_two, adapt_dc, adapt_ac,
}

-- A selector between two tables.
pub record IsPair (v : AdaptiveVlc) : Type 0 where
  pub table_bound : v.table_index ≤ 1

-- A selector among `max + 1` tables, with its two rows among `max`.
pub record IsMultiple (max : ℕ) (v : AdaptiveVlc) : Type 0 where
  pub table_bound : v.table_index ≤ max
  pub row_0 : v.delta_index_0 < max
  pub row_1 : v.delta_index_1 < max

pub record IsAc (v : AcVlcState) : Type 0 where
  pub first_luma : IsMultiple 4 v.first_index.first
  pub first_chroma : IsMultiple 4 v.first_index.second
  pub index_luma_0 : IsMultiple 3 v.index_vlc.first.first
  pub index_luma_1 : IsMultiple 3 v.index_vlc.first.second
  pub index_chroma_0 : IsMultiple 3 v.index_vlc.second.first
  pub index_chroma_1 : IsMultiple 3 v.index_vlc.second.second
  pub level_0 : IsPair v.abs_level.first
  pub level_1 : IsPair v.abs_level.second

pub record IsDc (v : DcVlcState) : Type 0 where
  pub level_0 : IsPair v.abs_level.first
  pub level_1 : IsPair v.abs_level.second

pub adapt_one-IsPair : (v : AdaptiveVlc) → IsPair v → IsPair (adapt_one v)
unfolding adapt_one
adapt_one-IsPair v h = record { table_bound = ground arith }

pub adapt_two-IsMultiple :
    (max : ℕ) (v : AdaptiveVlc) → 1 < max → IsMultiple max v → IsMultiple max (adapt_two max v)
unfolding adapt_two
adapt_two-IsMultiple max v big h = record {
  table_bound = ground arith;
  row_0 = ground arith;
  row_1 = ground arith;
}

-- The selectors of a new tile are in range, and stay there at every adaptation.
pub new_ac-IsAc : IsAc new_ac
new_ac-IsAc = omega arith

pub adapt_ac-IsAc : (v : AcVlcState) → IsAc v → IsAc (adapt_ac v)
unfolding adapt_ac
adapt_ac-IsAc v h = record {
  first_luma = adapt_two-IsMultiple 4 _ (omega arith) h.first_luma;
  first_chroma = adapt_two-IsMultiple 4 _ (omega arith) h.first_chroma;
  index_luma_0 = adapt_two-IsMultiple 3 _ (omega arith) h.index_luma_0;
  index_luma_1 = adapt_two-IsMultiple 3 _ (omega arith) h.index_luma_1;
  index_chroma_0 = adapt_two-IsMultiple 3 _ (omega arith) h.index_chroma_0;
  index_chroma_1 = adapt_two-IsMultiple 3 _ (omega arith) h.index_chroma_1;
  level_0 = adapt_one-IsPair _ h.level_0;
  level_1 = adapt_one-IsPair _ h.level_1;
}

pub adapt_dc-IsDc : (v : DcVlcState) → IsDc v → IsDc (adapt_dc v)
unfolding adapt_dc
adapt_dc-IsDc v h = record {
  level_0 = adapt_one-IsPair _ h.level_0;
  level_1 = adapt_one-IsPair _ h.level_1;
}

-- A selector moves by one table, down when the first count is below -8 and up when the second is
-- above 8, and the new counts lie between -64 and 64.
pub adapt_two_moves :
    (max : ℕ) (v : AdaptiveVlc)
    → let w = adapt_two max v in
      (negsuc 63 ≤ℤ w.discrim_0)
      × (w.discrim_0 ≤ℤ pos 64)
      × (negsuc 63 ≤ℤ w.discrim_1)
      × (w.discrim_1 ≤ℤ pos 64)
      × ((w.table_index ≡ v.table_index)
          ⊎ ((v.discrim_0 ≤ℤ negsuc 8) × (w.table_index + 1 ≡ v.table_index))
          ⊎ ((pos 9 ≤ℤ v.discrim_1) × (w.table_index ≡ v.table_index + 1)))
unfolding adapt_two
adapt_two_moves max v = ground arith

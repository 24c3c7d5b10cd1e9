-- ===== src/Entropy/Adaptive/Observe.antt =====
-- The observation of one symbol by a selector of adaptive.rs.
use jxr.Base.{ℕ, ◌<◌, ◌≡◌, refl, List, All, All-get_elem?, length, arith}
use jxr.Base.Int.{ℤ, pos, negsuc, ◌≤ℤ◌, ◌+ℤ◌}
use jxr.Entropy.Step.{ok}
use jxr.Entropy.Step.Post.{Post, returns}
use jxr.Entropy.Adaptive.{
  AdaptiveVlc, observe_one, observe_two, abs_level_delta, first_index_delta, index_delta,
  observe_abs_level, observe_first_index, observe_index,
}
use jxr.Entropy.Adaptive.Bounds.{IsPair, IsMultiple}

abbrev pub IsSmall : ℤ → Type 0
IsSmall change = (negsuc 1 ≤ℤ change) × (change ≤ℤ pos 2)

-- The selector after an observation: only the counts have changed.
abbrev pub counted : ℤ → ℤ → AdaptiveVlc → AdaptiveVlc
counted c d v = record v { discrim_0 = v.discrim_0 +ℤ c; discrim_1 = v.discrim_1 +ℤ d }

observe_two_lem :
    (symbol : ℕ) (delta : List (List ℤ)) (v : AdaptiveVlc)
    → All (λ row. (symbol < length row) × All IsSmall row) delta
    → v.delta_index_0 < length delta
    → v.delta_index_1 < length delta
    → (c : ℤ) × (d : ℤ) × (observe_two symbol delta v ≡ (ok tt, counted c d v))
      × IsSmall c
      × IsSmall d
unfolding observe_two
observe_two_lem symbol delta v rows h g =
    let (row, at_row, row_ok) = All-get_elem? delta v.delta_index_0 rows h in
    let (row', at_row', row_ok') = All-get_elem? delta v.delta_index_1 rows g in
    let (c, at_c, small) = All-get_elem? row symbol row_ok.1 row_ok.0 in
    let (d, at_d, small') = All-get_elem? row' symbol row_ok'.1 row_ok'.0 in
    (c, d, rw (at_row, at_c, at_row', at_d) refl, small, small')

-- Each observation of a symbol of the table keeps the selector's table and rows.
pub observe_first_index_lem :
    (symbol : ℕ) (v : AdaptiveVlc)
    → symbol < 12
    → IsMultiple 4 v
    → (c : ℤ) × (d : ℤ) × (observe_first_index symbol v ≡ (ok tt, counted c d v))
      × IsSmall c
      × IsSmall d
unfolding observe_first_index
observe_first_index_lem symbol v h g =
    observe_two_lem symbol first_index_delta v (omega arith) g.row_0 g.row_1

pub observe_index_lem :
    (symbol : ℕ) (v : AdaptiveVlc)
    → symbol < 6
    → IsMultiple 3 v
    → (c : ℤ) × (d : ℤ) × (observe_index symbol v ≡ (ok tt, counted c d v)) × IsSmall c × IsSmall d
unfolding observe_index
observe_index_lem symbol v h g = observe_two_lem symbol index_delta v (omega arith) g.row_0 g.row_1

pub observe_abs_level_lem :
    (symbol : ℕ) (v : AdaptiveVlc)
    → symbol < 7
    → (c : ℤ) × (observe_abs_level symbol v ≡ (ok tt, record v { discrim_0 = v.discrim_0 +ℤ c }))
      × IsSmall c
unfolding observe_abs_level observe_one
observe_abs_level_lem symbol v h =
    let (c, at_c, small) = All-get_elem? {P = IsSmall} abs_level_delta symbol (omega arith) h in
    (c, rw at_c refl, small)

pub observe_first_index-Post :
    (symbol : ℕ) (v : AdaptiveVlc)
    → symbol < 12
    → IsMultiple 4 v
    → Post (IsMultiple 4) (λ (_ : Unit {0}). Unit {0}) (observe_first_index symbol v)
observe_first_index-Post symbol v h g =
    let (c, d, e, small, small') = observe_first_index_lem symbol v h g in
    rw e (returns tt (record { table_bound = g.table_bound; row_0 = g.row_0; row_1 = g.row_1 }))

pub observe_index-Post :
    (symbol : ℕ) (v : AdaptiveVlc)
    → symbol < 6
    → IsMultiple 3 v
    → Post (IsMultiple 3) (λ (_ : Unit {0}). Unit {0}) (observe_index symbol v)
observe_index-Post symbol v h g =
    let (c, d, e, small, small') = observe_index_lem symbol v h g in
    rw e (returns tt (record { table_bound = g.table_bound; row_0 = g.row_0; row_1 = g.row_1 }))

pub observe_abs_level-Post :
    (symbol : ℕ) (v : AdaptiveVlc)
    → symbol < 7
    → IsPair v
    → Post IsPair (λ (_ : Unit {0}). Unit {0}) (observe_abs_level symbol v)
observe_abs_level-Post symbol v h g =
    let (c, e, small) = observe_abs_level_lem symbol v h in
    rw e (returns tt (record { table_bound = g.table_bound }))

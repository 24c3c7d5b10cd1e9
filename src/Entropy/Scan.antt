-- ===== src/Entropy/Scan.antt =====
-- crates/jxr-native/src/entropy/scan.rs: the adaptive inverse scans.
-- The totals start at 32 at most and grow by one for each coefficient of 16 macroblocks, so their
-- `i32` is taken for a number.
pub mod Order
use jxr.Base.{
  ℕ, ◌+◌, ◌-◌, ◌<◌, Bool, true, false, ◌&&◌, ◌||◌, List, [], ◌∷◌, ltb, if◌then◌else◌, get_or, set,
  length,
}
use jxr.Base.Int.{ℤ, pos}
use jxr.Entropy.Step.{Result, ok, err, panic, Step, ◌>>=◌, ◌>>◌, invalid_parameter, continue}

abbrev pub scan_order_0 : List ℕ
scan_order_0 = 0 ∷ 4 ∷ 1 ∷ 5 ∷ 8 ∷ 2 ∷ 9 ∷ 6 ∷ 12 ∷ 3 ∷ 10 ∷ 13 ∷ 7 ∷ 14 ∷ 11 ∷ 15 ∷ []

abbrev pub scan_order_1 : List ℕ
scan_order_1 = 0 ∷ 1 ∷ 2 ∷ 5 ∷ 4 ∷ 3 ∷ 6 ∷ 9 ∷ 8 ∷ 7 ∷ 12 ∷ 15 ∷ 13 ∷ 10 ∷ 11 ∷ 14 ∷ []

abbrev pub scan_totals : List ℕ
scan_totals = 0 ∷ 32 ∷ 30 ∷ 28 ∷ 26 ∷ 24 ∷ 22 ∷ 20 ∷ 18 ∷ 16 ∷ 14 ∷ 12 ∷ 10 ∷ 8 ∷ 6 ∷ 4 ∷ []

-- What `place_and_adapt` changes: a scan, and the block that it writes.
pub record Placing : Type 0 where
  pub order : List ℕ
  pub totals : List ℕ
  pub output : List ℤ

-- `values.swap(i, i - 1)`
abbrev pub swap_down : {A : Type 0} → A → ℕ → List A → List A
swap_down d i values = set (set values i (get_or values (i - 1) d)) (i - 1) (get_or values i d)

unfoldable pub counted : ℕ → Placing → Placing
counted i p = record p { totals = set p.totals i (get_or p.totals i 0 + 1) }

unfoldable pub adapted : ℕ → Placing → Placing
adapted i p =
    if ltb 1 i && ltb (get_or p.totals (i - 1) 0) (get_or p.totals i 0)
    then record p { order = swap_down 0 i p.order; totals = swap_down 0 i p.totals }
    else p

-- The arrays of the source have 16 elements; an index past the end of one panics.
abbrev pub in_arrays : ℕ → Placing → Bool
in_arrays i p =
    ltb i (length p.order) && ltb i (length p.totals) && ltb (get_or p.order i 0) (length p.output)

unfoldable pub place_and_adapt : ℕ → ℤ → Step Placing (Unit {0})
place_and_adapt i value p =
    if ltb i 1 || ltb 15 i
    then (err (invalid_parameter "adaptive scan index" (pos i)), p)
    else if in_arrays i p
    then (
      ok tt,
      adapted i (counted i (record p { output = set p.output (get_or p.order i 0) value })),
    )
    else (panic, p)

pub record AdaptiveLpScan : Type 0 where
  pub order : List ℕ
  pub totals : List ℕ

abbrev pub new_lp : AdaptiveLpScan
new_lp = record { order = scan_order_0; totals = scan_totals }

abbrev pub reset_totals_lp : AdaptiveLpScan → AdaptiveLpScan
reset_totals_lp s = record s { totals = scan_totals }

-- A scan and the block under construction.
pub record LpTarget : Type 0 where
  pub scan : AdaptiveLpScan
  pub output : List ℤ

abbrev pub placed_lp : Result (Unit {0}) × Placing → Result (Unit {0}) × LpTarget
placed_lp (x, p) =
    (x, record { scan = record { order = p.order; totals = p.totals }; output = p.output })

unfoldable pub place_lp : ℕ → ℤ → Step LpTarget (Unit {0})
place_lp i value t = placed_lp (
    place_and_adapt i value
      (record { order = t.scan.order; totals = t.scan.totals; output = t.output }))

pub data HpScanDirection : Type 0 where
  horizontal vertical : HpScanDirection

pub record AdaptiveHpScan : Type 0 where
  pub horizontal_order : List ℕ
  pub vertical_order : List ℕ
  pub horizontal_totals : List ℕ
  pub vertical_totals : List ℕ

abbrev pub new_hp : AdaptiveHpScan
new_hp = record {
  horizontal_order = scan_order_0;
  vertical_order = scan_order_1;
  horizontal_totals = scan_totals;
  vertical_totals = scan_totals;
}

abbrev pub reset_totals_hp : AdaptiveHpScan → AdaptiveHpScan
reset_totals_hp s = record s { horizontal_totals = scan_totals; vertical_totals = scan_totals }

pub record HpTarget : Type 0 where
  pub scan : AdaptiveHpScan
  pub output : List ℤ

-- The scan that a direction selects, and its return.
abbrev pub selected : HpScanDirection → HpTarget → Placing
selected horizontal t = record {
  order = t.scan.horizontal_order;
  totals = t.scan.horizontal_totals;
  output = t.output;
}
selected vertical t = record {
  order = t.scan.vertical_order;
  totals = t.scan.vertical_totals;
  output = t.output;
}

abbrev pub put_back : HpScanDirection → Placing → AdaptiveHpScan → HpTarget
put_back horizontal p s = record {
  scan = record s { horizontal_order = p.order; horizontal_totals = p.totals };
  output = p.output;
}
put_back vertical p s = record {
  scan = record s { vertical_order = p.order; vertical_totals = p.totals };
  output = p.output;
}

unfoldable pub place_hp : HpScanDirection → ℕ → ℤ → Step HpTarget (Unit {0})
place_hp direction i value t =
    let (x, p) = place_and_adapt i value (selected direction t) in (x, put_back direction p t.scan)

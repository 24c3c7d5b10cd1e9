-- ===== src/Entropy/Scan/Order.antt =====
-- The order and the totals of the adaptive scans of scan.rs.
use jxr.Base.{
  ℕ, ◌+◌, ◌-◌, ◌<◌, ◌≤◌, ◌≡◌, refl, sym, ap, ◌∙◌, arith, Bool, true, false, not, ◌&&◌, ◌||◌, inl,
  inr, Bool-cases, ltb, ◌==◌, if◌then◌else◌, List, length, get_or, set, length-set, get_or-set_self,
  get_or-set_ne, all_below, all_below_sound,
}
use jxr.Base.Int.{ℤ}
use jxr.Entropy.Step.{ok}
use jxr.Entropy.Step.Post.{Post, returns, raises}
use jxr.Entropy.BitReader.Safe.{Any}
use jxr.Entropy.Scan.{
  Placing, swap_down, counted, adapted, in_arrays, place_and_adapt, scan_order_0, scan_order_1,
}

-- The neighbours `i - 1` and `i` change places.
abbrev pub exchanged : ℕ → ℕ → ℕ
exchanged i j = if j == i then i - 1 else if j == i - 1 then i else j

swap_down_at :
    {A : Type 0} (d : A) (i j : ℕ) (xs : List A)
    → 0 < i
    → i < length xs
    → get_or (swap_down d i xs) j d ≡ get_or xs (exchanged i j) d
swap_down_at d i j xs h g =
    let inner : length (set xs i (get_or xs (i - 1) d)) ≡ length xs =
      length-set xs i (get_or xs (i - 1) d) in
    elim (Bool-cases (j == i)) [
      | inl here ↦
          let e : j ≡ i = ground arith in
          rw here (
            rw e (
              get_or-set_ne (set xs i (get_or xs (i - 1) d)) (i - 1) i _ d
                (λ q. absurd (omega arith))
              ∙ get_or-set_self xs i _ d g))
      | inr other ↦ elim (Bool-cases (j == i - 1)) [
        | inl below ↦
            let e : j ≡ i - 1 = ground arith in
            rw (other, below)
              (rw e (get_or-set_self (set xs i (get_or xs (i - 1) d)) (i - 1) _ d (omega arith)))
        | inr elsewhere ↦
            rw (other, elsewhere)
              (get_or-set_ne (set xs i (get_or xs (i - 1) d)) (i - 1) j _ d
                  (λ q. absurd (ground arith))
                ∙ get_or-set_ne xs i j _ d (λ q. absurd (ground arith)))
      ]
    ]

length-swap_down :
    {A : Type 0} (d : A) (i : ℕ) (xs : List A) → length (swap_down d i xs) ≡ length xs
length-swap_down d i xs = length-set _ (i - 1) _ ∙ length-set xs i _

-- A scan order of a block: sixteen distinct positions, the first of them 0.
pub record IsOrder (order : List ℕ) : Type 0 where
  pub size : length order ≡ 16
  pub in_block : (i : ℕ) → i < 16 → get_or order i 0 < 16
  pub distinct : (i j : ℕ) → i < 16 → j < 16 → get_or order i 0 ≡ get_or order j 0 → i ≡ j
  pub first : get_or order 0 0 ≡ 0

pub record IsPlacing (p : Placing) : Type 0 where
  pub order_ok : IsOrder p.order
  pub totals_size : length p.totals ≡ 16
  pub output_size : length p.output ≡ 16

exchanged-lt : (i j : ℕ) → 0 < i → i < 16 → j < 16 → exchanged i j < 16
exchanged-lt i j h g l = ground arith

exchanged_inj : (i j k : ℕ) → 0 < i → exchanged i j ≡ exchanged i k → j ≡ k
exchanged_inj i j k h e = ground arith

pub swap_down-IsOrder :
    (order : List ℕ) (i : ℕ) → IsOrder order → 1 < i → i < 16 → IsOrder (swap_down 0 i order)
swap_down-IsOrder order i v h g =
    let size : i < length order = omega (arith, v.size) in
    record {
      size = length-swap_down 0 i order ∙ v.size;
      in_block = λ j l.
          rw (swap_down_at 0 i j order (omega arith) size)
            (v.in_block (exchanged i j) (exchanged-lt i j (omega arith) g l));
      distinct = λ j k l m e. exchanged_inj i j k (omega arith) (
          v.distinct (exchanged i j) (exchanged i k) (exchanged-lt i j (omega arith) g l)
            (exchanged-lt i k (omega arith) g m)
            (sym (swap_down_at 0 i j order (omega arith) size)
              ∙ e
              ∙ swap_down_at 0 i k order (omega arith) size));
      first =
          swap_down_at 0 i 0 order (omega arith) size
          ∙ (let e : exchanged i 0 ≡ 0 = ground arith in ap (λ n. get_or order n 0) e ∙ v.first);
    }

-- Where the adaptation puts the entry that stood at `j`.
abbrev pub overtakes : ℕ → Placing → Bool
overtakes i p = ltb 1 i && ltb (get_or p.totals (i - 1) 0) (get_or p.totals i 0)

pub adapted-IsPlacing : (i : ℕ) (p : Placing) → IsPlacing p → i < 16 → IsPlacing (adapted i p)
unfolding adapted
adapted-IsPlacing i p v h = elim (Bool-cases (overtakes i p)) [
  | inl over ↦ rw over (record {
    order_ok = swap_down-IsOrder p.order i v.order_ok (ground arith) h;
    totals_size = length-swap_down 0 i p.totals ∙ v.totals_size;
    output_size = v.output_size;
  })
  | inr behind ↦ rw behind v
]

-- The scan with the coefficient placed and counted.
abbrev pub placed : ℕ → ℤ → Placing → Placing
placed i value p = counted i (record p { output = set p.output (get_or p.order i 0) value })

placed-output :
    (i : ℕ) (value : ℤ) (p : Placing)
    → (placed i value p).output ≡ set p.output (get_or p.order i 0) value
unfolding counted
placed-output i value p = refl

placed-order :
    (i j : ℕ) (value : ℤ) (p : Placing) → get_or (placed i value p).order j 0 ≡ get_or p.order j 0
unfolding counted
placed-order i j value p = refl

pub placed-IsPlacing :
    (i : ℕ) (value : ℤ) (p : Placing) → IsPlacing p → IsPlacing (placed i value p)
unfolding counted
placed-IsPlacing i value p v = record {
  order_ok = v.order_ok;
  totals_size = length-set p.totals i _ ∙ v.totals_size;
  output_size = length-set p.output _ value ∙ v.output_size;
}

in_arrays_lem : (i : ℕ) (p : Placing) → IsPlacing p → i < 16 → in_arrays i p ≡ true
in_arrays_lem i p v h =
    ground (arith, v.order_ok.size, v.totals_size, v.output_size, v.order_ok.in_block i h)

-- `place_and_adapt` within the block.
pub place_and_adapt_inside :
    (i : ℕ) (value : ℤ) (p : Placing)
    → IsPlacing p
    → 0 < i
    → i < 16
    → place_and_adapt i value p ≡ (ok tt, adapted i (placed i value p))
unfolding place_and_adapt
place_and_adapt_inside i value p v h g =
    let test : (ltb i 1 || ltb 15 i) ≡ false = ground arith in rw (test, in_arrays_lem i p v g) refl

-- At each index and value, `place_and_adapt` does not panic, and it keeps the order a permutation of
-- the sixteen positions with 0 in the first place.
pub place_and_adapt-IsPlacing :
    (i : ℕ) (value : ℤ) (p : Placing) → IsPlacing p → Post IsPlacing Any (place_and_adapt i value p)
unfolding place_and_adapt
place_and_adapt-IsPlacing i value p v = elim (Bool-cases (ltb i 1 || ltb 15 i)) [
  | inl outside ↦ rw outside (raises v)
  | inr inside ↦
      rw (inside, in_arrays_lem i p v (ground arith))
        (returns tt (adapted-IsPlacing i _ (placed-IsPlacing i value p v) (ground arith)))
]

-- The entry at `j` of the order and of the totals stands at `k` behind an adaptation.
record Follows (p q : Placing) (j k : ℕ) : Type 0 where
  near : (j ≤ k + 1) × (k ≤ j + 1)
  inside : k < 16
  same_position : get_or q.order k 0 ≡ get_or p.order j 0
  same_total : get_or q.totals k 0 ≡ get_or p.totals j 0

exchanged_twice : (i j : ℕ) → 0 < i → exchanged i (exchanged i j) ≡ j
exchanged_twice i j h = ground arith

exchanged_near : (i j : ℕ) → 0 < i → (j ≤ exchanged i j + 1) × (exchanged i j ≤ j + 1)
exchanged_near i j h = ground arith

adapted-Follows :
    (i : ℕ) (p : Placing) (j : ℕ)
    → IsPlacing p
    → i < 16
    → j < 16
    → (k : ℕ) × Follows p (adapted i p) j k
unfolding adapted
adapted-Follows i p j v h l = elim (Bool-cases (overtakes i p)) [
  | inl over ↦
      let big : 1 < i = ground arith in
      rw over (
        exchanged i j,
        record {
          near = exchanged_near i j (omega arith);
          inside = exchanged-lt i j (omega arith) h l;
          same_position =
              swap_down_at 0 i (exchanged i j) p.order (omega arith)
                (omega (arith, v.order_ok.size))
              ∙ ap (λ n. get_or p.order n 0) (exchanged_twice i j (omega arith));
          same_total =
              swap_down_at 0 i (exchanged i j) p.totals (omega arith) (omega (arith, v.totals_size))
              ∙ ap (λ n. get_or p.totals n 0) (exchanged_twice i j (omega arith));
        },
      )
  | inr behind ↦
      rw behind
        (j, record { near = omega arith; inside = l; same_position = refl; same_total = refl })
]

counted_total :
    (i j : ℕ) (p : Placing)
    → i < length p.totals
    → get_or (counted i p).totals j 0 ≡ get_or p.totals j 0 + (if j == i then 1 else 0)
unfolding counted
counted_total i j p h = elim (Bool-cases (j == i)) [
  | inl here ↦ let e : j ≡ i = ground arith in rw here (rw e (get_or-set_self p.totals i _ 0 h))
  | inr other ↦ rw other (get_or-set_ne p.totals i j _ 0 (λ q. absurd (ground arith)) ∙ omega arith)
]

adapted-output : (i : ℕ) (p : Placing) → (adapted i p).output ≡ p.output
unfolding adapted
adapted-output i p = elim (Bool-cases (overtakes i p)) [
  | inl over ↦ rw over refl
  | inr behind ↦ rw behind refl
]

-- A coefficient at an index of 1 to 15 is written to the position that the scan holds there, and
-- nothing else of the block changes. Each position of the scan keeps its total, with one more for
-- the position that was written, and moves by one place at most.
pub place_and_adapt_moves :
    (i : ℕ) (value : ℤ) (p : Placing) (j : ℕ)
    → IsPlacing p
    → 0 < i
    → i < 16
    → j < 16
    → ((place_and_adapt i value p).1.output ≡ set p.output (get_or p.order i 0) value)
      × ((k : ℕ) × (k < 16)
          × (j ≤ k + 1)
          × (k ≤ j + 1)
          × (get_or (place_and_adapt i value p).1.order k 0 ≡ get_or p.order j 0)
          × (get_or (place_and_adapt i value p).1.totals k 0
              ≡ get_or p.totals j 0 + (if j == i then 1 else 0)))
place_and_adapt_moves i value p j v h g l =
    let (k, f) = adapted-Follows i (placed i value p) j (placed-IsPlacing i value p v) g l in
    rw (place_and_adapt_inside i value p v h g) (
      adapted-output i (placed i value p) ∙ placed-output i value p,
      (
        k,
        f.inside,
        f.near.0,
        f.near.1,
        f.same_position ∙ placed-order i j value p,
        f.same_total
            ∙ counted_total i j (record p { output = set p.output (get_or p.order i 0) value })
                (omega (arith, v.totals_size)),
      ),
    )

in_block_lem :
    (order : List ℕ)
    → all_below 16 (λ i. ltb (get_or order i 0) 16) ≡ true
    → (i : ℕ) → i < 16
    → get_or order i 0 < 16
in_block_lem order h i l = ground (arith, all_below_sound 16 (λ i. ltb (get_or order i 0) 16) i h l)

distinct_lem :
    (order : List ℕ)
    → all_below 16 (λ i. all_below 16 (λ j. not (get_or order i 0 == get_or order j 0) || (i == j)))
      ≡ true
    → (i j : ℕ) → i < 16
    → j < 16
    → get_or order i 0 ≡ get_or order j 0
    → i ≡ j
distinct_lem order h i j l m e =
    let row =
      all_below_sound 16
        (λ i. all_below 16 (λ j. not (get_or order i 0 == get_or order j 0) || (i == j))) i h l in
    let cell =
      all_below_sound 16 (λ j. not (get_or order i 0 == get_or order j 0) || (i == j)) j row m in
    ground (arith, cell)

-- The two initial scans are permutations of the block.
pub scan_order_0-IsOrder : IsOrder scan_order_0
unfolding all_below
scan_order_0-IsOrder = record {
  size = refl;
  in_block = in_block_lem scan_order_0 refl;
  distinct = distinct_lem scan_order_0 refl;
  first = refl;
}

pub scan_order_1-IsOrder : IsOrder scan_order_1
unfolding all_below
scan_order_1-IsOrder = record {
  size = refl;
  in_block = in_block_lem scan_order_1 refl;
  distinct = distinct_lem scan_order_1 refl;
  first = refl;
}

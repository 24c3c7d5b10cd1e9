-- ===== src/Entropy/Coefficients/Block/Scanned.antt =====
-- The three uses of the block decoder: a block of pairs, and the two direct scans.
use jxr.Base.{ℕ, ◌≤◌, arith, Bool, inl, inr, Bool-cases, ltb, length, length-append, [], ◌∷◌}
use jxr.Base.Int.{ℤ}
use jxr.Entropy.Step.{Result}
use jxr.Entropy.Step.Post.{Post, returns, raises}
use jxr.Entropy.BitReader.Safe.{Any}
use jxr.Entropy.Band.{FrequencyBand, lowpass, highpass}
use jxr.Entropy.Scan.{
  Placing, place_and_adapt, LpTarget, place_lp, placed_lp, HpTarget, HpScanDirection, horizontal,
  vertical, place_hp, selected, put_back,
}
use jxr.Entropy.Scan.Order.{IsPlacing, place_and_adapt-IsPlacing}
use jxr.Entropy.Coefficients.Block.{
  AcWorld, DecodedBlock, push, decode_ac_block, decode_lp_block, decode_hp_block,
}
use jxr.Entropy.Coefficients.Block.Safe.{IsWorld, decode_ac_coefficients-IsWorld}

-- The pairs of a block fit in its array.
abbrev pub IsRoom : DecodedBlock → Type 0
IsRoom b = length b.entries ≤ 15

pub push-IsRoom :
    (run : ℕ) (level : ℤ) (b : DecodedBlock) → IsRoom b → Post IsRoom Any (push run level b)
unfolding push
push-IsRoom run level b h = elim (Bool-cases (ltb (length b.entries) 15)) [
  | inl room ↦ rw room (
      returns tt
        (rw (length-append b.entries (record { run = run; level = level } ∷ [])) (ground arith)))
  | inr full ↦ rw full (raises h)
]

-- A reading of a block never panics, and its array never overflows.
pub decode_ac_block-IsRoom :
    (band : FrequencyBand) (chroma : Bool) (start : ℕ) (w : AcWorld DecodedBlock)
    → IsWorld IsRoom w
    → Post (IsWorld IsRoom) Any (decode_ac_block band chroma start w)
unfolding decode_ac_block
decode_ac_block-IsRoom band chroma start w h =
    decode_ac_coefficients-IsWorld IsRoom chroma (λ run location level. push run level) start
      (λ run location level b _ _ k. push-IsRoom run level b k) w band h

pub record IsLp (t : LpTarget) : Type 0 where
  pub placing :
      IsPlacing (record { order = t.scan.order; totals = t.scan.totals; output = t.output })

placed_lp-IsLp :
    (q : Result (Unit {0}) × Placing) → Post IsPlacing Any q → Post IsLp Any (placed_lp q)
placed_lp-IsLp q (returns p i) = returns tt (record { placing = i })
placed_lp-IsLp q (raises i) = raises (record { placing = i })

place_lp-IsLp : (i : ℕ) (value : ℤ) (t : LpTarget) → IsLp t → Post IsLp Any (place_lp i value t)
unfolding place_lp
place_lp-IsLp i value t h = placed_lp-IsLp _ (place_and_adapt-IsPlacing i value _ h.placing)

-- A low-pass block is decoded without a panic, whatever the packet holds, and its scan stays a
-- permutation.
pub decode_lp_block-IsLp :
    (chroma : Bool) (start : ℕ) (w : AcWorld LpTarget)
    → IsWorld IsLp w
    → Post (IsWorld IsLp) Any (decode_lp_block chroma start w)
unfolding decode_lp_block
decode_lp_block-IsLp chroma start w h =
    decode_ac_coefficients-IsWorld IsLp chroma (λ run location level. place_lp location level) start
      (λ run location level t _ _ k. place_lp-IsLp location level t k) w lowpass h

pub record IsHp (t : HpTarget) : Type 0 where
  pub across : IsPlacing (selected horizontal t)
  pub down : IsPlacing (selected vertical t)

pub put_back-IsHp :
    (direction : HpScanDirection) (p : Placing) (t : HpTarget)
    → IsHp t
    → IsPlacing p
    → IsHp (put_back direction p t.scan)
put_back-IsHp horizontal p t h g = record {
  across = g;
  down = record {
    order_ok = h.down.order_ok;
    totals_size = h.down.totals_size;
    output_size = g.output_size;
  };
}
put_back-IsHp vertical p t h g = record {
  across = record {
    order_ok = h.across.order_ok;
    totals_size = h.across.totals_size;
    output_size = g.output_size;
  };
  down = g;
}

pub selected-IsPlacing :
    (direction : HpScanDirection) (t : HpTarget) → IsHp t → IsPlacing (selected direction t)
selected-IsPlacing horizontal t h = h.across
selected-IsPlacing vertical t h = h.down

placed-IsHp :
    (direction : HpScanDirection) (t : HpTarget) (q : Result (Unit {0}) × Placing)
    → IsHp t
    → Post IsPlacing Any q
    → Post IsHp Any (q.0, put_back direction q.1 t.scan)
placed-IsHp direction t q h (returns p i) = returns tt (put_back-IsHp direction _ t h i)
placed-IsHp direction t q h (raises i) = raises (put_back-IsHp direction _ t h i)

place_hp-IsHp :
    (direction : HpScanDirection) (i : ℕ) (value : ℤ) (t : HpTarget)
    → IsHp t
    → Post IsHp Any (place_hp direction i value t)
unfolding place_hp
place_hp-IsHp direction i value t h =
    placed-IsHp direction t (place_and_adapt i value (selected direction t)) h
      (place_and_adapt-IsPlacing i value _ (selected-IsPlacing direction t h))

-- A high-pass block is decoded without a panic in either direction, and both scans stay
-- permutations.
pub decode_hp_block-IsHp :
    (chroma : Bool) (direction : HpScanDirection) (w : AcWorld HpTarget)
    → IsWorld IsHp w
    → Post (IsWorld IsHp) Any (decode_hp_block chroma direction w)
unfolding decode_hp_block
decode_hp_block-IsHp chroma direction w h =
    decode_ac_coefficients-IsWorld IsHp chroma
      (λ run location level. place_hp direction location level) 1
      (λ run location level t _ _ k. place_hp-IsHp direction location level t k) w highpass h

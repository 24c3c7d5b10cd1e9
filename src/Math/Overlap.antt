-- ===== src/Math/Overlap.antt =====
-- crates/jxr-math/src/overlap.rs: the inverse overlap filters.
-- The arrays are changed in place; after an error their content is discarded.
pub mod Undo
use jxr.Base.{ℕ, List, get_or, set}
use jxr.Base.Int.{ℤ, pos, ◌-ℤ◌, shr_ℤ, i32_checked}
use jxr.Math.Arithmetic.{Checked, value, ◌>>=◌, or_overflow, checked_add, checked_sub, checked_mul}
use jxr.Math.Transform.{Quad, add_shift, triple_shift, transform_group, inverse_hadamard_2x2}

unfoldable pub checked_neg : ℤ → Checked ℤ
checked_neg a = or_overflow (i32_checked (pos 0 -ℤ a)) "overlap negation"

unfoldable pub inverse_rotate : ℤ × ℤ → Checked (ℤ × ℤ)
inverse_rotate v = do
  half_1 ← add_shift v.1 (pos 1) 1
  a ← checked_sub v.0 half_1
  half_0 ← add_shift a (pos 1) 1
  b ← checked_add v.1 half_0
  value (a, b)

-- `checked_mul(a, 3)? >> n`
abbrev pub triple : ℤ → ℕ → Checked ℤ
triple a n = do product ← checked_mul a (pos 3); value (shr_ℤ product n)

unfoldable pub inverse_scale : ℤ × ℤ → Checked (ℤ × ℤ)
inverse_scale v = do
  a ← checked_add v.0 v.1
  b ← checked_sub (shr_ℤ a 1) v.1
  turn_b ← triple b 3
  a1 ← checked_add a turn_b
  turn_a ← triple a1 4
  b1 ← checked_add b turn_a
  b2 ← checked_add b1 (shr_ℤ a1 7)
  b3 ← checked_sub b2 (shr_ℤ a1 10)
  value (a1, b3)

unfoldable pub inverse_overlap_filter_4 : Quad → Checked Quad
inverse_overlap_filter_4 v = do
  a ← checked_add v.at_0 v.at_3
  b ← checked_add v.at_1 v.at_2
  half_a ← add_shift a (pos 1) 1
  d ← checked_sub v.at_3 half_a
  half_b ← add_shift b (pos 1) 1
  c ← checked_sub v.at_2 half_b
  outer ← inverse_scale (a, d)
  inner ← inverse_scale (b, c)
  turn_d ← triple_shift outer.1 (pos 4) 3
  a1 ← checked_add outer.0 turn_d
  turn_c ← triple_shift inner.1 (pos 4) 3
  b1 ← checked_add inner.0 turn_c
  d1 ← checked_sub outer.1 (shr_ℤ a1 1)
  c1 ← checked_sub inner.1 (shr_ℤ b1 1)
  a2 ← checked_add a1 d1
  b2 ← checked_add b1 c1
  d2 ← checked_neg d1
  c2 ← checked_neg c1
  turned ← inverse_rotate (c2, d2)
  half_a' ← add_shift a2 (pos 1) 1
  d3 ← checked_add turned.1 half_a'
  half_b' ← add_shift b2 (pos 1) 1
  c3 ← checked_add turned.0 half_b'
  a3 ← checked_sub a2 d3
  b3 ← checked_sub b2 c3
  value (record { at_0 = a3; at_1 = b3; at_2 = c3; at_3 = d3 })

unfoldable pub inverse_overlap_filter_2x2 : Quad → Checked Quad
inverse_overlap_filter_2x2 v = do
  a ← checked_add v.at_0 v.at_3
  b ← checked_add v.at_1 v.at_2
  half_a ← add_shift a (pos 1) 1
  d ← checked_sub v.at_3 half_a
  half_b ← add_shift b (pos 1) 1
  c ← checked_sub v.at_2 half_b
  quarter_a ← add_shift a (pos 2) 2
  b1 ← checked_add b quarter_a
  half_b' ← add_shift b1 (pos 1) 1
  a1 ← checked_add a half_b'
  a2 ← checked_add a1 (shr_ℤ b1 5)
  a3 ← checked_add a2 (shr_ℤ b1 9)
  a4 ← checked_add a3 (shr_ℤ b1 13)
  quarter_a' ← add_shift a4 (pos 2) 2
  b2 ← checked_add b1 quarter_a'
  half_a' ← add_shift a4 (pos 1) 1
  d1 ← checked_add d half_a'
  half_b'' ← add_shift b2 (pos 1) 1
  c1 ← checked_add c half_b''
  a5 ← checked_sub a4 d1
  b3 ← checked_sub b2 c1
  value (record { at_0 = a5; at_1 = b3; at_2 = c1; at_3 = d1 })

unfoldable pub inverse_overlap_filter_2 : ℤ × ℤ → Checked (ℤ × ℤ)
inverse_overlap_filter_2 v = do
  quarter ← add_shift v.0 (pos 2) 2
  b ← checked_add v.1 quarter
  half ← add_shift b (pos 1) 1
  a ← checked_add v.0 half
  a1 ← checked_add a (shr_ℤ b 5)
  a2 ← checked_add a1 (shr_ℤ b 9)
  a3 ← checked_add a2 (shr_ℤ b 13)
  quarter' ← add_shift a3 (pos 2) 2
  b1 ← checked_add b quarter'
  value (a3, b1)

-- The third and the fourth value change places in between.
unfoldable pub inverse_hadamard_post : Quad → Checked Quad
inverse_hadamard_post v = do
  b ← checked_sub v.at_1 v.at_2
  turn ← triple_shift v.at_3 (pos 4) 3
  a ← checked_add v.at_0 turn
  d ← checked_sub v.at_3 (shr_ℤ b 1)
  difference ← checked_sub a b
  c ← checked_sub (shr_ℤ difference 1) v.at_2
  a1 ← checked_sub a c
  b1 ← checked_add b d
  value (record { at_0 = a1; at_1 = b1; at_2 = d; at_3 = c })

unfoldable pub inverse_todd_odd_post : Quad → Checked Quad
inverse_todd_odd_post v = do
  d ← checked_add v.at_3 v.at_0
  c ← checked_sub v.at_2 v.at_1
  a ← checked_sub v.at_0 (shr_ℤ d 1)
  b ← checked_add v.at_1 (shr_ℤ c 1)
  turn_b ← triple_shift b (pos 6) 3
  a1 ← checked_sub a turn_b
  turn_a ← triple_shift a1 (pos 2) 2
  b1 ← checked_add b turn_a
  turn_b' ← triple_shift b1 (pos 4) 3
  a2 ← checked_sub a1 turn_b'
  b2 ← checked_sub b1 (shr_ℤ c 1)
  a3 ← checked_add a2 (shr_ℤ d 1)
  c1 ← checked_add c b2
  d1 ← checked_sub d a3
  value (record { at_0 = a3; at_1 = b2; at_2 = c1; at_3 = d1 })

unfoldable pub inverse_hadamard_zero : Quad → Checked Quad
inverse_hadamard_zero v = inverse_hadamard_2x2 v (pos 0)

unfoldable pub apply_pair : ℕ → ℕ → (ℤ × ℤ → Checked (ℤ × ℤ)) → List ℤ → Checked (List ℤ)
apply_pair i j operation values = do
  pair ← operation (get_or values i (pos 0), get_or values j (pos 0))
  value (set (set values i pair.0) j pair.1)

-- `apply_group` is `transform_group` of transform.rs, line by line.
unfoldable pub inverse_overlap_filter_4x4 : List ℤ → Checked (List ℤ)
inverse_overlap_filter_4x4 v = do
  v1 ← transform_group 0 3 12 15 inverse_hadamard_zero v
  v2 ← transform_group 1 2 13 14 inverse_hadamard_zero v1
  v3 ← transform_group 4 7 8 11 inverse_hadamard_zero v2
  v4 ← transform_group 5 6 9 10 inverse_hadamard_zero v3
  v5 ← apply_pair 13 12 inverse_rotate v4
  v6 ← apply_pair 9 8 inverse_rotate v5
  v7 ← apply_pair 7 3 inverse_rotate v6
  v8 ← apply_pair 6 2 inverse_rotate v7
  v9 ← transform_group 10 11 14 15 inverse_todd_odd_post v8
  v10 ← apply_pair 0 15 inverse_scale v9
  v11 ← apply_pair 1 14 inverse_scale v10
  v12 ← apply_pair 4 11 inverse_scale v11
  v13 ← apply_pair 5 10 inverse_scale v12
  v14 ← transform_group 0 3 12 15 inverse_hadamard_post v13
  v15 ← transform_group 1 2 13 14 inverse_hadamard_post v14
  v16 ← transform_group 4 7 8 11 inverse_hadamard_post v15
  transform_group 5 6 9 10 inverse_hadamard_post v16

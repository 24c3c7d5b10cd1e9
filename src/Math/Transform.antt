-- ===== src/Math/Transform.antt =====
-- crates/jxr-math/src/transform.rs: the inverse core-transform lifting operators.
-- The arrays are changed in place; after an error their content is discarded.
pub mod Inverse
use jxr.Base.{ℕ, List, [], ◌∷◌, get_or, set}
use jxr.Base.Int.{ℤ, pos, negsuc, ◌-ℤ◌, shr_ℤ, i32_checked}
use jxr.Math.Arithmetic.{
  Checked, value, overflow, ◌>>=◌, or_overflow, checked_add, checked_sub, checked_mul,
}

-- `[i32; 4]`
pub record Quad : Type 0 where
  pub at_0 : ℤ
  pub at_1 : ℤ
  pub at_2 : ℤ
  pub at_3 : ℤ

unfoldable pub t2x2h : ℤ → Quad → Checked Quad
t2x2h rounding v = do
  sum ← checked_add v.at_0 v.at_3
  turn ← checked_sub v.at_1 v.at_2
  difference ← checked_sub sum turn
  rounded ← checked_add difference rounding
  third ← checked_sub (shr_ℤ rounded 1) v.at_3
  fourth ← checked_sub (shr_ℤ rounded 1) v.at_2
  first ← checked_sub sum fourth
  second ← checked_add turn third
  value (record { at_0 = first; at_1 = second; at_2 = third; at_3 = fourth })

-- `checked_add(a, k)? >> n`
abbrev pub add_shift : ℤ → ℤ → ℕ → Checked ℤ
add_shift a k n = do sum ← checked_add a k; value (shr_ℤ sum n)

-- `checked_add(checked_mul(a, 3)?, k)? >> n`
abbrev pub triple_shift : ℤ → ℤ → ℕ → Checked ℤ
triple_shift a k n = do product ← checked_mul a (pos 3); add_shift product k n

unfoldable pub inverse_todd : Quad → Checked Quad
inverse_todd v = do
  b1 ← checked_add v.at_1 v.at_3
  a1 ← checked_sub v.at_0 v.at_2
  d1 ← checked_sub v.at_3 (shr_ℤ b1 1)
  half_a ← add_shift a1 (pos 1) 1
  c1 ← checked_add v.at_2 half_a
  turn_b ← triple_shift b1 (pos 4) 3
  a2 ← checked_sub a1 turn_b
  turn_a ← triple_shift a2 (pos 4) 3
  b2 ← checked_add b1 turn_a
  turn_d ← triple_shift d1 (pos 4) 3
  c2 ← checked_sub c1 turn_d
  turn_c ← triple_shift c2 (pos 4) 3
  d2 ← checked_add d1 turn_c
  half_b ← add_shift b2 (pos 1) 1
  c3 ← checked_sub c2 half_b
  half_a' ← add_shift a2 (pos 1) 1
  d3 ← checked_sub half_a' d2
  b3 ← checked_add b2 c3
  a3 ← checked_sub a2 d3
  value (record { at_0 = a3; at_1 = b3; at_2 = c3; at_3 = d3 })

-- `checked_neg`
abbrev pub negated : ℤ → Checked ℤ
negated a = or_overflow (i32_checked (pos 0 -ℤ a)) "inverse Todd odd negation"

unfoldable pub inverse_todd_odd : Quad → Checked Quad
inverse_todd_odd v = do
  d1 ← checked_add v.at_3 v.at_0
  c1 ← checked_sub v.at_2 v.at_1
  a1 ← checked_sub v.at_0 (shr_ℤ d1 1)
  b1 ← checked_add v.at_1 (shr_ℤ c1 1)
  turn_b ← triple_shift b1 (pos 3) 3
  a2 ← checked_sub a1 turn_b
  turn_a ← triple_shift a2 (pos 3) 2
  b2 ← checked_add b1 turn_a
  turn_b' ← triple_shift b2 (pos 4) 3
  a3 ← checked_sub a2 turn_b'
  b3 ← checked_sub b2 (shr_ℤ c1 1)
  a4 ← checked_add a3 (shr_ℤ d1 1)
  c2 ← checked_add c1 b3
  d2 ← checked_sub d1 a4
  b4 ← negated b3
  c3 ← negated c2
  value (record { at_0 = a4; at_1 = b4; at_2 = c3; at_3 = d2 })

-- The four values at some indices, and their return.
abbrev pub gathered : ℕ → ℕ → ℕ → ℕ → List ℤ → Quad
gathered i j k l c = record {
  at_0 = get_or c i (pos 0);
  at_1 = get_or c j (pos 0);
  at_2 = get_or c k (pos 0);
  at_3 = get_or c l (pos 0);
}

abbrev pub scattered : ℕ → ℕ → ℕ → ℕ → Quad → List ℤ → List ℤ
scattered i j k l v c = set (set (set (set c i v.at_0) j v.at_1) k v.at_2) l v.at_3

unfoldable pub transform_group : ℕ → ℕ → ℕ → ℕ → (Quad → Checked Quad) → List ℤ → Checked (List ℤ)
transform_group i j k l operation c = do
  v ← operation (gathered i j k l c)
  value (scattered i j k l v c)

unfoldable pub inverse_hadamard_2x2 : Quad → ℤ → Checked Quad
inverse_hadamard_2x2 values rounding = t2x2h rounding values

unfoldable pub inverse_chroma_420 : Quad → Checked Quad
inverse_chroma_420 c = do
  v ← t2x2h (pos 0) c
  value (record { at_0 = v.at_0; at_1 = v.at_2; at_2 = v.at_1; at_3 = v.at_3 })

unfoldable pub inverse_t2pt : ℤ → ℤ → Checked (ℤ × ℤ)
inverse_t2pt a b = do
  half ← add_shift b (pos 1) 1
  a' ← checked_sub a half
  b' ← checked_add b a'
  value (a', b')

-- The eight coefficients as two rows.
unfoldable pub inverse_chroma_422 : Quad → Quad → Checked (Quad × Quad)
inverse_chroma_422 c d = do
  pair ← inverse_t2pt c.at_0 d.at_0
  v ← t2x2h (pos 0) (record c { at_0 = pair.0 })
  w ← t2x2h (pos 0) (record { at_0 = pair.1; at_1 = d.at_2; at_2 = d.at_1; at_3 = d.at_3 })
  value (record { at_0 = v.at_0; at_1 = v.at_2; at_2 = v.at_1; at_3 = v.at_3 }, w)

-- `coefficients[PERMUTATION[i]] = input[i]` for the positions that are left; the table comes from the build.
abbrev pub permuted : List ℕ → List ℤ → List ℤ → List ℤ
permuted [] input output = output
permuted (p ∷ positions) [] output = output
permuted (p ∷ positions) (x ∷ input) output = permuted positions input (set output p x)

module _ (inverse_permutation : List ℕ) where
  unfoldable pub inverse_permute : List ℤ → List ℤ
  inverse_permute c = permuted inverse_permutation c c

  unfoldable pub inverse_core_transform : List ℤ → Checked (List ℤ)
  inverse_core_transform c = do
    c1 ← transform_group 0 1 4 5 (t2x2h (pos 1)) (inverse_permute c)
    c2 ← transform_group 2 3 6 7 inverse_todd c1
    c3 ← transform_group 8 12 9 13 inverse_todd c2
    c4 ← transform_group 10 11 14 15 inverse_todd_odd c3
    c5 ← transform_group 0 3 12 15 (t2x2h (pos 0)) c4
    c6 ← transform_group 5 6 9 10 (t2x2h (pos 0)) c5
    c7 ← transform_group 1 2 13 14 (t2x2h (pos 0)) c6
    transform_group 4 7 8 11 (t2x2h (pos 0)) c7

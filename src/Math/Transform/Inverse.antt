-- ===== src/Math/Transform/Inverse.antt =====
-- The Hadamard operator of crates/jxr-math/src/transform.rs, run twice.
use jxr.Base.{true, ◌≡◌, refl, sym, ap, ◌∙◌, arith}
use jxr.Base.Int.{ℤ, pos, ◌+ℤ◌, ◌-ℤ◌, shr_ℤ, in_i32, +ℤ_parts, -ℤ_parts, eq_of_parts}
use jxr.Math.Arithmetic.{
  Checked, value, overflow, checked_add, checked_sub, checked_add-value, checked_sub-value,
  checked_add_exact, checked_sub_exact, bind-value,
}
use jxr.Math.Transform.{Quad, t2x2h, inverse_chroma_420}

-- `i32` values.
pub record IsI32 (v : Quad) : Type 0 where
  pub fits_0 : in_i32 v.at_0 ≡ true
  pub fits_1 : in_i32 v.at_1 ≡ true
  pub fits_2 : in_i32 v.at_2 ≡ true
  pub fits_3 : in_i32 v.at_3 ≡ true

pub sub-add : (a b c : ℤ) → c ≡ a -ℤ b → c +ℤ b ≡ a
sub-add a b c e = rw e (eq_of_parts _ _ (omega (arith, +ℤ_parts (a -ℤ b) b, -ℤ_parts a b)))

pub add-sub : (a b c : ℤ) → c ≡ a +ℤ b → c -ℤ b ≡ a
add-sub a b c e = rw e (eq_of_parts _ _ (omega (arith, -ℤ_parts (a +ℤ b) b, +ℤ_parts a b)))

pub sub-sub : (a b c : ℤ) → c ≡ a -ℤ b → a -ℤ c ≡ b
sub-sub a b c e = rw e (eq_of_parts _ _ (omega (arith, -ℤ_parts a (a -ℤ b), -ℤ_parts a b)))

unfoldable pub the_quad : Checked Quad → Quad → Quad
the_quad (value v) d = v
the_quad (overflow operation) d = d

-- The second run, where the first one has met these values.
t2x2h_back :
    (rounding sum turn difference rounded third fourth first second : ℤ) (v : Quad)
    → IsI32 v
    → checked_add v.at_0 v.at_3 ≡ value sum
    → checked_sub v.at_1 v.at_2 ≡ value turn
    → checked_sub sum turn ≡ value difference
    → checked_add difference rounding ≡ value rounded
    → checked_sub (shr_ℤ rounded 1) v.at_3 ≡ value third
    → checked_sub (shr_ℤ rounded 1) v.at_2 ≡ value fourth
    → checked_sub sum fourth ≡ value first
    → checked_add turn third ≡ value second
    → t2x2h rounding (record { at_0 = first; at_1 = second; at_2 = third; at_3 = fourth }) ≡ value v
unfolding t2x2h
t2x2h_back rounding sum turn difference rounded third fourth first second v i e1 e2 e3 e4 e5 e6 e7
      e8 =
    let half = shr_ℤ rounded 1 in
    let (sum_is, sum_in) = checked_add-value v.at_0 v.at_3 e1 in
    let (turn_is, turn_in) = checked_sub-value v.at_1 v.at_2 e2 in
    let third_is = (checked_sub-value half v.at_3 e5).0 in
    let fourth_is = (checked_sub-value half v.at_2 e6).0 in
    let first_is = (checked_sub-value sum fourth e7).0 in
    let second_is = (checked_add-value turn third e8).0 in
    rw
      (
        checked_add_exact first fourth sum (sub-add sum fourth first first_is) sum_in,
        checked_sub_exact second third turn (add-sub turn third second second_is) turn_in,
        e3,
        e4,
        checked_sub_exact half fourth v.at_2 (sub-sub half v.at_2 fourth fourth_is) i.fits_2,
        checked_sub_exact half third v.at_3 (sub-sub half v.at_3 third third_is) i.fits_3,
        checked_sub_exact sum v.at_3 v.at_0 (add-sub v.at_0 v.at_3 sum sum_is) i.fits_0,
        checked_add_exact turn v.at_2 v.at_1 (sub-add v.at_1 v.at_2 turn turn_is) i.fits_1,
      )
      refl

-- The four-value Hadamard operator is its own inverse at each rounding: on `i32` values, where a run
-- does not overflow, a second run does not either and gives back the values.
pub t2x2h_involution :
    (rounding : ℤ) (v w : Quad) → IsI32 v → t2x2h rounding v ≡ value w → t2x2h rounding w ≡ value v
unfolding t2x2h the_quad
t2x2h_involution rounding v w i h =
    let (sum, e1, h1) = bind-value (checked_add v.at_0 v.at_3) _ h in
    let (turn, e2, h2) = bind-value (checked_sub v.at_1 v.at_2) _ h1 in
    let (difference, e3, h3) = bind-value (checked_sub sum turn) _ h2 in
    let (rounded, e4, h4) = bind-value (checked_add difference rounding) _ h3 in
    let (third, e5, h5) = bind-value (checked_sub (shr_ℤ rounded 1) v.at_3) _ h4 in
    let (fourth, e6, h6) = bind-value (checked_sub (shr_ℤ rounded 1) v.at_2) _ h5 in
    let (first, e7, h7) = bind-value (checked_sub sum fourth) _ h6 in
    let (second, e8, h8) = bind-value (checked_add turn third) _ h7 in
    let q : Quad = record { at_0 = first; at_1 = second; at_2 = third; at_3 = fourth } in
    let same : q ≡ w = ap (λ x. the_quad x q) h8 in
    ap (t2x2h rounding) (sym same)
    ∙ t2x2h_back rounding sum turn difference rounded third fourth first second v i e1 e2 e3 e4 e5
        e6 e7 e8

abbrev pub middle_exchanged : Quad → Quad
middle_exchanged v = record { at_0 = v.at_0; at_1 = v.at_2; at_2 = v.at_1; at_3 = v.at_3 }

-- The first level of a 4:2:0 chroma block can be undone: on `i32` values, the Hadamard operator gives
-- back the coefficients from the result, with its middle values exchanged.
pub inverse_chroma_420-t2x2h :
    (v w : Quad)
    → IsI32 v
    → inverse_chroma_420 v ≡ value w
    → t2x2h (pos 0) (middle_exchanged w) ≡ value v
unfolding inverse_chroma_420 the_quad
inverse_chroma_420-t2x2h v w i h =
    let (u, run, rest) = bind-value (t2x2h (pos 0) v) _ h in
    let same : middle_exchanged u ≡ w = ap (λ x. the_quad x (middle_exchanged u)) rest in
    ap (λ (q : Quad). t2x2h (pos 0) (middle_exchanged q)) (sym same)
    ∙ t2x2h_involution (pos 0) v u i run

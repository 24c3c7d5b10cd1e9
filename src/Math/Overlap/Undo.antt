-- ===== src/Math/Overlap/Undo.antt =====
-- The subsampled overlap filters of crates/jxr-math/src/overlap.rs, step by step backwards.
use jxr.Base.{ℕ, ◌≡◌, refl, sym, ap, ◌∙◌}
use std.Path.{subst}
use jxr.Base.Int.{ℤ, pos, ◌+ℤ◌, ◌-ℤ◌, shr_ℤ}
use jxr.Math.Arithmetic.{
  Checked, value, overflow, checked_add, checked_sub, checked_add-value, checked_sub-value,
  bind-value, bind-elim,
}
use jxr.Math.Transform.{Quad, add_shift}
use jxr.Math.Transform.Inverse.{sub-add, add-sub, the_quad}
use jxr.Math.Overlap.{inverse_overlap_filter_2x2, inverse_overlap_filter_2}

the_number : Checked ℤ → ℤ → ℤ
the_number (value a) d = a
the_number (overflow operation) d = d

add_shift-value : (a k : ℤ) (n : ℕ) {s : ℤ} → add_shift a k n ≡ value s → s ≡ shr_ℤ (a +ℤ k) n
unfolding the_number
add_shift-value a k n {s} h =
    let (sum, e, g) = bind-value (checked_add a k) _ h in
    sym (ap (λ c. the_number c s) g) ∙ ap (λ t. shr_ℤ t n) (checked_add-value a k e).0

-- A lifting step, and the step that undoes it.
lift_add : (a b : ℤ) {c t : ℤ} → checked_add a b ≡ value c → b ≡ t → c -ℤ t ≡ a
lift_add a b {c} {t} e same =
    subst (λ u. c -ℤ u ≡ a) same (add-sub a b c (checked_add-value a b e).0)

lift_sub : (a b : ℤ) {c t : ℤ} → checked_sub a b ≡ value c → b ≡ t → c +ℤ t ≡ a
lift_sub a b {c} {t} e same =
    subst (λ u. c +ℤ u ≡ a) same (sub-add a b c (checked_sub-value a b e).0)

-- The lifting steps of the two-sample filter, in reverse.
unfoldable pub undo_2 : ℤ × ℤ → ℤ × ℤ
undo_2 w =
    let b = w.1 -ℤ shr_ℤ (w.0 +ℤ pos 2) 2 in
    let a = w.0 -ℤ shr_ℤ b 13 -ℤ shr_ℤ b 9 -ℤ shr_ℤ b 5 in
    let first = a -ℤ shr_ℤ (b +ℤ pos 1) 1 in (first, b -ℤ shr_ℤ (first +ℤ pos 2) 2)

the_pair : Checked (ℤ × ℤ) → ℤ × ℤ → ℤ × ℤ
the_pair (value v) d = v
the_pair (overflow operation) d = d

-- The two-sample overlap filter loses nothing: where it does not overflow, its steps in reverse give
-- back the samples.
pub undo_2-inverse_overlap_filter_2 :
    (v w : ℤ × ℤ) → inverse_overlap_filter_2 v ≡ value w → undo_2 w ≡ v
unfolding inverse_overlap_filter_2 undo_2 the_pair
undo_2-inverse_overlap_filter_2 v w h = bind-elim (add_shift v.0 (pos 2) 2) _ h (λ q e1 h1.
    bind-elim (checked_add v.1 q) _ h1 (λ b e2 h2.
      bind-elim (add_shift b (pos 1) 1) _ h2 (λ g e3 h3.
        bind-elim (checked_add v.0 g) _ h3 (λ a e4 h4.
          bind-elim (checked_add a (shr_ℤ b 5)) _ h4 (λ a1 e5 h5.
            bind-elim (checked_add a1 (shr_ℤ b 9)) _ h5 (λ a2 e6 h6.
              bind-elim (checked_add a2 (shr_ℤ b 13)) _ h6 (λ a3 e7 h7.
                bind-elim (add_shift a3 (pos 2) 2) _ h7 (λ p e8 h8.
                  bind-elim (checked_add b p) _ h8 (λ b1 e9 h9.
                    subst (λ u. undo_2 u ≡ v) (ap (λ c. the_pair c w) h9)
                      (rw
                        (
                          lift_add b p e9 (add_shift-value a3 (pos 2) 2 e8),
                          lift_add a2 (shr_ℤ b 13) e7 refl,
                          lift_add a1 (shr_ℤ b 9) e6 refl,
                          lift_add a (shr_ℤ b 5) e5 refl,
                          lift_add v.0 g e4 (add_shift-value b (pos 1) 1 e3),
                          lift_add v.1 q e2 (add_shift-value v.0 (pos 2) 2 e1),
                        )
                        refl))))))))))

-- The lifting steps of the two-by-two filter, in reverse.
unfoldable pub undo_2x2 : Quad → Quad
undo_2x2 w =
    let a4 = w.at_0 +ℤ w.at_3 in
    let b2 = w.at_1 +ℤ w.at_2 in
    let c = w.at_2 -ℤ shr_ℤ (b2 +ℤ pos 1) 1 in
    let d = w.at_3 -ℤ shr_ℤ (a4 +ℤ pos 1) 1 in
    let b1 = b2 -ℤ shr_ℤ (a4 +ℤ pos 2) 2 in
    let a1 = a4 -ℤ shr_ℤ b1 13 -ℤ shr_ℤ b1 9 -ℤ shr_ℤ b1 5 in
    let a = a1 -ℤ shr_ℤ (b1 +ℤ pos 1) 1 in
    let b = b1 -ℤ shr_ℤ (a +ℤ pos 2) 2 in
    let third = c +ℤ shr_ℤ (b +ℤ pos 1) 1 in
    let fourth = d +ℤ shr_ℤ (a +ℤ pos 1) 1 in
    record { at_0 = a -ℤ fourth; at_1 = b -ℤ third; at_2 = third; at_3 = fourth }

-- The two-by-two overlap filter loses nothing: where it does not overflow, its steps in reverse give
-- back the samples.
pub undo_2x2-inverse_overlap_filter_2x2 :
    (v w : Quad) → inverse_overlap_filter_2x2 v ≡ value w → undo_2x2 w ≡ v
unfolding inverse_overlap_filter_2x2 undo_2x2 the_quad
undo_2x2-inverse_overlap_filter_2x2 v w h = bind-elim (checked_add v.at_0 v.at_3) _ h (λ a e1 h1.
    bind-elim (checked_add v.at_1 v.at_2) _ h1 (λ b e2 h2.
      bind-elim (add_shift a (pos 1) 1) _ h2 (λ ha e3 h3.
        bind-elim (checked_sub v.at_3 ha) _ h3 (λ d e4 h4.
          bind-elim (add_shift b (pos 1) 1) _ h4 (λ hb e5 h5.
            bind-elim (checked_sub v.at_2 hb) _ h5 (λ c e6 h6.
              bind-elim (add_shift a (pos 2) 2) _ h6 (λ qa e7 h7.
                bind-elim (checked_add b qa) _ h7 (λ b1 e8 h8.
                  bind-elim (add_shift b1 (pos 1) 1) _ h8 (λ hb1 e9 h9.
                    bind-elim (checked_add a hb1) _ h9 (λ a1 e10 h10.
                      bind-elim (checked_add a1 (shr_ℤ b1 5)) _ h10 (λ a2 e11 h11.
                        bind-elim (checked_add a2 (shr_ℤ b1 9)) _ h11 (λ a3 e12 h12.
                          bind-elim (checked_add a3 (shr_ℤ b1 13)) _ h12 (λ a4 e13 h13.
                            bind-elim (add_shift a4 (pos 2) 2) _ h13 (λ qa4 e14 h14.
                              bind-elim (checked_add b1 qa4) _ h14 (λ b2 e15 h15.
                                bind-elim (add_shift a4 (pos 1) 1) _ h15 (λ ha4 e16 h16.
                                  bind-elim (checked_add d ha4) _ h16 (λ d1 e17 h17.
                                    bind-elim (add_shift b2 (pos 1) 1) _ h17 (λ hb2 e18 h18.
                                      bind-elim (checked_add c hb2) _ h18 (λ c1 e19 h19.
                                        bind-elim (checked_sub a4 d1) _ h19 (λ a5 e20 h20.
                                          bind-elim (checked_sub b2 c1) _ h20 (λ b3 e21 h21.
                                            subst (λ u. undo_2x2 u ≡ v) (ap (λ c. the_quad c w) h21)
                                              (rw
                                                (
                                                  lift_sub a4 d1 e20 refl,
                                                  lift_sub b2 c1 e21 refl,
                                                  lift_add c hb2 e19
                                                      (add_shift-value b2 (pos 1) 1 e18),
                                                  lift_add d ha4 e17
                                                      (add_shift-value a4 (pos 1) 1 e16),
                                                  lift_add b1 qa4 e15
                                                      (add_shift-value a4 (pos 2) 2 e14),
                                                  lift_add a3 (shr_ℤ b1 13) e13 refl,
                                                  lift_add a2 (shr_ℤ b1 9) e12 refl,
                                                  lift_add a1 (shr_ℤ b1 5) e11 refl,
                                                  lift_add a hb1 e10
                                                      (add_shift-value b1 (pos 1) 1 e9),
                                                  lift_add b qa e8 (add_shift-value a (pos 2) 2 e7),
                                                  lift_sub v.at_2 hb e6
                                                      (add_shift-value b (pos 1) 1 e5),
                                                  lift_sub v.at_3 ha e4
                                                      (add_shift-value a (pos 1) 1 e3),
                                                  lift_add v.at_0 v.at_3 e1 refl,
                                                  lift_add v.at_1 v.at_2 e2 refl,
                                                )
                                                refl))))))))))))))))))))))

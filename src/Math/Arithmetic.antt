-- ===== src/Math/Arithmetic.antt =====
-- crates/jxr-math/src/arithmetic.rs: checked integer arithmetic.
use jxr.Base.{true, Option, none, some, String, ◌≡◌, refl, ◌∙◌, ap, arith}
use jxr.Base.Int.{ℤ, ◌+ℤ◌, ◌-ℤ◌, ◌*ℤ◌, i32_checked, in_i32, i32_checked-some}

-- `Result<A, MathError>`; the error holds the operation that overflowed.
pub data Checked (A : Type 0) : Type 0 where
  value : A → Checked A
  overflow : (operation : String) → Checked A

infixl 5 ◌>>=◌
abbrev pub ◌>>=◌ : {A B : Type 0} → Checked A → (A → Checked B) → Checked B
value a >>= f = f a
overflow operation >>= f = overflow operation

abbrev pub or_overflow : {A : Type 0} → Option A → String → Checked A
or_overflow none operation = overflow operation
or_overflow (some a) operation = value a

unfoldable pub checked_add : ℤ → ℤ → Checked ℤ
checked_add left right = or_overflow (i32_checked (left +ℤ right)) "addition"

unfoldable pub checked_sub : ℤ → ℤ → Checked ℤ
checked_sub left right = or_overflow (i32_checked (left -ℤ right)) "subtraction"

unfoldable pub checked_mul : ℤ → ℤ → Checked ℤ
checked_mul left right = or_overflow (i32_checked (left *ℤ right)) "multiplication"

the_value : Checked ℤ → ℤ → ℤ
the_value (value a) d = a
the_value (overflow operation) d = d

or_overflow-some :
    (o : Option ℤ) (operation : String) {b : ℤ} → or_overflow o operation ≡ value b → o ≡ some b
or_overflow-some (some a) operation {b} h = unfold the_value in ap (λ x. some (the_value x b)) h
or_overflow-some none operation h = absurd (ground arith)

-- What a checked operation has given.
or_overflow-value :
    (a : ℤ) (operation : String) {b : ℤ}
    → or_overflow (i32_checked a) operation ≡ value b
    → (b ≡ a) × (in_i32 b ≡ true)
or_overflow-value a operation {b} h =
    let (same, inside) = i32_checked-some a (or_overflow-some (i32_checked a) operation h) in
    (same, ap in_i32 same ∙ inside)

pub checked_add-value :
    (a b : ℤ) {c : ℤ} → checked_add a b ≡ value c → (c ≡ a +ℤ b) × (in_i32 c ≡ true)
unfolding checked_add
checked_add-value a b h = or_overflow-value (a +ℤ b) "addition" h

pub checked_sub-value :
    (a b : ℤ) {c : ℤ} → checked_sub a b ≡ value c → (c ≡ a -ℤ b) × (in_i32 c ≡ true)
unfolding checked_sub
checked_sub-value a b h = or_overflow-value (a -ℤ b) "subtraction" h

-- When a checked operation gives its exact result.
pub checked_add_exact : (a b c : ℤ) → a +ℤ b ≡ c → in_i32 c ≡ true → checked_add a b ≡ value c
unfolding checked_add
checked_add_exact a b c e h = rw (e, h) refl

pub checked_sub_exact : (a b c : ℤ) → a -ℤ b ≡ c → in_i32 c ≡ true → checked_sub a b ≡ value c
unfolding checked_sub
checked_sub_exact a b c e h = rw (e, h) refl

pub bind-value :
    {A B : Type 0} (m : Checked A) (f : A → Checked B) {b : B}
    → (m >>= f) ≡ value b
    → (a : A) × (m ≡ value a) × (f a ≡ value b)
bind-value (value a) f h = (a, refl, h)
bind-value (overflow operation) f h = absurd (ground arith)

-- The same, for a goal that the value helps to prove.
pub bind-elim :
    {A B G : Type 0} (m : Checked A) (f : A → Checked B) {b : B}
    → (m >>= f) ≡ value b
    → ((a : A) → m ≡ value a → f a ≡ value b → G)
    → G
bind-elim (value a) f h k = k a refl h
bind-elim (overflow operation) f h k = absurd (ground arith)

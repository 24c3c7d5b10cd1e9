-- ===== src/Entropy/Step.antt =====
-- The errors of crates/jxr-native/src/entropy/error.rs, and steps on a mutable state.
-- A step returns its result and the state that it leaves, on an error too.
pub mod Post
use jxr.Base.{ℕ, ◌≡◌, Bool, true, false, String, Option, none, some, List, get_elem?}
use jxr.Base.Int.{ℤ}

pub data EntropyError : Type 0 where
  unexpected_end : (bit_position requested_bits bit_length : ℕ) → EntropyError
  invalid_bit_length : (bit_length available_bits : ℕ) → EntropyError
  invalid_vlc : (syntax_name : String) (bit_position : ℕ) → EntropyError
  invalid_parameter : (parameter : String) (value : ℤ) → EntropyError
  coefficient_overflow : EntropyError

-- `panic` is no value of the source: an index out of range or a subtraction below zero, which stop
-- the program.
pub data Result (A : Type 0) : Type 0 where
  ok : A → Result A
  err : EntropyError → Result A
  panic : Result A

abbrev pub Step : Type 0 → Type 0 → Type 0
Step S A = S → Result A × S

-- What follows a finished step: an error skips it and keeps the state.
abbrev pub continue : {S A B : Type 0} → Result A × S → (A → Step S B) → Result B × S
continue (ok a, s) f = f a s
continue (err e, s) f = (err e, s)
continue (panic, s) f = (panic, s)

infixl 5 ◌>>=◌ ◌>>◌
abbrev pub ◌>>=◌ : {S A B : Type 0} → (S → Result A × S) → (A → S → Result B × S) → S → Result B × S
◌>>=◌ m f s = continue (m s) f

abbrev pub ◌>>◌ :
    {S B : Type 0} → (S → Result (Unit {0}) × S) → (S → Result B × S) → S → Result B × S
◌>>◌ m k s = continue (m s) (λ _. k)

abbrev pub return : {S A : Type 0} → A → S → Result A × S
return a s = (ok a, s)

abbrev pub fail : {S A : Type 0} → EntropyError → S → Result A × S
fail e s = (err e, s)

-- `if bad { return Err(e) }`
abbrev pub reject_if : {S : Type 0} → Bool → EntropyError → S → Result (Unit {0}) × S
reject_if true e s = (err e, s)
reject_if false e s = (ok tt, s)

-- `o.ok_or(e)?`
abbrev pub some_or : {S A : Type 0} → Option A → EntropyError → S → Result A × S
some_or none e s = (err e, s)
some_or (some a) e s = (ok a, s)

abbrev pub or_panic : {S A : Type 0} → Option A → S → Result A × S
or_panic none s = (panic, s)
or_panic (some a) s = (ok a, s)

-- `values[i]`
abbrev pub index : {S A : Type 0} → List A → ℕ → S → Result A × S
index values i = or_panic (get_elem? values i)

-- A step whose result is known, as a pair.
pub run_eq : {S A : Type 0} (m : Result A × S) {x : Result A} → m.0 ≡ x → m ≡ (x, m.1)
run_eq m h = λ i. (h i, m.1)

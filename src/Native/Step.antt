-- ===== src/Native/Step.antt =====
-- `NativeError` of crates/jxr-native/src/error.rs, and computations that may fail with it.
pub mod Post
pub mod Plain
use jxr.Base.{ℕ, Bool, true, false, Option, none, some, String}

pub data NativeError : Type 0 where
  invalid_signature : NativeError
  invalid_syntax : (field : String) → NativeError
  truncated : (bit_position requested_bits : ℕ) → NativeError
  reserved_value : (field : String) (value : ℕ) → NativeError
  integer_overflow : (operation : String) → NativeError
  range_outside_input : (field : String) (offset len input_length : ℕ) → NativeError
  missing_annex_a_field : (tag : ℕ) → NativeError
  invalid_annex_a_entry : (tag element_type count : ℕ) → NativeError
  unsorted_annex_a_tags : (previous current : ℕ) → NativeError
  non_zero_alignment_bit : (bit_position : ℕ) → NativeError
  unsupported : (feature : String) → NativeError

-- `panicked` is no value of the source: an index out of range, or an `unreachable!`.
pub data Outcome (A : Type 0) : Type 0 where
  done : A → Outcome A
  failed : NativeError → Outcome A
  panicked : Outcome A

abbrev pub after : {A B : Type 0} → Outcome A → (A → Outcome B) → Outcome B
after (done a) f = f a
after (failed e) f = failed e
after panicked f = panicked

-- A parser on a reader. What an error leaves of the reader is discarded by every caller.
abbrev pub Parser : Type 0 → Type 0 → Type 0
Parser S A = S → Outcome (A × S)

infixl 5 ◌>>=◌ ◌>>◌
abbrev pub ◌>>=◌ :
    {S A B : Type 0} → (S → Outcome (A × S)) → (A → S → Outcome (B × S)) → S → Outcome (B × S)
◌>>=◌ m f s = after (m s) (λ x. f x.0 x.1)

abbrev pub ◌>>◌ :
    {S B : Type 0} → (S → Outcome (Unit {0} × S)) → (S → Outcome (B × S)) → S → Outcome (B × S)
◌>>◌ m k s = after (m s) (λ x. k x.1)

abbrev pub return : {S A : Type 0} → A → S → Outcome (A × S)
return a s = done (a, s)

abbrev pub fail : {S A : Type 0} → NativeError → S → Outcome (A × S)
fail e s = failed e

-- `if bad { return Err(e) }`
unfoldable pub reject_if : {S : Type 0} → Bool → NativeError → S → Outcome (Unit {0} × S)
reject_if true e s = failed e
reject_if false e s = done (tt, s)

-- `o.ok_or(e)?`
unfoldable pub some_or : {S A : Type 0} → Option A → NativeError → S → Outcome (A × S)
some_or none e s = failed e
some_or (some a) e s = done (a, s)

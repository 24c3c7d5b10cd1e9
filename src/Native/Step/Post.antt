-- ===== src/Native/Step/Post.antt =====
-- Postconditions of parsers: what a parser that does not panic leaves, and what it gives.
use jxr.Base.{Bool, true, false, Option, none, some, ◌≡◌, refl, if◌then◌else◌}
use jxr.Native.Step.{NativeError, Outcome, done, failed, after, reject_if, some_or}

pub data Post {S A : Type 0} (I : S → Type 0) (P : A → Type 0) : Outcome (A × S) → Type 0 where
  gives : {a : A} {s : S} → P a → I s → Post I P (done (a, s))
  fails : {e : NativeError} → Post I P (failed e)

-- The result of a parser whose reader is dropped.
pub data Yields {A : Type 0} (P : A → Type 0) : Outcome A → Type 0 where
  yields : {a : A} → P a → Yields P (done a)
  refuses : {e : NativeError} → Yields P (failed e)

module _ {S A : Type 0} {I : S → Type 0} where
  pub Post-after :
      {B : Type 0} {J : S → Type 0} {P : A → Type 0} {Q : B → Type 0} {x : Outcome (A × S)}
      (f : A × S → Outcome (B × S))
      → Post I P x
      → ((a : A) → P a → (s : S) → I s → Post J Q (f (a, s)))
      → Post J Q (after x f)
  Post-after f (gives p i) k = k _ p _ i
  Post-after f fails k = fails

  pub Post-weaken :
      {P Q : A → Type 0} {x : Outcome (A × S)} → Post I P x → ((a : A) → P a → Q a) → Post I Q x
  Post-weaken (gives p i) k = gives (k _ p) i
  Post-weaken fails k = fails

  pub some_or-Post :
      {P : A → Type 0} (o : Option A) (e : NativeError) (s : S)
      → ((a : A) → o ≡ some a → P a)
      → I s
      → Post I P (some_or o e s)
  unfolding some_or
  some_or-Post none e s h i = fails
  some_or-Post (some a) e s h i = gives (h a refl) i

module _ {S : Type 0} {I : S → Type 0} where
  pub reject_if-Post :
      (bad : Bool) (e : NativeError) (s : S)
      → I s
      → Post I (λ (_ : Unit {0}). bad ≡ false) (reject_if bad e s)
  unfolding reject_if
  reject_if-Post true e s i = fails
  reject_if-Post false e s i = gives refl i

-- The branches of a parser.
pub if-Post :
    {S A : Type 0} {I : S → Type 0} {P : A → Type 0} (c : Bool) (p q : S → Outcome (A × S)) (s : S)
    → (c ≡ true → Post I P (p s))
    → (c ≡ false → Post I P (q s))
    → Post I P ((if c then p else q) s)
if-Post true p q s h k = h refl
if-Post false p q s h k = k refl

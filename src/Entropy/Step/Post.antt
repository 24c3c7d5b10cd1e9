-- ===== src/Entropy/Step/Post.antt =====
-- Postconditions of steps: a step that satisfies one does not panic, keeps the invariant `I` of
-- the state on every path, and its value satisfies `P`.
use jxr.Base.{
  ℕ, Bool, true, false, Option, none, some, ◌≡◌, refl, ◌<◌, List, length, All, All-get_elem?,
}
use jxr.Entropy.Step.{Result, ok, err, Step, EntropyError, continue, index, some_or, reject_if}

pub data Post {S A : Type 0} (I : S → Type 0) (P : A → Type 0) : Result A × S → Type 0 where
  returns : {a : A} {s : S} → P a → I s → Post I P (ok a, s)
  raises : {e : EntropyError} {s : S} → I s → Post I P (err e, s)

module _ {S A : Type 0} {I : S → Type 0} where
  pub Post-continue :
      {B : Type 0} {P : A → Type 0} {Q : B → Type 0} {x : Result A × S} {f : A → Step S B}
      → Post I P x
      → ((a : A) → P a → (s : S) → I s → Post I Q (f a s))
      → Post I Q (continue x f)
  Post-continue (returns p i) k = k _ p _ i
  Post-continue (raises i) k = raises i

  pub Post-weaken :
      {P Q : A → Type 0} {x : Result A × S} → Post I P x → ((a : A) → P a → Q a) → Post I Q x
  Post-weaken (returns p i) k = returns (k _ p) i
  Post-weaken (raises i) k = raises i

  -- The state after a step that satisfies a postcondition.
  pub Post-state : {P : A → Type 0} {x : Result A × S} → Post I P x → I x.1
  Post-state (returns p i) = i
  Post-state (raises i) = i

  pub Post-value : {P : A → Type 0} {a : A} {s : S} → Post I P (ok a, s) → P a
  Post-value (returns p i) = p

  -- The steps that only test and look up keep the state.
  pub index-Post :
      {P : A → Type 0} (values : List A) (i : ℕ) (s : S)
      → All P values
      → i < length values
      → I s
      → Post I P (index values i s)
  index-Post {P} values i s h inside v =
      let (a, found, good) = All-get_elem? {P = P} values i h inside in rw found (returns good v)

  pub some_or-Post :
      {P : A → Type 0} (o : Option A) (e : EntropyError) (s : S)
      → ((a : A) → o ≡ some a → P a)
      → I s
      → Post I P (some_or o e s)
  some_or-Post none e s h v = raises v
  some_or-Post (some a) e s h v = returns (h a refl) v

module _ {S : Type 0} {I : S → Type 0} where
  pub reject_if-Post :
      (bad : Bool) (e : EntropyError) (s : S)
      → I s
      → Post I (λ (_ : Unit {0}). bad ≡ false) (reject_if bad e s)
  reject_if-Post true e s v = raises v
  reject_if-Post false e s v = returns refl v

-- ===== src/Native/Step/Plain.antt =====
-- Functions that may fail and change no state: do blocks on outcomes.
use jxr.Base.{Bool, true, false, Option, none, some, ◌≡◌, refl, if◌then◌else◌}
use jxr.Native.Step.{NativeError, Outcome, done, failed, after}
use jxr.Native.Step.Post.{Post, gives, fails, Yields, yields, refuses}

infixl 5 ◌>>=◌ ◌>>◌
abbrev pub ◌>>=◌ : {A B : Type 0} → Outcome A → (A → Outcome B) → Outcome B
m >>= f = after m f

abbrev pub ◌>>◌ : {A B : Type 0} → Outcome A → Outcome B → Outcome B
m >> k = after m (λ _. k)

-- `if bad { return Err(e) }`
unfoldable pub reject_if : Bool → NativeError → Outcome (Unit {0})
reject_if true e = failed e
reject_if false e = done tt

-- `o.ok_or(e)?`
unfoldable pub some_or : {A : Type 0} → Option A → NativeError → Outcome A
some_or none e = failed e
some_or (some a) e = done a

pub Yields-after :
    {A B : Type 0} {P : A → Type 0} {Q : B → Type 0} {x : Outcome A} (f : A → Outcome B)
    → Yields P x
    → ((a : A) → P a → Yields Q (f a))
    → Yields Q (after x f)
Yields-after f (yields p) k = k _ p
Yields-after f refuses k = refuses

-- A step on a state, after a function that may fail.
pub Yields-Post :
    {S A B : Type 0} {I : S → Type 0} {P : A → Type 0} {Q : B → Type 0} {x : Outcome A}
    (f : A → Outcome (B × S))
    → Yields P x
    → ((a : A) → P a → Post I Q (f a))
    → Post I Q (after x f)
Yields-Post f (yields p) k = k _ p
Yields-Post f refuses k = fails

-- The result of a step on a state.
pub Post-Yields :
    {S A B : Type 0} {I : S → Type 0} {P : A → Type 0} {Q : B → Type 0} {x : Outcome (A × S)}
    (f : A × S → Outcome B)
    → Post I P x
    → ((a : A) → P a → (s : S) → I s → Yields Q (f (a, s)))
    → Yields Q (after x f)
Post-Yields f (gives p i) k = k _ p _ i
Post-Yields f fails k = refuses

pub Yields-weaken :
    {A : Type 0} {P Q : A → Type 0} {x : Outcome A}
    → Yields P x
    → ((a : A) → P a → Q a)
    → Yields Q x
Yields-weaken (yields p) k = yields (k _ p)
Yields-weaken refuses k = refuses

-- What is returned, with the equation that says so.
pub Yields-equation :
    {A : Type 0} {P : A → Type 0} {x : Outcome A} → Yields P x → Yields (λ a. P a × (x ≡ done a)) x
Yields-equation (yields p) = yields (p, refl)
Yields-equation refuses = refuses

pub reject_if-Yields :
    (bad : Bool) (e : NativeError) → Yields (λ (_ : Unit {0}). bad ≡ false) (reject_if bad e)
unfolding reject_if
reject_if-Yields true e = refuses
reject_if-Yields false e = yields refl

pub some_or-Yields :
    {A : Type 0} (o : Option A) (e : NativeError) → Yields (λ a. o ≡ some a) (some_or o e)
unfolding some_or
some_or-Yields none e = refuses
some_or-Yields (some a) e = yields refl

-- The branches of a function.
pub if-Yields :
    {A : Type 0} {P : A → Type 0} (c : Bool) (x y : Outcome A)
    → (c ≡ true → Yields P x)
    → (c ≡ false → Yields P y)
    → Yields P (if c then x else y)
if-Yields true x y h k = h refl
if-Yields false x y h k = k refl

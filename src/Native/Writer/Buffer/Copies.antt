-- ===== src/Native/Writer/Buffer/Copies.antt =====
-- Copies into a buffer: what stands where after a `copy_from_slice`.
use jxr.Base.{
  ℕ, zero, suc, ◌+◌, ◌-◌, ◌*◌, ◌/◌, ◌^◌, ◌≤◌, ◌<◌, ◌≡◌, ◌⊎◌, refl, sym, ap, ◌∙◌, List, [], ◌∷◌,
  ◌++◌, length, length-append, length-drop, get_elem?, take, drop, arith, ltb, leb, inl, inr, true,
  false, String,
}
use mathlib.Core.Option.{some-injective}
use native.Mathlib.Nat.{pow-suc}
use jxr.Native.Step.{done}
use jxr.Native.Step.Post.{Yields, yields}
use jxr.Native.Step.Plain.{if-Yields, reject_if}
use jxr.Native.BitReader.{usize_max}
use jxr.Native.AnnexA.Ranges.{slice, checked_range, from_le_bytes}
use jxr.Native.AnnexA.Valid.{length-take}
use jxr.Native.Writer.Buffer.{put, le_bytes}

-- The bytes `xs` stand at `p`.
pub record IsAt (output : List ℕ) (p : ℕ) (xs : List ℕ) : Type 0 where
  pub within : p + length xs ≤ length output
  pub found : (i : ℕ) → i < length xs → get_elem? output (p + i) ≡ get_elem? xs i

-- Only bytes from `low` to `high` differ.
pub record IsWrite (low high : ℕ) (before after : List ℕ) : Type 0 where
  pub same_length : length after ≡ length before
  pub kept : (j : ℕ) → (j < low) ⊎ (high ≤ j) → get_elem? after j ≡ get_elem? before j

append_left : (xs ys : List ℕ) (i : ℕ) → i < length xs → get_elem? (xs ++ ys) i ≡ get_elem? xs i
append_left [] ys i h = absurd (omega arith)
append_left (x ∷ xs) ys zero h = refl
append_left (x ∷ xs) ys (suc i) h = append_left xs ys i (omega arith)

append_right : (xs ys : List ℕ) (i : ℕ) → get_elem? (xs ++ ys) (length xs + i) ≡ get_elem? ys i
append_right [] ys i = ap (get_elem? ys) (omega arith)
append_right (x ∷ xs) ys i =
    let place : suc (length xs) + i ≡ suc (length xs + i) = omega arith in
    ap (get_elem? (x ∷ (xs ++ ys))) place ∙ append_right xs ys i

get_elem?-take : (n : ℕ) (xs : List ℕ) (i : ℕ) → i < n → get_elem? (take n xs) i ≡ get_elem? xs i
get_elem?-take zero xs i h = absurd (omega arith)
get_elem?-take (suc n) [] i h = refl
get_elem?-take (suc n) (x ∷ xs) zero h = refl
get_elem?-take (suc n) (x ∷ xs) (suc i) h = get_elem?-take n xs i (omega arith)

get_elem?-drop : (n : ℕ) (xs : List ℕ) (i : ℕ) → get_elem? (drop n xs) i ≡ get_elem? xs (n + i)
get_elem?-drop zero xs i = ap (get_elem? xs) (omega arith)
get_elem?-drop (suc n) [] i = refl
get_elem?-drop (suc n) (x ∷ xs) i =
    let place : suc (n + i) ≡ suc n + i = omega arith in
    get_elem?-drop n xs i ∙ ap (get_elem? (x ∷ xs)) place

module _ (output : List ℕ) (p : ℕ) (xs : List ℕ) (fits : p + length xs ≤ length output) where
  copied : List ℕ
  copied = take p output ++ (xs ++ drop (p + length xs) output)

  head_length : length (take p output) ≡ p
  head_length = length-take p output (omega arith)

  -- A byte behind the first `p`.
  tail_elem : (i : ℕ) → get_elem? copied (p + i) ≡ get_elem? (xs ++ drop (p + length xs) output) i
  unfolding copied
  tail_elem i =
      ap (λ k. get_elem? copied (k + i)) (sym head_length)
      ∙ append_right (take p output) (xs ++ drop (p + length xs) output) i

  copied-IsAt : IsAt copied p xs
  unfolding copied
  copied-IsAt = record {
    within =
        let a = length-append (take p output) (xs ++ drop (p + length xs) output) in
        let b = length-append xs (drop (p + length xs) output) in
        let c = head_length in omega (arith, a, b, c);
    found = λ i h. tail_elem i ∙ append_left xs (drop (p + length xs) output) i h;
  }

  copied-kept : (j : ℕ) → (j < p) ⊎ (p + length xs ≤ j) → get_elem? copied j ≡ get_elem? output j
  unfolding copied
  copied-kept j (inl h) =
      append_left (take p output) (xs ++ drop (p + length xs) output) j
        (let c = head_length in omega (arith, c, h))
      ∙ get_elem?-take p output j h
  copied-kept j (inr h) =
      let k : ℕ = j - (p + length xs) in
      let place : j ≡ p + (length xs + k) = omega arith in
      ap (get_elem? copied) place
      ∙ tail_elem (length xs + k)
      ∙ append_right xs (drop (p + length xs) output) k
      ∙ get_elem?-drop (p + length xs) output k
      ∙ ap (get_elem? output) (omega arith)

  copied-IsWrite : IsWrite p (p + length xs) output copied
  unfolding copied
  copied-IsWrite = record {
    same_length =
        let a = length-append (take p output) (xs ++ drop (p + length xs) output) in
        let b = length-append xs (drop (p + length xs) output) in
        let c = head_length in
        let d = length-drop (p + length xs) output in omega (arith, a, b, c, d);
    kept = copied-kept;
  }

  -- A copy inside the buffer does not panic.
  pub put-Yields :
      Yields (λ after. IsAt after p xs × IsWrite p (p + length xs) output after) (put output p xs)
  unfolding put copied
  put-Yields =
      if-Yields (leb (p + length xs) (length output)) _ _
        (λ _. yields (copied-IsAt, copied-IsWrite)) (λ outside. absurd (ground arith))

pub at_kept :
    {low high q : ℕ} {before after ys : List ℕ}
    → IsWrite low high before after
    → (q + length ys ≤ low) ⊎ (high ≤ q)
    → IsAt before q ys
    → IsAt after q ys
at_kept {q = q} w apart v =
    let same = w.same_length in
    let within = v.within in
    record {
      within = omega arith;
      found = λ i h.
          w.kept (q + i) (elim apart [ inl a ↦ inl (omega arith) | inr b ↦ inr (omega arith) ])
          ∙ v.found i h;
    }

pub IsWrite-widen :
    {low high low' high' : ℕ} {before after : List ℕ}
    → low' ≤ low
    → high ≤ high'
    → IsWrite low high before after
    → IsWrite low' high' before after
IsWrite-widen h k w = record {
  same_length = w.same_length;
  kept = λ j apart. w.kept j (elim apart [ inl a ↦ inl (omega arith) | inr b ↦ inr (omega arith) ]);
}

pub IsWrite-trans :
    {low high : ℕ} {a b c : List ℕ}
    → IsWrite low high a b
    → IsWrite low high b c
    → IsWrite low high a c
IsWrite-trans v w = record {
  same_length = w.same_length ∙ v.same_length;
  kept = λ j apart. w.kept j apart ∙ v.kept j apart;
}

take_found :
    (xs ys : List ℕ)
    → length xs ≤ length ys
    → ((i : ℕ) → i < length xs → get_elem? ys i ≡ get_elem? xs i)
    → take (length xs) ys ≡ xs
take_found [] ys h k = refl
take_found (x ∷ xs) [] h k = absurd (omega arith)
take_found (x ∷ xs) (y ∷ ys) h k =
    let same : y ≡ x = some-injective _ _ (k 0 (omega arith)) in
    ap (λ z. z ∷ take (length xs) ys) same
    ∙ ap (x ∷◌) (take_found xs ys (omega arith) (λ i h. k (suc i) (omega arith)))

-- The slice at bytes that stand in the buffer.
pub slice-IsAt :
    (output : List ℕ) (p : ℕ) (xs : List ℕ)
    → IsAt output p xs
    → slice output (record { start = p; end = p + length xs }) ≡ done xs
unfolding slice
slice-IsAt output p xs v =
    let within = v.within in
    let ordered : leb p (p + length xs) ≡ true = ground arith in
    let inside : leb (p + length xs) (length output) ≡ true = ground arith in
    let size : p + length xs - p ≡ length xs = omega arith in
    let rest = length-drop p output in
    rw
      (
        ordered,
        inside,
        size,
        take_found xs (drop p output) (omega arith)
            (λ i h. get_elem?-drop p output i ∙ v.found i h),
      )
      refl

pub checked_range-fits :
    (output : List ℕ) (field : String) (p len : ℕ)
    → p + len ≤ length output
    → length output ≤ usize_max
    → checked_range output field p len ≡ done (record { start = p; end = p + len })
unfolding checked_range reject_if
checked_range-fits output field p len within fits =
    let no_overflow : ltb usize_max (p + len) ≡ false = ground arith in
    let inside : ltb (length output) (p + len) ≡ false = ground arith in
    rw (no_overflow, inside) refl

-- The first bytes of the buffer.
pub take-IsAt : (output xs : List ℕ) → IsAt output 0 xs → take (length xs) output ≡ xs
take-IsAt output xs v =
    let within = v.within in
    take_found xs output (omega arith) (λ i h. ap (get_elem? output) (omega arith) ∙ v.found i h)

pub length-le_bytes : (count value : ℕ) → length (le_bytes count value) ≡ count
unfolding le_bytes
length-le_bytes zero value = refl
length-le_bytes (suc count) value = ap suc (length-le_bytes count (value / 256))

pub from_le_bytes-le_bytes :
    (count value : ℕ) → value < 256 ^ count → from_le_bytes (le_bytes count value) ≡ value
unfolding le_bytes from_le_bytes
from_le_bytes-le_bytes zero value h = omega arith
from_le_bytes-le_bytes (suc count) value h =
    let power : 256 ^ suc count ≡ 256 ^ count * 256 = pow-suc 256 count in
    let rest = from_le_bytes-le_bytes count (value / 256) (omega (arith, h, power)) in
    omega (arith, rest)

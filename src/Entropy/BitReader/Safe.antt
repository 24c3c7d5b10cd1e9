-- ===== src/Entropy/BitReader/Safe.antt =====
-- The reads of bit_reader.rs as steps with postconditions.
use jxr.Base.{arith, List, [], ◌∷◌, All, length, ◌<◌, Option, ℕ, ◌≡◌, Bool, true, false, refl, ◌^◌}
use jxr.Entropy.Step.{Result, ok, err, panic, run_eq, EntropyError, index, some_or}
use jxr.Entropy.Step.Post.{
  Post, returns, raises, Post-continue, Post-weaken, index-Post, some_or-Post,
}
use jxr.Entropy.BitReader.{PacketBitReader, read_bits, read_bit}
use jxr.Entropy.BitReader.Bits.{stream_bits-lt}
use jxr.Entropy.BitReader.Cache.{IsValid}
use jxr.Entropy.BitReader.Read.{serial_read, read_bits-serial_read}

abbrev pub Any : {A : Type 0} → A → Type 0
Any a = Unit {0}

finishes : {A : Type 0} → Result A → Bool
finishes panic = false
finishes x = true

result-Post :
    {A S : Type 0} {I : S → Type 0} {P : A → Type 0} (x : Result A) (q : Result A × S)
    → q.0 ≡ x
    → finishes x ≡ true
    → ((a : A) → x ≡ ok a → P a)
    → I q.1
    → Post I P q
unfolding finishes
result-Post (ok a) q e f p v = rw (run_eq q e) (returns (p a refl) v)
result-Post (err e') q e f p v = rw (run_eq q e) (raises v)
result-Post panic q e f p v = absurd (ground arith)

serial_read-finishes : (n : ℕ) (r : PacketBitReader) → finishes (serial_read n r) ≡ true
unfolding serial_read finishes
serial_read-finishes n r = ground arith

serial_read-lt : (n : ℕ) (r : PacketBitReader) (a : ℕ) → serial_read n r ≡ ok a → a < 2 ^ n
unfolding serial_read
serial_read-lt n r a e = let fits = stream_bits-lt r.bytes r.bit_position n in ground (arith, fits)

-- A read of `n` bits gives a number of `n` bits.
pub read_bits-lt :
    (n : ℕ) (r : PacketBitReader) → IsValid r → Post IsValid (λ a. a < 2 ^ n) (read_bits n r)
read_bits-lt n r v =
    let (e, after) = read_bits-serial_read n r v in
    result-Post (serial_read n r) (read_bits n r) e (serial_read-finishes n r) (serial_read-lt n r)
      after.valid

pub read_bits-Post : (n : ℕ) (r : PacketBitReader) → IsValid r → Post IsValid Any (read_bits n r)
read_bits-Post n r v = Post-weaken (read_bits-lt n r v) (λ _ _. tt)

pub read_bit-Post : (r : PacketBitReader) → IsValid r → Post IsValid Any (read_bit r)
unfolding read_bit
read_bit-Post r v = Post-continue (read_bits-Post 1 r v) (λ _ _ s v'. returns tt v')

pub All-Any : {A : Type 0} (xs : List A) → All Any xs
All-Any [] = tt
All-Any (x ∷ xs) = (tt, All-Any xs)

-- A look-up within the array.
pub index-Any :
    {A S : Type 0} {I : S → Type 0} (xs : List A) (i : ℕ) (s : S)
    → i < length xs
    → I s
    → Post I Any (index xs i s)
index-Any xs i s inside v = index-Post {P = Any} xs i s (All-Any xs) inside v

pub some_or-Any :
    {A S : Type 0} {I : S → Type 0} (o : Option A) (e : EntropyError) (s : S)
    → I s
    → Post I Any (some_or o e s)
some_or-Any o e s v = some_or-Post o e s (λ _ _. tt) v

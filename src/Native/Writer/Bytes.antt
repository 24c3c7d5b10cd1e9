-- ===== src/Native/Writer/Bytes.antt =====
-- The buffer of annex_a/writer.rs holds bytes.
use jxr.Base.{
  ℕ, zero, suc, ◌+◌, ◌/◌, Bool, true, false, List, [], ◌∷◌, ◌++◌, All, length, take, drop, String,
  Option, none, some, arith, leb, replicate, if◌then◌else◌,
}
use jxr.Entropy.BitReader.Bits.{IsByte}
use jxr.Native.Step.{NativeError, Outcome, done, failed, panicked, after}
use jxr.Native.Step as Step
use jxr.Native.Step.Plain as Plain
use jxr.Native.Step.Post.{Yields, yields, refuses}
use jxr.Native.AnnexA.Valid.{All-take, All-drop}
use jxr.Native.Writer.{write_directory, write_payloads, put_optional}
use jxr.Native.Writer.Layout.{AnnexAWriteOptions, ContainerLayout}
use jxr.Native.Writer.Buffer.{DirectoryEntries, put, le_bytes, push}
use jxr.Native.Writer.Entries.{as_u32, push_icc, push_alpha, push_all}

-- What holds of a value, if there is one.
pub data Gives {A : Type 0} (P : A → Type 0) : Outcome A → Type 0 where
  of_done : {a : A} → P a → Gives P (done a)
  of_failed : {e : NativeError} → Gives P (failed e)
  of_panicked : Gives P panicked

Gives-after :
    {A B : Type 0} {P : A → Type 0} {Q : B → Type 0} {x : Outcome A} (f : A → Outcome B)
    → Gives P x
    → ((a : A) → P a → Gives Q (f a))
    → Gives Q (after x f)
Gives-after f (of_done p) k = k _ p
Gives-after f of_failed k = of_failed
Gives-after f of_panicked k = of_panicked

pub Yields-Gives :
    {A : Type 0} {P Q : A → Type 0} {x : Outcome A}
    → Yields P x
    → Gives Q x
    → Yields (λ a. P a × Q a) x
Yields-Gives (yields p) (of_done q) = yields (p, q)
Yields-Gives refuses h = refuses

All-append : (xs ys : List ℕ) → All IsByte xs → All IsByte ys → All IsByte (xs ++ ys)
All-append [] ys h k = k
All-append (x ∷ xs) ys h k = (h.0, All-append xs ys h.1 k)

pub All-zeros : (n : ℕ) → All IsByte (replicate n 0)
All-zeros zero = tt
All-zeros (suc n) = (omega arith, All-zeros n)

le_bytes-IsByte : (count value : ℕ) → All IsByte (le_bytes count value)
unfolding le_bytes
le_bytes-IsByte zero value = tt
le_bytes-IsByte (suc count) value = (omega arith, le_bytes-IsByte count (value / 256))

put-Gives :
    (output : List ℕ) (p : ℕ) (xs : List ℕ)
    → All IsByte output
    → All IsByte xs
    → Gives (All IsByte) (put output p xs)
unfolding put
put-Gives output p xs h k = if_lem (leb (p + length xs) (length output))
  where
    if_lem :
        (c : Bool)
        → Gives
            (All IsByte)
            (if c then done (take p output ++ (xs ++ drop (p + length xs) output)) else panicked)
    if_lem true = of_done (
        All-append (take p output) _ (All-take p output h)
          (All-append xs (drop (p + length xs) output) k (All-drop (p + length xs) output h)))
    if_lem false = of_panicked

abbrev IsBytes : {A : Type 0} → A × DirectoryEntries → Type 0
IsBytes x = All IsByte x.1.output

push-Gives :
    (tag element_type count value : ℕ) (s : DirectoryEntries)
    → All IsByte s.output
    → Gives IsBytes (push tag element_type count value s)
unfolding push
push-Gives tag element_type count value s h =
    Gives-after _ (put-Gives s.output s.offset (le_bytes 2 tag) h (le_bytes-IsByte 2 tag)) (λ a h.
      Gives-after _
        (put-Gives a (s.offset + 2) (le_bytes 2 element_type) h (le_bytes-IsByte 2 element_type))
        (λ b h.
          Gives-after _ (put-Gives b (s.offset + 4) (le_bytes 4 count) h (le_bytes-IsByte 4 count))
            (λ c h.
              Gives-after _
                (put-Gives c (s.offset + 8) (le_bytes 4 value) h (le_bytes-IsByte 4 value))
                (λ d h. of_done h))))

reject-Gives :
    (bad : Bool) (e : NativeError) (s : DirectoryEntries)
    → All IsByte s.output
    → Gives IsBytes (Step.reject_if bad e s)
unfolding Step.reject_if
reject-Gives true e s h = of_failed
reject-Gives false e s h = of_done h

as_u32-Gives :
    (value : ℕ) (operation : String) (s : DirectoryEntries)
    → All IsByte s.output
    → Gives IsBytes (as_u32 value operation s)
unfolding as_u32
as_u32-Gives value operation s h = Gives-after _ (reject-Gives _ _ s h) (λ x h. of_done h)

push_icc-Gives :
    (profile : Option (List ℕ)) (offset : Option ℕ) (s : DirectoryEntries)
    → All IsByte s.output
    → Gives IsBytes (push_icc profile offset s)
unfolding push_icc
push_icc-Gives none offset s h = of_done h
push_icc-Gives (some profile) none s h = of_done h
push_icc-Gives (some profile) (some offset) s h =
    Gives-after _ (as_u32-Gives _ _ s h)
      (λ x h. Gives-after _ (as_u32-Gives _ _ x.1 h) (λ y h. push-Gives _ _ _ _ y.1 h))

push_alpha-Gives :
    (alpha : Option (List ℕ)) (offset : Option ℕ) (s : DirectoryEntries)
    → All IsByte s.output
    → Gives IsBytes (push_alpha alpha offset s)
unfolding push_alpha
push_alpha-Gives none offset s h = of_done h
push_alpha-Gives (some alpha) none s h = of_done h
push_alpha-Gives (some alpha) (some offset) s h = Gives-after _ (as_u32-Gives _ _ s h) (λ x h.
    Gives-after _ (push-Gives _ _ _ _ x.1 h)
      (λ y h. Gives-after _ (as_u32-Gives _ _ y.1 h) (λ z h. push-Gives _ _ _ _ z.1 h)))

push_all-Gives :
    (primary : List ℕ) (options : AnnexAWriteOptions) (layout : ContainerLayout)
    (s : DirectoryEntries)
    → All IsByte s.output
    → Gives IsBytes (push_all primary options layout s)
unfolding push_all
push_all-Gives primary options layout s h =
    Gives-after _ (push_icc-Gives options.icc_profile layout.icc_offset s h) (λ x h.
      Gives-after _ (as_u32-Gives _ _ x.1 h) (λ x h.
        Gives-after _ (push-Gives _ _ _ _ x.1 h) (λ x h.
          Gives-after _ (push-Gives _ _ _ _ x.1 h) (λ x h.
            Gives-after _ (push-Gives _ _ _ _ x.1 h) (λ x h.
              Gives-after _ (push-Gives _ _ _ _ x.1 h) (λ x h.
                Gives-after _ (push-Gives _ _ _ _ x.1 h) (λ x h.
                  Gives-after _ (push-Gives _ _ _ _ x.1 h) (λ x h.
                    Gives-after _ (as_u32-Gives _ _ x.1 h) (λ x h.
                      Gives-after _ (push-Gives _ _ _ _ x.1 h) (λ x h.
                        Gives-after _ (as_u32-Gives _ _ x.1 h) (λ x h.
                          Gives-after _ (push-Gives _ _ _ _ x.1 h) (λ x h.
                            push_alpha-Gives options.separate_alpha layout.alpha_offset x.1
                              h))))))))))))

rejected :
    (bad : Bool) (e : NativeError) → Gives (λ (_ : Unit {0}). Unit {0}) (Plain.reject_if bad e)
unfolding Plain.reject_if
rejected true e = of_failed
rejected false e = of_done tt

pub write_directory-Gives :
    (output primary : List ℕ) (options : AnnexAWriteOptions) (layout : ContainerLayout)
    → All IsByte output
    → Gives (All IsByte) (write_directory output primary options layout)
unfolding write_directory
write_directory-Gives output primary options layout h =
    Gives-after _ (put-Gives output 0 _ h (omega arith)) (λ a h.
      Gives-after _ (put-Gives a 4 (le_bytes 4 8) h (le_bytes-IsByte 4 8)) (λ b h.
        Gives-after _ (rejected _ _) (λ _ _.
          Gives-after _
            (put-Gives b 8 (le_bytes 2 layout.entry_count) h (le_bytes-IsByte 2 layout.entry_count))
            (λ c h.
              Gives-after _
                (push_all-Gives primary options layout (record { output = c; offset = 10 }) h)
                (λ x h. of_done h)))))

abbrev pub IsBytesOptional : Option (List ℕ) → Type 0
IsBytesOptional none = Unit {0}
IsBytesOptional (some xs) = All IsByte xs

put_optional-Gives :
    (output : List ℕ) (payload : Option (List ℕ)) (offset : Option ℕ)
    → All IsByte output
    → IsBytesOptional payload
    → Gives (All IsByte) (put_optional output payload offset)
unfolding put_optional
put_optional-Gives output none offset h k = of_done h
put_optional-Gives output (some payload) none h k = of_done h
put_optional-Gives output (some payload) (some offset) h k = put-Gives output offset payload h k

pub write_payloads-Gives :
    (output primary : List ℕ) (options : AnnexAWriteOptions) (layout : ContainerLayout)
    → All IsByte output
    → All IsByte primary
    → All IsByte options.pixel_format_guid
    → IsBytesOptional options.icc_profile
    → IsBytesOptional options.separate_alpha
    → Gives (All IsByte) (write_payloads output primary options layout)
unfolding write_payloads
write_payloads-Gives output primary options layout h p g i a =
    Gives-after _ (put-Gives output layout.pixel_format_offset options.pixel_format_guid h g)
      (λ o1 h.
        Gives-after _ (put_optional-Gives o1 options.icc_profile layout.icc_offset h i) (λ o2 h.
          Gives-after _ (put-Gives o2 layout.primary_offset primary h p)
            (λ o3 h. put_optional-Gives o3 options.separate_alpha layout.alpha_offset h a)))

-- ===== src/Native/Writer/Buffer/Pushed.antt =====
-- Entries that are pushed to the directory of annex_a/writer.rs, and read back by annex_a.rs.
use jxr.Base.{
  ℕ, suc, ◌+◌, ◌*◌, ◌^◌, ◌≤◌, ◌<◌, ◌≡◌, refl, List, [], ◌∷◌, ◌++◌, length, Option, none, some, All,
  arith, inl, false, String, leb,
}
use std.Path.{subst}
use jxr.Native.Step.{Outcome, done}
use jxr.Native.Step.Post.{Post, gives, fails}
use jxr.Native.Step.Plain.{Yields-Post, reject_if}
use jxr.Native.BitReader.{usize_max}
use jxr.Native.AnnexA.Ranges.{read_u16, read_u32}
use jxr.Native.AnnexA.Directory.{DirectoryEntry, read_entry, check_sorted, parse_entries}
use jxr.Native.AnnexA.Valid.Sorted.{IsEntry, IsAbove, IsAscending}
use jxr.Native.Writer.Buffer.{DirectoryEntries, le_bytes, push}
use jxr.Native.Writer.Buffer.Copies.{
  IsAt, IsWrite, put-Yields, at_kept, IsWrite-widen, IsWrite-trans, slice-IsAt, checked_range-fits,
  from_le_bytes-le_bytes,
}

-- The twelve bytes of an entry.
pub record IsEntryAt (output : List ℕ) (p : ℕ) (e : DirectoryEntry) : Type 0 where
  pub tag : IsAt output p (le_bytes 2 e.tag)
  pub element_type : IsAt output (p + 2) (le_bytes 2 e.element_type)
  pub count : IsAt output (p + 4) (le_bytes 4 e.count)
  pub value : IsAt output (p + 8) (le_bytes 4 e.value)

abbrev pub IsTable : List ℕ → ℕ → List DirectoryEntry → Type 0
IsTable output p [] = Unit {0}
IsTable output p (e ∷ entries) = IsEntryAt output p e × IsTable output (p + 12) entries

entry_kept :
    {low high p : ℕ} {before after : List ℕ} {e : DirectoryEntry}
    → IsWrite low high before after
    → p + 12 ≤ low
    → IsEntryAt before p e
    → IsEntryAt after p e
unfolding le_bytes
entry_kept w h v = record {
  tag = at_kept w (inl (omega arith)) v.tag;
  element_type = at_kept w (inl (omega arith)) v.element_type;
  count = at_kept w (inl (omega arith)) v.count;
  value = at_kept w (inl (omega arith)) v.value;
}

pub table_kept :
    {low high : ℕ} {before after : List ℕ} (p : ℕ) (entries : List DirectoryEntry)
    → IsWrite low high before after
    → p + 12 * length entries ≤ low
    → IsTable before p entries
    → IsTable after p entries
table_kept p [] w h v = tt
table_kept p (e ∷ entries) w h v =
    (entry_kept w (omega arith) v.0, table_kept (p + 12) entries w (omega arith) v.1)

table_end :
    (output : List ℕ) (p : ℕ) (entries : List DirectoryEntry) (e : DirectoryEntry)
    → IsTable output p entries
    → IsEntryAt output (p + 12 * length entries) e
    → IsTable output p (entries ++ e ∷ [])
table_end output p [] e v h = (subst (λ q. IsEntryAt output q e) (omega arith) h, tt)
table_end output p (x ∷ entries) e v h =
    let place : p + 12 * length (x ∷ entries) ≡ p + 12 + 12 * length entries = omega arith in
    (v.0, table_end output (p + 12) entries e v.1 (subst (λ q. IsEntryAt output q e) place h))

-- The buffer after some entries; `before` is the buffer without them.
pub record IsWriting (before : List ℕ) (entries : List DirectoryEntry) (s : DirectoryEntries)
    : Type 0 where
  pub place : s.offset ≡ 10 + 12 * length entries
  pub written : IsWrite 10 (10 + 12 * length entries) before s.output
  pub table : IsTable s.output 10 entries

-- Four copies, one behind the other.
four_puts :
    (p : ℕ) (e : DirectoryEntry) (o : List ℕ)
    → p + 12 ≤ length o
    → Post
        (λ s. IsWrite p (p + 12) o s.output × IsEntryAt s.output p e × (s.offset ≡ p + 12))
        (λ (_ : Unit {0}). Unit {0})
        (push e.tag e.element_type e.count e.value (record { output = o; offset = p }))
unfolding push le_bytes
four_puts p e o h = Yields-Post _ (put-Yields o p (le_bytes 2 e.tag) (omega arith)) (λ o1 (a, u1).
    let s1 = u1.same_length in
    Yields-Post _ (put-Yields o1 (p + 2) (le_bytes 2 e.element_type) (omega arith)) (λ o2 (b, u2).
      let s2 = u2.same_length in
      Yields-Post _ (put-Yields o2 (p + 4) (le_bytes 4 e.count) (omega arith)) (λ o3 (c, u3).
        let s3 = u3.same_length in
        Yields-Post _ (put-Yields o3 (p + 8) (le_bytes 4 e.value) (omega arith)) (λ o4 (d, u4).
          let w1 : IsWrite p (p + 12) o o1 = IsWrite-widen (omega arith) (omega arith) u1 in
          let w2 : IsWrite p (p + 12) o1 o2 = IsWrite-widen (omega arith) (omega arith) u2 in
          let w3 : IsWrite p (p + 12) o2 o3 = IsWrite-widen (omega arith) (omega arith) u3 in
          let w4 : IsWrite p (p + 12) o3 o4 = IsWrite-widen (omega arith) (omega arith) u4 in
          gives tt (
            IsWrite-trans w1 (IsWrite-trans w2 (IsWrite-trans w3 w4)),
            record {
              tag =
                  at_kept u4 (inl (omega arith))
                    (at_kept u3 (inl (omega arith)) (at_kept u2 (inl (omega arith)) a));
              element_type = at_kept u4 (inl (omega arith)) (at_kept u3 (inl (omega arith)) b);
              count = at_kept u4 (inl (omega arith)) c;
              value = d;
            },
            refl,
          )))))

length-snoc :
    (entries : List DirectoryEntry) (e : DirectoryEntry)
    → length (entries ++ e ∷ []) ≡ length entries + 1
length-snoc [] e = refl
length-snoc (x ∷ entries) e = let rest = length-snoc entries e in omega (arith, rest)

-- An entry that fits is pushed without a panic, behind the others.
pub push-IsWriting :
    (before : List ℕ) (entries : List DirectoryEntry) (tag element_type count value : ℕ)
    (s : DirectoryEntries)
    → IsWriting before entries s
    → 10 + 12 * (length entries + 1) ≤ length before
    → Post
        (IsWriting before (
          entries
          ++ record { tag = tag; element_type = element_type; count = count; value = value } ∷ []))
        (λ (_ : Unit {0}). Unit {0})
        (push tag element_type count value s)
push-IsWriting before entries tag element_type count value s v h =
    let size = v.written.same_length in
    let place = v.place in
    pushed (
      four_puts s.offset
        (record { tag = tag; element_type = element_type; count = count; value = value }) s.output
        (omega arith))
  where
    pushed :
        {x : Outcome (Unit {0} × DirectoryEntries)} {e : DirectoryEntry}
        → Post
            (λ t.
              IsWrite s.offset (s.offset + 12) s.output t.output
              × IsEntryAt t.output s.offset e
              × (t.offset ≡ s.offset + 12))
            (λ (_ : Unit {0}). Unit {0})
            x
        → Post (IsWriting before (entries ++ e ∷ [])) (λ (_ : Unit {0}). Unit {0}) x
    pushed {e = e} (gives {s = t} u (w, entry, moved)) =
        let place = v.place in
        let one_more = length-snoc entries e in
        let old : IsWrite 10 (10 + 12 * length (entries ++ e ∷ [])) before s.output =
          IsWrite-widen (omega arith) (omega arith) v.written in
        let new : IsWrite 10 (10 + 12 * length (entries ++ e ∷ [])) s.output t.output =
          IsWrite-widen (omega arith) (omega arith) w in
        gives tt (record {
          place = omega arith;
          written = IsWrite-trans old new;
          table =
              table_end t.output 10 entries e (table_kept 10 entries w (omega arith) v.table)
                (subst (λ q. IsEntryAt t.output q e) place entry);
        })
    pushed fails = fails

-- Numbers that stand in the buffer are read back.
pub read_u16-IsAt :
    (output : List ℕ) (p value : ℕ) (field : String)
    → IsAt output p (le_bytes 2 value)
    → value < 2 ^ 16
    → length output ≤ usize_max
    → read_u16 output p field ≡ done value
unfolding read_u16 le_bytes
read_u16-IsAt output p value field v h fits =
    rw
      (
        checked_range-fits output field p 2 v.within fits,
        slice-IsAt output p (le_bytes 2 value) v,
        from_le_bytes-le_bytes 2 value h,
      )
      refl

pub read_u32-IsAt :
    (output : List ℕ) (p value : ℕ) (field : String)
    → IsAt output p (le_bytes 4 value)
    → value < 2 ^ 32
    → length output ≤ usize_max
    → read_u32 output p field ≡ done value
unfolding read_u32 le_bytes
read_u32-IsAt output p value field v h fits =
    rw
      (
        checked_range-fits output field p 4 v.within fits,
        slice-IsAt output p (le_bytes 4 value) v,
        from_le_bytes-le_bytes 4 value h,
      )
      refl

read_entry-IsEntryAt :
    (output : List ℕ) (p : ℕ) (e : DirectoryEntry)
    → IsEntryAt output p e
    → IsEntry e
    → length output ≤ usize_max
    → read_entry output p ≡ done e
unfolding read_entry
read_entry-IsEntryAt output p e v fields fits =
    rw
      (
        read_u16-IsAt output p e.tag "FIELD_TAG" v.tag fields.tag_bits fits,
        read_u16-IsAt output (p + 2) e.element_type "ELEMENT_TYPE" v.element_type fields.type_bits
            fits,
        read_u32-IsAt output (p + 4) e.count "NUM_ELEMENTS" v.count fields.count_bits fits,
        read_u32-IsAt output (p + 8) e.value "VALUES_OR_OFFSET" v.value fields.value_bits fits,
      )
      refl

check_sorted-IsAbove :
    (previous : Option ℕ) (tag : ℕ) → IsAbove previous tag → check_sorted previous tag ≡ done tt
unfolding check_sorted reject_if
check_sorted-IsAbove none tag h = refl
check_sorted-IsAbove (some previous) tag h =
    let above : leb tag previous ≡ false = ground arith in rw above refl

-- A table in the buffer, with ascending tags, is parsed to its entries.
pub parse_entries-IsTable :
    (output : List ℕ) (table_start index : ℕ) (entries : List DirectoryEntry) (previous : Option ℕ)
    → IsTable output (table_start + index * 12) entries
    → IsAscending previous entries
    → All IsEntry entries
    → length output ≤ usize_max
    → parse_entries output table_start index (length entries) previous ≡ done entries
unfolding parse_entries
parse_entries-IsTable output table_start index [] previous v a fields fits = refl
parse_entries-IsTable output table_start index (e ∷ entries) previous v a fields fits =
    let place : table_start + index * 12 + 12 ≡ table_start + suc index * 12 = omega arith in
    rw
      (
        read_entry-IsEntryAt output (table_start + index * 12) e v.0 fields.0 fits,
        check_sorted-IsAbove previous e.tag a.0,
        parse_entries-IsTable output table_start (suc index) entries (some e.tag)
            (subst (λ q. IsTable output q entries) place v.1) a.1 fields.1 fits,
      )
      refl

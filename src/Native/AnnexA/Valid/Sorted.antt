-- ===== src/Native/AnnexA/Valid/Sorted.antt =====
-- The order of the directory that annex_a.rs parses, and the search for a tag in it.
use jxr.Base.{
  ℕ, zero, suc, ◌+◌, ◌*◌, ◌^◌, ◌≤◌, ◌<◌, ◌≡◌, refl, ap, true, false, List, [], ◌∷◌, All, length,
  get_elem?, Option, none, some, arith, ◌==◌,
}
use std.Path.{subst}
use mathlib.Core.Option.{some-injective}
use jxr.Entropy.BitReader.Bits.{IsByte}
use jxr.Native.Step.Post.{Yields, yields}
use jxr.Native.Step.Plain.{Yields-after, Yields-weaken, reject_if-Yields}
use jxr.Native.AnnexA.Directory.{
  DirectoryEntry, read_entry, check_sorted, parse_entries, parse_directory, find_entry,
}
use jxr.Native.AnnexA.Valid.{checked_range-Yields, read_u16-Yields, read_u32-Yields}

-- The fields of an entry are numbers of their width.
pub record IsEntry (e : DirectoryEntry) : Type 0 where
  pub tag_bits : e.tag < 2 ^ 16
  pub type_bits : e.element_type < 2 ^ 16
  pub count_bits : e.count < 2 ^ 32
  pub value_bits : e.value < 2 ^ 32

abbrev pub IsAbove : Option ℕ → ℕ → Type 0
IsAbove none tag = Unit {0}
IsAbove (some previous) tag = previous < tag

-- Each tag is above the one before it.
abbrev pub IsAscending : Option ℕ → List DirectoryEntry → Type 0
IsAscending previous [] = Unit {0}
IsAscending previous (e ∷ entries) = IsAbove previous e.tag × IsAscending (some e.tag) entries

pub record IsDirectory (entries : List DirectoryEntry) : Type 0 where
  pub some_entries : 1 ≤ length entries
  pub ascending : IsAscending none entries
  pub fields : All IsEntry entries

check_sorted-Yields :
    (previous : Option ℕ) (tag : ℕ)
    → Yields (λ (_ : Unit {0}). IsAbove previous tag) (check_sorted previous tag)
unfolding check_sorted
check_sorted-Yields none tag = yields tt
check_sorted-Yields (some previous) tag =
    Yields-weaken (reject_if-Yields _ _) (λ _ above. ground arith)

module _ (bytes : List ℕ) (all_bytes : All IsByte bytes) where
  read_entry-Yields : (offset : ℕ) → Yields IsEntry (read_entry bytes offset)
  unfolding read_entry
  read_entry-Yields offset =
      Yields-after _ (read_u16-Yields bytes all_bytes offset "FIELD_TAG") (λ tag t.
        Yields-after _ (read_u16-Yields bytes all_bytes (offset + 2) "ELEMENT_TYPE") (λ type k.
          Yields-after _ (read_u32-Yields bytes all_bytes (offset + 4) "NUM_ELEMENTS") (λ count c.
            Yields-after _ (read_u32-Yields bytes all_bytes (offset + 8) "VALUES_OR_OFFSET")
              (λ value v.
                yields (record { tag_bits = t; type_bits = k; count_bits = c; value_bits = v })))))

  parse_entries-Yields :
      (table_start index left : ℕ) (previous : Option ℕ)
      → Yields
          (λ entries. (length entries ≡ left) × IsAscending previous entries × All IsEntry entries)
          (parse_entries bytes table_start index left previous)
  unfolding parse_entries
  parse_entries-Yields table_start index zero previous = yields (refl, tt, tt)
  parse_entries-Yields table_start index (suc left) previous =
      Yields-after _ (read_entry-Yields (table_start + index * 12)) (λ entry fields.
        Yields-after _ (check_sorted-Yields previous entry.tag) (λ _ above.
          Yields-after _ (parse_entries-Yields table_start (suc index) left (some entry.tag))
            (λ entries (number, ascending, all_fields).
              yields (ap suc number, (above, ascending), (fields, all_fields)))))

  -- On each file and offset, the directory is refused with an error or has at least one entry, with
  -- tags that ascend strictly.
  pub parse_directory-IsDirectory : (offset : ℕ) → Yields IsDirectory (parse_directory bytes offset)
  unfolding parse_directory
  parse_directory-IsDirectory offset =
      Yields-after _ (read_u16-Yields bytes all_bytes offset "NUM_ENTRIES") (λ count _.
        Yields-after _ (reject_if-Yields _ _) (λ _ some_entry.
          Yields-after _ (reject_if-Yields _ _) (λ _ _.
            Yields-after _ (checked_range-Yields bytes "IMAGE_FILE_DIRECTORY" (offset + 2) _)
              (λ _ _.
                Yields-weaken (parse_entries-Yields (offset + 2) 0 count none)
                  (λ entries (number, ascending, fields). record {
                    some_entries = ground arith;
                    ascending = ascending;
                    fields = fields;
                  })))))

above_first :
    (previous : ℕ) (entries : List DirectoryEntry) (i : ℕ) (e : DirectoryEntry)
    → IsAscending (some previous) entries
    → get_elem? entries i ≡ some e
    → previous < e.tag
above_first previous [] i e h k = absurd (ground (arith, k))
above_first previous (x ∷ entries) zero e h k =
    let same : x ≡ e = some-injective _ _ k in
    let above : previous < x.tag = h.0 in subst (λ y. previous < y.tag) same above
above_first previous (x ∷ entries) (suc i) e h k =
    let above : previous < x.tag = h.0 in omega (arith, above, above_first x.tag entries i e h.1 k)

-- In a directory with ascending tags, the search for the tag of an entry finds that entry.
pub find_entry-ascending :
    (previous : Option ℕ) (entries : List DirectoryEntry) (i : ℕ) (e : DirectoryEntry)
    → IsAscending previous entries
    → get_elem? entries i ≡ some e
    → find_entry entries e.tag ≡ some e
unfolding find_entry
find_entry-ascending previous [] i e h k = absurd (ground (arith, k))
find_entry-ascending previous (x ∷ entries) zero e h k =
    let same : x.tag ≡ e.tag = ap (λ y. y.tag) (some-injective _ _ k) in
    let found : (x.tag == e.tag) ≡ true = ground arith in rw found k
find_entry-ascending previous (x ∷ entries) (suc i) e h k =
    let above = above_first x.tag entries i e h.1 k in
    let other : (x.tag == e.tag) ≡ false = ground arith in
    rw other (find_entry-ascending (some x.tag) entries i e h.1 k)

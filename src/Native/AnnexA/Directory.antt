-- ===== src/Native/AnnexA/Directory.antt =====
-- The directory of annex_a.rs: its entries and what they hold.
use jxr.Base.{
  ℕ, zero, suc, ◌+◌, ◌*◌, min, bit_and, Bool, false, not, ◌&&◌, ◌||◌, List, [], ◌∷◌, Option, none,
  some, ltb, leb, ◌==◌, if◌then◌else◌,
}
use jxr.Native.Step.{
  Outcome, done, panicked, reserved_value, integer_overflow, unsorted_annex_a_tags,
  invalid_annex_a_entry, missing_annex_a_field,
}
use jxr.Native.Step.Plain.{◌>>=◌, ◌>>◌, reject_if, some_or}
use jxr.Native.BitReader.{usize_max}
use jxr.Native.AnnexA.Ranges.{checked_range, read_u16, read_u32}

pub record DirectoryEntry : Type 0 where
  pub tag : ℕ
  pub element_type : ℕ
  pub count : ℕ
  pub value : ℕ

unfoldable pub read_entry : List ℕ → ℕ → Outcome DirectoryEntry
read_entry bytes entry_offset = do
  tag ← read_u16 bytes entry_offset "FIELD_TAG"
  element_type ← read_u16 bytes (entry_offset + 2) "ELEMENT_TYPE"
  count ← read_u32 bytes (entry_offset + 4) "NUM_ELEMENTS"
  value ← read_u32 bytes (entry_offset + 8) "VALUES_OR_OFFSET"
  done (record { tag = tag; element_type = element_type; count = count; value = value })

unfoldable pub check_sorted : Option ℕ → ℕ → Outcome (Unit {0})
check_sorted none tag = done tt
check_sorted (some previous) tag = reject_if (leb tag previous) (unsorted_annex_a_tags previous tag)

-- The `for` of `parse_directory`, with `left` entries from `index`.
unfoldable pub parse_entries : List ℕ → ℕ → ℕ → ℕ → Option ℕ → Outcome (List DirectoryEntry)
parse_entries bytes table_start index zero previous = done []
parse_entries bytes table_start index (suc left) previous = do
  entry ← read_entry bytes (table_start + index * 12)
  check_sorted previous entry.tag
  entries ← parse_entries bytes table_start (suc index) left (some entry.tag)
  done (entry ∷ entries)

unfoldable pub parse_directory : List ℕ → ℕ → Outcome (List DirectoryEntry)
parse_directory bytes offset = do
  count ← read_u16 bytes offset "NUM_ENTRIES"
  reject_if (count == 0) (reserved_value "NUM_ENTRIES" 0)
  reject_if (ltb usize_max (offset + 2)) (integer_overflow "locating Annex-A directory entries")
  range ← checked_range bytes "IMAGE_FILE_DIRECTORY" (offset + 2) (min (count * 12) usize_max)
  parse_entries bytes (offset + 2) 0 count none

-- `entries.iter().find(|entry| entry.tag == tag)`
unfoldable pub find_entry : List DirectoryEntry → ℕ → Option DirectoryEntry
find_entry [] tag = none
find_entry (entry ∷ entries) tag = if entry.tag == tag then some entry else find_entry entries tag

unfoldable pub contains : List ℕ → ℕ → Bool
contains [] x = false
contains (y ∷ ys) x = (y == x) || contains ys x

unfoldable pub validate_entry : DirectoryEntry → List ℕ → ℕ → Outcome (Unit {0})
validate_entry entry allowed_types expected_count =
    reject_if (not ((entry.count == expected_count) && contains allowed_types entry.element_type))
      (invalid_annex_a_entry entry.tag entry.element_type entry.count)

unfoldable pub required_entry : List DirectoryEntry → ℕ → Outcome DirectoryEntry
required_entry entries tag = some_or (find_entry entries tag) (missing_annex_a_field tag)

-- The last case is `unreachable!`.
unfoldable pub scalar_of_type : ℕ → ℕ → Outcome ℕ
scalar_of_type element_type value =
    if element_type == 1
    then done (bit_and value 255)
    else if element_type == 3
    then done (bit_and value 65535)
    else if element_type == 4
    then done value
    else panicked

unfoldable pub scalar_value : DirectoryEntry → Outcome ℕ
scalar_value entry = do
  validate_entry entry (1 ∷ 3 ∷ 4 ∷ []) 1
  scalar_of_type entry.element_type entry.value

unfoldable pub required_scalar : List DirectoryEntry → ℕ → Outcome ℕ
required_scalar entries tag = do entry ← required_entry entries tag; scalar_value entry

unfoldable pub scalar_of : Option DirectoryEntry → Outcome (Option ℕ)
scalar_of none = done none
scalar_of (some entry) = do value ← scalar_value entry; done (some value)

unfoldable pub optional_scalar : List DirectoryEntry → ℕ → Outcome (Option ℕ)
optional_scalar entries tag = scalar_of (find_entry entries tag)

unfoldable pub element_size : ℕ → Option ℕ
element_size element_type =
    if (element_type == 1) || (element_type == 2) || (element_type == 6) || (element_type == 7)
    then some 1
    else if (element_type == 3) || (element_type == 8)
    then some 2
    else if (element_type == 4) || (element_type == 9) || (element_type == 11)
    then some 4
    else if (element_type == 5) || (element_type == 10) || (element_type == 12)
    then some 8
    else none

-- ===== src/Native/Writer/Buffer.antt =====
-- The output buffer of annex_a/writer.rs: copies into it, and the entries of the directory.
pub mod Copies
pub mod Pushed
use jxr.Base.{
  ℕ, zero, suc, ◌+◌, ◌/◌, ◌%◌, List, [], ◌∷◌, ◌++◌, length, take, drop, leb, if◌then◌else◌,
}
use jxr.Native.Step.{Outcome, done, panicked, after, Parser}
use jxr.Native.Step.Plain.{◌>>=◌}

pub record DirectoryEntries : Type 0 where
  pub output : List ℕ
  pub offset : ℕ

-- `output[offset..offset + data.len()].copy_from_slice(data)`
unfoldable pub put : List ℕ → ℕ → List ℕ → Outcome (List ℕ)
put output offset data_bytes =
    if leb (offset + length data_bytes) (length output)
    then done (take offset output ++ (data_bytes ++ drop (offset + length data_bytes) output))
    else panicked

-- `u16::to_le_bytes` and `u32::to_le_bytes`
unfoldable pub le_bytes : ℕ → ℕ → List ℕ
le_bytes zero value = []
le_bytes (suc count) value = value % 256 ∷ le_bytes count (value / 256)

unfoldable pub push : ℕ → ℕ → ℕ → ℕ → Parser DirectoryEntries (Unit {0})
push tag element_type count value s = do
  with_tag ← put s.output s.offset (le_bytes 2 tag)
  with_type ← put with_tag (s.offset + 2) (le_bytes 2 element_type)
  with_count ← put with_type (s.offset + 4) (le_bytes 4 count)
  with_value ← put with_count (s.offset + 8) (le_bytes 4 value)
  done (tt, record { output = with_value; offset = s.offset + 12 })

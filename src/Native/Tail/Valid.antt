-- ===== src/Native/Tail/Valid.antt =====
-- The directory that tail.rs parses: its offsets, and the reads inside the codestream.
use jxr.Base.{
  ℕ, zero, suc, ◌+◌, ◌*◌, ◌≤◌, ◌<◌, ◌≡◌, refl, sym, ap, ◌∙◌, Bool, true, false, not, ◌&&◌, ◌||◌,
  List, [], ◌∷◌, All, length, get_elem?, some, arith, ltb, leb, ◌==◌, if◌then◌else◌, inl, inr,
  Bool-cases,
}
use std.Path.{subst}
use mathlib.Core.Option.{some-injective}
use jxr.Entropy.BitReader.Bits.{IsByte}
use jxr.Native.Step.{Outcome, done, after, reject_if}
use jxr.Native.Step.Plain.{Yields-after}
use jxr.Native.Step.Post.{
  Post, gives, fails, Yields, yields, refuses, Post-after, reject_if-Post, some_or-Post, if-Post,
}
use jxr.Native.BitReader.{usize_max}
use jxr.Native.Header.Types.{ParsedHeaders, frequency_mode, index_table_present}
use jxr.Native.Tail.{
  ProfileLevel, CodestreamDirectory, columns_times_rows, tile_count, index_bands, read_offsets,
  parse_index, last_or_more, profile_loop, profiles_in, parse_profile_area, index_if,
  parse_at_cursor, parse,
}
use jxr.Native.Tail.Cursor.{
  ByteCursor, new, position, set_position, require_position, read_u8, read_be, read_u16, read_u32,
  read_u64, read_short, read_vlw_from, read_vlw,
}

-- A cursor in `bytes`, at `low` or behind it.
pub record IsCursor (bytes : List ℕ) (low : ℕ) (c : ByteCursor) : Type 0 where
  pub same_bytes : c.bytes ≡ bytes
  pub behind : low ≤ c.position
  pub within : c.position ≤ length bytes

pub record IsDirectory (bytes : List ℕ) (h : ParsedHeaders) (d : CodestreamDirectory) : Type 0 where
  pub behind_headers : h.bytes_consumed ≤ d.tile_data_offset
  pub inside : d.tile_data_offset ≤ length bytes
  pub offsets_count :
      length d.tile_offsets
      ≡ (if index_table_present h.image.flags then columns_times_rows h * index_bands h else 0)
  pub needs_index : index_table_present h.image.flags ≡ false → columns_times_rows h ≤ 1

-- A byte that is found.
found_lem :
    (xs : List ℕ) (i b : ℕ) → All IsByte xs → get_elem? xs i ≡ some b → (b < 256) × (i < length xs)
found_lem [] i b h k = absurd (ground (arith, k))
found_lem (x ∷ xs) zero b h k = (subst IsByte (some-injective _ _ k) h.0, omega arith)
found_lem (x ∷ xs) (suc i) b h k =
    let (small, inside) = found_lem xs i b h.1 k in (small, omega arith)

module _ (bytes : List ℕ) (all_bytes : All IsByte bytes) where
  -- A byte is read, and the cursor stands behind it.
  read_u8_next :
      (low : ℕ) (c : ByteCursor)
      → IsCursor bytes low c
      → Post (IsCursor bytes (low + 1)) (λ byte. byte < 256) (read_u8 c)
  unfolding read_u8
  read_u8_next low c v =
      let all_here : All IsByte c.bytes = subst (All IsByte) (sym v.same_bytes) all_bytes in
      let size = ap length v.same_bytes in
      Post-after _
        (some_or-Post {I = λ d. d ≡ c} {P = λ byte. (byte < 256) × (c.position < length c.bytes)} _
          _ c (λ byte found. found_lem c.bytes c.position byte all_here found) refl)
        (λ byte (small, inside) d same.
          let place : d.position ≡ c.position = ap (λ (x : ByteCursor). x.position) same in
          let slice : d.bytes ≡ c.bytes = ap (λ (x : ByteCursor). x.bytes) same in
          let behind = v.behind in
          gives small (record {
            same_bytes = slice ∙ v.same_bytes;
            behind = omega arith;
            within = omega arith;
          }))

  from_low :
      (low high : ℕ) {P : ℕ → Type 0} {x : Outcome (ℕ × ByteCursor)}
      → low ≤ high
      → Post (IsCursor bytes high) P x
      → Post (IsCursor bytes low) P x
  from_low low high h (gives p i) =
      let behind = i.behind in
      gives p (record { same_bytes = i.same_bytes; behind = omega arith; within = i.within })
  from_low low high h fails = fails

  read_u16_next :
      (low : ℕ) (c : ByteCursor)
      → IsCursor bytes low c
      → Post (IsCursor bytes (low + 1 + 1)) (λ (_ : ℕ). Unit {0}) (read_u16 c)
  unfolding read_u16 read_be
  read_u16_next low c v =
      Post-after _ (read_u8_next low c v)
        (λ high _ c v. Post-after _ (read_u8_next (low + 1) c v) (λ low_byte _ c v. gives tt v))

  -- A cursor is behind its own position.
  at_itself : (low : ℕ) (c : ByteCursor) → IsCursor bytes low c → IsCursor bytes c.position c
  at_itself low c v = record { same_bytes = v.same_bytes; behind = omega arith; within = v.within }

  module _ (low : ℕ) where
    read_u8-Post :
        (c : ByteCursor)
        → IsCursor bytes low c
        → Post (IsCursor bytes low) (λ byte. byte < 256) (read_u8 c)
    read_u8-Post c v = from_low low (low + 1) (omega arith) (read_u8_next low c v)

    read_be-Post :
        (count value : ℕ) (c : ByteCursor)
        → IsCursor bytes low c
        → Post (IsCursor bytes low) (λ (_ : ℕ). Unit {0}) (read_be count value c)
    unfolding read_be
    read_be-Post zero value c v = gives tt v
    read_be-Post (suc count) value c v =
        Post-after _ (read_u8-Post c v) (λ byte _ c v. read_be-Post count (value * 256 + byte) c v)

    read_vlw-Post :
        (c : ByteCursor)
        → IsCursor bytes low c
        → Post (IsCursor bytes low) (λ (_ : ℕ). Unit {0}) (read_vlw c)
    unfolding read_vlw read_vlw_from read_short read_u32 read_u64
    read_vlw-Post c v = Post-after _ (read_u8-Post c v) (λ first _ c v.
        if-Post (leb first 250) _ _ c
          (λ _. Post-after _ (read_u8-Post c v) (λ second _ c v. gives tt v))
          (λ _.
            if-Post (first == 251) _ _ c (λ _. read_be-Post 4 0 c v)
              (λ _. if-Post (first == 252) _ _ c (λ _. read_be-Post 8 0 c v) (λ _. gives tt v))))

    read_offsets-Post :
        (count : ℕ) (c : ByteCursor)
        → IsCursor bytes low c
        → Post (IsCursor bytes low) (λ offsets. length offsets ≡ count) (read_offsets count c)
    unfolding read_offsets
    read_offsets-Post zero c v = gives refl v
    read_offsets-Post (suc count) c v = Post-after _ (read_vlw-Post c v) (λ offset _ c v.
        Post-after _ (read_offsets-Post count c v) (λ offsets number c v. gives (ap suc number) v))

    parse_index-Post :
        (h : ParsedHeaders) (tiles : ℕ) (c : ByteCursor)
        → IsCursor bytes low c
        → Post
            (IsCursor bytes low)
            (λ offsets. length offsets ≡ tiles * index_bands h)
            (parse_index h tiles c)
    unfolding parse_index read_u16
    parse_index-Post h tiles c v = Post-after _ (read_be-Post 2 0 c v) (λ start_code _ c v.
        Post-after _ (reject_if-Post _ _ c v) (λ _ _ c v.
          Post-after _ (reject_if-Post _ _ c v)
            (λ _ _ c v. read_offsets-Post (tiles * index_bands h) c v)))

    last_or_more-Post :
        (last : Bool) (profile : ProfileLevel)
        (rounds : ByteCursor → Outcome (List ProfileLevel × ByteCursor)) (c : ByteCursor)
        → IsCursor bytes low c
        → Post (IsCursor bytes low) (λ (_ : List ProfileLevel). Unit {0}) (rounds c)
        → Post
            (IsCursor bytes low)
            (λ (_ : List ProfileLevel). Unit {0})
            (last_or_more last profile rounds c)
    last_or_more-Post true profile rounds c v h = gives tt v
    last_or_more-Post false profile rounds c v h = Post-after _ h (λ profiles _ c v. gives tt v)

  -- The rounds of the profile loop are fewer than the bytes of its area.
  profile_loop-Post :
      (fuel end low : ℕ) (c : ByteCursor)
      → IsCursor bytes low c
      → end < c.position + fuel
      → 1 ≤ fuel
      → end + 4 ≤ usize_max
      → Post (IsCursor bytes low) (λ (_ : List ProfileLevel). Unit {0}) (profile_loop fuel end c)
  unfolding profile_loop position
  profile_loop-Post zero end low c v h k fits = absurd (omega arith)
  profile_loop-Post (suc fuel) end low c v h k fits =
      let start : ℕ = c.position in
      let behind = v.behind in
      Post-after _ (reject_if-Post _ _ c (at_itself low c v)) (λ _ room c here.
        Post-after _ (read_u8_next start c here) (λ profile _ c here.
          Post-after _ (read_u8_next (start + 1) c here) (λ level _ c here.
            Post-after _ (read_u16_next (start + 1 + 1) c here) (λ reserved _ c here.
              Post-after _ (reject_if-Post _ _ c here)
                (λ _ _ c (here : IsCursor bytes (start + 1 + 1 + 1 + 1) c).
                  let moved = here.behind in
                  let again : IsCursor bytes low c = record {
                    same_bytes = here.same_bytes;
                    behind = omega arith;
                    within = here.within;
                  } in
                  let passed : start + 4 ≤ end = ground arith in
                  last_or_more-Post low _ _ _ c again
                    (profile_loop-Post fuel end low c again (omega arith) (omega arith) fits))))))

  module _ (low : ℕ) where
    parse_profile_area-Post :
        (subsequent_bytes : ℕ) (c : ByteCursor)
        → IsCursor bytes low c
        → length bytes + 4 ≤ usize_max
        → Post
            (IsCursor bytes low)
            (λ (_ : List ProfileLevel). Unit {0})
            (parse_profile_area subsequent_bytes c)
    unfolding parse_profile_area profiles_in position set_position require_position
    parse_profile_area-Post subsequent_bytes c v fits =
        if-Post (subsequent_bytes == 0) _ _ c (λ _. gives tt v)
          (λ _. Post-after _ (reject_if-Post _ _ c v) (λ _ _ c v.
            Post-after _ (reject_if-Post _ _ c (at_itself low c v))
              (λ _ _ d (here : IsCursor bytes c.position d).
                Post-after _ (reject_if-Post _ _ d here)
                  (λ _ room e (after_check : IsCursor bytes c.position e).
                    let size = ap length here.same_bytes in
                    let behind = v.behind in
                    let moved = after_check.behind in
                    Post-after _
                      (profile_loop-Post (suc subsequent_bytes) (c.position + subsequent_bytes)
                        c.position e after_check (omega arith) (omega arith) (ground arith))
                      (λ profiles _ f (end : IsCursor bytes c.position f). gives tt (record {
                        same_bytes = end.same_bytes;
                        behind = omega arith;
                        within = ground arith;
                      }))))))

    index_if-Post :
        (present : Bool) (count : ℕ) (index : ByteCursor → Outcome (List ℕ × ByteCursor))
        (c : ByteCursor)
        → IsCursor bytes low c
        → Post (IsCursor bytes low) (λ offsets. length offsets ≡ count) (index c)
        → Post
            (IsCursor bytes low)
            (λ offsets. length offsets ≡ (if present then count else 0))
            (index_if present index c)
    index_if-Post true count index c v h = h
    index_if-Post false count index c v h = gives refl v

    parse_at_cursor-Post :
        (h : ParsedHeaders) (c : ByteCursor)
        → IsCursor bytes low c
        → low ≡ h.bytes_consumed
        → length bytes + 4 ≤ usize_max
        → Post (IsCursor bytes low) (IsDirectory bytes h) (parse_at_cursor h c)
    unfolding parse_at_cursor tile_count position
    parse_at_cursor-Post h c v start fits =
        Post-after {P = λ tiles. tiles ≡ columns_times_rows h} _
          (Post-after _ (reject_if-Post _ _ c v) (λ _ _ c v. gives refl v))
          (λ tiles number c v. Post-after _ (reject_if-Post _ _ c v) (λ _ indexed c v.
            Post-after _
              (index_if-Post (index_table_present h.image.flags) (tiles * index_bands h) _ c v
                (parse_index-Post low h tiles c v))
              (λ offsets count c v. Post-after _ (read_vlw-Post low c v) (λ subsequent_bytes _ c v.
                Post-after _ (reject_if-Post _ _ c v) (λ _ _ c v.
                  Post-after _ (parse_profile_area-Post subsequent_bytes c v fits)
                    (λ profiles _ c v.
                      let behind = v.behind in
                      gives
                        (record {
                          behind_headers = omega arith;
                          inside = v.within;
                          offsets_count =
                              count
                              ∙ ap
                                  (λ n.
                                    if index_table_present h.image.flags
                                    then n * index_bands h
                                    else 0)
                                  number;
                          needs_index = λ no_index.
                              at_most_one (frequency_mode h.image.flags) number no_index indexed;
                        })
                        v))))))
      where
        at_most_one :
            {tiles total : ℕ} {present : Bool} (frequency : Bool)
            → tiles ≡ total
            → present ≡ false
            → ((frequency || ltb 1 tiles) && not present) ≡ false
            → total ≤ 1
        at_most_one frequency number no_index indexed = ground arith

  new-IsCursor : (place : ℕ) → Yields (IsCursor bytes place) (new bytes place)
  unfolding new require_position reject_if
  new-IsCursor place = elim (Bool-cases (ltb (length bytes) place)) [
    | inl outside ↦ rw outside refuses
    | inr inside ↦
        rw inside
          (yields (record { same_bytes = refl; behind = omega arith; within = ground arith }))
  ]

  -- On each codestream and headers inside it, the tail is refused with an error or parsed without a
  -- panic; then the tile data lies between the headers and the end, there is an offset for each tile
  -- and band exactly if the index is present, and without it there is one tile only.
  pub parse-IsDirectory :
      (h : ParsedHeaders)
      → length bytes + 4 ≤ usize_max
      → Yields (IsDirectory bytes h) (parse bytes h)
  unfolding parse
  parse-IsDirectory h fits =
      Yields-after _ (new-IsCursor h.bytes_consumed)
        (λ cursor v. dropped (parse_at_cursor-Post h.bytes_consumed h cursor v refl fits))
    where
      dropped :
          {I : ByteCursor → Type 0} {P : CodestreamDirectory → Type 0}
          {x : Outcome (CodestreamDirectory × ByteCursor)}
          → Post I P x
          → Yields P (after x (λ y. done y.0))
      dropped (gives p i) = yields p
      dropped fails = refuses

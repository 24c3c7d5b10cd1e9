-- ===== src/Entropy/Examples.antt =====
-- The theorems on the entropy decoder at one packet and its first states.
use jxr.Base.{
  ℕ, ◌+◌, ◌-◌, ◌*◌, ◌^◌, ◌<◌, ◌≤◌, ◌≡◌, ◌⊎◌, refl, arith, true, false, List, [], ◌∷◌, All,
  replicate, set, get_or,
}
use jxr.Base.Int.{ℤ, pos, negsuc, ◌≤ℤ◌}
use jxr.Entropy.Step.{ok}
use jxr.Entropy.Step.Post.{Post}
use jxr.Entropy.BitReader.{PacketBitReader, new, read_bits, peek_byte}
use jxr.Entropy.BitReader.Bits.{IsByte, stream_bits}
use jxr.Entropy.BitReader.Cache.{IsValid, new-IsValid, IsNextBits, window_cache-IsNextBits}
use jxr.Entropy.BitReader.Read.{IsAfter, serial_read, serial_move, read_bits-serial_read}
use jxr.Entropy.BitReader.Peek.{shown, peek_byte-stream_bits}
use jxr.Entropy.BitReader.Safe.{Any}
use jxr.Entropy.Band.{highpass, lowpass}
use jxr.Entropy.Vlc.{decode}
use jxr.Entropy.Vlc.Codes.{Table, codes_of}
use jxr.Entropy.Vlc.Serial.{table, serial_decode}
use jxr.Entropy.Vlc.Tables.{has_symbol}
use jxr.Entropy.Vlc.Agree.{resting, decode-serial_decode, decode-has_symbol}
use jxr.Entropy.Adaptive.{
  AdaptiveVlc, multiple_tables, two_tables, new_ac, adapt_ac, adapt_two, observe_first_index,
}
use jxr.Entropy.Adaptive.Bounds.{
  IsPair, IsMultiple, IsAc, new_ac-IsAc, adapt_ac-IsAc, adapt_two_moves,
}
use jxr.Entropy.Adaptive.Observe.{IsSmall, counted, observe_first_index_lem}
use jxr.Entropy.Model
use jxr.Entropy.Model.{CoefficientModel, yuv420, adjust, Slot}
use jxr.Entropy.Model.Bounds.{IsModel, IsAdjusted, adjust-IsAdjusted, update-IsModel}
use jxr.Entropy.Scan.{
  Placing, scan_order_0, scan_totals, place_and_adapt, LpTarget, HpTarget, new_lp, new_hp,
  horizontal,
}
use jxr.Entropy.Scan.Order.{
  IsPlacing, scan_order_0-IsOrder, scan_order_1-IsOrder, place_and_adapt-IsPlacing,
  place_and_adapt_moves,
}
use jxr.Entropy.Refinement.{decode_flex, decode_flex_fast}
use jxr.Entropy.Refinement.Fast.{decode_flex_fast-decode_flex}
use jxr.Entropy.Coefficients.Run.{decode_run_cached}
use jxr.Entropy.Coefficients.Run.Agree.{IsRun, decode_run_cached-IsRun}
use jxr.Entropy.Coefficients.Symbols.{decode_abs_level, decode_index}
use jxr.Entropy.Coefficients.Symbols.Bounds.{IsSelecting, decode_abs_level-Post, decode_index-Post}
use jxr.Entropy.Coefficients.Block.{
  AcWorld, DecodedBlock, decode_ac_coefficients, decode_ac_block, decode_lp_block, decode_hp_block,
  push,
}
use jxr.Entropy.Coefficients.Block.{inverse_scan_lp, inverse_scan_hp}
use jxr.Entropy.Coefficients.Block.Direct.{Both}
use jxr.Entropy.Coefficients.Block.Same.{empty_block, decode_lp_block-Both, decode_hp_block-Both}
use jxr.Entropy.Coefficients.Block.Safe.{IsWorld, decode_ac_coefficients-IsWorld}
use jxr.Entropy.Coefficients.Block.Scanned.{
  IsRoom, IsLp, IsHp, push-IsRoom, decode_ac_block-IsRoom, decode_lp_block-IsLp,
  decode_hp_block-IsHp,
}

abbrev packet : List ℕ
packet = 180 ∷ 44 ∷ 7 ∷ 255 ∷ 0 ∷ 91 ∷ 33 ∷ 128 ∷ 17 ∷ 66 ∷ []

packet_bytes : All IsByte packet
packet_bytes = omega arith

abbrev reader : PacketBitReader
reader = record { bytes = packet; bit_position = 0; bit_length = 80; cache = 0; cached = 0 }

reader-IsValid : IsValid reader
unfolding new
reader-IsValid = new-IsValid packet packet_bytes

decode-serial_decode_example :
    ((decode "FIRST_INDEX" (table Table.first_index_2) reader).0
      ≡ (serial_decode "FIRST_INDEX" (codes_of Table.first_index_2) reader).0)
    × ((decode "FIRST_INDEX" (table Table.first_index_2) reader).1.bit_position
        ≡ resting reader (serial_decode "FIRST_INDEX" (codes_of Table.first_index_2) reader))
decode-serial_decode_example =
    decode-serial_decode Table.first_index_2 "FIRST_INDEX" reader reader-IsValid

decode-has_symbol_example :
    Post IsValid
      (λ symbol. has_symbol (codes_of Table.run_value_4) symbol ≡ true)
      (decode "RUN_VALUE" (table Table.run_value_4) reader)
decode-has_symbol_example = decode-has_symbol Table.run_value_4 "RUN_VALUE" reader reader-IsValid

read_bits-serial_read_example :
    ((read_bits 60 reader).0 ≡ serial_read 60 reader)
    × IsAfter (serial_move 60 reader) reader (read_bits 60 reader).1
read_bits-serial_read_example = read_bits-serial_read 60 reader reader-IsValid

peek_byte-stream_bits_example :
    ((peek_byte reader).0 ≡ stream_bits packet 0 (shown reader) * 2 ^ (8 - shown reader))
    × IsAfter 0 reader (peek_byte reader).1
    × (shown reader ≤ (peek_byte reader).1.cached)
peek_byte-stream_bits_example = peek_byte-stream_bits reader reader-IsValid

window_cache-IsNextBits_example : IsNextBits packet 19 80
window_cache-IsNextBits_example =
    window_cache-IsNextBits packet 19 80 packet_bytes (omega arith) (omega arith)

abbrev block : List ℤ
block = replicate 16 (pos 0)

abbrev placing : Placing
placing = record { order = scan_order_0; totals = scan_totals; output = block }

placing-IsPlacing : IsPlacing placing
placing-IsPlacing = record {
  order_ok = scan_order_0-IsOrder;
  totals_size = refl;
  output_size = refl;
}

place_and_adapt-IsPlacing_example : Post IsPlacing Any (place_and_adapt 16 (pos 3) placing)
place_and_adapt-IsPlacing_example = place_and_adapt-IsPlacing 16 (pos 3) placing placing-IsPlacing

place_and_adapt_moves_example :
    ((place_and_adapt 4 (pos 3) placing).1.output ≡ set block 8 (pos 3))
    × ((k : ℕ) × (k < 16)
        × (4 ≤ k + 1)
        × (k ≤ 5)
        × (get_or (place_and_adapt 4 (pos 3) placing).1.order k 0 ≡ 8)
        × (get_or (place_and_adapt 4 (pos 3) placing).1.totals k 0 ≡ 27))
place_and_adapt_moves_example =
    place_and_adapt_moves 4 (pos 3) placing 4 placing-IsPlacing (omega arith) (omega arith)
      (omega arith)

abbrev lp_world : AcWorld LpTarget
lp_world = record { reader = reader; vlc = new_ac; sink = record { scan = new_lp; output = block } }

decode_lp_block-IsLp_example : Post (IsWorld IsLp) Any (decode_lp_block false 1 lp_world)
decode_lp_block-IsLp_example =
    decode_lp_block-IsLp false 1 lp_world
      (reader-IsValid, new_ac-IsAc, record { placing = placing-IsPlacing })

abbrev hp_world : AcWorld HpTarget
hp_world = record { reader = reader; vlc = new_ac; sink = record { scan = new_hp; output = block } }

decode_hp_block-IsHp_example : Post (IsWorld IsHp) Any (decode_hp_block true horizontal hp_world)
decode_hp_block-IsHp_example = decode_hp_block-IsHp true horizontal hp_world (
  reader-IsValid,
  new_ac-IsAc,
  record {
    across = placing-IsPlacing;
    down = record { order_ok = scan_order_1-IsOrder; totals_size = refl; output_size = refl };
  },
)

abbrev block_world : AcWorld DecodedBlock
block_world = record {
  reader = reader;
  vlc = new_ac;
  sink = record { entries = []; start_location = 1 };
}

block_world-IsWorld : IsWorld IsRoom block_world
block_world-IsWorld = (reader-IsValid, new_ac-IsAc, omega arith)

decode_ac_block-IsRoom_example :
    Post (IsWorld IsRoom) Any (decode_ac_block lowpass true 1 block_world)
decode_ac_block-IsRoom_example =
    decode_ac_block-IsRoom lowpass true 1 block_world block_world-IsWorld

decode_ac_coefficients-IsWorld_example :
    Post
      (IsWorld IsRoom)
      Any
      (decode_ac_coefficients false (λ run location level. push run level) lowpass 1 block_world)
decode_ac_coefficients-IsWorld_example =
    decode_ac_coefficients-IsWorld IsRoom false (λ run location level. push run level) 1
      (λ run location level b _ _ k. push-IsRoom run level b k) block_world lowpass
      block_world-IsWorld

update-IsModel_example :
    Post IsModel Any
      (Model.update (record { first = pos 9; second = pos 4 }) yuv420 (Model.new lowpass))
unfolding Model.new
update-IsModel_example =
    update-IsModel (record { first = pos 9; second = pos 4 }) yuv420 (Model.new lowpass)
      (record { value = 9; is_value = refl; fits = omega arith })
      (record { value = 4; is_value = refl; fits = omega arith })
      (record {
        luma = record { low = omega arith; high = omega arith; narrow = omega arith };
        chroma = record { low = omega arith; high = omega arith; narrow = omega arith };
      })

abbrev slot : Slot
slot = record { level = pos 7; width = 3 }

adjust-IsAdjusted_example : IsAdjusted (pos 12) slot (adjust (pos 12) slot)
adjust-IsAdjusted_example =
    adjust-IsAdjusted (pos 12) slot
      (record { low = omega arith; high = omega arith; narrow = omega arith })

adapt_ac-IsAc_example : IsAc (adapt_ac new_ac)
adapt_ac-IsAc_example = adapt_ac-IsAc new_ac new_ac-IsAc

abbrev selector : AdaptiveVlc
selector = record {
  discrim_0 = negsuc 9;
  discrim_1 = pos 3;
  table_index = 2;
  delta_index_0 = 1;
  delta_index_1 = 2;
}

adapt_two_moves_example :
    (negsuc 63 ≤ℤ (adapt_two 4 selector).discrim_0)
    × ((adapt_two 4 selector).discrim_0 ≤ℤ pos 64)
    × (negsuc 63 ≤ℤ (adapt_two 4 selector).discrim_1)
    × ((adapt_two 4 selector).discrim_1 ≤ℤ pos 64)
    × (((adapt_two 4 selector).table_index ≡ 2)
        ⊎ ((negsuc 9 ≤ℤ negsuc 8) × ((adapt_two 4 selector).table_index + 1 ≡ 2))
        ⊎ ((pos 9 ≤ℤ pos 3) × ((adapt_two 4 selector).table_index ≡ 3)))
adapt_two_moves_example = adapt_two_moves 4 selector

observe_first_index_lem_example :
    (c : ℤ) × (d : ℤ) × (observe_first_index 5 selector ≡ (ok tt, counted c d selector))
    × IsSmall c
    × IsSmall d
observe_first_index_lem_example =
    observe_first_index_lem 5 selector (omega arith)
      (record { table_bound = omega arith; row_0 = omega arith; row_1 = omega arith })

decode_abs_level-Post_example :
    Post (IsSelecting IsPair) Any (decode_abs_level (record { reader = reader; vlc = two_tables }))
decode_abs_level-Post_example =
    decode_abs_level-Post (record { reader = reader; vlc = two_tables })
      (reader-IsValid, record { table_bound = omega arith })

decode_index-Post_example :
    Post
      (IsSelecting (IsMultiple 3))
      (λ symbol. symbol < 4)
      (decode_index 15 (record { reader = reader; vlc = multiple_tables }))
decode_index-Post_example =
    decode_index-Post 15 (record { reader = reader; vlc = multiple_tables })
      (
        reader-IsValid,
        record { table_bound = omega arith; row_0 = omega arith; row_1 = omega arith },
      )

decode_run_cached-IsRun_example : Post IsValid (IsRun 4) (decode_run_cached 4 reader)
decode_run_cached-IsRun_example = decode_run_cached-IsRun 4 reader reader-IsValid

decode_flex_fast-decode_flex_example :
    ((decode_flex_fast (pos 0) 11 reader).0 ≡ (decode_flex (pos 0) 11 reader).0)
    × ((decode_flex_fast (pos 0) 11 reader).1.bit_position
        ≡ (decode_flex (pos 0) 11 reader).1.bit_position)
decode_flex_fast-decode_flex_example =
    decode_flex_fast-decode_flex (pos 0) 11 reader reader-IsValid (omega arith)

decode_lp_block-Both_example :
    Both
      (λ n b u. inverse_scan_lp b (record { scan = new_lp; output = block }) ≡ (ok tt, u))
      (decode_ac_block lowpass false 1
        (record { reader = reader; vlc = new_ac; sink = empty_block 1 }))
      (decode_lp_block false 1
        (record { reader = reader; vlc = new_ac; sink = record { scan = new_lp; output = block } }))
decode_lp_block-Both_example =
    decode_lp_block-Both false 1 reader new_ac (record { scan = new_lp; output = block })
      (record { placing = placing-IsPlacing })

decode_hp_block-Both_example :
    Both
      (λ n b u.
        inverse_scan_hp horizontal b (record { scan = new_hp; output = block }) ≡ (ok tt, u))
      (decode_ac_block highpass true 1
        (record { reader = reader; vlc = new_ac; sink = empty_block 1 }))
      (decode_hp_block true horizontal
        (record { reader = reader; vlc = new_ac; sink = record { scan = new_hp; output = block } }))
decode_hp_block-Both_example =
    decode_hp_block-Both true horizontal reader new_ac (record { scan = new_hp; output = block })
      (record {
        across = placing-IsPlacing;
        down = record { order_ok = scan_order_1-IsOrder; totals_size = refl; output_size = refl };
      })

-- ===== src/Lib.antt =====
-- Verification of the JPEG XR codec: the container and codestream syntax, the entropy decoder of a
-- tile packet, and the inverse transforms that follow it.
--
-- crates/jxr-native/src finds the codestream in a file. A file is a raw codestream or an Annex A
-- container, a directory of tags with the codestream, an optional alpha codestream and a profile
-- behind it. The image header and the plane headers are read bit by bit, and then the tile index and
-- the profile records; the pixel format that a container declares is compared with the headers. The
-- container writer lays the parts out, writes them, and parses its own file.
--
-- crates/jxr-native/src/entropy reads the coefficients of a macroblock from the bits of a packet.
-- A bit reader with a 64-bit cache feeds the prefix decoder; adaptive selectors choose the code table
-- of each symbol; the block decoder turns symbols into runs and levels, and hands each level to an
-- adaptive scan, which writes it to a 4-by-4 block; the normalization model chooses how many low bits
-- of a coefficient are stored apart, and the refinement reads them.
--
-- Files, and what each models:
--   Base and its children: numbers, lists, integers and bit words that the modules share.
--   Entropy/Step: `EntropyError` of error.rs, and functions with `&mut` arguments as steps, from a
--     state to a result and the state that is left. A result is `ok`, `err`, or `panic` for what stops
--     the program: an index out of range, or a subtraction below zero.
--     Step/Post: postconditions of steps.
--   Entropy/BitReader: `PacketBitReader` of bit_reader.rs.
--   Entropy/Vlc: `PrefixTable` and `decode` of vlc.rs; Vlc/Codes: its code lists; Vlc/Serial: the
--     bit-serial search that its tests compare with.
--   Entropy/Band: `FrequencyBand`, and arrays of two indexed by a flag.
--   Entropy/Adaptive: the selectors of adaptive.rs. Entropy/Tile: `TileEntropyState`.
--   Entropy/Model: `CoefficientModel` of model.rs.
--   Entropy/Scan: the adaptive scans of scan.rs.
--   Entropy/Refinement: refinement.rs.
--   Entropy/Coefficients: coefficients.rs. Run: the run decoders; Symbols: levels and indices;
--     Block: the block decoder and its three sinks; Block/Direct: two runs of it that differ in
--     their sinks only.
--   Entropy/Examples: the theorems at one packet.
--   Native/Step: `NativeError` of error.rs, and parsers as functions from a state to an outcome. An
--     outcome is a value with the state that is left, an error, or `panicked`. Step/Plain: functions
--     that may fail and change no state. Step/Post: postconditions of both.
--   Native/BitReader: `BitReader` of bit_reader.rs, which reads the headers.
--   Native/Header: header/mod.rs, with Types, Fields, Image and Plane for the files of the same name.
--     Header/Valid: what the fields of parsed headers are.
--   Native/AnnexA: annex_a.rs. Ranges: byte ranges and little-endian reads; Directory: the entries;
--     Valid: what a parse leaves.
--   Native/Writer: annex_a/writer.rs, with Layout (where the parts
--     stand), Buffer (copies into the output), Entries (the directory), and the proofs about them.
--   Native/Tail: tail.rs, with Cursor for `ByteCursor`.
--   Native/PixelFormat: pixel_format.rs; Table: pixel_format/table.rs; Types: the enumerations of
--     crates/jxr-core/src/container.rs.
--   Native/Codestream: codestream.rs, which composes the parsers.
--   Native/Examples: the theorems at small files, which the tests there parse and write.
--   Math/Arithmetic and Math/Transform: arithmetic.rs and transform.rs of crates/jxr-math/src. A
--     checked operation gives a value or the name of what overflowed. The permutation of the core
--     transform is written by the build, so it is an argument; the examples take its data file's.
--   Math/Overlap: overlap.rs of crates/jxr-math/src; Undo: the steps of two filters in reverse.
--   Math/Alpha: alpha.rs of crates/jxr-math/src, its unsigned and its sign-magnitude products.
--   Math/Sampling: sampling.rs of crates/jxr-math/src, the interpolation of chroma.
--   Math/Examples: the theorems at one block, and the blocks of the tests of transform.rs.
--
-- Machine integers: words of 64 bits, the unread length in `window` and the model bits of model.rs
-- keep their wrap-around, and `i32` results their checks. Positions are below the packet's length,
-- totals and counts are small (the comments of Scan and Adaptive say why), and are taken for numbers.
-- The debug assertions, which the callers in these files keep, are left out.
--
-- A `usize` has 64 bits, and a slice is so short that its bits can be counted in one. An `f32` of the
-- container is its bit pattern.
--
-- Fuel: `coefficient_loop` moves the location, which is 16 at most, in each round, so that 16 rounds
-- are enough; `align_loop` has the seven bits to a byte boundary; `profile_loop` has one round more
-- than the bytes of its area, and each round reads four. Running out of fuel counts as a panic.
--
-- Not modelled: prediction, quantization and RGBE of jxr-math, its premultiplication of
-- signed and of floating-point samples, the layout of macroblocks in the tile packets, the
-- reconstruction and the output formats, and the device back ends. A packet is a list of bytes.
pub mod Base
pub mod Entropy
pub mod Math
pub mod Native

-- ===== src/Native.antt =====
-- crates/jxr-native/src: the syntax in front of the tile packets.
pub mod Step
pub mod BitReader
pub mod Header
pub mod AnnexA
pub mod Tail
pub mod PixelFormat
pub mod Codestream
pub mod Writer
mod Examples

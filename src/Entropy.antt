-- ===== src/Entropy.antt =====
-- crates/jxr-native/src/entropy: the entropy decoder of one tile packet.
pub mod Step
pub mod BitReader
pub mod Vlc
pub mod Band
pub mod Adaptive
pub mod Model
pub mod Scan
pub mod Refinement
pub mod Coefficients
pub mod Tile
mod Examples

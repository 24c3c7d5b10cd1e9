-- ===== src/Entropy/Coefficients.antt =====
-- crates/jxr-native/src/entropy/coefficients.rs: DC, low-pass and high-pass coefficients.
-- `Run` has the zero runs, `Symbols` the symbols of one coefficient, `Block` a whole 4-by-4 block.
pub mod Run
pub mod Symbols
pub mod Block

-- ===== src/Math.antt =====
-- crates/jxr-math: the integer kernels that all back ends share.
pub mod Arithmetic
pub mod Transform
pub mod Overlap
pub mod Sampling
pub mod Alpha
mod Examples

-- ===== src/Softfp.antt =====
-- The software floating point of `lib/softfp`.
pub mod Format
pub mod Fields
pub mod Round
pub mod Compare
pub mod Arith
pub mod Convert
mod Tests

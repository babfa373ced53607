-- ===== src/Riscv.antt =====
-- The instruction set library, `lib/riscv`.
pub mod Csr
pub mod Op
pub mod Decode
pub mod Compressed
pub mod Encode
pub mod Mmu
mod Tests

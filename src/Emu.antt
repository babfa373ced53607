-- ===== src/Emu.antt =====
-- The interpreter core of the emulator, `src/emu/interp.rs`.
pub mod Context
pub mod Trap
pub mod Csr
pub mod Alarm
pub mod Translate
pub mod Step
mod Tests

-- ===== src/Io.antt =====
-- The device models of `lib/io`.
pub mod Plic
pub mod Clint

-- ===== src/P9.antt =====
-- The wire format of the 9P file server, `lib/p9/src/serialize.rs`.
pub mod Codec
pub mod Values
pub mod Message
pub mod Reply
pub mod Request
mod Tests

-- ===== src/Base/Bits.antt =====
-- `&`, `|` and `^` at variables: one equation for the lowest digit, single bits, masks and fields.
mod Step
mod Single
mod Fields
mod Xor
mod Flag
mod Subset
mod Signed
unfoldable pub use Step.*
unfoldable pub use Single.*
unfoldable pub use Fields.*
pub use Xor.*
pub use Flag.*
pub use Subset.*
pub use Signed.*

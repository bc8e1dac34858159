-- ===== src/Base/Bits.antt =====
-- Digit laws of `&`, `|` and `^` at variables: one equation for the lowest digit, and what the
-- program's proofs draw from it.
mod Digit
mod Xor
mod Fields
mod Masks
pub use Digit.*
pub use Xor.*
pub use Fields.*
pub use Masks.*

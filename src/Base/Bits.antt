-- ===== src/Base/Bits.antt =====
-- Words as binary numerals: one digit of `bit_and`, `bit_or` and `bit_xor` at a time.
mod Digit
mod Laws
mod Place
pub use Laws.*
pub use Place.*

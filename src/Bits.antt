-- ===== src/Bits.antt =====
-- Bit operations of C on unsigned words, read as arithmetic: the lowest digit of `&` and `|`, low
-- masks, and shifts by a variable count.
mod Digit
pub mod Mask
pub mod Smear
pub use Digit.*

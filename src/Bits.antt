-- ===== src/Bits.antt =====
-- `&` and `^` on words, as arithmetic: what the alignment macros and `highbit` rest on.
mod Digits
pub mod Mask
pub mod Split

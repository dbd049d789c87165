-- ===== src/Prelude/Bits.antt =====
-- Exclusive or and masks of native numbers by their binary digits, at every width.
pub mod Digits
pub mod Xor
pub mod Split
pub mod Masks

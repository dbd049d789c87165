-- ===== src/Prelude/Bits/Masks.antt =====
-- The masks that the parsers use, as arithmetic.
use Prim.Native.Nat.{ℕ, zero, suc, ◌+◌, ◌*◌, ◌/◌, ◌%◌, ◌<◌, bit_and}
use mathlib.Core.Path.{◌≡◌, refl}
use native.Mathlib.Omega.{arith}
use khorjin.Prelude.Bits.Digits.{bit_and_digit}

bit_and-zero_below : (n a : ℕ) → a < n → bit_and a 0 ≡ 0
bit_and-zero_below zero a h = elim h [ ]
bit_and-zero_below (suc n) zero h = refl
bit_and-zero_below (suc n) (suc a) h =
    omega (arith, bit_and_digit (suc a) 0, bit_and-zero_below n (suc a / 2) (omega arith))

pub bit_and-zero : (a : ℕ) → bit_and a 0 ≡ 0
bit_and-zero a = bit_and-zero_below (suc a) a (omega arith)

pub bit_and-one : (a : ℕ) → bit_and a 1 ≡ a % 2
bit_and-one a = omega (arith, bit_and_digit a 1, bit_and-zero (a / 2))

pub bit_and-two : (a : ℕ) → bit_and a 2 ≡ a / 2 % 2 * 2
bit_and-two a = omega (arith, bit_and_digit a 2, bit_and-one (a / 2))

pub bit_and-four : (a : ℕ) → bit_and a 4 ≡ a / 4 % 2 * 4
bit_and-four a = omega (arith, bit_and_digit a 4, bit_and-two (a / 2))

pub bit_and-eight : (a : ℕ) → bit_and a 8 ≡ a / 8 % 2 * 8
bit_and-eight a = omega (arith, bit_and_digit a 8, bit_and-four (a / 2))

-- The four low bits.
pub bit_and-nibble : (a : ℕ) → bit_and a 0xF ≡ a % 16
bit_and-nibble a = omega (
  arith,
  bit_and_digit a 15,
  bit_and_digit (a / 2) 7,
  bit_and_digit (a / 2 / 2) 3,
  bit_and-one (a / 2 / 2 / 2),
)

-- A mask whose hexadecimal digits are 1 and the digits of `m` keeps one bit of the lowest four.
pub bit_and-hex_one : (a m : ℕ) → bit_and a (16 * m + 1) ≡ bit_and (a / 16) m * 16 + a % 2
bit_and-hex_one a m =
    let e : (16 * m + 1) / 2 ≡ 8 * m = omega arith in
    let e1 : 8 * m / 2 ≡ 4 * m = omega arith in
    let e2 : 4 * m / 2 ≡ 2 * m = omega arith in
    let e3 : 2 * m / 2 ≡ m = omega arith in
    let q : a / 2 / 2 / 2 / 2 ≡ a / 16 = omega arith in
    rw
      (
        bit_and_digit a (16 * m + 1),
        e,
        bit_and_digit (a / 2) (8 * m),
        e1,
        bit_and_digit (a / 2 / 2) (4 * m),
        e2,
        bit_and_digit (a / 2 / 2 / 2) (2 * m),
        e3,
        q,
      )
      (omega arith)

pub bit_and-0x11 : (a : ℕ) → bit_and a 0x11 ≡ a / 16 % 2 * 16 + a % 2
bit_and-0x11 a = omega (arith, bit_and-hex_one a 1, bit_and-one (a / 16))

pub bit_and-0x111 : (a : ℕ) → bit_and a 0x111 ≡ a / 256 % 2 * 256 + a / 16 % 2 * 16 + a % 2
bit_and-0x111 a = omega (arith, bit_and-hex_one a 0x11, bit_and-0x11 (a / 16))

pub bit_and-0x1111 :
    (a : ℕ) → bit_and a 0x1111 ≡ a / 4096 % 2 * 4096 + a / 256 % 2 * 256 + a / 16 % 2 * 16 + a % 2
bit_and-0x1111 a = omega (arith, bit_and-hex_one a 0x111, bit_and-0x111 (a / 16))

-- ===== src/Prelude/Bits/Xor.antt =====
-- The group laws of exclusive or on numbers below a power of two.
use Prim.Native.Nat.{ℕ, zero, suc, ◌/◌, ◌%◌, ◌^◌, ◌<◌, bit_xor, differ, bit_xor-bitwise}
use mathlib.Core.Path.{◌≡◌, refl, ap, sym, ◌∙◌}
use native.Mathlib.Omega.{arith}
use native.Mathlib.Nat.{pow-suc}
use khorjin.Prelude.Bits.Digits.{bit_xor_digit}

abbrev IsDigit : ℕ → Type 0
IsDigit x = x < 2

differ-IsDigit : (x y : ℕ) → IsDigit x → IsDigit y → IsDigit (differ x y)
differ-IsDigit zero y hx hy = hy
differ-IsDigit (suc zero) zero hx hy = hx
differ-IsDigit (suc zero) (suc y) hx hy = omega arith
differ-IsDigit (suc (suc x)) y hx hy = absurd (omega arith)

differ_comm : (x y : ℕ) → differ x y ≡ differ y x
differ_comm zero zero = refl
differ_comm zero (suc y) = refl
differ_comm (suc x) zero = refl
differ_comm (suc x) (suc y) = differ_comm x y

differ_self : (x : ℕ) → differ x x ≡ 0
differ_self zero = refl
differ_self (suc x) = differ_self x

differ-zero : (x : ℕ) → differ x 0 ≡ x
differ-zero zero = refl
differ-zero (suc x) = refl

differ_assoc :
    (x y z : ℕ) → IsDigit x → IsDigit y → IsDigit z → differ (differ x y) z ≡ differ x (differ y z)
differ_assoc zero y z hx hy hz = refl
differ_assoc (suc zero) zero z hx hy hz = refl
differ_assoc (suc zero) (suc zero) zero hx hy hz = refl
differ_assoc (suc zero) (suc zero) (suc zero) hx hy hz = refl
differ_assoc (suc zero) (suc zero) (suc (suc z)) hx hy hz = absurd (omega arith)
differ_assoc (suc zero) (suc (suc y)) z hx hy hz = absurd (omega arith)
differ_assoc (suc (suc x)) y z hx hy hz = absurd (omega arith)

digit : (a : ℕ) → IsDigit (a % 2)
digit a = omega arith

-- Halving and the lowest digit pass through.
pub bit_xor-half : (a b : ℕ) → bit_xor a b / 2 ≡ bit_xor (a / 2) (b / 2)
bit_xor-half a b =
    omega (arith, bit_xor_digit a b, differ-IsDigit (a % 2) (b % 2) (digit a) (digit b))

pub bit_xor-parity : (a b : ℕ) → bit_xor a b % 2 ≡ differ (a % 2) (b % 2)
bit_xor-parity a b =
    omega (arith, bit_xor_digit a b, differ-IsDigit (a % 2) (b % 2) (digit a) (digit b))

half-lt : (n a : ℕ) → a < 2 ^ suc n → a / 2 < 2 ^ n
half-lt n a h = omega (arith, pow-suc 2 n)

pub bit_xor-lt : (n a b : ℕ) → a < 2 ^ n → b < 2 ^ n → bit_xor a b < 2 ^ n
bit_xor-lt zero a b ha hb =
    let ea : a ≡ 0 = omega arith in let eb : b ≡ 0 = omega arith in rw (ea, eb) (omega arith)
bit_xor-lt (suc n) a b ha hb = omega (
  arith,
  pow-suc 2 n,
  bit_xor_digit a b,
  differ-IsDigit (a % 2) (b % 2) (digit a) (digit b),
  bit_xor-lt n (a / 2) (b / 2) (half-lt n a ha) (half-lt n b hb),
)

pub bit_xor_comm : (n a b : ℕ) → a < 2 ^ n → b < 2 ^ n → bit_xor a b ≡ bit_xor b a
bit_xor_comm zero a b ha hb =
    let ea : a ≡ 0 = omega arith in let eb : b ≡ 0 = omega arith in rw (ea, eb)
bit_xor_comm (suc n) a b ha hb = omega (
  arith,
  bit_xor_digit a b,
  bit_xor_digit b a,
  differ_comm (a % 2) (b % 2),
  bit_xor_comm n (a / 2) (b / 2) (half-lt n a ha) (half-lt n b hb),
)

pub bit_xor-zero : (n a : ℕ) → a < 2 ^ n → bit_xor a 0 ≡ a
bit_xor-zero zero a ha = let ea : a ≡ 0 = omega arith in rw ea
bit_xor-zero (suc n) a ha =
    omega (arith, bit_xor_digit a 0, differ-zero (a % 2), bit_xor-zero n (a / 2) (half-lt n a ha))

pub bit_xor_self : (n a : ℕ) → a < 2 ^ n → bit_xor a a ≡ 0
bit_xor_self zero a ha = let ea : a ≡ 0 = omega arith in rw ea
bit_xor_self (suc n) a ha =
    omega (arith, bit_xor_digit a a, differ_self (a % 2), bit_xor_self n (a / 2) (half-lt n a ha))

pub bit_xor_assoc :
    (n a b c : ℕ)
    → a < 2 ^ n
    → b < 2 ^ n
    → c < 2 ^ n
    → bit_xor (bit_xor a b) c ≡ bit_xor a (bit_xor b c)
bit_xor_assoc zero a b c ha hb hc =
    let ea : a ≡ 0 = omega arith in
    let eb : b ≡ 0 = omega arith in let ec : c ≡ 0 = omega arith in rw (ea, eb, ec)
bit_xor_assoc (suc n) a b c ha hb hc =
    bit_xor_digit (bit_xor a b) c
    ∙ rw
        (
          bit_xor-half a b,
          bit_xor-parity a b,
          bit_xor_assoc n (a / 2) (b / 2) (c / 2) (half-lt n a ha) (half-lt n b hb)
              (half-lt n c hc),
          differ_assoc (a % 2) (b % 2) (c % 2) (digit a) (digit b) (digit c),
          ← bit_xor-half b c,
          ← bit_xor-parity b c,
        )
        (sym (bit_xor_digit a (bit_xor b c)))

pub zero-bit_xor : (a : ℕ) → bit_xor 0 a ≡ a
zero-bit_xor a = bit_xor-bitwise 0 a

-- Exclusive or with one number undoes itself, so it can be cancelled.
pub bit_xor_cancel :
    (n a b c : ℕ) → a < 2 ^ n → b < 2 ^ n → c < 2 ^ n → bit_xor a b ≡ bit_xor a c → b ≡ c
bit_xor_cancel n a b c ha hb hc e = sym (undo b hb) ∙ ap (bit_xor a) e ∙ undo c hc
  where
    undo : (x : ℕ) → x < 2 ^ n → bit_xor a (bit_xor a x) ≡ x
    undo x hx = sym (bit_xor_assoc n a a x ha ha hx) ∙ rw (bit_xor_self n a ha) (zero-bit_xor x)

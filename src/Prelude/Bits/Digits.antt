-- ===== src/Prelude/Bits/Digits.antt =====
-- One binary digit of `bit_xor` and `bit_and`.
use Prim.Native.Nat.{
  ℕ, zero, suc, ◌+◌, ◌*◌, ◌/◌, ◌%◌, ◌≤◌, min, digits, bit_and, bit_xor, differ, bit_and-bitwise,
  bit_xor-bitwise,
}
use mathlib.Core.Path.{◌≡◌, refl}
use native.Mathlib.Omega.{arith}

module _ (ends : ℕ → ℕ) (op : ℕ → ℕ → ℕ) where
  -- More fuel than the first number has digits makes no difference.
  enough : (n k a b : ℕ) → a ≤ n → a ≤ k → digits ends op n a b ≡ digits ends op k a b
  enough zero zero a b l m = refl
  enough zero (suc k) zero b l m = refl
  enough zero (suc k) (suc a) b l m = elim l [ ]
  enough (suc n) zero zero b l m = refl
  enough (suc n) zero (suc a) b l m = elim m [ ]
  enough (suc n) (suc k) zero b l m = refl
  enough (suc n) (suc k) (suc a) b l m =
      rw (enough n k (suc a / 2) (b / 2) (omega arith) (omega arith))

  lowest :
      (a b : ℕ)
      → digits ends op (suc a) (suc a) b
        ≡ digits ends op (suc a / 2) (suc a / 2) (b / 2) * 2 + op (suc a % 2) (b % 2)
  lowest a b = rw (enough a (suc a / 2) (suc a / 2) (b / 2) (omega arith) (omega arith))

pub bit_xor_digit : (a b : ℕ) → bit_xor a b ≡ bit_xor (a / 2) (b / 2) * 2 + differ (a % 2) (b % 2)
bit_xor_digit zero b = simp bit_xor-bitwise (omega arith)
bit_xor_digit (suc a) b = simp bit_xor-bitwise (lowest (λ y. y) differ a b)

pub bit_and_digit : (a b : ℕ) → bit_and a b ≡ bit_and (a / 2) (b / 2) * 2 + min (a % 2) (b % 2)
bit_and_digit zero b = simp bit_and-bitwise (omega arith)
bit_and_digit (suc a) b = simp bit_and-bitwise (lowest (λ y. 0) min a b)

-- ===== src/Prelude/Tables.antt =====
-- Facts about every number below a bound, by evaluation.
use Prim.Native.Nat.{ℕ, zero, suc, ◌<◌}
use mathlib.Core.Path.{◌≡◌}
use mathlib.Core.Bool.{Bool, true, ◌&&◌}
use native.Mathlib.Omega.{arith}
use khorjin.Prelude.Tests.{◌==◌}

unfoldable pub same_below : ℕ → (ℕ → ℕ) → (ℕ → ℕ) → Bool
same_below zero f g = true
same_below (suc n) f g = f n == g n && same_below n f g

pub same_below→eq : (n : ℕ) (f g : ℕ → ℕ) (x : ℕ) → same_below n f g ≡ true → x < n → f x ≡ g x
unfolding same_below
same_below→eq zero f g x h lt = elim lt [ ]
same_below→eq (suc n) f g x h lt = ground (arith, same_below→eq n f g x)

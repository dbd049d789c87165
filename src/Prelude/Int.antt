-- ===== src/Prelude/Int.antt =====
-- The integers of C's `int`, over the native numbers.
use Prim.Native.Nat.{ℕ, ◌+◌, ◌-◌, ◌%◌}
use mathlib.Core.List.{List}
use mathlib.Core.Option.{Option, none}
use khorjin.Prelude.Tests.{leb, if◌then◌else◌}
use khorjin.Prelude.Lists.{get_elem?}

-- `negsuc n` is -(n + 1).
pub data ℤ : Type 0 where
  pos : ℕ → ℤ
  negsuc : ℕ → ℤ

infixl 65 ◌-ℤ◌
abbrev pub ◌-ℤ◌ : ℤ → ℕ → ℤ
pos n -ℤ k = if leb k n then pos (n - k) else negsuc (k - n - 1)
negsuc n -ℤ k = negsuc (n + k)

-- The conversion of an `int` to `uint32_t`.
abbrev pub uint32 : ℤ → ℕ
uint32 (pos n) = n % 4294967296
uint32 (negsuc n) = 4294967295 - n % 4294967296

-- An array read at an `int` index.
abbrev pub int_elem? : List ℕ → ℤ → Option ℕ
int_elem? buffer (pos i) = get_elem? buffer i
int_elem? buffer (negsuc i) = none

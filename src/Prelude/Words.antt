-- ===== src/Prelude/Words.antt =====
-- Casts to the fixed widths of C, and the bits that the parsers mask.
use Prim.Native.Nat.{ℕ, ◌%◌, ◌<◌}
use mathlib.Core.List.{List}
use khorjin.Prelude.Lists.{All}

abbrev pub u8 : ℕ → ℕ
u8 n = n % 256

abbrev pub u16 : ℕ → ℕ
u16 n = n % 65536

abbrev pub u32 : ℕ → ℕ
u32 n = n % 4294967296

abbrev pub IsByte : ℕ → Type 0
IsByte b = b < 256

abbrev pub IsU16 : ℕ → Type 0
IsU16 n = n < 65536

abbrev pub IsU32 : ℕ → Type 0
IsU32 n = n < 4294967296

abbrev pub IsBytes : List ℕ → Type 0
IsBytes xs = All IsByte xs

-- ===== src/Wire/Crc.antt =====
-- `computeCRC` and `crcCheck` of src/ieeeC37_118/ieeeC37_118.c.
pub mod Step
pub mod Serial
pub mod Check
pub mod Detect
pub mod Total
pub mod Burst
use khorjin.Prelude.{
  ℕ, zero, suc, ◌+◌, ◌*◌, ◌/◌, bit_xor, Bool, Option, none, some, List, [], ◌∷◌, ◌>>=◌, u16, ◌==◌,
}
use khorjin.Prelude.Int.{ℤ, ◌-ℤ◌, uint32, int_elem?}

-- The body of the loop: the checksum after one more byte.
unfoldable pub crc_step : ℕ → ℕ → ℕ
crc_step crc byte =
    let temp = bit_xor (crc / 256) byte in
    let crc = u16 (crc * 256) in
    let quick = bit_xor temp (temp / 16) in
    let crc = bit_xor crc quick in
    let quick = u16 (quick * 32) in
    let crc = bit_xor crc quick in let quick = u16 (quick * 128) in bit_xor crc quick

-- The loop with the bytes from `Message + i` on and `MessLen - i` rounds to go.
unfoldable pub crc_loop : List ℕ → ℕ → ℕ → Option ℕ
unfolding crc_step
crc_loop [] zero crc = some crc
crc_loop [] (suc rounds) crc = none
crc_loop (b ∷ bs) zero crc = some crc
crc_loop (b ∷ bs) (suc rounds) crc = crc_loop bs rounds (crc_step crc b)

unfoldable pub compute_crc : List ℕ → ℕ → Option ℕ
unfolding crc_loop
compute_crc message mess_len = crc_loop message mess_len 0xFFFF

unfoldable pub crc_check : List ℕ → ℤ → Option Bool
unfolding compute_crc
crc_check buffer buffer_size = do
  crc ← compute_crc buffer (uint32 (buffer_size -ℤ 2))
  hi ← int_elem? buffer (buffer_size -ℤ 2)
  lo ← int_elem? buffer (buffer_size -ℤ 1)
  some (crc == u16 (hi * 256 + lo))

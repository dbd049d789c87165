-- ===== src/Wire/Decode.antt =====
-- The readers of src/ieeeC37_118/ieeeC37_118.c, each with the position behind what it read. On a
-- little endian host a byte times 0x1000000 is an `int` product that wraps into the top bit.
use khorjin.Prelude.{
  ℕ, ◌+◌, ◌*◌, Option, none, some, List, ◌++◌, ◌>>=◌, u16, u32, get_elem?, take, drop, length,
  replicate, leb, if◌then◌else◌,
}
use khorjin.Platform.{Platform}

unfoldable pub four_byte_to_uint32 : List ℕ → ℕ → Option (ℕ × ℕ)
four_byte_to_uint32 buffer buf_pos = do
  a ← get_elem? buffer buf_pos
  b ← get_elem? buffer (buf_pos + 1)
  c ← get_elem? buffer (buf_pos + 2)
  d ← get_elem? buffer (buf_pos + 3)
  some (u32 (u32 (u32 (u32 (a * 0x1000000) + b * 0x10000) + c * 0x100) + d), buf_pos + 4)

unfoldable pub three_byte_to_uint32 : List ℕ → ℕ → Option (ℕ × ℕ)
three_byte_to_uint32 buffer buf_pos = do
  a ← get_elem? buffer buf_pos
  b ← get_elem? buffer (buf_pos + 1)
  c ← get_elem? buffer (buf_pos + 2)
  some (u32 (u32 (u32 (a * 0x10000) + b * 0x100) + c), buf_pos + 3)

unfoldable pub two_byte_to_uint16 : List ℕ → ℕ → Option (ℕ × ℕ)
two_byte_to_uint16 buffer buf_pos = do
  a ← get_elem? buffer buf_pos
  b ← get_elem? buffer (buf_pos + 1)
  some (u16 (u16 (a * 0x100) + b), buf_pos + 2)

-- The bytes of the buffer are copied, last to first, into the memory of a `float`: its bit pattern
-- has `buffer[bufPos]` on top.
unfoldable pub decode_floating_point_value : (p : Platform) → List ℕ → ℕ → Option (p.Float × ℕ)
decode_floating_point_value p buffer buf_pos = do
  b3 ← get_elem? buffer buf_pos
  b2 ← get_elem? buffer (buf_pos + 1)
  b1 ← get_elem? buffer (buf_pos + 2)
  b0 ← get_elem? buffer (buf_pos + 3)
  some (p.float_of_bits (b3 * 0x1000000 + b2 * 0x10000 + b1 * 0x100 + b0), buf_pos + 4)

-- `memcpy(name, buffer + bufPos, 16)` into a `char[20]` from `calloc`: four zeros stay behind it.
unfoldable pub copy_name : List ℕ → ℕ → Option (List ℕ)
copy_name buffer buf_pos =
    if leb (buf_pos + 16) (length buffer)
    then some (take 16 (drop buf_pos buffer) ++ replicate 4 0)
    else none

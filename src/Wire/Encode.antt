-- ===== src/Wire/Encode.antt =====
-- The writers of src/ieeeC37_118/ieeeC37_118.c, which return the buffer and the position behind what
-- they wrote.
use khorjin.Prelude.{ℕ, zero, suc, ◌+◌, ◌/◌, ◌%◌, Option, none, some, List, [], ◌∷◌, ◌>>=◌}

-- `buffer[i] = v`
unfoldable pub store {ℓ} : {A : Type ℓ} → List A → ℕ → A → Option (List A)
store [] i v = none
store (x ∷ xs) zero v = some (v ∷ xs)
store (x ∷ xs) (suc i) v = do some (x ∷ (← store xs i v))

-- The bytes of the value's memory on a little endian host are `valueArray[0]`, the lowest, to
-- `valueArray[3]`.
unfoldable pub encode_uint32_fixed_size : ℕ → List ℕ → ℕ → Option (List ℕ × ℕ)
unfolding store
encode_uint32_fixed_size value buffer buf_pos = do
  buffer ← store buffer buf_pos (value / 0x1000000 % 256)
  buffer ← store buffer (buf_pos + 1) (value / 0x10000 % 256)
  buffer ← store buffer (buf_pos + 2) (value / 0x100 % 256)
  buffer ← store buffer (buf_pos + 3) (value % 256)
  some (buffer, buf_pos + 4)

unfoldable pub encode_uint16_fixed_size : ℕ → List ℕ → ℕ → Option (List ℕ × ℕ)
unfolding store
encode_uint16_fixed_size value buffer buf_pos = do
  buffer ← store buffer buf_pos (value / 0x100 % 256)
  buffer ← store buffer (buf_pos + 1) (value % 256)
  some (buffer, buf_pos + 2)

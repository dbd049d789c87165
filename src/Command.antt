-- ===== src/Command.antt =====
-- The command frames of src/ieeeC37_118/ieeeC37_118.c. `c37_118client_stopTransmission`,
-- `c37_118client_getConfiguration` and `c37_118client_startTransmission` build theirs by the same
-- statements, with 0x01, 0x05 and 0x02 for the low byte of CMD.
pub mod Laws
use khorjin.Prelude.{ℕ, ◌+◌, ◌/◌, ◌%◌, Option, some, List, ◌>>=◌, replicate, u8, u32}
use khorjin.Wire.Encode.{store, encode_uint32_fixed_size}
use khorjin.Wire.Crc.{compute_crc}

abbrev pub bufer_length : ℕ
bufer_length = 10000

-- `memset(buffer, 0, BUFER_LENGTH)`
unfoldable pub cleared : List ℕ
cleared = replicate bufer_length 0

-- From SYNC to CHK. `time_stamp` is what `Hal_getTimeInMs` returned.
unfoldable pub write_command : List ℕ → ℕ → ℕ → ℕ → Option (List ℕ)
write_command buffer id_code time_stamp command = do
  buffer ← store buffer 0 0xAA
  buffer ← store buffer 1 0x41
  buffer ← store buffer 2 0x00
  buffer ← store buffer 3 0x12
  buffer ← store buffer 4 (u8 (id_code / 256))
  buffer ← store buffer 5 (id_code % 256)
  (buffer, buf_pos) ← encode_uint32_fixed_size (u32 (time_stamp / 1000)) buffer 6
  (buffer, buf_pos) ← encode_uint32_fixed_size (u32 (time_stamp % 1000)) buffer buf_pos
  buffer ← store buffer buf_pos 0x00
  buffer ← store buffer (buf_pos + 1) command
  crc ← compute_crc buffer 16
  buffer ← store buffer (buf_pos + 2) (u8 (crc / 256))
  store buffer (buf_pos + 3) (crc % 256)

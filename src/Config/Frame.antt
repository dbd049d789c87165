-- ===== src/Config/Frame.antt =====
-- `parseConfigurationFrame`, on the client and the received buffer.
use khorjin.Prelude.{ℕ, Bool, false, List, get_elem?, ◌==◌}
use khorjin.Prelude.Int.{ℤ, pos, negsuc}
use khorjin.Prelude.Outcome.{Outcome, access, require, ◌>>=◌, ◌>>◌}
use khorjin.Platform.{Platform}
use khorjin.Types.{C37118Client}
use khorjin.Wire.Decode.{two_byte_to_uint16}
use khorjin.Wire.Crc.{crc_check}
use khorjin.Config.Read.{read_configuration}

-- `frameSizeRcdv == bufferSize`, an unsigned 16-bit word against an `int`.
abbrev pub same_size : ℕ → ℤ → Bool
same_size frame_size (pos n) = frame_size == n
same_size frame_size (negsuc n) = false

module _ (p : Platform) where
  -- `done` is the client at `return 0`. The assignment of the received identification code changes
  -- nothing, since it was found equal.
  unfoldable pub parse_configuration_frame :
      C37118Client p.Float → List ℕ → ℤ → Outcome (C37118Client p.Float)
  parse_configuration_frame self buffer buffer_size = do
    intact ← access (crc_check buffer buffer_size)
    require intact
    sync ← access (get_elem? buffer 0)
    require (sync == 0xAA)
    kind ← access (get_elem? buffer 1)
    require (kind == 0x31)
    (frame_size, buf_pos) ← access (two_byte_to_uint16 buffer 2)
    require (same_size frame_size buffer_size)
    (id_code, buf_pos) ← access (two_byte_to_uint16 buffer buf_pos)
    require (id_code == self.idcode)
    access (read_configuration p (record self { idcode = id_code }) buffer frame_size buf_pos)

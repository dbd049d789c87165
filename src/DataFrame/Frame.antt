-- ===== src/DataFrame/Frame.antt =====
-- `parseDataFrame`.
use khorjin.Prelude.{ℕ, List, get_elem?, ◌==◌}
use khorjin.Prelude.Int.{ℤ}
use khorjin.Prelude.Outcome.{Outcome, access, require, ◌>>=◌, ◌>>◌}
use khorjin.Platform.{Platform}
use khorjin.Types.{C37118Client}
use khorjin.Wire.Decode.{two_byte_to_uint16}
use khorjin.Wire.Crc.{crc_check}
use khorjin.Config.Frame.{same_size}
use khorjin.DataFrame.Values.{Temps}
use khorjin.DataFrame.Pmu.{read_data}

module _ (p : Platform) where
  -- `temps` is what the two uninitialised variables hold.
  unfoldable pub parse_data_frame :
      C37118Client p.Float → Temps p.Float → List ℕ → ℤ → Outcome (C37118Client p.Float)
  parse_data_frame self temps buffer buffer_size = do
    intact ← access (crc_check buffer buffer_size)
    require intact
    sync ← access (get_elem? buffer 0)
    require (sync == 0xAA)
    kind ← access (get_elem? buffer 1)
    require (kind == 0x01)
    (frame_size, buf_pos) ← access (two_byte_to_uint16 buffer 2)
    require (same_size frame_size buffer_size)
    (id_code, buf_pos) ← access (two_byte_to_uint16 buffer buf_pos)
    require (id_code == self.idcode)
    access (read_data p self temps buffer buf_pos)

-- ===== src/DataFrame/Accept.antt =====
-- Which frames `parseDataFrame` takes in, and what it does with the others.
use khorjin.Prelude.{ℕ, ◌≡◌, ap, false, some, List, ◌↔◌}
use khorjin.Prelude.Int.{ℤ, negsuc}
use khorjin.Prelude.Outcome.{done, fault, rejected, access, access-eq-done}
use khorjin.Platform.{Platform}
use khorjin.Types.{C37118Client}
use khorjin.Wire.Crc.{crc_check}
use khorjin.Wire.Crc.Detect.{crc_check_negative}
use khorjin.Config.Frame.{parse_configuration_frame}
use khorjin.DataFrame.Values.{Temps}
use khorjin.Checks.{IsAddressed, checked_iff}
use khorjin.Config.Read.{read_configuration}
use khorjin.DataFrame.Pmu.{read_data}
use khorjin.DataFrame.Frame.{parse_data_frame}

module _ (p : Platform) (self : C37118Client p.Float) (buffer : List ℕ) (size : ℤ) where
  -- `parseDataFrame` takes a frame in exactly if its checksum is right, its SYNC is AA 01, the FRAMESIZE
  -- word is the number of bytes received, the identification code is the client's, and the body behind
  -- it can be read without leaving the buffer or an array.
  pub parse_data_frame-IsAddressed :
      (t : Temps p.Float) (self' : C37118Client p.Float)
      → (parse_data_frame p self t buffer size ≡ done self') ↔ (
          (v : IsAddressed 0x01 self.idcode buffer size) × (read_data p self t buffer v.id_end
            ≡ some self'))
  unfolding parse_data_frame
  parse_data_frame-IsAddressed t self' =
      let (there, back) =
        checked_iff 0x01 self.idcode buffer size
          (λ frame_size id_code buf_pos. access (read_data p self t buffer buf_pos)) self' in
      (λ h. let (v, r) = there h in (v, access-eq-done _ r), λ (v, r). back (v, ap access r))

  -- `parseConfigurationFrame` takes a frame in exactly if its checksum is right, its SYNC is AA 31, the
  -- FRAMESIZE word is the number of bytes received, the identification code is the client's, and the body
  -- behind it can be read without leaving the buffer.
  pub parse_configuration_frame-IsAddressed :
      (self' : C37118Client p.Float)
      → (parse_configuration_frame p self buffer size ≡ done self') ↔ (
          (v : IsAddressed 0x31 self.idcode buffer size) × (read_configuration p self buffer
              v.frame_size v.id_end
            ≡ some self'))
  unfolding parse_configuration_frame
  parse_configuration_frame-IsAddressed self' =
      let (there, back) =
        checked_iff 0x31 self.idcode buffer size
          (λ frame_size id_code buf_pos.
            access
              (read_configuration p (record self { idcode = id_code }) buffer frame_size buf_pos))
          self' in
      (λ h. let (v, r) = there h in (v, access-eq-done _ r), λ (v, r). back (v, ap access r))

  -- A frame whose checksum is wrong is refused.
  pub parse_data_frame_corrupt :
      (t : Temps p.Float)
      → crc_check buffer size ≡ some false
      → parse_data_frame p self t buffer size ≡ rejected
  unfolding parse_data_frame
  parse_data_frame_corrupt t h = rw h

  pub parse_configuration_frame_corrupt :
      crc_check buffer size ≡ some false → parse_configuration_frame p self buffer size ≡ rejected
  unfolding parse_configuration_frame
  parse_configuration_frame_corrupt h = rw h

-- On the length -1 both parsers leave the buffer.
module _ (p : Platform) (self : C37118Client p.Float) (buffer : List ℕ) (n : ℕ) where
  pub parse_data_frame_negative :
      (t : Temps p.Float) → parse_data_frame p self t buffer (negsuc n) ≡ fault
  unfolding parse_data_frame
  parse_data_frame_negative t = rw (crc_check_negative buffer n)

  pub parse_configuration_frame_negative :
      parse_configuration_frame p self buffer (negsuc n) ≡ fault
  unfolding parse_configuration_frame
  parse_configuration_frame_negative = rw (crc_check_negative buffer n)

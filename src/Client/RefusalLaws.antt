-- ===== src/Client/RefusalLaws.antt =====
-- `c37_118client_getConfiguration` when what it receives is no configuration frame.
use khorjin.Prelude.{ℕ, ◌<◌, ◌≡◌, arith, false, some, List, IsU16}
use khorjin.Prelude.Int.{ℤ, negsuc}
use khorjin.Platform.{Platform}
use khorjin.Pal.{Pal, fault, returns}
use khorjin.Types.{C37118Client}
use khorjin.Wire.Crc.{crc_check}
use khorjin.Command.{cleared}
use khorjin.DataFrame.Accept.{parse_configuration_frame_corrupt, parse_configuration_frame_negative}
use khorjin.Client.Stream.{no_value, get_configuration, configuration_result}
use khorjin.Client.StreamLaws.{Delivers, receive-Delivers, sent, send_command-sent}

module _ (p : Platform) (pal : Pal) (self : C37118Client p.Float) (w w1 w2 w3 : pal.World)
    (time rounds polls : ℕ) (z : ℤ) (id : IsU16 self.idcode)
    (clock : pal.get_time_in_ms w ≡ (time, w1))
    (out : pal.socket_write self.socket (sent 5 self.idcode time) 18 w1 ≡ (z, w2))
    (h : polls < rounds) where
  -- If the frame that answers the request for the configuration, after any number of polls below
  -- `rounds`, fails its checksum, the call ends without a value to return, and only the two buffers of
  -- the client have changed.
  pub get_configuration-corrupt :
      (buffer : List ℕ) (result : ℤ)
      → crc_check buffer result ≡ some false
      → Delivers pal self.socket buffer result w3 polls cleared w2
      → get_configuration p pal rounds self w
        ≡ returns (
          record self { buffer_snd = sent 5 self.idcode time; buffer_rcv = buffer },
          no_value,
          w3,
        )
  unfolding get_configuration configuration_result
  get_configuration-corrupt buffer result bad d = rw (
    send_command-sent p pal (record self { buffer_rcv = cleared }) w w1 w2 time z id clock 5
        (omega arith) out,
    receive-Delivers p pal rounds polls self.socket cleared buffer result w2 w3 d h,
    parse_configuration_frame_corrupt p
        (record self { buffer_snd = sent 5 self.idcode time; buffer_rcv = buffer }) buffer result
        bad,
  )

  -- If `Socket_read` answers the request for the configuration with a negative number, after any number
  -- of polls below `rounds`, the call reads outside the receive buffer.
  pub get_configuration-closed :
      (buffer : List ℕ) (m : ℕ)
      → Delivers pal self.socket buffer (negsuc m) w3 polls cleared w2
      → get_configuration p pal rounds self w ≡ fault
  unfolding get_configuration configuration_result
  get_configuration-closed buffer m d = rw (
    send_command-sent p pal (record self { buffer_rcv = cleared }) w w1 w2 time z id clock 5
        (omega arith) out,
    receive-Delivers p pal rounds polls self.socket cleared buffer (negsuc m) w2 w3 d h,
    parse_configuration_frame_negative p
        (record self { buffer_snd = sent 5 self.idcode time; buffer_rcv = buffer }) buffer m,
  )

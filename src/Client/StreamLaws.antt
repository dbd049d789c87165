-- ===== src/Client/StreamLaws.antt =====
-- The calls that talk to the server, against what the server sends.
use khorjin.Prelude.{
  ℕ, zero, suc, ◌+◌, ◌/◌, ◌%◌, ◌<◌, ◌≡◌, ◌≢◌, refl, arith, true, false, some, List, ◌++◌, IsU16,
  IsByte, IsBytes, u32, length, All,
}
use khorjin.Prelude.Int.{ℤ, negsuc}
use khorjin.Prelude.Int
use khorjin.Platform.{Platform}
use khorjin.Pal.{Pal, fault, returns}
use khorjin.Types.{C37118Client}
use khorjin.Wire.Crc.{crc_check}
use khorjin.Wire.Crc.Check.{seal}
use khorjin.Command.{bufer_length, cleared}
use khorjin.Command.Laws.{command_body, behind, write_command-seal}
use khorjin.Config.Spec.{header_of}
use khorjin.Config.Block.{Agrees}
use khorjin.Config.Received.{
  ConfigFrame, IsConfigFrame, config_body, configured, parse_configuration_frame-encode,
}
use khorjin.DataFrame.Values.{Temps}
use khorjin.DataFrame.Whole.{DataFrame, IsDataFrame, data_body, measured, parse_data_frame-encode}
use khorjin.DataFrame.Accept.{parse_data_frame_corrupt, parse_data_frame_negative}
use khorjin.Client.Stream.{
  value, send_command, stop_transmission, start_transmission, receive, get_configuration,
  configuration_result, get_data_stream, data_result,
}

module _ (pal : Pal) (socket : ℕ) where
  -- `Socket_read` answers `polls` times with 0 and then with the buffer and the result.
  pub data Delivers (buffer' : List ℕ) (result : ℤ) (w' : pal.World)
      : ℕ → List ℕ → pal.World → Type 0 where
    now :
        {buffer : List ℕ} {w : pal.World}
        → result ≢ Int.pos 0
        → pal.socket_read socket buffer bufer_length w ≡ (buffer', result, w')
        → Delivers buffer' result w' 0 buffer w
    later :
        {polls : ℕ} {buffer buffer1 : List ℕ} {w w1 : pal.World}
        → pal.socket_read socket buffer bufer_length w ≡ (buffer1, Int.pos 0, w1)
        → Delivers buffer' result w' polls buffer1 w1
        → Delivers buffer' result w' (suc polls) buffer w

module _ (p : Platform) (pal : Pal) where
  -- The loop ends with the first read that does not return 0 and gives its buffer and its result, in one
  -- round more than the reads that returned 0.
  pub receive-Delivers :
      (rounds polls socket : ℕ) (buffer buffer' : List ℕ) (result : ℤ) (w w' : pal.World)
      → Delivers pal socket buffer' result w' polls buffer w
      → polls < rounds
      → receive p pal rounds socket buffer w ≡ returns (buffer', result, w')
  unfolding receive
  receive-Delivers zero polls socket buffer buffer' result w w' d h = elim h [ ]
  receive-Delivers (suc rounds) polls socket buffer buffer' result w w' (now nz r) h =
      first result nz r
    where
      first :
          (z : ℤ)
          → z ≢ Int.pos 0
          → pal.socket_read socket buffer bufer_length w ≡ (buffer', z, w')
          → receive p pal (suc rounds) socket buffer w ≡ returns (buffer', z, w')
      first (Int.pos zero) ne e = absurd (ne refl)
      first (Int.pos (suc n)) ne e = rw e
      first (negsuc n) ne e = rw e
  receive-Delivers (suc rounds) (suc polls) socket buffer buffer' result w w' (later r d) h =
      rw r (receive-Delivers rounds polls socket _ buffer' result _ w' d (omega arith))

-- What a command leaves on the wire and in the send buffer, `time` being the clock.
abbrev pub sent : ℕ → ℕ → ℕ → List ℕ
sent command id_code time =
    seal (command_body id_code (u32 (time / 1000)) (time % 1000) command) ++ behind

-- A call that sends a command: the clock, what is written, and the world behind it.
module _ (p : Platform) (pal : Pal) (self : C37118Client p.Float) (w w1 w2 : pal.World) (time : ℕ)
    (z : ℤ) (id : IsU16 self.idcode) (clock : pal.get_time_in_ms w ≡ (time, w1)) where
  -- Sending a command writes 18 bytes of a sealed command frame and changes the send buffer alone.
  pub send_command-sent :
      (command : ℕ)
      → IsByte command
      → pal.socket_write self.socket (sent command self.idcode time) 18 w1 ≡ (z, w2)
      → send_command p pal command self w
        ≡ returns (record self { buffer_snd = sent command self.idcode time }, w2)
  unfolding send_command
  send_command-sent command hc out =
      rw (clock, write_command-seal self.idcode time command id hc, out)

  -- Stopping writes the command 1 for an identification code of 16 bits and clears `running`, whatever
  -- the write returns.
  pub stop_transmission-sent :
      pal.socket_write self.socket (sent 1 self.idcode time) 18 w1 ≡ (z, w2)
      → stop_transmission p pal self w
        ≡ returns (record self { buffer_snd = sent 1 self.idcode time; running = false }, w2)
  unfolding stop_transmission
  stop_transmission-sent out = rw (send_command-sent 1 (omega arith) out)

  -- Starting writes the command 2 for an identification code of 16 bits and sets `running`, whatever
  -- the write returns.
  pub start_transmission-sent :
      pal.socket_write self.socket (sent 2 self.idcode time) 18 w1 ≡ (z, w2)
      → start_transmission p pal self w
        ≡ returns (record self { buffer_snd = sent 2 self.idcode time; running = true }, w2)
  unfolding start_transmission
  start_transmission-sent out = rw (send_command-sent 2 (omega arith) out)

module _ (p : Platform) (pal : Pal) (self : C37118Client p.Float) (w w1 w2 : pal.World) (time : ℕ)
    (z : ℤ) (id : IsU16 self.idcode) (clock : pal.get_time_in_ms w ≡ (time, w1)) where
  -- If the request for the configuration, the command 5, is written, and the server then sends a
  -- configuration frame of the standard for this client, of bytes and of a size of 16 bits, whose PMUs
  -- agree with the first, after any number of polls below `rounds`, the call returns 0 and the client
  -- holds what the frame says, with the time stamp that parseTimeStamp makes of its words with a time
  -- base of 1000.
  pub get_configuration-frame :
      (rounds polls n : ℕ) (f : ConfigFrame) (rest : List ℕ) (w3 : pal.World)
      → IsConfigFrame f
      → All (Agrees p (header_of p f.first)) f.others
      → length (config_body f (n + 2)) ≡ n
      → IsU16 (n + 2)
      → IsBytes (config_body f (n + 2))
      → self.idcode ≡ f.id_code
      → pal.socket_write self.socket (sent 5 self.idcode time) 18 w1 ≡ (z, w2)
      → Delivers pal self.socket
          (seal (config_body f (n + 2)) ++ rest)
          (Int.pos (n + 2))
          w3
          polls
          cleared
          w2
      → polls < rounds
      → get_configuration p pal rounds self w
        ≡ returns (
          configured p f (record self {
            buffer_snd = sent 5 self.idcode time;
            buffer_rcv = seal (config_body f (n + 2)) ++ rest;
          }),
          value (Int.pos 0),
          w3,
        )
  unfolding get_configuration configuration_result
  get_configuration-frame rounds polls n f rest w3 v a hn hs hb hid out d h =
      let asking : C37118Client p.Float = record self { buffer_rcv = cleared } in
      let asked : C37118Client p.Float = record self {
        buffer_snd = sent 5 self.idcode time;
        buffer_rcv = cleared;
      } in
      let heard : C37118Client p.Float = record asked {
        buffer_rcv = seal (config_body f (n + 2)) ++ rest;
      } in
      rw (
        send_command-sent p pal asking w w1 w2 time z id clock 5 (omega arith) out,
        receive-Delivers p pal rounds polls self.socket cleared _ _ w2 w3 d h,
        (parse_configuration_frame-encode p heard f n rest v a hn hs hb hid).0,
      )

module _ (p : Platform) (pal : Pal) (self : C37118Client p.Float) (w w' : pal.World)
    (rounds polls : ℕ) (t : Temps p.Float) (h : polls < rounds) where
  -- If the server sends a data frame of the standard that the client's configuration describes, of
  -- bytes and of a size of 16 bits, after any number of polls below `rounds`, the call returns 0 and the
  -- client holds the measured values.
  pub get_data_stream-frame :
      (n : ℕ) (f : DataFrame) (rest : List ℕ)
      → IsDataFrame self f
      → length (data_body self.configuration f (n + 2)) ≡ n
      → IsU16 (n + 2)
      → IsBytes (data_body self.configuration f (n + 2))
      → Delivers pal self.socket
          (seal (data_body self.configuration f (n + 2)) ++ rest)
          (Int.pos (n + 2))
          w'
          polls
          cleared
          w
      → get_data_stream p pal rounds t self w
        ≡ returns (
          measured p f t
              (record self { buffer_rcv = seal (data_body self.configuration f (n + 2)) ++ rest }),
          value (Int.pos 0),
          w',
        )
  unfolding get_data_stream data_result
  get_data_stream-frame n f rest v hn hs hb d =
      let heard : C37118Client p.Float = record self {
        buffer_rcv = seal (data_body self.configuration f (n + 2)) ++ rest;
      } in
      let v' : IsDataFrame heard f = record {
        id_code = v.id_code;
        soc = v.soc;
        fracsec = v.fracsec;
        addressed = v.addressed;
        num_pmu = v.num_pmu;
        pmus = v.pmus;
      } in
      rw (
        receive-Delivers p pal rounds polls self.socket cleared _ _ w w' d h,
        parse_data_frame-encode p heard f t n rest v' hn hs hb,
      )

  -- A frame that fails its checksum, delivered after any number of polls below `rounds`, is reported by
  -- -1, and only the receive buffer has changed.
  pub get_data_stream-corrupt :
      (buffer : List ℕ) (result : ℤ)
      → crc_check buffer result ≡ some false
      → Delivers pal self.socket buffer result w' polls cleared w
      → get_data_stream p pal rounds t self w
        ≡ returns (record self { buffer_rcv = buffer }, value (negsuc 0), w')
  unfolding get_data_stream data_result
  get_data_stream-corrupt buffer result bad d = rw (
    receive-Delivers p pal rounds polls self.socket cleared buffer result w w' d h,
    parse_data_frame_corrupt p (record self { buffer_rcv = buffer }) buffer result t bad,
  )

  -- When `Socket_read` answers with a negative number after any number of polls below `rounds`, as it
  -- does when the server has closed the connection, the call reads outside the receive buffer.
  pub get_data_stream-closed :
      (buffer : List ℕ) (m : ℕ)
      → Delivers pal self.socket buffer (negsuc m) w' polls cleared w
      → get_data_stream p pal rounds t self w ≡ fault
  unfolding get_data_stream data_result
  get_data_stream-closed buffer m d = rw (
    receive-Delivers p pal rounds polls self.socket cleared buffer (negsuc m) w w' d h,
    parse_data_frame_negative p (record self { buffer_rcv = buffer }) buffer m t,
  )

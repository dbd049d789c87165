-- ===== src/Client/TypedCalls.antt =====
-- The integers, the texts and the buffers of a client in each call, with a server that may send any
-- bytes.
use khorjin.Prelude.{
  ℕ, zero, suc, arith, Bool, List, ◌++◌, All-append, All-replicate, IsByte, IsBytes, IsU16, u32,
  ◌/◌, ◌%◌,
}
use khorjin.Prelude.Int.{ℤ, pos, negsuc}
use khorjin.Platform.{Platform}
use khorjin.Pal.{Pal, Call, Returns, Returns->>=}
use khorjin.Types.{C37118Client}
use khorjin.Typed.{ClientTyped}
use khorjin.Wire.Crc.Check.{crc_of, crc_of-IsU16, seal}
use khorjin.Wire.Cursor.{be16}
use khorjin.Command.{bufer_length, cleared}
use khorjin.Command.Laws.{command_body, behind, command_body-IsBytes, write_command-seal}
use khorjin.Config.Frame.{parse_configuration_frame}
use khorjin.Config.Typed.{parse_configuration_frame-Typed}
use khorjin.DataFrame.Values.{Temps}
use khorjin.DataFrame.Frame.{parse_data_frame}
use khorjin.DataFrame.Typed.{parse_data_frame-Typed}
use khorjin.Client.Calls.{configuration_result-Returns, data_result-Returns}
use khorjin.Client.Stream.{
  send_command, stop_transmission, start_transmission, received, receive, get_configuration,
  get_data_stream,
}

-- A read of the socket puts bytes into the buffer.
abbrev pub ReadsBytes : Pal → Type 0
ReadsBytes pal =
    (socket size : ℕ) (buffer : List ℕ) (w : pal.World)
    → IsBytes buffer
    → IsBytes (pal.socket_read socket buffer size w).0

cleared-IsBytes : IsBytes cleared
unfolding cleared
cleared-IsBytes = All-replicate IsByte bufer_length 0 (omega arith)

seal-IsBytes : (body rest : List ℕ) → IsBytes body → IsBytes rest → IsBytes (seal body ++ rest)
seal-IsBytes body rest h k =
    let word : IsU16 (crc_of body) = crc_of-IsU16 body h in
    All-append IsByte (seal body) rest
      (All-append IsByte body (be16 (crc_of body)) h (omega arith, (omega arith, tt))) k

module _ {F : Type 0} where
  pub with_buffers :
      (self : C37118Client F) (send receive : List ℕ) (running : Bool)
      → ClientTyped self
      → IsBytes send
      → IsBytes receive
      → ClientTyped (record self { buffer_snd = send; buffer_rcv = receive; running = running })
  with_buffers self send receive running v hs hr = record {
    buffer_snd = hs;
    buffer_rcv = hr;
    idcode = v.idcode;
    num_pmu = v.num_pmu;
    time_base = v.time_base;
    data_rate = v.data_rate;
    config_time_stamp = v.config_time_stamp;
    header_time_stamp = v.header_time_stamp;
    data_time_stamp = v.data_time_stamp;
    configuration = v.configuration;
  }

module _ (p : Platform) (pal : Pal) where
  send_command-Typed :
      (command : ℕ) (self : C37118Client p.Float) (w : pal.World)
      → IsByte command
      → ClientTyped self
      → Returns (λ r. ClientTyped r.0) (send_command p pal command self w)
  unfolding send_command
  send_command-Typed command self w h v =
      let time : ℕ = (pal.get_time_in_ms w).0 in
      let body : List ℕ = command_body self.idcode (u32 (time / 1000)) (time % 1000) command in
      let bytes : IsBytes (seal body ++ behind) =
        seal-IsBytes body behind
          (command_body-IsBytes self.idcode (u32 (time / 1000)) (time % 1000) command v.idcode
            (omega arith) (omega arith) h)
          (All-replicate IsByte 9982 0 (omega arith)) in
      rw (write_command-seal self.idcode time command v.idcode h)
        (Returns.gives (with_buffers self _ self.buffer_rcv self.running v bytes v.buffer_rcv))

  pub stop_transmission-Typed :
      (self : C37118Client p.Float) (w : pal.World)
      → ClientTyped self
      → Returns (λ r. ClientTyped r.0) (stop_transmission p pal self w)
  unfolding stop_transmission
  stop_transmission-Typed self w v =
      Returns->>= _ (send_command p pal 0x01 self w) _
        (send_command-Typed 0x01 self w (omega arith) v)
        λ r u.
          Returns.gives
            (with_buffers r.0 r.0.buffer_snd r.0.buffer_rcv _ u u.buffer_snd u.buffer_rcv)

  pub start_transmission-Typed :
      (self : C37118Client p.Float) (w : pal.World)
      → ClientTyped self
      → Returns (λ r. ClientTyped r.0) (start_transmission p pal self w)
  unfolding start_transmission
  start_transmission-Typed self w v =
      Returns->>= _ (send_command p pal 0x02 self w) _
        (send_command-Typed 0x02 self w (omega arith) v)
        λ r u.
          Returns.gives
            (with_buffers r.0 r.0.buffer_snd r.0.buffer_rcv _ u u.buffer_snd u.buffer_rcv)

module _ (p : Platform) (pal : Pal) (reads : ReadsBytes pal) where
  received-IsBytes :
      (again : List ℕ → pal.World → Call (List ℕ × ℤ × pal.World)) (r : List ℕ × ℤ × pal.World)
      → ((b : List ℕ) (u : pal.World) → IsBytes b → Returns (λ r. IsBytes r.0) (again b u))
      → IsBytes r.0
      → Returns (λ r. IsBytes r.0) (received p pal again r)
  received-IsBytes again (b, pos zero, u) f h = f b u h
  received-IsBytes again (b, pos (suc n), u) f h = Returns.gives h
  received-IsBytes again (b, negsuc n, u) f h = Returns.gives h

  receive-IsBytes :
      (rounds socket : ℕ) (buffer : List ℕ) (w : pal.World)
      → IsBytes buffer
      → Returns (λ r. IsBytes r.0) (receive p pal rounds socket buffer w)
  unfolding receive
  receive-IsBytes zero socket buffer w h = Returns.waits
  receive-IsBytes (suc rounds) socket buffer w h =
      received-IsBytes (λ b u. receive p pal rounds socket b u) _
        (λ b u k. receive-IsBytes rounds socket b u k) (reads socket bufer_length buffer w h)

  pub get_configuration-Typed :
      (rounds : ℕ) (self : C37118Client p.Float) (w : pal.World)
      → ClientTyped self
      → Returns (λ r. ClientTyped r.0) (get_configuration p pal rounds self w)
  unfolding get_configuration
  get_configuration-Typed rounds self w v =
      let asking : C37118Client p.Float = record self { buffer_rcv = cleared } in
      Returns->>= _ (send_command p pal 0x05 asking w) _
        (send_command-Typed p pal 0x05 asking w (omega arith)
          (with_buffers self self.buffer_snd cleared self.running v v.buffer_snd cleared-IsBytes))
        λ r u.
          Returns->>= _ (receive p pal rounds r.0.socket r.0.buffer_rcv r.1) _
            (receive-IsBytes rounds r.0.socket r.0.buffer_rcv r.1 u.buffer_rcv)
            λ b h.
              let heard : C37118Client p.Float = record r.0 { buffer_rcv = b.0 } in
              let typed : ClientTyped heard =
                with_buffers r.0 r.0.buffer_snd b.0 r.0.running u u.buffer_snd h in
              configuration_result-Returns p pal (λ r. ClientTyped r.0) heard b.2
                (parse_configuration_frame p heard b.0 b.1) typed
                (λ self'. parse_configuration_frame-Typed p b.0 h heard self' b.1 typed)

  pub get_data_stream-Typed :
      (rounds : ℕ) (t : Temps p.Float) (self : C37118Client p.Float) (w : pal.World)
      → ClientTyped self
      → Returns (λ r. ClientTyped r.0) (get_data_stream p pal rounds t self w)
  unfolding get_data_stream
  get_data_stream-Typed rounds t self w v =
      Returns->>= _ (receive p pal rounds self.socket cleared w) _
        (receive-IsBytes rounds self.socket cleared w cleared-IsBytes)
        λ b h.
          let heard : C37118Client p.Float = record self { buffer_rcv = b.0 } in
          let typed : ClientTyped heard =
            with_buffers self self.buffer_snd b.0 self.running v v.buffer_snd h in
          data_result-Returns p pal (λ r. ClientTyped r.0) heard b.2
            (parse_data_frame p heard t b.0 b.1) typed
            (λ self'. parse_data_frame-Typed p b.0 heard self' t b.1 typed)

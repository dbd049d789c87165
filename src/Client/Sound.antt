-- ===== src/Client/Sound.antt =====
-- A client through any sequence of calls, with a server that may send anything.
use khorjin.Prelude.{ℕ, ◌≡◌, refl, ◌∙◌, List, length, Bool, true, false}
use khorjin.Platform.{Platform}
use khorjin.Pal.{Pal, Returns, Returns->>=, Returns->>=_any, Returns-map}
use khorjin.Types.{C37118Client}
use khorjin.Command.{cleared}
use khorjin.Config.Frame.{parse_configuration_frame}
use khorjin.Config.Sized.{Follows, parse_configuration_frame-Follows}
use khorjin.DataFrame.Values.{Temps}
use khorjin.DataFrame.Frame.{parse_data_frame}
use khorjin.DataFrame.Sized.{parse_data_frame-Follows}
use khorjin.Client.Calls.{
  send_command-changes, stop_transmission-changes, start_transmission-changes,
  configuration_result-Returns, data_result-Returns,
}
use khorjin.Client.Stream.{
  send_command, stop_transmission, start_transmission, receive, get_configuration, get_data_stream,
}

-- The identification code and the socket of the client, and as many structures as it counts PMUs.
pub record IsSound {F : Type 0} (idcode socket : ℕ) (self : C37118Client F) : Type 0 where
  pub same_idcode : self.idcode ≡ idcode
  pub same_socket : self.socket ≡ socket
  pub sized : length self.configuration ≡ self.num_pmu

module _ (p : Platform) (pal : Pal) where
  -- Whatever is received, the call leaves the identification code, the socket and `running` alone.
  pub get_data_stream-Follows :
      (rounds : ℕ) (t : Temps p.Float) (self : C37118Client p.Float) (w : pal.World)
      → length self.configuration ≡ self.num_pmu
      → Returns (λ r. Follows p self r.0) (get_data_stream p pal rounds t self w)
  unfolding get_data_stream
  get_data_stream-Follows rounds t self w v =
      Returns->>=_any _ (receive p pal rounds self.socket cleared w) _ λ b.
        let heard : C37118Client p.Float = record self { buffer_rcv = b.0 } in
        data_result-Returns p pal (λ r. Follows p self r.0) heard b.2
          (parse_data_frame p heard t b.0 b.1)
          (record { idcode = refl; socket = refl; running = refl; sized = v })
          (λ self' h.
            let f = parse_data_frame-Follows p heard self' t b.0 b.1 v h in
            record { idcode = f.idcode; socket = f.socket; running = f.running; sized = f.sized })

module _ (p : Platform) (pal : Pal) (idcode socket : ℕ) where
  Follows-IsSound :
      (self self' : C37118Client p.Float)
      → IsSound idcode socket self
      → Follows p self self'
      → IsSound idcode socket self'
  Follows-IsSound self self' v f = record {
    same_idcode = f.idcode ∙ v.same_idcode;
    same_socket = f.socket ∙ v.same_socket;
    sized = f.sized;
  }

  relabelled :
      (self : C37118Client p.Float) (send receive : List ℕ) (running : Bool)
      → IsSound idcode socket self
      → IsSound idcode socket
          (record self { buffer_snd = send; buffer_rcv = receive; running = running })
  relabelled self send receive running v = record {
    same_idcode = v.same_idcode;
    same_socket = v.same_socket;
    sized = v.sized;
  }

  pub stop_transmission-IsSound :
      (self : C37118Client p.Float) (w : pal.World)
      → IsSound idcode socket self
      → Returns (λ r. IsSound idcode socket r.0) (stop_transmission p pal self w)
  stop_transmission-IsSound self w v =
      Returns-map (stop_transmission-changes p pal self w)
        (λ r (bytes, e). rw e (relabelled self bytes self.buffer_rcv false v))

  pub start_transmission-IsSound :
      (self : C37118Client p.Float) (w : pal.World)
      → IsSound idcode socket self
      → Returns (λ r. IsSound idcode socket r.0) (start_transmission p pal self w)
  start_transmission-IsSound self w v =
      Returns-map (start_transmission-changes p pal self w)
        (λ r (bytes, e). rw e (relabelled self bytes self.buffer_rcv true v))

  pub get_configuration-IsSound :
      (rounds : ℕ) (self : C37118Client p.Float) (w : pal.World)
      → IsSound idcode socket self
      → Returns (λ r. IsSound idcode socket r.0) (get_configuration p pal rounds self w)
  unfolding get_configuration
  get_configuration-IsSound rounds self w v =
      let asking : C37118Client p.Float = record self { buffer_rcv = cleared } in
      Returns->>= _ (send_command p pal 0x05 asking w) _ (send_command-changes p pal 0x05 asking w)
        λ r (bytes, e).
          Returns->>=_any _ (receive p pal rounds r.0.socket r.0.buffer_rcv r.1) _ λ b.
            let heard : C37118Client p.Float = record r.0 { buffer_rcv = b.0 } in
            let sound : IsSound idcode socket heard =
              rw e (relabelled self bytes b.0 self.running v) in
            configuration_result-Returns p pal (λ r. IsSound idcode socket r.0) heard b.2
              (parse_configuration_frame p heard b.0 b.1) sound
              (λ self' h.
                Follows-IsSound heard self' sound
                  (parse_configuration_frame-Follows p heard self' b.0 b.1 h))

  pub get_data_stream-IsSound :
      (rounds : ℕ) (t : Temps p.Float) (self : C37118Client p.Float) (w : pal.World)
      → IsSound idcode socket self
      → Returns (λ r. IsSound idcode socket r.0) (get_data_stream p pal rounds t self w)
  get_data_stream-IsSound rounds t self w v =
      Returns-map (get_data_stream-Follows p pal rounds t self w v.sized)
        (λ r f. Follows-IsSound self r.0 v f)

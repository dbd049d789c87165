-- ===== src/Client/Calls.antt =====
-- The client that `connect` returns, what the calls that send a command change, and what a property of
-- both results of a parser says of the calls for a frame.
use khorjin.Prelude.{ℕ, ◌≡◌, refl, true, false, List, u16}
use khorjin.Prelude.Int.{pos, negsuc, uint32}
use khorjin.Prelude.Outcome.{Outcome, done}
use khorjin.Platform.{Platform}
use khorjin.Pal.{Pal, access, Returns, Returns->>=, Returns->>=_any}
use khorjin.Types.{C37118Client}
use khorjin.Command.{cleared, write_command}
use khorjin.Client.Session.{PmuConnectionData, new_client, connect_loop, connect}
use khorjin.Client.Stream.{
  Result, value, no_value, send_command, stop_transmission, start_transmission,
  configuration_result, data_result,
}

module _ (p : Platform) (pal : Pal) where
  pub connect-new_client :
      (rounds : ℕ) (send receive : List ℕ) (parameters : PmuConnectionData) (timeout : ℕ)
      (w : pal.World)
      → Returns
          (λ r.
            r.1
            ≡ new_client p pal send receive
                (u16 (uint32 parameters.pmu_id_code))
                (pal.socket_create w).0)
          (connect p pal rounds send receive parameters timeout w)
  unfolding connect
  connect-new_client rounds send receive parameters timeout w =
      let socket : ℕ = (pal.socket_create w).0 in
      Returns->>=_any _
        (connect_loop p pal rounds socket parameters timeout 0
          (pal.set_connect_timeout socket timeout (pal.socket_create w).1))
        _ (λ m. Returns.gives refl)

  pub send_command-changes :
      (command : ℕ) (self : C37118Client p.Float) (w : pal.World)
      → Returns
          (λ r. (bytes : List ℕ) × (r.0 ≡ record self { buffer_snd = bytes }))
          (send_command p pal command self w)
  unfolding send_command
  send_command-changes command self w =
      Returns->>=_any _
        (access (write_command cleared self.idcode (pal.get_time_in_ms w).0 command)) _
        (λ bytes. Returns.gives (bytes, refl))

  pub stop_transmission-changes :
      (self : C37118Client p.Float) (w : pal.World)
      → Returns
          (λ r. (bytes : List ℕ) × (r.0 ≡ record self { buffer_snd = bytes; running = false }))
          (stop_transmission p pal self w)
  unfolding stop_transmission
  stop_transmission-changes self w =
      Returns->>= _ (send_command p pal 0x01 self w) _ (send_command-changes 0x01 self w)
        λ r (bytes, e). Returns.gives (bytes, rw e refl)

  pub start_transmission-changes :
      (self : C37118Client p.Float) (w : pal.World)
      → Returns
          (λ r. (bytes : List ℕ) × (r.0 ≡ record self { buffer_snd = bytes; running = true }))
          (start_transmission p pal self w)
  unfolding start_transmission
  start_transmission-changes self w =
      Returns->>= _ (send_command p pal 0x02 self w) _ (send_command-changes 0x02 self w)
        λ r (bytes, e). Returns.gives (bytes, rw e refl)

  module _ (P : C37118Client p.Float × Result × pal.World → Type 0) (self : C37118Client p.Float)
      (w : pal.World) where
    pub configuration_result-Returns :
        (o : Outcome (C37118Client p.Float))
        → P (self, no_value, w)
        → ((self' : C37118Client p.Float) → o ≡ done self' → P (self', value (pos 0), w))
        → Returns P (configuration_result p pal self w o)
    unfolding configuration_result
    configuration_result-Returns Outcome.fault v f = Returns.breaks
    configuration_result-Returns Outcome.rejected v f = Returns.gives v
    configuration_result-Returns (Outcome.done self') v f = Returns.gives (f self' refl)

    pub data_result-Returns :
        (o : Outcome (C37118Client p.Float))
        → P (self, value (negsuc 0), w)
        → ((self' : C37118Client p.Float) → o ≡ done self' → P (self', value (pos 0), w))
        → Returns P (data_result p pal self w o)
    unfolding data_result
    data_result-Returns Outcome.fault v f = Returns.breaks
    data_result-Returns Outcome.rejected v f = Returns.gives v
    data_result-Returns (Outcome.done self') v f = Returns.gives (f self' refl)

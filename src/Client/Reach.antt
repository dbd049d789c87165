-- ===== src/Client/Reach.antt =====
-- The life of a client: `c37_118client_connect`, any calls in any order, `c37_118client_destroy`.
use khorjin.Prelude.{ℕ, ◌≡◌, refl, arith, false, List, [], ◌∷◌, ◌++◌, u16, IsU16}
use khorjin.Prelude.Int.{uint32}
use khorjin.Platform.{Platform}
use khorjin.Pal.{Pal, returns, Returns, Returns-inv, Returns-map}
use khorjin.Print.{Line}
use khorjin.Types.{C37118Client}
use khorjin.DataFrame.Values.{Temps}
use khorjin.Client.Session.{
  PmuConnectionData, receive_buffer, send_buffer, config_calendar, data_calendar, client_structure,
  calendar, new_client, connect, destroy,
}
use khorjin.Client.DestroyLaws.{owned, destroy-owned}
use khorjin.Client.Calls.{connect-new_client}
use khorjin.Client.Stream.{
  Result, stop_transmission, start_transmission, get_configuration, get_data_stream,
}
use khorjin.Client.Sound.{
  IsSound, stop_transmission-IsSound, start_transmission-IsSound, get_configuration-IsSound,
  get_data_stream-IsSound,
}

module _ (p : Platform) (pal : Pal) where
  -- What can happen to a client: a call that returns, whatever it returns, a pause, another thread that
  -- clears `running`, and a change of the world that it has no part in.
  pub data Step (self : C37118Client p.Float) (w : pal.World) (self' : C37118Client p.Float)
      (w' : pal.World) : Type 0 where
    stops : stop_transmission p pal self w ≡ returns (self', w') → Step self w self' w'
    starts : start_transmission p pal self w ≡ returns (self', w') → Step self w self' w'
    configures :
        (rounds : ℕ) (result : Result)
        → get_configuration p pal rounds self w ≡ returns (self', result, w')
        → Step self w self' w'
    takes :
        (rounds : ℕ) (t : Temps p.Float) (result : Result)
        → get_data_stream p pal rounds t self w ≡ returns (self', result, w')
        → Step self w self' w'
    cleared_by_other : self' ≡ record self { running = false } → Step self w self' w'
    world : self' ≡ self → Step self w self' w'

  pub data Reach (self : C37118Client p.Float) (w : pal.World)
      : C37118Client p.Float → pal.World → Type 0 where
    here : Reach self w self w
    then_step :
        {self1 self2 : C37118Client p.Float} {w1 w2 : pal.World}
        → Reach self w self1 w1
        → Step self1 w1 self2 w2
        → Reach self w self2 w2

  module _ (idcode socket : ℕ) where
    Step-IsSound :
        {self self' : C37118Client p.Float} {w w' : pal.World}
        → Step self w self' w'
        → IsSound idcode socket self
        → IsSound idcode socket self'
    Step-IsSound {self} {self'} {w} {w'} (stops e) v =
        Returns-inv _ (stop_transmission-IsSound p pal idcode socket self w v) e
    Step-IsSound {self} {self'} {w} {w'} (starts e) v =
        Returns-inv _ (start_transmission-IsSound p pal idcode socket self w v) e
    Step-IsSound {self} {self'} {w} {w'} (configures rounds result e) v =
        Returns-inv _ (get_configuration-IsSound p pal idcode socket rounds self w v) e
    Step-IsSound {self} {self'} {w} {w'} (takes rounds t result e) v =
        Returns-inv _ (get_data_stream-IsSound p pal idcode socket rounds t self w v) e
    Step-IsSound {self} {self'} {w} {w'} (cleared_by_other e) v =
        rw e (record { same_idcode = v.same_idcode; same_socket = v.same_socket; sized = v.sized })
    Step-IsSound {self} {self'} {w} {w'} (world e) v = rw e v

    pub Reach-IsSound :
        {self : C37118Client p.Float} {w : pal.World} {self' : C37118Client p.Float}
        {w' : pal.World}
        → Reach self w self' w'
        → IsSound idcode socket self
        → IsSound idcode socket self'
    Reach-IsSound here v = v
    Reach-IsSound (then_step r s) v = Step-IsSound s (Reach-IsSound r v)

  -- The client that `connect` returns, on the socket that the platform has created.
  connect-IsSound :
      (rounds : ℕ) (send receive : List ℕ) (parameters : PmuConnectionData) (timeout : ℕ)
      (w : pal.World)
      → Returns
          (λ r. IsSound (u16 (uint32 parameters.pmu_id_code)) (pal.socket_create w).0 r.1)
          (connect p pal rounds send receive parameters timeout w)
  unfolding new_client
  connect-IsSound rounds send receive parameters timeout w =
      Returns-map (connect-new_client p pal rounds send receive parameters timeout w)
        (λ r e. rw e (record { same_idcode = refl; same_socket = refl; sized = refl }))

  -- After `connect` and any steps, whatever the server has sent, the client has the identification code
  -- of 16 bits and the socket that it was connected with, and `destroy` leaves no array: it destroys
  -- this socket and frees what the client owns.
  pub destroy-Reach :
      (rounds : ℕ) (send receive : List ℕ) (parameters : PmuConnectionData) (timeout : ℕ)
      (w0 w w' : pal.World) (lines : List (Line p.Float)) (self self' : C37118Client p.Float)
      → connect p pal rounds send receive parameters timeout w0 ≡ returns (lines, self, w)
      → Reach self w self' w'
      → (self'.idcode ≡ u16 (uint32 parameters.pmu_id_code))
        × IsU16 self'.idcode
        × (destroy p pal self' w'
            ≡ returns (
              receive_buffer
                    ∷ send_buffer
                    ∷ calendar p pal config_calendar self'.config_time_stamp.parsed_time
                  ++ (calendar p pal data_calendar self'.data_time_stamp.parsed_time
                      ++ (owned self'.num_pmu ++ client_structure ∷ [])),
              pal.socket_destroy (pal.socket_create w0).0 w',
            ))
  destroy-Reach rounds send receive parameters timeout w0 w w' lines self self' e r =
      let idcode : ℕ = u16 (uint32 parameters.pmu_id_code) in
      let socket : ℕ = (pal.socket_create w0).0 in
      let start : IsSound idcode socket self =
        Returns-inv _ (connect-IsSound rounds send receive parameters timeout w0) e in
      let v : IsSound idcode socket self' = Reach-IsSound idcode socket r start in
      let word : IsU16 idcode = omega arith in
      (
        v.same_idcode,
        rw v.same_idcode word,
        rw (← v.same_socket) (destroy-owned p pal self' w' v.sized),
      )

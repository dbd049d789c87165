-- ===== src/Example/Laws.antt =====
-- `main` of the example against a server of the standard, and against one whose configuration frame is
-- damaged.
use khorjin.Prelude.{
  ℕ, ◌+◌, ◌≡◌, ◌<◌, ◌≤◌, refl, sym, ◌∙◌, arith, false, true, some, none, List, ◌++◌, IsU16, IsBytes,
  length, All,
}
use khorjin.Prelude.Int.{ℤ}
use khorjin.Prelude.Int
use khorjin.Platform.{Platform}
use khorjin.Pal.{Pal, returns, fault, ◌>>=◌}
use khorjin.Types.{C37118Client}
use khorjin.Wire.Crc.{crc_check}
use khorjin.Wire.Crc.Check.{seal}
use khorjin.Command.{cleared}
use khorjin.Config.Spec.{header_of}
use khorjin.Config.Block.{Agrees}
use khorjin.Config.Received.{ConfigFrame, IsConfigFrame, config_body}
use khorjin.DataFrame.Values.{Temps}
use khorjin.Print.{Line, ◌>>◌, print_date}
use khorjin.Print.Configuration.{print_configuration}
use khorjin.Shape.{IsEquipped}
use khorjin.Print.Printed.{Printed-access, lines_of}
use khorjin.Print.Totals.{configured-IsEquipped, print_configuration-configured}
use khorjin.Client.Session.{greeting, new_client, connect}
use khorjin.Client.SessionLaws.{Refuses, failed_lines, connect-Refuses}
use khorjin.Client.Stream.{stop_transmission, start_transmission}
use khorjin.Client.StreamLaws.{
  Delivers, sent, stop_transmission-sent, start_transmission-sent, get_configuration-frame,
}
use khorjin.Client.RefusalLaws.{get_configuration-corrupt}
use khorjin.Example.Setup.{
  command_time, after_command, stopped, stopped_world, asked_world, answered, known, set_up,
}
use khorjin.Example.Loop.{Feeds, main_loop-Feeds}
use khorjin.Example.{pmu_connection_data, main_loop, main}

print_configuration-undated :
    {F : Type 0} (self : C37118Client F)
    → self.config_time_stamp.parsed_time ≡ none
    → print_configuration self ≡ none
unfolding print_configuration print_date ◌>>◌
print_configuration-undated self e = rw e refl

module _ (p : Platform) (pal : Pal) where
  start_transmission-ready :
      (self : C37118Client p.Float) (w : pal.World) (idcode socket : ℕ)
      → self.idcode ≡ idcode
      → self.socket ≡ socket
      → IsU16 idcode
      → start_transmission p pal self w
        ≡ returns (
          record self { buffer_snd = sent 2 idcode (command_time pal w); running = true },
          after_command pal 2 idcode socket w,
        )
  start_transmission-ready self w idcode socket e es h =
      rw (← e, ← es) (start_transmission-sent p pal self w _ _ _ _ (rw e h) refl refl)

-- The server refuses at most 31 attempts of `main` to connect and then accepts.
module _ (p : Platform) (pal : Pal) (rounds k socket : ℕ) (send receive : List ℕ)
    (w w0 w1 w2 : pal.World) (created : pal.socket_create w ≡ (socket, w0))
    (refused : Refuses pal socket pmu_connection_data 1000 w1 0 k
      (pal.set_connect_timeout socket 1000 w0))
    (few : k ≤ 31) (more : k < rounds)
    (accepted : pal.socket_connect socket pmu_connection_data.ip_address_pmu_server
        pmu_connection_data.pmu_port_number w1
      ≡ (true, w2)) where
  main_connected :
      connect p pal rounds send receive pmu_connection_data 1000 w
      ≡ returns (
        greeting p pal pmu_connection_data ++ failed_lines p pal 1000 0 k,
        new_client p pal send receive 221 socket,
        w2,
      )
  main_connected =
      connect-Refuses p pal pmu_connection_data 1000 k rounds send receive w w0 w1 w2 socket created
        refused few more accepted

  main_stopped :
      stop_transmission p pal (new_client p pal send receive 221 socket) w2
      ≡ returns (stopped p pal send receive socket w2, stopped_world p pal send receive socket w2)
  unfolding new_client
  main_stopped =
      stop_transmission-sent p pal (new_client p pal send receive 221 socket) w2 _ _ _ _
        (omega arith) refl refl

  -- With a configuration frame of the standard for the code 221 in answer to the request, `main` comes
  -- to its loop.
  pub main_reaches :
      (polls n : ℕ) (f : ConfigFrame) (rest : List ℕ) (w4 : pal.World)
      (schedule : List (Temps p.Float))
      → IsConfigFrame f
      → All (Agrees p (header_of p f.first)) f.others
      → length (config_body f (n + 2)) ≡ n
      → IsU16 (n + 2)
      → IsBytes (config_body f (n + 2))
      → f.id_code ≡ 221
      → Delivers pal socket
          (seal (config_body f (n + 2)) ++ rest)
          (Int.pos (n + 2))
          w4
          polls
          cleared
          (asked_world p pal send receive socket w2)
      → polls < rounds
      → main p pal rounds send receive schedule w ≡ (
          main_loop p pal rounds schedule
            (set_up p pal send receive socket w2 f n rest w4)
            (after_command pal 2 221 socket w4)
          >>= λ r. returns (
            (greeting p pal pmu_connection_data ++ failed_lines p pal 1000 0 k)
                ++ (lines_of (print_configuration (known p pal send receive socket w2 f n rest))
                    ++ r.0),
            r.1,
            r.2,
          ))
  unfolding main new_client
  main_reaches polls n f rest w4 schedule v a hn hs hb id d h =
      rw
        (
          main_connected,
          main_stopped,
          get_configuration-frame p pal (stopped p pal send receive socket w2)
              (stopped_world p pal send receive socket w2) _ _ _ _ (omega arith) refl rounds polls n
              f rest w4 v a hn hs hb (sym id) refl d h,
          Printed-access (
              print_configuration-configured p
                (answered p pal send receive socket w2 (seal (config_body f (n + 2)) ++ rest)) f v),
          start_transmission-ready p pal (known p pal send receive socket w2 f n rest) w4 221 socket
              id refl (omega arith),
        )
        refl

  -- If the server then sends a configuration frame of the standard for the code 221, of bytes and of a
  -- size of 16 bits, whose PMUs agree with the first, after any number of polls below `rounds`, and
  -- behind it a data frame that the client's configuration describes for every round of the loop, `main`
  -- leaves no array, prints the attempts to connect, the configuration and then each data frame, and in
  -- front of the next round the client has taken in every frame.
  pub main-Feeds :
      (polls n : ℕ) (f : ConfigFrame) (rest : List ℕ) (w4 w' : pal.World)
      (schedule : List (Temps p.Float)) (lines : List (Line p.Float)) (self' : C37118Client p.Float)
      → IsConfigFrame f
      → All (Agrees p (header_of p f.first)) f.others
      → length (config_body f (n + 2)) ≡ n
      → IsU16 (n + 2)
      → IsBytes (config_body f (n + 2))
      → f.id_code ≡ 221
      → Delivers pal socket
          (seal (config_body f (n + 2)) ++ rest)
          (Int.pos (n + 2))
          w4
          polls
          cleared
          (asked_world p pal send receive socket w2)
      → polls < rounds
      → Feeds p pal rounds self' w' schedule lines
          (set_up p pal send receive socket w2 f n rest w4)
          (after_command pal 2 221 socket w4)
      → main p pal rounds send receive schedule w
        ≡ returns (
          (greeting p pal pmu_connection_data ++ failed_lines p pal 1000 0 k)
              ++ (lines_of (print_configuration (known p pal send receive socket w2 f n rest))
                  ++ lines),
          self',
          w',
        )
  main-Feeds polls n f rest w4 w' schedule lines self' v a hn hs hb id d h feeds =
      let ready : IsEquipped (known p pal send receive socket w2 f n rest) =
        configured-IsEquipped p
          (answered p pal send receive socket w2 (seal (config_body f (n + 2)) ++ rest)) f v in
      main_reaches polls n f rest w4 schedule v a hn hs hb id d h
      ∙ rw
          (main_loop-Feeds p pal rounds self' w' schedule lines _ _ feeds
            (record { num_pmu = ready.num_pmu; pmus = ready.pmus }))
          refl

  -- If the frame that answers the request for the configuration fails its checksum, after any number of
  -- polls below `rounds`, `main` prints the time stamp of the configuration all the same, through a null
  -- pointer.
  pub main-corrupt :
      (polls : ℕ) (buffer : List ℕ) (result : ℤ) (w4 : pal.World) (schedule : List (Temps p.Float))
      → crc_check buffer result ≡ some false
      → Delivers pal socket buffer result w4 polls cleared
          (asked_world p pal send receive socket w2)
      → polls < rounds
      → main p pal rounds send receive schedule w ≡ fault
  unfolding main new_client
  main-corrupt polls buffer result w4 schedule bad d h = rw (
    main_connected,
    main_stopped,
    get_configuration-corrupt p pal (stopped p pal send receive socket w2)
        (stopped_world p pal send receive socket w2) _ _ w4 _ rounds polls _ (omega arith) refl refl
        h buffer result bad d,
    print_configuration-undated (answered p pal send receive socket w2 buffer) refl,
  )

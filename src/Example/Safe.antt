-- ===== src/Example/Safe.antt =====
-- The loop of `main`, whatever bytes the server sends.
use khorjin.Prelude.{
  IsU16, IsBytes, All, length, ◌+◌, ◌++◌, ◌≤◌, sym, ◌∙◌, true, ℕ, ◌<◌, ◌≡◌, refl, false, some, none,
  List, [], ◌∷◌,
}
use khorjin.Prelude.Int
use khorjin.Prelude.Int.{ℤ}
use khorjin.Platform.{Platform}
use khorjin.Pal.{Pal, fault, Safe, Safe->>=, Safe-not_fault, Safe-inv, returns}
use khorjin.Types.{C37118Client}
use khorjin.Wire.Crc.{crc_check}
use khorjin.Command.{bufer_length, cleared}
use khorjin.DataFrame.Values.{Temps}
use khorjin.DataFrame.Total.{IsReady, IsDated}
use khorjin.Print.{◌>>◌, print_date}
use khorjin.Print.Stream.{print_data_stream}
use khorjin.Print.Printed.{Printed-access}
use khorjin.Print.StreamPrinted.{print_data_stream-Printed}
use khorjin.Client.Stream.{value, get_data_stream}
use khorjin.Client.StreamLaws.{Delivers, get_data_stream-corrupt}
use khorjin.Client.Safe.{ReadsWell, get_data_stream-Safe}
use khorjin.Example.{pmu_connection_data, main_loop, main}
use khorjin.Example.Setup.{asked_world, after_command, answered, known, set_up}
use khorjin.Example.Laws.{main_reaches}
use khorjin.Client.SessionLaws.{Refuses}
use khorjin.Shape.{IsEquipped, pmus_size}
use khorjin.Wire.Crc.Check.{seal}
use khorjin.Config.Spec.{header_of}
use khorjin.Config.Block.{Agrees}
use khorjin.Config.Received.{ConfigFrame, IsConfigFrame, config_body}
use khorjin.Print.Totals.{configured-IsEquipped}

module _ (p : Platform) (pal : Pal) where
  main_loop-Safe :
      (reads : ReadsWell pal) (rounds : ℕ) (schedule : List (Temps p.Float))
      (self : C37118Client p.Float) (w : pal.World)
      → IsReady bufer_length self
      → IsDated self
      → Safe (λ r. Unit {0}) (main_loop p pal rounds schedule self w)
  unfolding main_loop
  main_loop-Safe reads rounds [] self w v d = Safe.gives tt
  main_loop-Safe reads rounds (t ∷ schedule) self w v d =
      Safe->>= _ (get_data_stream p pal rounds t self w) _
        (get_data_stream-Safe p pal reads rounds t self w v)
        λ r a.
          let (c, e) = a.still_dated d in
          rw (Printed-access (print_data_stream-Printed r.0 c a.ready.equipped e)) (
            Safe->>= _ (main_loop p pal rounds schedule r.0 r.2) _
              (main_loop-Safe reads rounds schedule r.0 r.2 a.ready (a.still_dated d))
              λ rest u. Safe.gives tt)

  print_data_stream-undated :
      {F : Type 0} (self : C37118Client F)
      → self.data_time_stamp.parsed_time ≡ none
      → print_data_stream self ≡ none
  unfolding print_data_stream print_date ◌>>◌
  print_data_stream-undated self e = rw e refl

  -- If no data frame has been taken in before, and the first that comes, after any number of polls below
  -- `rounds`, fails its checksum, the loop of the example prints its time stamp all the same, through a
  -- null pointer.
  pub main_loop-undated :
      (rounds polls : ℕ) (t : Temps p.Float) (schedule : List (Temps p.Float))
      (self : C37118Client p.Float) (w w' : pal.World) (buffer : List ℕ) (result : ℤ)
      → self.data_time_stamp.parsed_time ≡ none
      → polls < rounds
      → crc_check buffer result ≡ some false
      → Delivers pal self.socket buffer result w' polls cleared w
      → main_loop p pal rounds (t ∷ schedule) self w ≡ fault
  unfolding main_loop
  main_loop-undated rounds polls t schedule self w w' buffer result e h bad d = rw (
    get_data_stream-corrupt p pal self w w' rounds polls t h buffer result bad d,
    print_data_stream-undated (record self { buffer_rcv = buffer }) e,
  )

set_up-IsEquipped :
    (p : Platform) (pal : Pal) (send receive : List ℕ) (socket : ℕ) (w : pal.World)
    (f : ConfigFrame) (n : ℕ) (rest : List ℕ) (w4 : pal.World)
    → IsConfigFrame f
    → IsEquipped (set_up p pal send receive socket w f n rest w4)
set_up-IsEquipped p pal send receive socket w f n rest w4 v =
    let known_ready : IsEquipped (known p pal send receive socket w f n rest) =
      configured-IsEquipped p
        (answered p pal send receive socket w (seal (config_body f (n + 2)) ++ rest)) f v in
    record { num_pmu = known_ready.num_pmu; pmus = known_ready.pmus }

-- The server refuses at most 31 attempts of `main` to connect and then accepts.
module _ (p : Platform) (pal : Pal) (rounds k socket : ℕ) (send receive : List ℕ)
    (w w0 w1 w2 : pal.World) (created : pal.socket_create w ≡ (socket, w0))
    (refused : Refuses pal socket pmu_connection_data 1000 w1 0 k
      (pal.set_connect_timeout socket 1000 w0))
    (few : k ≤ 31) (more : k < rounds)
    (accepted : pal.socket_connect socket pmu_connection_data.ip_address_pmu_server
        pmu_connection_data.pmu_port_number w1
      ≡ (true, w2)) where
  -- Let the server then send a configuration frame of the standard for the code 221, of bytes and of a
  -- size of 16 bits, whose PMUs agree with the first, after any number of polls below `rounds`, let the
  -- data frame of this configuration fit the buffer of 10000 bytes, and let the first call for a data
  -- frame take one in. Let every read of the socket give a number of bytes up to 10000 that is not 1.
  -- Then `main` accesses nothing outside the buffers and the arrays and follows no null pointer in any
  -- number of rounds, whatever the server sends behind the first data frame.
  pub main-not_fault :
      (reads : ReadsWell pal) (polls n : ℕ) (f : ConfigFrame) (rest : List ℕ) (w4 w5 : pal.World)
      (t : Temps p.Float) (schedule : List (Temps p.Float)) (self' : C37118Client p.Float)
      → IsConfigFrame f
      → All (Agrees p (header_of p f.first)) f.others
      → length (config_body f (n + 2)) ≡ n
      → IsU16 (n + 2)
      → IsBytes (config_body f (n + 2))
      → f.id_code ≡ 221
      → Delivers pal socket
          (seal (config_body f (n + 2)) ++ rest)
          (Int.pos (n + 2))
          w4
          polls
          cleared
          (asked_world p pal send receive socket w2)
      → polls < rounds
      → 14 + pmus_size (known p pal send receive socket w2 f n rest).configuration ≤ bufer_length
      → get_data_stream p pal rounds t
          (set_up p pal send receive socket w2 f n rest w4)
          (after_command pal 2 221 socket w4)
        ≡ returns (self', value (Int.pos 0), w5)
      → ¬ (main p pal rounds send receive (t ∷ schedule) w ≡ fault)
  unfolding main_loop
  main-not_fault reads polls n f rest w4 w5 t schedule self' v a hn hs hb id d h size got e =
      let ready : IsReady bufer_length (set_up p pal send receive socket w2 f n rest w4) = record {
        equipped = set_up-IsEquipped p pal send receive socket w2 f n rest w4 v;
        fits = size;
      } in
      let taken = Safe-inv _ (get_data_stream-Safe p pal reads rounds t _ _ ready) got in
      let (c, dated) = taken.dated refl in
      let loop : Safe (λ r. Unit {0})
          (main_loop p pal rounds (t ∷ schedule) (set_up p pal send receive socket w2 f n rest w4)
            (after_command pal 2 221 socket w4)) =
        rw (got, Printed-access (print_data_stream-Printed self' c taken.ready.equipped dated))
          (Safe->>= _ (main_loop p pal rounds schedule self' w5) _
            (main_loop-Safe p pal reads rounds schedule self' w5 taken.ready (c, dated))
            λ r u. Safe.gives tt) in
      Safe-not_fault (Safe->>= (λ r. Unit {0}) _ _ loop (λ r u. Safe.gives tt)) (
        sym (
          main_reaches p pal rounds k socket send receive w w0 w1 w2 created refused few more
            accepted polls n f rest w4 (t ∷ schedule) v a hn hs hb id d h)
        ∙ e)

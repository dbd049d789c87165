-- ===== src/Client/Safe.antt =====
-- The calls for data frames and the receiver loop, whatever bytes the server sends.
use khorjin.Prelude.{
  ℕ, zero, suc, ◌≤◌, ◌≡◌, ◌≢◌, refl, ◌∙◌, arith, Bool, true, false, List, [], ◌∷◌, length,
  length-replicate, IsU16, ◌&&◌, not,
}
use khorjin.Prelude.Int
use khorjin.Prelude.Int.{ℤ, negsuc}
use khorjin.Prelude.Outcome
use khorjin.Prelude.Outcome.{Outcome, Settles}
use khorjin.Platform.{Platform}
use khorjin.Pal.{Pal, Call, fault, Safe, Safe->>=, Safe-if, Safe-not_fault}
use khorjin.Types.{C37118Client}
use khorjin.Command.{bufer_length, cleared}
use khorjin.Command.Laws.{write_command-seal}
use khorjin.DataFrame.Values.{Temps}
use khorjin.DataFrame.Total.{IsReady, IsAfter, IsDated}
use khorjin.DataFrame.Safe.{parse_data_frame-Settles}
use khorjin.Print.Printed.{Printed-access}
use khorjin.Print.StreamPrinted.{print_data_stream-Printed}
use khorjin.Client.Stream.{
  Result, value, no_value, send_command, stop_transmission, start_transmission, received, receive,
  data_result, get_data_stream, report, receiver_rounds, receiver_loop,
}

length-cleared : length cleared ≡ bufer_length
unfolding cleared
length-cleared = length-replicate {A = ℕ} bufer_length 0

-- What a read gives while the connection stands, but for the single byte: no more than it has room for.
pub record IsRead (r : List ℕ × ℤ) : Type 0 where
  pub kept : length r.0 ≡ bufer_length
  pub count : ℕ
  pub whole : r.1 ≡ Int.pos count
  pub below : count ≤ bufer_length
  pub not_one : count ≢ 1

abbrev pub ReadsWell : Pal → Type 0
ReadsWell pal =
    (socket : ℕ) (buffer : List ℕ) (w : pal.World)
    → length buffer ≡ bufer_length
    → IsRead (
      (pal.socket_read socket buffer bufer_length w).0,
      (pal.socket_read socket buffer bufer_length w).1,
    )

-- What was received: two bytes or more.
abbrev Heard : {W : Type 0} → List ℕ × ℤ × W → Type 0
Heard r = (length r.0 ≡ bufer_length) × (n : ℕ) × (r.1 ≡ Int.pos n) × (2 ≤ n) × (n ≤ bufer_length)

module _ (p : Platform) (pal : Pal) (reads : ReadsWell pal) where
  received-Safe :
      (again : List ℕ → pal.World → Call (List ℕ × ℤ × pal.World)) (r : List ℕ × ℤ × pal.World)
      (n : ℕ)
      → ((b : List ℕ) (u : pal.World) → length b ≡ bufer_length → Safe Heard (again b u))
      → length r.0 ≡ bufer_length
      → r.1 ≡ Int.pos n
      → n ≤ bufer_length
      → n ≢ 1
      → Safe Heard (received p pal again r)
  received-Safe again (b, Int.pos zero, u) n f k e below ne = f b u k
  received-Safe again (b, Int.pos (suc zero), u) n f k e below ne =
      let one : n ≡ 1 = cc in absurd (ne one)
  received-Safe again (b, Int.pos (suc (suc m)), u) n f k e below ne =
      let same : n ≡ suc (suc m) = cc in
      Safe.gives (k, suc (suc m), refl, omega arith, omega (arith, same, below))
  received-Safe again (b, negsuc m, u) n f k e below ne = cc

  receive-Safe :
      (rounds socket : ℕ) (buffer : List ℕ) (w : pal.World)
      → length buffer ≡ bufer_length
      → Safe Heard (receive p pal rounds socket buffer w)
  unfolding receive
  receive-Safe zero socket buffer w h = Safe.waits
  receive-Safe (suc rounds) socket buffer w h =
      let v : IsRead (
        (pal.socket_read socket buffer bufer_length w).0,
        (pal.socket_read socket buffer bufer_length w).1,
      ) =
        reads socket buffer w h in
      received-Safe (λ b u. receive p pal rounds socket b u) _ v.count
        (λ b u k. receive-Safe rounds socket b u k) v.kept v.whole v.below v.not_one

  -- A client after a call for a data frame, and that it has a time to print if a frame was taken in.
  pub record Taken (self : C37118Client p.Float) (r : C37118Client p.Float × Result × pal.World)
      : Type 0 where
    pub ready : IsReady bufer_length r.0
    pub dated : r.1 ≡ value (Int.pos 0) → IsDated r.0
    pub still_dated : IsDated self → IsDated r.0
    pub idcode : r.0.idcode ≡ self.idcode

  data_result-Safe :
      (self heard : C37118Client p.Float) (w : pal.World) (o : Outcome (C37118Client p.Float))
      → heard.idcode ≡ self.idcode
      → (IsDated self → IsDated heard)
      → IsReady bufer_length heard
      → Settles (IsAfter bufer_length heard) o
      → Safe (Taken self) (data_result p pal heard w o)
  unfolding data_result
  data_result-Safe self heard w Outcome.fault id date v o = elim o [ ]
  data_result-Safe self heard w Outcome.rejected id date v Outcome.refuses =
      Safe.gives (record { ready = v; dated = λ e. cc; still_dated = date; idcode = id })
  data_result-Safe self heard w (Outcome.done self') id date v (Outcome.settles a) =
      Safe.gives (record {
        ready = a.ready;
        dated = λ e. a.dated;
        still_dated = λ d. a.dated;
        idcode = a.idcode ∙ id;
      })

  pub get_data_stream-Safe :
      (rounds : ℕ) (t : Temps p.Float) (self : C37118Client p.Float) (w : pal.World)
      → IsReady bufer_length self
      → Safe (Taken self) (get_data_stream p pal rounds t self w)
  unfolding get_data_stream data_result
  get_data_stream-Safe rounds t self w v =
      Safe->>= _ (receive p pal rounds self.socket cleared w) _
        (receive-Safe rounds self.socket cleared w length-cleared)
        λ r (kept, n, whole, few, below).
          let heard : C37118Client p.Float = record self { buffer_rcv = r.0 } in
          let ready : IsReady (length r.0) heard = record {
            equipped = record { num_pmu = v.equipped.num_pmu; pmus = v.equipped.pmus };
            fits = rw kept v.fits;
          } in
          let o = parse_data_frame-Settles p heard t r.0 n ready (rw kept below) few in
          rw whole
            (data_result-Safe self heard r.2 _ refl (λ d. d) (rw (← kept) ready) (rw (← kept) o))

  report-Safe :
      (result : Result) (self : C37118Client p.Float)
      → IsReady bufer_length self
      → (result ≡ value (Int.pos 0) → IsDated self)
      → Safe (λ lines. Unit {0}) (report p pal result self)
  unfolding report
  report-Safe (value (Int.pos zero)) self v dated =
      let (c, e) = dated refl in
      rw (Printed-access (print_data_stream-Printed self c v.equipped e)) (Safe.gives tt)
  report-Safe (value (Int.pos (suc n))) self v dated = Safe.gives tt
  report-Safe (value (negsuc n)) self v dated = Safe.gives tt
  report-Safe no_value self v dated = Safe.gives tt

  -- A command leaves all of the client but the send buffer alone.
  send_command-Safe :
      (command : ℕ) (self : C37118Client p.Float) (w : pal.World)
      → IsU16 self.idcode
      → command ≤ 255
      → Safe
          (λ r. (bytes : List ℕ) × (r.0 ≡ record self { buffer_snd = bytes }))
          (send_command p pal command self w)
  unfolding send_command
  send_command-Safe command self w id h =
      rw (write_command-seal self.idcode (pal.get_time_in_ms w).0 command id (omega arith))
        (Safe.gives (_, refl))

  stop_transmission-Safe :
      (self : C37118Client p.Float) (w : pal.World)
      → IsU16 self.idcode
      → Safe (λ r. Unit {0}) (stop_transmission p pal self w)
  unfolding stop_transmission
  stop_transmission-Safe self w id =
      Safe->>= _ (send_command p pal 0x01 self w) _ (send_command-Safe 0x01 self w id (omega arith))
        λ r e. Safe.gives tt

  start_transmission-Safe :
      (self : C37118Client p.Float) (w : pal.World)
      → IsU16 self.idcode
      → Safe
          (λ r. (bytes : List ℕ) × (r.0 ≡ record self { buffer_snd = bytes; running = true }))
          (start_transmission p pal self w)
  unfolding start_transmission
  start_transmission-Safe self w id =
      Safe->>= _ (send_command p pal 0x02 self w) _ (send_command-Safe 0x02 self w id (omega arith))
        λ r (bytes, e). Safe.gives (bytes, rw e refl)

  receiver_rounds-Safe :
      (rounds : ℕ) (schedule : List (Bool × Temps p.Float)) (self : C37118Client p.Float)
      (w : pal.World)
      → IsReady bufer_length self
      → IsU16 self.idcode
      → Safe (λ r. Unit {0}) (receiver_rounds p pal rounds schedule self w)
  unfolding receiver_rounds
  receiver_rounds-Safe rounds [] self w v id = Safe.waits
  receiver_rounds-Safe rounds ((stopped, t) ∷ schedule) self w v id =
      Safe-if (self.running && not stopped)
        (Safe->>= _ (get_data_stream p pal rounds t self w) _
          (get_data_stream-Safe rounds t self w v)
          λ r a.
            Safe->>= _ (report p pal r.1 r.0) _ (report-Safe r.1 r.0 a.ready a.dated) λ lines u.
              Safe->>= _ (receiver_rounds p pal rounds schedule r.0 (pal.thread_sleep 1 r.2)) _
                (receiver_rounds-Safe rounds schedule r.0 (pal.thread_sleep 1 r.2) a.ready
                  (rw a.idcode id))
                λ rest u'. Safe.gives tt)
        (Safe->>= _ (stop_transmission p pal (record self { running = false }) w) _
          (stop_transmission-Safe (record self { running = false }) w id) λ r u. Safe.gives tt)

  -- Let the arrays of the client have the lengths that its counts say, and let the data frame of its
  -- configuration fit the buffer of 10000 bytes and its identification code 16 bits. Let every read of the
  -- socket give a number of bytes up to 10000 that is not 1. Then the receiver loop accesses nothing
  -- outside the buffers and the arrays, and prints through no null pointer, whatever the bytes are and
  -- whenever another thread stops it.
  pub receiver_loop-Safe :
      (rounds : ℕ) (schedule : List (Bool × Temps p.Float)) (self : C37118Client p.Float)
      (w : pal.World)
      → IsReady bufer_length self
      → IsU16 self.idcode
      → ¬ (receiver_loop p pal rounds schedule self w ≡ fault)
  unfolding receiver_loop
  receiver_loop-Safe rounds schedule self w v id = Safe-not_fault (
      Safe->>= _ (start_transmission p pal self w) _ (start_transmission-Safe self w id)
        λ r (bytes, e).
          receiver_rounds-Safe rounds schedule r.0 r.1
            (rw e (record {
              equipped = record { num_pmu = v.equipped.num_pmu; pmus = v.equipped.pmus };
              fits = v.fits;
            }))
            (rw e id))

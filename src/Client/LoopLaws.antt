-- ===== src/Client/LoopLaws.antt =====
-- `c37_118ReceiverLoop`, from the start of the transmission to its stop.
use khorjin.Prelude.{ℕ, ◌≡◌, refl, Bool, true, false, List, [], ◌∷◌, ◌++◌, length, ◌∙◌, IsU16, ◌&&◌}
use khorjin.Prelude.Int.{ℤ}
use khorjin.Platform.{Platform}
use khorjin.Pal.{Pal, returns, Returns-inv}
use khorjin.Print.{Line}
use khorjin.Config.Sized.{Follows}
use khorjin.Client.Sound.{get_data_stream-Follows}
use khorjin.Types.{C37118Client}
use khorjin.DataFrame.Values.{Temps}
use khorjin.Client.Stream.{
  Result, stop_transmission, get_data_stream, report, receiver_rounds, receiver_loop,
}
use khorjin.Client.StreamLaws.{sent, stop_transmission-sent, start_transmission-sent}

and-false : (b : Bool) → (b && false) ≡ false
and-false true = refl
and-false false = refl

-- `running` is left alone in front of each of the rounds, and is then found cleared.
abbrev pub stopped_after : {F : Type 0} → List (Temps F) → Temps F → List (Bool × Temps F)
stopped_after [] t = (true, t) ∷ []
stopped_after (u ∷ us) t = (false, u) ∷ stopped_after us t

module _ (p : Platform) (pal : Pal) (rounds : ℕ) where
  -- Calls for data frames, one for each element of the list, with what is printed about them and a pause
  -- behind each, lead from the client and the world to `self'` and `w'`.
  pub data Streams (self' : C37118Client p.Float) (w' : pal.World)
      : List (Temps p.Float) → List (Line p.Float) → C37118Client p.Float → pal.World → Type 0 where
    last : Streams self' w' [] [] self' w'
    frame :
        {t : Temps p.Float} {ts : List (Temps p.Float)} {lines rest : List (Line p.Float)}
        {self self1 : C37118Client p.Float} {w w1 : pal.World} {result : Result}
        → get_data_stream p pal rounds t self w ≡ returns (self1, result, w1)
        → report p pal result self1 ≡ returns lines
        → Streams self' w' ts rest self1 (pal.thread_sleep 1 w1)
        → Streams self' w' (t ∷ ts) (lines ++ rest) self w

  -- No frame stops the loop, and none changes whom it stops in the end.
  Streams-Follows :
      (self' : C37118Client p.Float) (w' : pal.World) (ts : List (Temps p.Float))
      (lines : List (Line p.Float)) (self : C37118Client p.Float) (w : pal.World)
      → Streams self' w' ts lines self w
      → length self.configuration ≡ self.num_pmu
      → Follows p self self'
  Streams-Follows self' w' ts lines self w last h = record {
    idcode = refl;
    socket = refl;
    running = refl;
    sized = h;
  }
  Streams-Follows self' w' (t ∷ ts) lines self w
        (frame {rest = rest} {self1 = self1} {w1 = w1} got said s) h =
      let f : Follows p self self1 =
        Returns-inv _ (get_data_stream-Follows p pal rounds t self w h) got in
      let g : Follows p self1 self' =
        Streams-Follows self' w' ts rest self1 (pal.thread_sleep 1 w1) s f.sized in
      record {
        idcode = g.idcode ∙ f.idcode;
        socket = g.socket ∙ f.socket;
        running = g.running ∙ f.running;
        sized = g.sized;
      }

  receiver_rounds-Streams :
      (ts : List (Temps p.Float)) (t : Temps p.Float) (lines : List (Line p.Float))
      (self self' self'' : C37118Client p.Float) (w w' w'' : pal.World)
      → Streams self' w' ts lines self w
      → length self.configuration ≡ self.num_pmu
      → self.running ≡ true
      → stop_transmission p pal (record self' { running = false }) w' ≡ returns (self'', w'')
      → receiver_rounds p pal rounds (stopped_after ts t) self w ≡ returns (lines, self'', w'')
  unfolding receiver_rounds
  receiver_rounds-Streams [] t lines self self' self'' w w' w'' last h on stop =
      rw (and-false self.running, stop) refl
  receiver_rounds-Streams (u ∷ ts) t lines self self' self'' w w' w'' (frame got said s) h on stop =
      let f = Returns-inv _ (get_data_stream-Follows p pal rounds u self w h) got in
      rw
        (
          got,
          on,
          said,
          receiver_rounds-Streams ts t _ _ self' self'' _ w' w'' s f.sized (f.running ∙ on) stop,
        )
        refl

  -- If the loop of a client with as many structures as it counts PMUs starts the transmission, calls for a
  -- number of data frames, whatever comes, and then finds `running` cleared by another thread, it has
  -- written the commands 2 and 1 for the same identification code of 16 bits to the same socket, has
  -- printed a report of every call, and leaves the client as the last call has but for the send buffer and
  -- for `running`, which is false.
  pub receiver_loop-Streams :
      (ts : List (Temps p.Float)) (t : Temps p.Float) (lines : List (Line p.Float))
      (self self' : C37118Client p.Float) (w w1 w2 w3 w4 w5 : pal.World) (time time' : ℕ) (z z' : ℤ)
      → IsU16 self.idcode
      → length self.configuration ≡ self.num_pmu
      → pal.get_time_in_ms w ≡ (time, w1)
      → pal.socket_write self.socket (sent 2 self.idcode time) 18 w1 ≡ (z, w2)
      → Streams self' w3 ts lines
          (record self { buffer_snd = sent 2 self.idcode time; running = true })
          w2
      → pal.get_time_in_ms w3 ≡ (time', w4)
      → pal.socket_write self.socket (sent 1 self.idcode time') 18 w4 ≡ (z', w5)
      → receiver_loop p pal rounds (stopped_after ts t) self w
        ≡ returns
            (lines, record self' { buffer_snd = sent 1 self.idcode time'; running = false }, w5)
  unfolding receiver_loop
  receiver_loop-Streams ts t lines self self' w w1 w2 w3 w4 w5 time time' z z' id h clock out s
        clock' out' =
      let started : C37118Client p.Float = record self {
        buffer_snd = sent 2 self.idcode time;
        running = true;
      } in
      let f : Follows p started self' = Streams-Follows self' w3 ts lines started w2 s h in
      let stop : stop_transmission p pal (record self' { running = false }) w3
          ≡ returns (record self' { buffer_snd = sent 1 self.idcode time'; running = false }, w5) =
        rw (← f.idcode) (
          stop_transmission-sent p pal (record self' { running = false }) w3 w4 w5 time' z'
            (rw f.idcode id) clock' (rw (f.idcode, f.socket) out')) in
      rw
        (
          start_transmission-sent p pal self w w1 w2 time z id clock out,
          receiver_rounds-Streams ts t lines started self' _ w2 w3 w5 s h refl stop,
        )
        refl

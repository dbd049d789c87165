-- ===== src/Client/Stream.antt =====
-- The functions that talk to the server: `c37_118client_stopTransmission`,
-- `c37_118client_startTransmission`, `c37_118client_getConfiguration`, `c37_118client_getDataStream`
-- and the loop `c37_118ReceiverLoop`.
use khorjin.Prelude.{
  ℕ, zero, suc, Bool, true, false, List, [], ◌∷◌, ◌&&◌, not, ◌++◌, Option, if◌then◌else◌,
}
use khorjin.Prelude.Int.{ℤ, pos, negsuc}
use khorjin.Prelude.Outcome.{Outcome}
use khorjin.Platform.{Platform}
use khorjin.Print.{Line, puts}
use khorjin.Print.Stream.{print_data_stream}
use khorjin.Pal.{Pal, Call, fault, waiting, returns, ◌>>=◌, access}
use khorjin.Types.{C37118Client}
use khorjin.Command.{bufer_length, cleared, write_command}
use khorjin.Config.Frame.{parse_configuration_frame}
use khorjin.DataFrame.Values.{Temps}
use khorjin.DataFrame.Frame.{parse_data_frame}

-- What a function of type `int` gives to its caller; `no_value` where it ends without a `return`.
pub data Result : Type 0 where
  value : ℤ → Result
  no_value : Result

abbrev pub frame_missed : {F : Type 0} → Option (List (Line F))
frame_missed =
    puts "\n\n\n...........................Frame missed..............................\n\n\n"

module _ (p : Platform) (pal : Pal) where
  abbrev pub Client : Type 0
  Client = C37118Client p.Float

  unfoldable pub send_command : ℕ → Client → pal.World → Call (Client × pal.World)
  send_command command self w =
      let (time_stamp, w') = pal.get_time_in_ms w in
      access (write_command cleared self.idcode time_stamp command) >>= λ buffer.
      let (result, w'') = pal.socket_write self.socket buffer 18 w' in
      returns (record self { buffer_snd = buffer }, w'')

  unfoldable pub stop_transmission : Client → pal.World → Call (Client × pal.World)
  stop_transmission self w = do
    (self, w) ← send_command 0x01 self w
    returns (record self { running = false }, w)

  unfoldable pub start_transmission : Client → pal.World → Call (Client × pal.World)
  start_transmission self w = do
    (self, w) ← send_command 0x02 self w
    returns (record self { running = true }, w)

  -- The test at the end of a round: on 0 the loop goes on.
  abbrev pub received :
      (List ℕ → pal.World → Call (List ℕ × ℤ × pal.World))
      → List ℕ × ℤ × pal.World
      → Call (List ℕ × ℤ × pal.World)
  received again (buffer, pos zero, w) = again buffer w
  received again (buffer, pos (suc n), w) = returns (buffer, pos (suc n), w)
  received again (buffer, negsuc n, w) = returns (buffer, negsuc n, w)

  -- `do … while (sResult == 0)`, in at most `rounds` reads.
  unfoldable pub receive : ℕ → ℕ → List ℕ → pal.World → Call (List ℕ × ℤ × pal.World)
  receive zero socket buffer w = waiting
  receive (suc rounds) socket buffer w =
      received (λ b u. receive rounds socket b u) (pal.socket_read socket buffer bufer_length w)

  -- The `if` has no other branch: if the frame is refused, the function ends without a value.
  unfoldable pub configuration_result :
      Client → pal.World → Outcome Client → Call (Client × Result × pal.World)
  configuration_result self w Outcome.fault = fault
  configuration_result self w Outcome.rejected = returns (self, no_value, w)
  configuration_result self w (Outcome.done self') = returns (self', value (pos 0), w)

  unfoldable pub get_configuration : ℕ → Client → pal.World → Call (Client × Result × pal.World)
  get_configuration rounds self w = do
    (self, w) ← send_command 0x05 (record self { buffer_rcv = cleared }) w
    (buffer, result, w) ← receive rounds self.socket self.buffer_rcv w
    let self' = record self { buffer_rcv = buffer }
    configuration_result self' w (parse_configuration_frame p self' buffer result)

  unfoldable pub data_result :
      Client → pal.World → Outcome Client → Call (Client × Result × pal.World)
  data_result self w Outcome.fault = fault
  data_result self w Outcome.rejected = returns (self, value (negsuc 0), w)
  data_result self w (Outcome.done self') = returns (self', value (pos 0), w)

  unfoldable pub get_data_stream :
      ℕ → Temps p.Float → Client → pal.World → Call (Client × Result × pal.World)
  get_data_stream rounds temps self w = do
    (buffer, result, w) ← receive rounds self.socket cleared w
    let self' = record self { buffer_rcv = buffer }
    data_result self' w (parse_data_frame p self' temps buffer result)

  -- What the loop of the receiver prints behind a frame: the frame, on 0, and otherwise that it is missed.
  unfoldable pub report : Result → Client → Call (List (Line p.Float))
  report (value (pos zero)) self = access (print_data_stream self)
  report (value (pos (suc n))) self = access frame_missed
  report (value (negsuc n)) self = access frame_missed
  report no_value self = access frame_missed

  -- The loop of the receiver and what it prints. The schedule has, for each test of `running`, whether
  -- another thread has cleared it before, and what the uninitialised variables of `parseDataFrame` hold
  -- in the round; its end is the end of what is looked at.
  unfoldable pub receiver_rounds :
      ℕ
      → List (Bool × Temps p.Float)
      → Client
      → pal.World
      → Call (List (Line p.Float) × Client × pal.World)
  receiver_rounds rounds [] self w = waiting
  receiver_rounds rounds ((stopped, temps) ∷ schedule) self w =
      let go = λ (c : Client) (u : pal.World). receiver_rounds rounds schedule c u in
      if self.running && not stopped
      then (do
        (self, result, w) ← get_data_stream rounds temps self w
        lines ← report result self
        (rest, self, w) ← go self (pal.thread_sleep 1 w)
        returns (lines ++ rest, self, w))
      else (do
        (self, w) ← stop_transmission (record self { running = false }) w
        returns ([], self, w))

  unfoldable pub receiver_loop :
      ℕ
      → List (Bool × Temps p.Float)
      → Client
      → pal.World
      → Call (List (Line p.Float) × Client × pal.World)
  receiver_loop rounds schedule self w = do
    (self, w) ← start_transmission self w
    receiver_rounds rounds schedule self w

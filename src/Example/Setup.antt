-- ===== src/Example/Setup.antt =====
-- The client of the example and the world in front of the answer to its request, and behind it.
use khorjin.Prelude.{ℕ, ◌+◌, false, true, List, ◌++◌}
use khorjin.Platform.{Platform}
use khorjin.Pal.{Pal}
use khorjin.Types.{C37118Client}
use khorjin.Wire.Crc.Check.{seal}
use khorjin.Config.Received.{ConfigFrame, config_body, configured}
use khorjin.Client.Session.{new_client}
use khorjin.Client.StreamLaws.{sent}

-- The clock when a command is written, and the world behind it.
abbrev pub command_time : (pal : Pal) → pal.World → ℕ
command_time pal w = (pal.get_time_in_ms w).0

abbrev pub after_command : (pal : Pal) → ℕ → ℕ → ℕ → pal.World → pal.World
after_command pal command idcode socket w =
    (pal.socket_write socket (sent command idcode (command_time pal w)) 18
      (pal.get_time_in_ms w).1).1

-- The client and the world after the transmission is stopped, and the world after the request for the
-- configuration; `w` is the world after the connection.
module _ (p : Platform) (pal : Pal) (send receive : List ℕ) (socket : ℕ) (w : pal.World) where
  abbrev pub stopped : C37118Client p.Float
  stopped = record (new_client p pal send receive 221 socket) {
    buffer_snd = sent 1 221 (command_time pal w);
    running = false;
  }

  abbrev pub stopped_world : pal.World
  stopped_world = after_command pal 1 221 socket w

  abbrev pub asked_world : pal.World
  asked_world = after_command pal 5 221 socket stopped_world

  -- The client that holds an answer to the request.
  abbrev pub answered : List ℕ → C37118Client p.Float
  answered buffer = record stopped {
    buffer_snd = sent 5 221 (command_time pal stopped_world);
    buffer_rcv = buffer;
  }

  -- The client that has taken the configuration frame in, and the one behind the start.
  abbrev pub known : ConfigFrame → ℕ → List ℕ → C37118Client p.Float
  known f n rest = configured p f (answered (seal (config_body f (n + 2)) ++ rest))

  abbrev pub set_up : ConfigFrame → ℕ → List ℕ → pal.World → C37118Client p.Float
  set_up f n rest w4 = record (known f n rest) {
    buffer_snd = sent 2 221 (command_time pal w4);
    running = true;
  }

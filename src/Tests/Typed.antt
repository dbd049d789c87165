-- ===== src/Tests/Typed.antt =====
-- An example on the types of the integers and texts of a client.
use khorjin.Prelude.{ℕ, ◌+◌, refl, arith, true, false, List, [], ◌∷◌, ◌++◌, IsBytes}
use khorjin.Prelude.Int.{ℤ, pos}
use khorjin.Pal.{Pal}
use khorjin.Types.{C37118Client}
use khorjin.Typed.{ClientTyped}
use khorjin.Wire.Crc.{crc_step}
use khorjin.Wire.Crc.Check.{crc_from, seal}
use khorjin.Config.Received.{config_body, configured}
use khorjin.DataFrame.Whole.{data_body, measured}
use khorjin.DataFrame.Ready.{configured-IsDataFrame}
use khorjin.Client.Session.{greeting, new_client}
use khorjin.Client.SessionLaws.{Refuses, connect-Refuses}
use khorjin.Client.StreamLaws.{
  sent, Delivers, stop_transmission-sent, start_transmission-sent, get_configuration-frame,
  get_data_stream-frame,
}
use khorjin.Client.Reach.{Step, Reach}
use khorjin.Client.TypedCalls.{ReadsBytes}
use khorjin.Client.Typed.{connect-ClientTyped}
use khorjin.Example.{pmu_connection_data}
use khorjin.Tests.Fixture.{desk, config_size, data_size, temps, are_bytes-IsBytes, pos-suc}
use khorjin.Tests.Frames.{others-Agrees, sample-Matches}
use khorjin.Tests.Life.{config_221, data_221, config_221-IsConfigFrame}

-- A server that sends bytes.
record ByteAnswer : Type 0 where
  bytes : List ℕ
  are_bytes : IsBytes bytes
  size : ℤ

abbrev next_bytes : List ℕ → List ByteAnswer → List ℕ × ℤ × List ByteAnswer
next_bytes buffer [] = (buffer, pos 0, [])
next_bytes buffer (a ∷ rest) = (a.bytes, a.size, rest)

abbrev byte_server : Pal
byte_server = record {
  World = List ByteAnswer;
  socket_create = λ w. (4, w);
  set_connect_timeout = λ socket timeout w. w;
  socket_connect = λ socket address port w. (true, w);
  socket_read = λ socket buffer size w. next_bytes buffer w;
  socket_write = λ socket buffer size w. (pos 18, w);
  socket_destroy = λ socket w. w;
  get_time_in_ms = λ w. (5250, w);
  thread_sleep = λ n w. w;
}

byte_server-ReadsBytes : ReadsBytes byte_server
byte_server-ReadsBytes socket size buffer [] h = h
byte_server-ReadsBytes socket size buffer (a ∷ rest) h = a.are_bytes

abbrev config_bytes : List ℕ
config_bytes = seal (config_body config_221 (config_size + 2)) ++ []

abbrev fresh : C37118Client ℕ
fresh = new_client desk byte_server [] [] 221 4

abbrev stopped : C37118Client ℕ
stopped = record fresh { buffer_snd = sent 1 221 5250; running = false }

abbrev known : C37118Client ℕ
known =
    configured desk config_221
      (record stopped { buffer_snd = sent 5 221 5250; buffer_rcv = config_bytes })

abbrev started : C37118Client ℕ
started = record known { buffer_snd = sent 2 221 5250; running = true }

abbrev data_bytes : List ℕ
data_bytes = seal (data_body known.configuration data_221 (data_size + 2)) ++ []

config_bytes-IsBytes : IsBytes config_bytes
unfolding crc_from crc_step
config_bytes-IsBytes = are_bytes-IsBytes config_bytes refl

data_bytes-IsBytes : IsBytes data_bytes
unfolding crc_from crc_step
data_bytes-IsBytes = are_bytes-IsBytes data_bytes refl

abbrev one_left : List ByteAnswer
one_left =
    record { bytes = data_bytes; are_bytes = data_bytes-IsBytes; size = pos (data_size + 2) } ∷ []

-- A configuration frame and then a data frame.
abbrev script : List ByteAnswer
script =
    record { bytes = config_bytes; are_bytes = config_bytes-IsBytes; size = pos (config_size + 2) }
    ∷ one_left

abbrev filled : C37118Client ℕ
filled = measured desk data_221 temps (record started { buffer_rcv = data_bytes })

-- The calls of the example program: stop, configuration, start, and one data frame.
filled-Reach : Reach desk byte_server fresh script filled []
unfolding new_client
filled-Reach =
    Reach.then_step
      (Reach.then_step
        (Reach.then_step
          (Reach.then_step Reach.here (
            Step.stops (
              stop_transmission-sent desk byte_server fresh script script script 5250 (pos 18)
                (omega arith) refl refl)))
          (Step.configures 1 _ (
            get_configuration-frame desk byte_server stopped script script script 5250 (pos 18)
              (omega arith) refl 1 0 config_size config_221 [] one_left config_221-IsConfigFrame
              others-Agrees refl (omega arith)
              (are_bytes-IsBytes (config_body config_221 (config_size + 2)) refl) refl refl
              (Delivers.now (pos-suc (config_size + 1)) refl) (omega arith))))
        (Step.starts (
          start_transmission-sent desk byte_server known one_left one_left one_left 5250 (pos 18)
            (omega arith) refl refl)))
      (Step.takes 1 temps _ (
        get_data_stream-frame desk byte_server started one_left [] 1 0 temps (omega arith) data_size
          data_221 []
          (configured-IsDataFrame desk
            (record stopped {
              buffer_snd = sent 2 221 5250;
              buffer_rcv = config_bytes;
              running = true;
            })
            config_221 data_221
            (sample-Matches 83 3000 (omega arith), (sample-Matches 84 3001 (omega arith), tt))
            (omega arith) (omega arith) (omega arith) refl)
          refl (omega arith)
          (are_bytes-IsBytes (data_body known.configuration data_221 (data_size + 2)) refl)
          (Delivers.now (pos-suc (data_size + 1)) refl)))

connect-ClientTyped_example : ClientTyped filled
connect-ClientTyped_example =
    connect-ClientTyped desk byte_server byte_server-ReadsBytes 1 [] [] pmu_connection_data 1000
      script script [] (greeting desk byte_server pmu_connection_data ++ []) fresh filled tt tt
      (connect-Refuses desk byte_server pmu_connection_data 1000 0 1 [] [] script script script
        script 4 refl Refuses.no_more (omega arith) (omega arith) refl)
      filled-Reach

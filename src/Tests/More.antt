-- ===== src/Tests/More.antt =====
-- Examples on the session, the receiver loop, the queries and the output.
use khorjin.Prelude.{
  ℕ, zero, suc, ◌+◌, ◌≡◌, ◌↔◌, refl, arith, Bool, true, false, some, List, [], ◌∷◌, ◌++◌, replicate,
}
use khorjin.Prelude.Int.{pos}
use khorjin.Platform.{ParsedTime, convert_epoch_to_calendar}
use khorjin.Pal.{Pal, returns, fault}
use khorjin.Types.{C37118Client}
use khorjin.Wire.Crc.Check.{seal}
use khorjin.Config.Received.{configured, pmus}
use khorjin.Wire.Crc.{crc_check}
use khorjin.DataFrame.Whole.{IsDataFrame, data_body, measured}
use khorjin.Client.Session.{PmuConnectionData, greeting, new_client, connect}
use khorjin.Client.SessionLaws.{Refuses, failed_lines, connect-Refuses, connect_overflow}
use khorjin.Client.Stream.{frame_missed, report, receiver_loop}
use khorjin.Print.{Line}
use khorjin.Print.Stream.{print_data_stream}
use khorjin.Print.Printed.{lines_of, Printed-access}
use khorjin.Print.Totals.{configured-IsEquipped, print_data_stream-measured}
use khorjin.Client.StreamLaws.{sent, Delivers, get_data_stream-frame, get_data_stream-corrupt}
use khorjin.Client.LoopLaws.{Streams, stopped_after, receiver_loop-Streams}
use khorjin.Client.Answers.{SameAnswers, receiver_loop-SameAnswers}
use khorjin.Client.Query.{ConfArrays, get_conf_pmu, get_conf_pmu_channel_name}
use khorjin.Client.ConfRoom.{HasRoom}
use khorjin.Client.ConfLaws.{described, get_conf_pmu-configured}
use khorjin.Client.QueryLaws.{get_conf_pmu_channel_name-configured}
use khorjin.Client.Output.{Output, output_data_stream}
use khorjin.Client.OutputLaws.{filled, output_data_stream-filled}
use khorjin.Tests.Fixture.{
  desk, server, Answer, new_self, name, substation, config_frame, ready_self, data_frame, data_size,
  temps, are_bytes-IsBytes, pos-suc,
}
use khorjin.Tests.Frames.{frame-IsConfigFrame, ready-IsDataFrame}

abbrev address : PmuConnectionData
address = record {
  ip_address_pmu_server = 49 ∷ [];
  pmu_port_number = pos 33221;
  pmu_id_code = pos 7;
}

-- A server that refuses as long as there are answers left.
abbrev knock : List Answer → Bool × List Answer
knock [] = (true, [])
knock (a ∷ rest) = (false, rest)

abbrev door : Pal
door = record server { socket_connect = λ socket ip port w. knock w }

connect-Refuses_example :
    connect desk door 3 [] [] address 100 (([], pos 0) ∷ [])
    ≡ returns (
      greeting desk door address ++ failed_lines desk door 100 0 1,
      new_client desk door [] [] 7 4,
      [],
    )
connect-Refuses_example =
    connect-Refuses desk door address 100 1 3 [] [] (([], pos 0) ∷ []) (([], pos 0) ∷ []) [] [] 4
      refl (Refuses.again refl Refuses.no_more) (omega arith) (omega arith) refl

abbrev shut : Pal
shut = record server { socket_connect = λ socket ip port w. (false, w) }

refusals : (k count : ℕ) → Refuses shut 4 address 100 [] count k []
refusals zero count = Refuses.no_more
refusals (suc k) count = Refuses.again refl (refusals k (count + 1))

connect_overflow_example : connect desk shut 40 [] [] address 100 [] ≡ fault
connect_overflow_example =
    connect_overflow desk shut address 100 31 40 [] [] [] [] [] [] 4 refl (refusals 31 0) refl
      (omega arith) refl

-- Arrays for three PMUs.
abbrev wide : ConfArrays ℕ
wide = record {
  num_phasors = replicate 3 9;
  num_analog = replicate 3 9;
  numdigital = replicate 3 9;
  freq_nom = replicate 3 9;
  config_count = replicate 3 9;
  id_code = replicate 3 9;
}

abbrev told_conf : ConfArrays ℕ
told_conf = record {
  num_phasors = 1 ∷ 1 ∷ 9 ∷ [];
  num_analog = 1 ∷ 1 ∷ 9 ∷ [];
  numdigital = 1 ∷ 1 ∷ 9 ∷ [];
  freq_nom = 50 ∷ 50 ∷ 9 ∷ [];
  config_count = 22 ∷ 22 ∷ 9 ∷ [];
  id_code = 9 ∷ 9 ∷ 9 ∷ [];
}

get_conf_pmu-configured_example :
    (get_conf_pmu (configured desk config_frame new_self) wide ≡ some told_conf)
    ↔ (HasRoom 2 wide × (told_conf ≡ described desk (pmus config_frame) wide))
get_conf_pmu-configured_example = get_conf_pmu-configured desk new_self config_frame wide told_conf

get_conf_pmu_channel_name-configured_example :
    get_conf_pmu_channel_name (configured desk config_frame new_self) 1 0 ≡ some (name 86, 0)
get_conf_pmu_channel_name-configured_example =
    get_conf_pmu_channel_name-configured desk new_self config_frame frame-IsConfigFrame 1 0
      (substation 84) (record { name = name 86; kind = 0; factor = 915527 }) refl refl

abbrev noon : ParsedTime ℕ
noon = convert_epoch_to_calendar desk 43200

abbrev dated : C37118Client ℕ
dated = record ready_self {
  data_time_stamp = record ready_self.data_time_stamp { parsed_time = some noon };
}

abbrev blank : Output ℕ
blank = record {
  freq_buffer = replicate 3 9;
  rocof_buffer = replicate 3 9;
  phasors_mag_buffer = replicate 3 9;
  phasors_ang_buffer = replicate 3 9;
  analog_buffer = replicate 3 9;
}

output_data_stream-filled_example :
    output_data_stream dated blank ≡ some (noon, filled dated.configuration blank)
output_data_stream-filled_example =
    output_data_stream-filled dated blank noon refl refl ((refl, refl), ((refl, refl), tt))
      (record {
        freq = omega arith;
        rocof = omega arith;
        mag = omega arith;
        ang = omega arith;
        analog = omega arith;
      })

abbrev data_bytes : List ℕ
data_bytes = seal (data_body ready_self.configuration data_frame (data_size + 2)) ++ []

abbrev started : C37118Client ℕ
started = record ready_self { buffer_snd = sent 2 7 5250; running = true }

abbrev after_frame : C37118Client ℕ
after_frame = measured desk data_frame temps (record started { buffer_rcv = data_bytes })

-- A frame, and one whose checksum is wrong.
abbrev two_answers : List Answer
two_answers = (data_bytes, pos (data_size + 2)) ∷ (0 ∷ 0 ∷ 1 ∷ [], pos 3) ∷ []

abbrev after_both : C37118Client ℕ
after_both = record after_frame { buffer_rcv = 0 ∷ 0 ∷ 1 ∷ [] }

abbrev told : List (Line ℕ)
told = lines_of (print_data_stream after_frame)

started-IsDataFrame :
    (buffer : List ℕ) → IsDataFrame (record started { buffer_rcv = buffer }) data_frame
started-IsDataFrame buffer = record {
  id_code = ready-IsDataFrame.id_code;
  soc = ready-IsDataFrame.soc;
  fracsec = ready-IsDataFrame.fracsec;
  addressed = ready-IsDataFrame.addressed;
  num_pmu = ready-IsDataFrame.num_pmu;
  pmus = ready-IsDataFrame.pmus;
}

two_frames :
    Streams desk server 1 after_both []
      (temps ∷ temps ∷ [])
      (told ++ (lines_of frame_missed ++ []))
      started
      two_answers
unfolding report crc_check
two_frames =
    Streams.frame
      (get_data_stream-frame desk server started two_answers ((0 ∷ 0 ∷ 1 ∷ [], pos 3) ∷ []) 1 0
        temps (omega arith) data_size data_frame [] (started-IsDataFrame started.buffer_rcv) refl
        (omega arith)
        (are_bytes-IsBytes (data_body ready_self.configuration data_frame (data_size + 2)) refl)
        (Delivers.now (pos-suc (data_size + 1)) refl))
      (Printed-access (
        print_data_stream-measured desk (record started { buffer_rcv = data_bytes }) data_frame
          temps (started-IsDataFrame data_bytes)
          (record {
            num_pmu = omega arith;
            pmus = (configured-IsEquipped desk new_self config_frame frame-IsConfigFrame).pmus;
          })))
      (Streams.frame
        (get_data_stream-corrupt desk server after_frame ((0 ∷ 0 ∷ 1 ∷ [], pos 3) ∷ []) [] 1 0 temps
          (omega arith) (0 ∷ 0 ∷ 1 ∷ []) (pos 3) refl (Delivers.now (pos-suc 2) refl))
        refl Streams.last)

receiver_loop-Streams_example :
    receiver_loop desk server 1 (stopped_after (temps ∷ temps ∷ []) temps) ready_self two_answers
    ≡ returns (
      told ++ (lines_of frame_missed ++ []),
      record after_both { buffer_snd = sent 1 7 5250; running = false },
      [],
    )
receiver_loop-Streams_example =
    receiver_loop-Streams desk server 1 (temps ∷ temps ∷ []) temps
      (told ++ (lines_of frame_missed ++ [])) ready_self after_both two_answers two_answers
      two_answers [] [] [] 5250 5250 (pos 18) (pos 18) (omega arith) refl refl refl two_frames refl
      refl

receiver_loop-SameAnswers_example :
    SameAnswers desk ready_self (record after_both { buffer_snd = sent 1 7 5250; running = false })
receiver_loop-SameAnswers_example =
    receiver_loop-SameAnswers desk server 1 (stopped_after (temps ∷ temps ∷ []) temps) ready_self
      (record after_both { buffer_snd = sent 1 7 5250; running = false }) two_answers []
      (told ++ (lines_of frame_missed ++ []))
      (receiver_loop-Streams desk server 1 (temps ∷ temps ∷ []) temps
        (told ++ (lines_of frame_missed ++ [])) ready_self after_both two_answers two_answers
        two_answers [] [] [] 5250 5250 (pos 18) (pos 18) (omega arith) refl refl refl two_frames
        refl refl)

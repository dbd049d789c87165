-- ===== src/Tests/Life.antt =====
-- Examples on the life of a client and on the example program.
use khorjin.Prelude.{ℕ, ◌+◌, ◌≡◌, refl, arith, true, false, List, [], ◌∷◌, ◌++◌, IsU16}
use khorjin.Prelude.Int.{pos}
use khorjin.Pal.{returns, fault}
use khorjin.Types.{C37118Client}
use khorjin.Wire.Crc.{crc_check}
use khorjin.Wire.Crc.Check.{seal}
use khorjin.Print.Configuration.{print_configuration}
use khorjin.Print.Stream.{print_data_stream}
use khorjin.Print.Printed.{lines_of}
use khorjin.Config.Received.{ConfigFrame, IsConfigFrame, config_body, configured}
use khorjin.DataFrame.Whole.{DataFrame, IsDataFrame, data_body, measured}
use khorjin.DataFrame.Ready.{configured-IsDataFrame}
use khorjin.Client.Session.{
  greeting, new_client, destroy, calendar, receive_buffer, send_buffer, client_structure,
}
use khorjin.Client.SessionLaws.{Refuses, connect-Refuses}
use khorjin.Client.StreamLaws.{sent, Delivers, stop_transmission-sent, get_data_stream-corrupt}
use khorjin.Client.Reach.{Step, Reach, destroy-Reach}
use khorjin.Example.{pmu_connection_data, main}
use khorjin.Example.Loop.{Feeds}
use khorjin.Example.Setup.{answered}
use khorjin.Example.Laws.{main-Feeds, main-corrupt}
use khorjin.Tests.Fixture.{
  desk, server, Answer, config_frame, config_size, data_frame, data_size, temps, are_bytes-IsBytes,
  pos-suc,
}
use khorjin.Tests.Frames.{frame-IsConfigFrame, others-Agrees, sample-Matches}

abbrev noise : List ℕ
noise = 0 ∷ 0 ∷ 1 ∷ []

abbrev fresh : C37118Client ℕ
fresh = new_client desk server [] [] 221 4

-- The transmission is stopped, and a frame comes whose checksum is wrong.
abbrev after_noise : C37118Client ℕ
after_noise = record fresh { buffer_snd = sent 1 221 5250; buffer_rcv = noise; running = false }

after_noise-Reach : Reach desk server fresh ((noise, pos 3) ∷ []) after_noise []
unfolding crc_check new_client
after_noise-Reach =
    Reach.then_step
      (Reach.then_step Reach.here (
        Step.stops (
          stop_transmission-sent desk server fresh ((noise, pos 3) ∷ []) ((noise, pos 3) ∷ [])
            ((noise, pos 3) ∷ []) 5250 (pos 18) (omega arith) refl refl)))
      (Step.takes 1 temps _ (
        get_data_stream-corrupt desk server
          (record fresh { buffer_snd = sent 1 221 5250; running = false }) ((noise, pos 3) ∷ []) []
          1 0 temps (omega arith) noise (pos 3) refl (Delivers.now (pos-suc 2) refl)))

destroy-Reach_example :
    (after_noise.idcode ≡ 221)
    × IsU16 after_noise.idcode
    × (destroy desk server after_noise []
        ≡ returns (receive_buffer ∷ send_buffer ∷ client_structure ∷ [], []))
unfolding calendar new_client
destroy-Reach_example =
    destroy-Reach desk server 1 [] [] pmu_connection_data 1000 ((noise, pos 3) ∷ [])
      ((noise, pos 3) ∷ []) [] (greeting desk server pmu_connection_data ++ []) fresh after_noise
      (connect-Refuses desk server pmu_connection_data 1000 0 1 [] [] ((noise, pos 3) ∷ [])
        ((noise, pos 3) ∷ []) ((noise, pos 3) ∷ []) ((noise, pos 3) ∷ []) 4 refl Refuses.no_more
        (omega arith) (omega arith) refl)
      after_noise-Reach

main-corrupt_example : main desk server 1 [] [] (temps ∷ []) ((noise, pos 3) ∷ []) ≡ fault
unfolding crc_check
main-corrupt_example =
    main-corrupt desk server 1 0 4 [] [] ((noise, pos 3) ∷ []) ((noise, pos 3) ∷ [])
      ((noise, pos 3) ∷ []) ((noise, pos 3) ∷ []) refl Refuses.no_more (omega arith) (omega arith)
      refl 0 noise (pos 3) [] (temps ∷ []) refl (Delivers.now (pos-suc 2) refl) (omega arith)

-- The server of the example program: its configuration, and one data frame.
abbrev pub config_221 : ConfigFrame
config_221 = record config_frame { id_code = 221 }

abbrev pub data_221 : DataFrame
data_221 = record data_frame { id_code = 221 }

abbrev config_bytes : List ℕ
config_bytes = seal (config_body config_221 (config_size + 2)) ++ []

abbrev known : C37118Client ℕ
known = record (configured desk config_221 (answered desk server [] [] 4 [] config_bytes)) {
  buffer_snd = sent 2 221 5250;
  running = true;
}

abbrev data_bytes : List ℕ
data_bytes = seal (data_body known.configuration data_221 (data_size + 2)) ++ []

abbrev filled : C37118Client ℕ
filled = measured desk data_221 temps (record known { buffer_rcv = data_bytes })

abbrev script : List Answer
script = (config_bytes, pos (config_size + 2)) ∷ (data_bytes, pos (data_size + 2)) ∷ []

pub config_221-IsConfigFrame : IsConfigFrame config_221
config_221-IsConfigFrame = record {
  id_code = omega arith;
  soc = frame-IsConfigFrame.soc;
  fracsec = frame-IsConfigFrame.fracsec;
  time_base = frame-IsConfigFrame.time_base;
  num_pmu = frame-IsConfigFrame.num_pmu;
  data_rate = frame-IsConfigFrame.data_rate;
  pmus = frame-IsConfigFrame.pmus;
}

known-IsDataFrame : IsDataFrame known data_221
known-IsDataFrame =
    configured-IsDataFrame desk
      (record (answered desk server [] [] 4 [] config_bytes) {
        buffer_snd = sent 2 221 5250;
        running = true;
      })
      config_221 data_221
      (sample-Matches 83 3000 (omega arith), (sample-Matches 84 3001 (omega arith), tt))
      (omega arith) (omega arith) (omega arith) refl

one_frame :
    Feeds desk server 1 filled []
      (temps ∷ [])
      (lines_of (print_data_stream filled) ++ [])
      known
      ((data_bytes, pos (data_size + 2)) ∷ [])
unfolding new_client
one_frame =
    Feeds.feed 0 data_size data_221 [] known-IsDataFrame refl (omega arith)
      (are_bytes-IsBytes (data_body known.configuration data_221 (data_size + 2)) refl)
      (Delivers.now (pos-suc (data_size + 1)) refl) (omega arith) Feeds.fed

main-Feeds_example :
    main desk server 1 [] [] (temps ∷ []) script
    ≡ returns (
      (greeting desk server pmu_connection_data ++ [])
          ++ (lines_of (
                print_configuration
                  (configured desk config_221 (answered desk server [] [] 4 [] config_bytes)))
              ++ (lines_of (print_data_stream filled) ++ [])),
      filled,
      [],
    )
main-Feeds_example =
    main-Feeds desk server 1 0 4 [] [] script script script script refl Refuses.no_more
      (omega arith) (omega arith) refl 0 config_size config_221 []
      ((data_bytes, pos (data_size + 2)) ∷ []) [] (temps ∷ [])
      (lines_of (print_data_stream filled) ++ []) filled config_221-IsConfigFrame others-Agrees refl
      (omega arith) (are_bytes-IsBytes (config_body config_221 (config_size + 2)) refl) refl
      (Delivers.now (pos-suc (config_size + 1)) refl) (omega arith) one_frame

-- ===== src/Tests/Leak.antt =====
-- An example on the calendars that are lost.
use khorjin.Prelude.{length, ℕ, ◌+◌, ◌-◌, ◌≡◌, refl, arith, List, [], ◌∷◌, ◌++◌}
use khorjin.Prelude.Int.{pos}
use khorjin.Pal.{returns}
use khorjin.Types.{C37118Client}
use khorjin.Wire.Crc.Check.{seal}
use khorjin.Config.Received.{config_body, configured}
use khorjin.DataFrame.Whole.{IsDataFrame, data_body, measured}
use khorjin.DataFrame.Ready.{configured-IsDataFrame}
use khorjin.Client.Session.{Block, greeting, new_client, destroy}
use khorjin.Client.SessionLaws.{Refuses, connect-Refuses}
use khorjin.Client.Stream.{value, get_configuration}
use khorjin.Client.StreamLaws.{sent, Delivers, get_configuration-frame, get_data_stream-frame}
use khorjin.Client.Reach.{Step, Reach}
use khorjin.Client.FreedCalendars.{count_calendars}
use khorjin.Client.Leak.{destroy-calendars}
use khorjin.Example.{pmu_connection_data}
use khorjin.Tests.Fixture.{
  desk, server, Answer, config_size, data_size, temps, are_bytes-IsBytes, pos-suc,
}
use khorjin.Tests.Frames.{others-Agrees, sample-Matches}
use khorjin.Tests.Life.{config_221, data_221, config_221-IsConfigFrame}

abbrev config_bytes : List ℕ
config_bytes = seal (config_body config_221 (config_size + 2)) ++ []

abbrev fresh : C37118Client ℕ
fresh = new_client desk server [] [] 221 4

-- The client that has asked and has the answer.
abbrev answered : C37118Client ℕ → C37118Client ℕ
answered self = record self { buffer_snd = sent 5 221 5250; buffer_rcv = config_bytes }

abbrev known : C37118Client ℕ
known = configured desk config_221 (answered fresh)

abbrev known_again : C37118Client ℕ
known_again = configured desk config_221 (answered known)

abbrev data_bytes : List ℕ
data_bytes = seal (data_body known_again.configuration data_221 (data_size + 2)) ++ []

abbrev filled : C37118Client ℕ
filled = measured desk data_221 temps (record known_again { buffer_rcv = data_bytes })

abbrev one_left : List Answer
one_left = (data_bytes, pos (data_size + 2)) ∷ []

abbrev two_left : List Answer
two_left = (config_bytes, pos (config_size + 2)) ∷ one_left

abbrev script : List Answer
script = (config_bytes, pos (config_size + 2)) ∷ two_left

known_again-IsDataFrame : IsDataFrame known_again data_221
known_again-IsDataFrame =
    configured-IsDataFrame desk (answered known) config_221 data_221
      (sample-Matches 83 3000 (omega arith), (sample-Matches 84 3001 (omega arith), tt))
      (omega arith) (omega arith) (omega arith) refl

config_taken :
    (self : C37118Client ℕ) (rest : List Answer)
    → self.idcode ≡ 221
    → get_configuration desk server 1 self ((config_bytes, pos (config_size + 2)) ∷ rest)
      ≡ returns (
        configured desk config_221
            (record self { buffer_snd = sent 5 self.idcode 5250; buffer_rcv = config_bytes }),
        value (pos 0),
        rest,
      )
config_taken self rest id =
    get_configuration-frame desk server self _ _ _ 5250 (pos 18) (omega (arith, id)) refl 1 0
      config_size config_221 [] rest config_221-IsConfigFrame others-Agrees refl (omega arith)
      (are_bytes-IsBytes (config_body config_221 (config_size + 2)) refl) id refl
      (Delivers.now (pos-suc (config_size + 1)) refl) (omega arith)

-- The configuration is taken in twice, and then a data frame.
abbrev three_taken : Reach desk server fresh script filled []
unfolding new_client
three_taken =
    Reach.then_step
      (Reach.then_step
        (Reach.then_step Reach.here
          (Step.configures 1 (value (pos 0)) (config_taken fresh two_left refl)))
        (Step.configures 1 (value (pos 0)) (config_taken known one_left refl)))
      (Step.takes 1 temps (value (pos 0)) (
        get_data_stream-frame desk server known_again one_left [] 1 0 temps (omega arith) data_size
          data_221 [] known_again-IsDataFrame refl (omega arith)
          (are_bytes-IsBytes (data_body known_again.configuration data_221 (data_size + 2)) refl)
          (Delivers.now (pos-suc (data_size + 1)) refl)))

-- Of the three calendars one is lost.
destroy-calendars_example :
    (freed : List Block × List Answer) × (destroy desk server filled [] ≡ returns freed)
    × (length filled.config_time_stamp.lost ≡ 2 - 1)
    × (length filled.data_time_stamp.lost ≡ 1 - 1)
    × (count_calendars freed.0
          + length filled.config_time_stamp.lost
          + length filled.data_time_stamp.lost
        ≡ 2 + 1)
unfolding new_client
destroy-calendars_example =
    destroy-calendars desk server 1 [] [] pmu_connection_data 1000 script script []
      (greeting desk server pmu_connection_data ++ []) fresh filled
      (connect-Refuses desk server pmu_connection_data 1000 0 1 [] [] script script script script 4
        refl Refuses.no_more (omega arith) (omega arith) refl)
      three_taken

-- ===== src/DataFrame/Pmu.antt =====
-- The body of `parseDataFrame` behind its checks: the time stamp, then the loop over the PMUs.
use khorjin.Prelude.{ℕ, zero, suc, Option, none, some, List, [], ◌∷◌, ◌>>=◌}
use khorjin.Platform.{Platform}
use khorjin.Types.{C37118Client, Configuration}
use khorjin.TimeStamp.{parse_time_stamp}
use khorjin.DataFrame.Stat.{parse_stat_word}
use khorjin.DataFrame.Values.{
  Temps, read_phasors, read_frequency, read_rocof, read_analogs, read_digitals,
}

module _ (p : Platform) where
  -- One round of the loop over the PMUs.
  unfoldable pub read_pmu :
      Configuration p.Float
      → Temps p.Float
      → List ℕ
      → ℕ
      → Option (Configuration p.Float × Temps p.Float × ℕ)
  read_pmu self temps buffer buf_pos = do
    (self, buf_pos) ← parse_stat_word self buffer buf_pos
    (phasors, temps, buf_pos) ←
        read_phasors p self.number_of_phasors self self.phasor temps buffer buf_pos
    let self = record self { phasor = phasors }
    (self, temps, buf_pos) ← read_frequency p self temps buffer buf_pos
    (self, temps, buf_pos) ← read_rocof p self temps buffer buf_pos
    (analogs, temps, buf_pos) ←
        read_analogs p self.number_of_analogs self self.analog temps buffer buf_pos
    (digitals, buf_pos) ← read_digitals self.number_of_digitals self.digital buffer buf_pos
    some (record self { analog = analogs; digital = digitals }, temps, buf_pos)

  -- `rounds` is `numPmu - i`, the list is the rest of `configuration`.
  unfoldable pub read_pmus :
      ℕ
      → List (Configuration p.Float)
      → Temps p.Float
      → List ℕ
      → ℕ
      → Option (List (Configuration p.Float))
  read_pmus zero cs temps buffer buf_pos = some cs
  read_pmus (suc rounds) [] temps buffer buf_pos = none
  read_pmus (suc rounds) (c ∷ cs) temps buffer buf_pos = do
    (c, temps, buf_pos) ← read_pmu c temps buffer buf_pos
    cs ← read_pmus rounds cs temps buffer buf_pos
    some (c ∷ cs)

  unfoldable pub read_data :
      C37118Client p.Float → Temps p.Float → List ℕ → ℕ → Option (C37118Client p.Float)
  read_data self temps buffer buf_pos = do
    (stamp, buf_pos) ← parse_time_stamp p self.data_time_stamp self.time_base buffer buf_pos
    configuration ← read_pmus self.num_pmu self.configuration temps buffer buf_pos
    some (record self { data_time_stamp = stamp; configuration = configuration })

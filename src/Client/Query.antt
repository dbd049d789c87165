-- ===== src/Client/Query.antt =====
-- The `c37_118client_getConf_…` functions and `c37_118client_outputDataStream_status`. What they write
-- through a pointer to one value, or to room for one name, is their result; the arrays that
-- `c37_118client_getConf_pmu` fills are its argument and its result.
use khorjin.Prelude.{
  ℕ, zero, suc, ◌+◌, Bool, Option, none, some, List, [], ◌∷◌, ◌>>=◌, get_elem?, take, if◌then◌else◌,
}
use khorjin.Platform.{ParsedTime}
use khorjin.Types.{C37118Client, Configuration, Status}
use khorjin.Wire.Encode.{store}

-- The six arrays of the caller of `c37_118client_getConf_pmu`.
pub record ConfArrays (F : Type 0) : Type 0 where
  pub num_phasors : List ℕ
  pub num_analog : List ℕ
  pub numdigital : List ℕ
  pub freq_nom : List F
  pub config_count : List ℕ
  pub id_code : List ℕ

-- A `bool` in a `uint8_t`.
abbrev pub number : Bool → ℕ
number b = if b then 1 else 0

module _ {F : Type 0} where
  unfoldable pub get_conf_pdc : C37118Client F → Option (ℕ × ℕ × ParsedTime F)
  get_conf_pdc self = do
    time ← self.config_time_stamp.parsed_time
    some (self.num_pmu, self.data_rate, time)

  -- The body of the loop, at index `i`.
  unfoldable pub conf_pmu : Configuration F → ℕ → ConfArrays F → Option (ConfArrays F)
  conf_pmu c i out = do
    phasors ← store out.num_phasors i c.number_of_phasors
    analogs ← store out.num_analog i c.number_of_analogs
    digitals ← store out.numdigital i c.number_of_digitals
    freq ← store out.freq_nom i c.f_nom
    count ← store out.config_count i c.cfg_cnt
    id ← store out.id_code i c.pmu_idcode
    some (record {
      num_phasors = phasors;
      num_analog = analogs;
      numdigital = digitals;
      freq_nom = freq;
      config_count = count;
      id_code = id;
    })

  -- The loop over the PMUs, at index `i`.
  unfoldable pub conf_pmus : ℕ → List (Configuration F) → ℕ → ConfArrays F → Option (ConfArrays F)
  conf_pmus zero cs i out = some out
  conf_pmus (suc rounds) [] i out = none
  conf_pmus (suc rounds) (c ∷ cs) i out = do out ← conf_pmu c i out; conf_pmus rounds cs (i + 1) out

  unfoldable pub get_conf_pmu : C37118Client F → ConfArrays F → Option (ConfArrays F)
  get_conf_pmu self out = conf_pmus self.num_pmu self.configuration 0 out

  unfoldable pub get_conf_pmu_station_name : C37118Client F → ℕ → Option (List ℕ)
  get_conf_pmu_station_name self pmu_number = do
    c ← get_elem? self.configuration pmu_number
    some (take 16 c.station_name)

  unfoldable pub get_conf_pmu_channel_name : C37118Client F → ℕ → ℕ → Option (List ℕ × ℕ)
  get_conf_pmu_channel_name self pmu_number phasor = do
    c ← get_elem? self.configuration pmu_number
    x ← get_elem? c.phasor phasor
    some (take 16 x.channel_name, if x.phasor_is_v_or_i then 0 else 1)

  unfoldable pub get_conf_pmu_analogs : C37118Client F → ℕ → ℕ → Option (List ℕ × ℕ)
  get_conf_pmu_analogs self pmu_number analog = do
    c ← get_elem? self.configuration pmu_number
    x ← get_elem? c.analog analog
    some (take 16 x.channel_name, x.analog_type)

  unfoldable pub output_data_stream_status : C37118Client F → ℕ → Option Status
  output_data_stream_status self pmu_number = do
    c ← get_elem? self.configuration pmu_number
    some (record {
      data_error = c.data_error;
      data_modified = number c.data_modified;
      pmu_is_not_sync = number c.pmu_is_not_sync;
      pmu_is_triggered = number c.pmu_is_triggered;
      pmu_time_quality = c.pmu_time_quality;
      trigger_reason = c.trigger_reason;
      unlock_time = c.unlock_time;
    })

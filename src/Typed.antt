-- ===== src/Typed.antt =====
-- The integers and the texts of the structures against the types that src/ieeeC37_118/ieeeC37_118.h
-- declares for them.
use khorjin.Prelude.{ℕ, ◌<◌, ◌≡◌, List, All, IsByte, IsBytes, IsU16, IsU32, length, some, get_elem?}
use khorjin.Types.{C37118Client, Configuration, Time, Phasor, Analog, Digital, Channel}

-- `char[20]` with a zero at its end.
pub record IsText (name : List ℕ) : Type 0 where
  pub size : length name ≡ 20
  pub bytes : IsBytes name
  pub ended : get_elem? name 19 ≡ some 0

abbrev pub ChannelTyped : Channel → Type 0
ChannelTyped c = IsText c.channel_name

pub record DigitalTyped (d : Digital) : Type 0 where
  pub channels : length d.channel ≡ 16
  pub channel : All ChannelTyped d.channel
  pub digital_word : IsU16 d.digital_word
  pub dg_mask_word : IsU16 d.dg_mask_word
  pub valid_inputs : IsU16 d.valid_inputs

module _ {F : Type 0} where
  abbrev pub PhasorTyped : Phasor F → Type 0
  PhasorTyped x = IsText x.channel_name

  pub record AnalogTyped (x : Analog F) : Type 0 where
    pub channel_name : IsText x.channel_name
    pub analog_type : IsByte x.analog_type

  -- The milliseconds are a sum of `long long` in a `uint64_t`.
  pub record TimeTyped (t : Time F) : Type 0 where
    pub time_value_in_ms : t.time_value_in_ms < 9223372036854775808
    pub second_of_cenctury : IsU32 t.second_of_cenctury

  pub record ConfigurationTyped (c : Configuration F) : Type 0 where
    pub pmu_idcode : IsU16 c.pmu_idcode
    pub station_name : IsText c.station_name
    pub number_of_phasors : IsU16 c.number_of_phasors
    pub number_of_analogs : IsU16 c.number_of_analogs
    pub number_of_digitals : IsU16 c.number_of_digitals
    pub cfg_cnt : IsU16 c.cfg_cnt
    pub phasor : All PhasorTyped c.phasor
    pub analog : All AnalogTyped c.analog
    pub digital : All DigitalTyped c.digital
    pub data_error : IsByte c.data_error
    pub pmu_time_quality : IsByte c.pmu_time_quality
    pub unlock_time : IsByte c.unlock_time
    pub trigger_reason : IsByte c.trigger_reason
    pub stat_word : IsU16 c.stat_word

  pub record ClientTyped (self : C37118Client F) : Type 0 where
    pub buffer_snd : IsBytes self.buffer_snd
    pub buffer_rcv : IsBytes self.buffer_rcv
    pub idcode : IsU16 self.idcode
    pub num_pmu : IsU16 self.num_pmu
    pub time_base : IsU32 self.time_base
    pub data_rate : IsU16 self.data_rate
    pub config_time_stamp : TimeTyped self.config_time_stamp
    pub header_time_stamp : TimeTyped self.header_time_stamp
    pub data_time_stamp : TimeTyped self.data_time_stamp
    pub configuration : All ConfigurationTyped self.configuration

-- ===== src/Types.antt =====
-- The structures of src/ieeeC37_118/ieeeC37_118.h and `struct sC37_118client`, over the type `F` of
-- `float`. An array that a pointer owns is the list of its elements, and NULL is the empty list.
use khorjin.Prelude.{ℕ, Bool, false, List, [], Option, none, replicate}
use khorjin.Prelude.Int.{ℤ, pos}
use khorjin.Platform.{Platform, ParsedTime}

pub record TimeQuality (F : Type 0) : Type 0 where
  pub leap_second_direction : ℤ
  pub leap_second_occured : Bool
  pub leap_second_pending : Bool
  pub time_is_locked : Bool
  pub time_error : F

-- `lost` is no field of the source: it has the structures on the heap that `parsed_time` pointed at
-- before it was set again, the last first.
pub record Time (F : Type 0) : Type 0 where
  pub parsed_time : Option (ParsedTime F)
  pub lost : List (ParsedTime F)
  pub time_value_in_ms : ℕ
  pub second_of_cenctury : ℕ
  pub fraction_of_second : F
  pub quality : TimeQuality F

-- `phasor_is_v_or_i` is true for a voltage.
pub record Phasor (F : Type 0) : Type 0 where
  pub channel_name : List ℕ
  pub magnitude : F
  pub angle : F
  pub conversion_factor : F
  pub phasor_is_v_or_i : Bool

pub record Analog (F : Type 0) : Type 0 where
  pub channel_name : List ℕ
  pub value : F
  pub analog_type : ℕ
  pub conversion_factor : F

pub record Channel : Type 0 where
  pub channel_name : List ℕ
  pub status : Bool
  pub is_enabled : Bool

pub record Digital : Type 0 where
  pub channel : List Channel
  pub digital_word : ℕ
  pub dg_mask_word : ℕ
  pub valid_inputs : ℕ
  pub dg_input_is_normal : Bool

pub record Configuration (F : Type 0) : Type 0 where
  pub pmu_idcode : ℕ
  pub station_name : List ℕ
  pub freq_is_floating_point : Bool
  pub analog_is_floating_point : Bool
  pub phasor_is_floating_point : Bool
  pub phasor_is_polar : Bool
  pub number_of_phasors : ℕ
  pub number_of_analogs : ℕ
  pub number_of_digitals : ℕ
  pub f_nom : F
  pub frequency : F
  pub rocof : F
  pub cfg_cnt : ℕ
  pub phasor : List (Phasor F)
  pub analog : List (Analog F)
  pub digital : List Digital
  pub data_error : ℕ
  pub pmu_is_not_sync : Bool
  pub data_sorting_by_arrival_or_time : Bool
  pub pmu_is_triggered : Bool
  pub config_to_change : Bool
  pub data_modified : Bool
  pub pmu_time_quality : ℕ
  pub unlock_time : ℕ
  pub trigger_reason : ℕ
  pub stat_word : ℕ

-- `typedef struct sStatus`
pub record Status : Type 0 where
  pub data_error : ℕ
  pub pmu_is_not_sync : ℕ
  pub pmu_is_triggered : ℕ
  pub data_modified : ℕ
  pub pmu_time_quality : ℕ
  pub unlock_time : ℕ
  pub trigger_reason : ℕ

-- `socket` is the handle that the platform's socket functions are given.
pub record C37118Client (F : Type 0) : Type 0 where
  pub buffer_snd : List ℕ
  pub buffer_rcv : List ℕ
  pub socket : ℕ
  pub idcode : ℕ
  pub num_pmu : ℕ
  pub time_base : ℕ
  pub data_rate : ℕ
  pub config_time_stamp : Time F
  pub header_time_stamp : Time F
  pub data_time_stamp : Time F
  pub configuration : List (Configuration F)
  pub running : Bool

-- Memory from `calloc`: every number is 0, every flag false, every pointer NULL.
module _ (p : Platform) where
  abbrev pub zero_time : Time p.Float
  zero_time = record {
    parsed_time = none;
    lost = [];
    time_value_in_ms = 0;
    second_of_cenctury = 0;
    fraction_of_second = p.float_of_bits 0;
    quality = record {
      leap_second_direction = pos 0;
      leap_second_occured = false;
      leap_second_pending = false;
      time_is_locked = false;
      time_error = p.float_of_bits 0;
    };
  }

  abbrev pub zero_phasor : Phasor p.Float
  zero_phasor = record {
    channel_name = replicate 20 0;
    magnitude = p.float_of_bits 0;
    angle = p.float_of_bits 0;
    conversion_factor = p.float_of_bits 0;
    phasor_is_v_or_i = false;
  }

  abbrev pub zero_analog : Analog p.Float
  zero_analog = record {
    channel_name = replicate 20 0;
    value = p.float_of_bits 0;
    analog_type = 0;
    conversion_factor = p.float_of_bits 0;
  }

  abbrev pub zero_configuration : Configuration p.Float
  zero_configuration = record {
    pmu_idcode = 0;
    station_name = replicate 20 0;
    freq_is_floating_point = false;
    analog_is_floating_point = false;
    phasor_is_floating_point = false;
    phasor_is_polar = false;
    number_of_phasors = 0;
    number_of_analogs = 0;
    number_of_digitals = 0;
    f_nom = p.float_of_bits 0;
    frequency = p.float_of_bits 0;
    rocof = p.float_of_bits 0;
    cfg_cnt = 0;
    phasor = [];
    analog = [];
    digital = [];
    data_error = 0;
    pmu_is_not_sync = false;
    data_sorting_by_arrival_or_time = false;
    pmu_is_triggered = false;
    config_to_change = false;
    data_modified = false;
    pmu_time_quality = 0;
    unlock_time = 0;
    trigger_reason = 0;
    stat_word = 0;
  }

abbrev pub zero_channel : Channel
zero_channel = record { channel_name = replicate 20 0; status = false; is_enabled = false }

abbrev pub zero_digital : Digital
zero_digital = record {
  channel = replicate 16 zero_channel;
  digital_word = 0;
  dg_mask_word = 0;
  valid_inputs = 0;
  dg_input_is_normal = false;
}

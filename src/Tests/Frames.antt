-- ===== src/Tests/Frames.antt =====
-- Examples on the frames and their parsers.
use khorjin.Prelude.{ℕ, ◌+◌, ◌<◌, ◌≡◌, refl, arith, some, List, [], ◌++◌, All, replicate, ◌↔◌}
use khorjin.Prelude.Int.{pos}
use khorjin.Prelude.Outcome.{done}
use khorjin.Wire.Crc.Check.{seal}
use khorjin.Config.Spec.{IsPmu, IsName, header_of, configuration_of}
use khorjin.Config.Block.{Agrees}
use khorjin.Config.Frame.{parse_configuration_frame}
use khorjin.Config.Received.{
  IsConfigFrame, config_body, configured, parse_configuration_frame-encode,
}
use khorjin.DataFrame.Frame.{parse_data_frame}
use khorjin.DataFrame.Spec.{Fits}
use khorjin.DataFrame.Whole.{IsDataFrame, data_body, measured, parse_data_frame-encode}
use khorjin.Checks.{IsAddressed}
use khorjin.Config.Read.{read_configuration}
use khorjin.DataFrame.Pmu.{read_data}
use khorjin.DataFrame.Accept.{parse_data_frame-IsAddressed, parse_configuration_frame-IsAddressed}
use khorjin.Types.{C37118Client}
use khorjin.DataFrame.Ready.{Matches}
use khorjin.DataFrame.Session.{parse_data_frame-configured, parse_data_frame-twice}
use khorjin.Tests.Fixture.{
  desk, new_self, name, substation, config_frame, config_size, ready_self, sample, data_frame,
  data_size, temps, are_bytes-IsBytes,
}

pub substation-IsPmu : (letter : ℕ) → IsPmu (substation letter)
substation-IsPmu letter = record {
  station = refl;
  id_code = omega arith;
  format = omega arith;
  phasors = ((refl, omega arith), tt);
  analogs = ((refl, omega arith), tt);
  digitals = ((refl, names, omega arith, omega arith), tt);
  phnmr = omega arith;
  annmr = omega arith;
  dgnmr = omega arith;
  fnom = omega arith;
  cfgcnt = omega arith;
}
  where
    names : All IsName (replicate 16 (name 68))
    names = (
      refl,
      (
        refl,
        (
          refl,
          (
            refl,
            (
              refl,
              (
                refl,
                (refl, (refl, (refl, (refl, (refl, (refl, (refl, (refl, (refl, (refl, tt)))))))))),
              ),
            ),
          ),
        ),
      ),
    )

pub others-Agrees : All (Agrees desk (header_of desk config_frame.first)) config_frame.others
others-Agrees = (record { phasors = refl; analogs = refl; digitals = refl; floating = refl }, tt)

pub frame-IsConfigFrame : IsConfigFrame config_frame
frame-IsConfigFrame = record {
  id_code = omega arith;
  soc = omega arith;
  fracsec = omega arith;
  time_base = omega arith;
  num_pmu = omega arith;
  data_rate = omega arith;
  pmus = (substation-IsPmu 83, (substation-IsPmu 84, tt));
}

parse_configuration_frame-encode_example :
    (parse_configuration_frame desk new_self
        (seal (config_body config_frame (config_size + 2)) ++ [])
        (pos (config_size + 2))
      ≡ done (configured desk config_frame new_self))
    × ((configured desk config_frame new_self).config_time_stamp.second_of_cenctury ≡ 1149577200)
    × ((configured desk config_frame new_self).config_time_stamp.time_value_in_ms ≡ 1149577663000)
    × ((configured desk config_frame new_self).config_time_stamp.fraction_of_second
        ≡ desk.float_div 463000 1000)
parse_configuration_frame-encode_example =
    parse_configuration_frame-encode desk new_self config_frame config_size [] frame-IsConfigFrame
      others-Agrees refl (omega arith)
      (are_bytes-IsBytes (config_body config_frame (config_size + 2)) refl) refl

pub ready-IsDataFrame : IsDataFrame ready_self data_frame
ready-IsDataFrame = record {
  id_code = omega arith;
  soc = omega arith;
  fracsec = omega arith;
  addressed = refl;
  num_pmu = refl;
  pmus = (fits 83 3000 (omega arith), (fits 84 3001 (omega arith), tt));
}
  where
    fits :
        (letter w : ℕ)
        → w < 4294967296
        → Fits (configuration_of desk (substation letter)) (sample w)
    fits letter w h = record {
      stat = omega arith;
      phasor_words = ((h, omega arith), tt);
      freq = omega arith;
      dfreq = omega arith;
      analog_words = (omega arith, tt);
      digital_words = (omega arith, tt);
      phasor_count = refl;
      analog_count = refl;
      digital_count = refl;
      phasor_array = refl;
      analog_array = refl;
      digital_array = refl;
    }

parse_data_frame-encode_example :
    parse_data_frame desk ready_self temps
      (seal (data_body ready_self.configuration data_frame (data_size + 2)) ++ [])
      (pos (data_size + 2))
    ≡ done (measured desk data_frame temps ready_self)
parse_data_frame-encode_example =
    parse_data_frame-encode desk ready_self data_frame temps data_size [] ready-IsDataFrame refl
      (omega arith)
      (are_bytes-IsBytes (data_body ready_self.configuration data_frame (data_size + 2)) refl)

abbrev sealed_data : List ℕ
sealed_data = seal (data_body ready_self.configuration data_frame (data_size + 2)) ++ []

abbrev after_data : C37118Client ℕ
after_data = measured desk data_frame temps ready_self

parse_data_frame-IsAddressed_example :
    (parse_data_frame desk ready_self temps sealed_data (pos (data_size + 2)) ≡ done after_data) ↔ (
      (v : IsAddressed 0x01 7 sealed_data (pos (data_size + 2))) × (read_data desk ready_self temps
          sealed_data v.id_end
        ≡ some after_data))
parse_data_frame-IsAddressed_example =
    parse_data_frame-IsAddressed desk ready_self sealed_data (pos (data_size + 2)) temps after_data

abbrev sealed_config : List ℕ
sealed_config = seal (config_body config_frame (config_size + 2)) ++ []

parse_configuration_frame-IsAddressed_example :
    (parse_configuration_frame desk new_self sealed_config (pos (config_size + 2))
      ≡ done (configured desk config_frame new_self))
    ↔ ((v : IsAddressed 0x31 7 sealed_config (pos (config_size + 2))) × (read_configuration desk
            new_self sealed_config v.frame_size v.id_end
          ≡ some (configured desk config_frame new_self)))
parse_configuration_frame-IsAddressed_example =
    parse_configuration_frame-IsAddressed desk new_self sealed_config (pos (config_size + 2))
      (configured desk config_frame new_self)

pub sample-Matches : (letter w : ℕ) → w < 4294967296 → Matches desk (substation letter) (sample w)
sample-Matches letter w h = record {
  stat = omega arith;
  phasor_words = ((h, omega arith), tt);
  freq = omega arith;
  dfreq = omega arith;
  analog_words = (omega arith, tt);
  digital_words = (omega arith, tt);
  phasors = refl;
  analogs = refl;
  digitals = refl;
}

-- The two frames of the fixture, one behind the other.
parse_data_frame-configured_example :
    (self' : C37118Client ℕ) × (parse_configuration_frame desk new_self sealed_config
        (pos (config_size + 2))
      ≡ done self')
    × (parse_data_frame desk self' temps sealed_data (pos (data_size + 2))
        ≡ done (measured desk data_frame temps self'))
parse_data_frame-configured_example =
    parse_data_frame-configured desk new_self config_frame data_frame temps config_size data_size []
      [] frame-IsConfigFrame others-Agrees refl (omega arith)
      (are_bytes-IsBytes (config_body config_frame (config_size + 2)) refl) refl
      (sample-Matches 83 3000 (omega arith), (sample-Matches 84 3001 (omega arith), tt)) refl
      (omega arith) (omega arith) refl (omega arith)
      (are_bytes-IsBytes (data_body ready_self.configuration data_frame (data_size + 2)) refl)

parse_data_frame-twice_example :
    (self' : C37118Client ℕ) × (parse_data_frame desk ready_self temps sealed_data
        (pos (data_size + 2))
      ≡ done self')
    × (parse_data_frame desk self' temps sealed_data (pos (data_size + 2))
        ≡ done (measured desk data_frame temps self'))
parse_data_frame-twice_example =
    parse_data_frame-twice desk ready_self data_frame data_frame temps temps data_size data_size []
      [] ready-IsDataFrame ready-IsDataFrame refl (omega arith)
      (are_bytes-IsBytes (data_body ready_self.configuration data_frame (data_size + 2)) refl) refl
      (omega arith)
      (are_bytes-IsBytes (data_body ready_self.configuration data_frame (data_size + 2)) refl)

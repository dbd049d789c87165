-- ===== src/Config/Read.antt =====
-- The body of `parseConfigurationFrame` behind its checks.
use khorjin.Prelude.{ℕ, ◌+◌, ◌-◌, ◌||◌, Option, none, some, List, ◌>>=◌, ◌==◌, if◌then◌else◌}
use khorjin.Platform.{Platform}
use khorjin.Types.{C37118Client}
use khorjin.Wire.Decode.{two_byte_to_uint16, four_byte_to_uint32}
use khorjin.TimeStamp.{parse_time_stamp}
use khorjin.Config.Prepare.{prepare_configuration}

-- The read of DATA_RATE at `frameSizeRcdv - 4`, which is in front of the buffer for a frame below 4.
unfoldable pub data_rate_at : List ℕ → ℕ → Option ℕ
data_rate_at buffer frame_size =
    if frame_size == 0 || frame_size == 1 || frame_size == 2 || frame_size == 3
    then none
    else do (rate, _) ← two_byte_to_uint16 buffer (frame_size - 4); some rate

module _ (p : Platform) where
  -- From TIME_BASE on: `bufPos` is 6 behind the identification code.
  unfoldable pub read_configuration :
      C37118Client p.Float → List ℕ → ℕ → ℕ → Option (C37118Client p.Float)
  read_configuration self buffer frame_size buf_pos = do
    (time_base, buf_pos) ← four_byte_to_uint32 buffer (buf_pos + 8)
    (stamp, buf_pos) ← parse_time_stamp p self.config_time_stamp 1000 buffer (buf_pos - 12)
    (num_pmu, buf_pos) ← two_byte_to_uint16 buffer (buf_pos + 4)
    rate ← data_rate_at buffer frame_size
    configuration ← prepare_configuration p num_pmu buffer buf_pos
    some (record self {
      time_base = time_base;
      config_time_stamp = stamp;
      num_pmu = num_pmu;
      data_rate = rate;
      configuration = configuration;
    })

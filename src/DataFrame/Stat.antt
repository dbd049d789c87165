-- ===== src/DataFrame/Stat.antt =====
-- `parseSTATWord`: the status word of one PMU.
use khorjin.Prelude.{
  ℕ, ◌/◌, bit_and, Bool, true, Option, some, List, ◌>>=◌, u8, ◌==◌, if◌then◌else◌,
}
use khorjin.Wire.Decode.{two_byte_to_uint16}
use khorjin.Types.{Configuration}

-- `if ((tempSTAT & 0x1) == 0x1) flag = true;`
abbrev pub raise : ℕ → Bool → Bool
raise temp_stat flag = if bit_and temp_stat 0x1 == 0x1 then true else flag

-- The assignments, each from the word as the shifts before it have left it. The three masks are the
-- source's, in hexadecimal; the fields of one byte cut what does not fit.
unfoldable pub apply_stat : {F : Type 0} → ℕ → Configuration F → Configuration F
apply_stat w self = record self {
  stat_word = w;
  trigger_reason = u8 (bit_and w 0x1111);
  unlock_time = u8 (bit_and (w / 16) 0x11);
  pmu_time_quality = u8 (bit_and (w / 64) 0x111);
  data_modified = raise (w / 512) self.data_modified;
  config_to_change = raise (w / 1024) self.config_to_change;
  pmu_is_triggered = raise (w / 2048) self.pmu_is_triggered;
  data_sorting_by_arrival_or_time = raise (w / 4096) self.data_sorting_by_arrival_or_time;
  pmu_is_not_sync = raise (w / 8192) self.pmu_is_not_sync;
  data_error = u8 (bit_and (w / 16384) 0x11);
}

unfoldable pub parse_stat_word :
    {F : Type 0} → Configuration F → List ℕ → ℕ → Option (Configuration F × ℕ)
parse_stat_word self buffer buf_pos = do
  (temp_stat, buf_pos) ← two_byte_to_uint16 buffer buf_pos
  some (apply_stat temp_stat self, buf_pos)

-- ===== src/Platform.antt =====
-- What the client takes from the platform and does not implement: the floating point arithmetic of
-- C and libm, and `localtime`. `convertEpochToCalendar` of pal/win32/time.c fills the structure
-- of pal_time.h from the latter.
use khorjin.Prelude.{ℕ, ◌+◌}

-- The fields of `struct tm` that are read. A `uint32_t` time is not negative, so `tm_year` is not.
pub record Tm : Type 0 where
  pub tm_sec : ℕ
  pub tm_min : ℕ
  pub tm_hour : ℕ
  pub tm_mday : ℕ
  pub tm_mon : ℕ
  pub tm_year : ℕ

-- `float_of_bits w` is the single precision number with the bit pattern `w`, `double_literal m k`
-- the constant m / 10 ^ k, `widen` and `narrow` the conversions between the two formats.
pub record Platform : Type 1 where
  pub Float : Type 0
  pub Double : Type 0
  pub float_of_bits : ℕ → Float
  pub float_of_uint : ℕ → Float
  pub float_add : Float → Float → Float
  pub float_mul : Float → Float → Float
  pub float_div : Float → Float → Float
  pub widen : Float → Double
  pub narrow : Double → Float
  pub double_literal : ℕ → ℕ → Double
  pub m_pi : Double
  pub double_add : Double → Double → Double
  pub double_mul : Double → Double → Double
  pub double_div : Double → Double → Double
  pub sqrt : Double → Double
  pub pow : Double → Double → Double
  pub atan2 : Double → Double → Double
  pub localtime : ℕ → Tm

-- `struct sParsedTime`
pub record ParsedTime (F : Type 0) : Type 0 where
  pub year : ℕ
  pub month : ℕ
  pub day : ℕ
  pub hour : ℕ
  pub minute : ℕ
  pub second : ℕ
  pub sec_plus_fraction : F

unfoldable pub convert_epoch_to_calendar : (p : Platform) → ℕ → ParsedTime p.Float
convert_epoch_to_calendar p time_value =
    let tm = p.localtime time_value in
    record {
      year = tm.tm_year + 1900;
      month = tm.tm_mon + 1;
      day = tm.tm_mday;
      hour = tm.tm_hour;
      minute = tm.tm_min;
      second = tm.tm_sec;
      sec_plus_fraction = p.float_of_bits 0;
    }

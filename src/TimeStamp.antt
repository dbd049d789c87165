-- ===== src/TimeStamp.antt =====
-- `parseTimeStamp` of src/ieeeC37_118/ieeeC37_118.c: the second of the century, the time quality byte and
-- the fraction of a second.
pub mod Laws
pub mod Bounds
pub mod Typed
use khorjin.Prelude.{
  ℕ, ◌+◌, ◌*◌, ◌/◌, ◌%◌, bit_and, Bool, true, false, Option, none, some, List, ◌>>=◌, ◌∷◌,
  get_elem?, ◌==◌, if◌then◌else◌,
}
use khorjin.Prelude.Int.{ℤ, pos, negsuc}
use khorjin.Platform.{Platform, ParsedTime, convert_epoch_to_calendar}
use khorjin.Types.{Time, TimeQuality}
use khorjin.Wire.Decode.{four_byte_to_uint32, three_byte_to_uint32}

abbrev pub overwritten : {X : Type 0} → Option X → List X → List X
overwritten none lost = lost
overwritten (some x) lost = x ∷ lost

module _ (p : Platform) where
  -- The `switch` on the four low bits of the quality byte. The codes 0xC, 0xD and 0xE change nothing.
  unfoldable pub quality_code : ℕ → TimeQuality p.Float → TimeQuality p.Float
  quality_code code q =
      if code == 0xF
      then record q { time_is_locked = false }
      else if code == 0xB
      then record q { time_error = p.float_of_uint 10 }
      else if code == 0xA
      then record q { time_error = p.float_of_uint 1 }
      else if code == 0x9
      then record q { time_error = p.narrow (p.double_literal 1 1) }
      else if code == 0x8
      then record q { time_error = p.narrow (p.double_literal 1 2) }
      else if code == 0x7
      then record q { time_error = p.narrow (p.double_literal 1 3) }
      else if code == 0x6
      then record q { time_error = p.narrow (p.double_literal 1 4) }
      else if code == 0x5
      then record q { time_error = p.narrow (p.double_literal 1 5) }
      else if code == 0x4
      then record q { time_error = p.narrow (p.double_literal 1 6) }
      else if code == 0x3
      then record q { time_error = p.narrow (p.double_literal 1 7) }
      else if code == 0x2
      then record q { time_error = p.narrow (p.double_literal 1 8) }
      else if code == 0x1
      then record q { time_error = p.narrow (p.double_literal 1 9) }
      else if code == 0x0
      then record q { time_error = p.float_of_uint 0; time_is_locked = true }
      else q

  -- The three tests of the byte shifted right by 4, 5 and 6.
  unfoldable pub leap_second_bits : ℕ → TimeQuality p.Float → TimeQuality p.Float
  leap_second_bits byte q = record q {
    leap_second_pending = bit_and (byte / 16) 1 == 1;
    leap_second_occured = bit_and (byte / 32) 1 == 1;
    leap_second_direction = if bit_and (byte / 64) 1 == 1 then negsuc 0 else pos 1;
  }

  unfoldable pub scale_fraction : ℕ → ℕ → ℕ → Time p.Float → Time p.Float
  scale_fraction time_base soc fracsec t = if time_base == 0 then t else record t {
    time_value_in_ms = soc * 1000 + fracsec * 1000 / time_base;
    fraction_of_second = p.float_div (p.float_of_uint fracsec) (p.float_of_uint time_base);
  }

  -- `timeStamp->parsedTime = convertEpochToCalendar(socTemp)`: the pointer now has the structure that the
  -- callee has allocated, and what it pointed at before stays on the heap with no pointer to it.
  unfoldable pub set_parsed_time : ParsedTime p.Float → Time p.Float → Time p.Float
  set_parsed_time calendar t = record t {
    parsed_time = some calendar;
    lost = overwritten t.parsed_time t.lost;
  }

  -- The last assignment, through that pointer.
  unfoldable pub seconds_with_fraction : ParsedTime p.Float → Time p.Float → Time p.Float
  seconds_with_fraction calendar t = record t {
    parsed_time = some (record calendar {
      sec_plus_fraction = p.float_add (p.float_of_uint calendar.second) t.fraction_of_second;
    });
  }

  -- What `parseTimeStamp` makes of the three values that it reads.
  unfoldable pub stamp : ℕ → ℕ → ℕ → ℕ → Time p.Float → Time p.Float
  unfolding quality_code leap_second_bits scale_fraction set_parsed_time seconds_with_fraction
  stamp time_base soc quality fracsec t =
      let calendar = convert_epoch_to_calendar p soc in
      seconds_with_fraction calendar (
        scale_fraction time_base soc fracsec (record (set_parsed_time calendar t) {
          second_of_cenctury = soc;
          quality = leap_second_bits quality (quality_code (bit_and quality 0xF) t.quality);
        }))

  unfoldable pub parse_time_stamp : Time p.Float → ℕ → List ℕ → ℕ → Option (Time p.Float × ℕ)
  parse_time_stamp t time_base buffer buf_pos = do
    (soc, buf_pos) ← four_byte_to_uint32 buffer buf_pos
    quality ← get_elem? buffer buf_pos
    (fracsec, buf_pos) ← three_byte_to_uint32 buffer (buf_pos + 1)
    some (stamp time_base soc quality fracsec t, buf_pos)

-- ===== src/TimeStamp/Bounds.antt =====
-- The milliseconds that `parseTimeStamp` computes.
use khorjin.Prelude.{
  ℕ, ◌+◌, ◌*◌, ◌/◌, ◌<◌, ◌≤◌, ◌≡◌, ◌↔◌, refl, arith, false, some, List, ◌++◌, ◌==◌, IsU32, drop,
  ◌^◌,
}
use native.Mathlib.Nat.{div-lt_iff_lt-mul, div-le_self}
use khorjin.Platform.{Platform}
use khorjin.Types.{Time}
use khorjin.TimeStamp.{
  scale_fraction, set_parsed_time, seconds_with_fraction, stamp, parse_time_stamp,
}
use khorjin.TimeStamp.Laws.{encode_stamp, parse_time_stamp-encode}

module _ (p : Platform) (t : Time p.Float) (time_base soc quality fracsec : ℕ) where
  pub stamp_values :
      0 < time_base
      → ((stamp p time_base soc quality fracsec t).second_of_cenctury ≡ soc)
        × ((stamp p time_base soc quality fracsec t).time_value_in_ms
            ≡ soc * 1000 + fracsec * 1000 / time_base)
        × ((stamp p time_base soc quality fracsec t).fraction_of_second
            ≡ p.float_div (p.float_of_uint fracsec) (p.float_of_uint time_base))
  unfolding stamp scale_fraction seconds_with_fraction set_parsed_time
  stamp_values h =
      let nonzero : (time_base == 0) ≡ false = ground arith in
      (rw nonzero refl, rw nonzero refl, rw nonzero refl)

-- A time stamp of 32 bits for the second and 24 for the fraction is parsed, with a time base that is not
-- 0, to the second, and to 1000 times the second and the fraction's thousandths of the time base in
-- milliseconds, rounded down: no less than the second, within it exactly if the fraction is below the
-- time base, and below 2 ^ 42 in any case.
pub parse_time_stamp-within :
    (p : Platform) (t : Time p.Float) (time_base : ℕ) (buf : List ℕ) (pos soc quality fracsec : ℕ)
    (rest : List ℕ)
    → IsU32 soc
    → fracsec < 16777216
    → 0 < time_base
    → drop pos buf ≡ encode_stamp soc quality fracsec ++ rest
    → (t' : Time p.Float) × (parse_time_stamp p t time_base buf pos ≡ some (t', pos + 8))
      × (t'.second_of_cenctury ≡ soc)
      × (t'.time_value_in_ms ≡ soc * 1000 + fracsec * 1000 / time_base)
      × (soc * 1000 ≤ t'.time_value_in_ms)
      × ((t'.time_value_in_ms < (soc + 1) * 1000) ↔ (fracsec < time_base))
      × (t'.time_value_in_ms < 2 ^ 42)
parse_time_stamp-within p t time_base buf pos soc quality fracsec rest hs hf h e =
    let (second, ms, _) = stamp_values p t time_base soc quality fracsec h in
    let (below, above) = div-lt_iff_lt-mul {x = fracsec * 1000} {y = 1000} h in
    let small : fracsec * 1000 / time_base ≤ fracsec * 1000 =
      div-le_self (fracsec * 1000) time_base in
    (
      stamp p time_base soc quality fracsec t,
      parse_time_stamp-encode p t time_base buf pos soc quality fracsec rest hs hf e,
      second,
      ms,
      rw ms (omega arith),
      rw ms (
        (λ within. omega (arith, below (omega (arith, within)))),
        (λ less. omega (arith, above (omega (arith, less)))),
      ),
      rw ms (omega (arith, small)),
    )

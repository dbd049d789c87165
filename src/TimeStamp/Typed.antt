-- ===== src/TimeStamp/Typed.antt =====
-- The integers of a time stamp against their types, whatever the bytes are.
use khorjin.Prelude.{
  ℕ, ◌+◌, ◌*◌, ◌/◌, ◌≤◌, arith, List, IsU32, ◌==◌, Bool-cases, inl, inr, get_elem?, Yields,
  Yields->>=, Yields->>=_with,
}
use native.Mathlib.Nat.{div-le_self}
use khorjin.Platform.{Platform}
use khorjin.Types.{Time}
use khorjin.Typed.{TimeTyped}
use khorjin.Wire.Decode.{three_byte_to_uint32, four_byte_to_uint32}
use khorjin.Wire.Typed.{three_byte_to_uint32-IsU32, four_byte_to_uint32-IsU32}
use khorjin.TimeStamp.{scale_fraction, seconds_with_fraction, stamp, parse_time_stamp}

module _ (p : Platform) where
  -- The sum of the milliseconds does not wrap.
  stamp-TimeTyped :
      (t : Time p.Float) (time_base soc quality fracsec : ℕ)
      → IsU32 soc
      → IsU32 fracsec
      → TimeTyped t
      → TimeTyped (stamp p time_base soc quality fracsec t)
  unfolding stamp scale_fraction seconds_with_fraction
  stamp-TimeTyped t time_base soc quality fracsec hs hf v =
      let below : fracsec * 1000 / time_base ≤ fracsec * 1000 = div-le_self _ _ in
      elim (Bool-cases (time_base == 0)) [
        | inl e ↦ rw e (record { time_value_in_ms = v.time_value_in_ms; second_of_cenctury = hs })
        | inr e ↦ rw e (record { time_value_in_ms = omega arith; second_of_cenctury = hs })
      ]

  pub parse_time_stamp-TimeTyped :
      (t : Time p.Float) (time_base : ℕ) (buf : List ℕ) (pos : ℕ)
      → TimeTyped t
      → Yields (λ r. TimeTyped r.0) (parse_time_stamp p t time_base buf pos)
  unfolding parse_time_stamp
  parse_time_stamp-TimeTyped t time_base buf pos v =
      Yields->>=_with _ (four_byte_to_uint32 buf pos) _ (four_byte_to_uint32-IsU32 buf pos) λ s hs.
        Yields->>= _ (get_elem? buf s.1) _ λ q.
          Yields->>=_with _ (three_byte_to_uint32 buf (s.1 + 1)) _
            (three_byte_to_uint32-IsU32 buf (s.1 + 1))
            λ f hf. Yields.gives (stamp-TimeTyped t time_base s.0 q f.0 hs hf v)

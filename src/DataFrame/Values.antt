-- ===== src/DataFrame/Values.antt =====
-- The loops of `parseDataFrame` over the phasors, the analogs and the digital words of one PMU, and its
-- frequency. Each takes the rounds left and the rest of the array; an array that is used up before the
-- rounds is written past its end.
use khorjin.Prelude.{
  ℕ, zero, suc, ◌/◌, bit_and, Bool, true, Option, none, some, List, [], ◌∷◌, ◌>>=◌, ◌==◌,
  if◌then◌else◌,
}
use khorjin.Platform.{Platform}
use khorjin.Types.{Phasor, Analog, Digital, Channel, Configuration}
use khorjin.Wire.Decode.{two_byte_to_uint16, decode_floating_point_value}

-- The two `float` variables of `parseDataFrame`, which live through all of its loops. Nothing is in
-- them at first.
pub record Temps (F : Type 0) : Type 0 where
  pub temp_float_1 : F
  pub temp_float_2 : F

module _ (p : Platform) where
  unfoldable pub magnitude_of : p.Float → p.Float → p.Double
  magnitude_of re im =
      let two = p.double_literal 2 0 in
      p.sqrt (p.double_add (p.pow (p.widen re) two) (p.pow (p.widen im) two))

  unfoldable pub angle_of : p.Float → p.Float → p.Float
  angle_of re im = p.narrow (
      p.double_div (p.double_mul (p.atan2 (p.widen im) (p.widen re)) (p.double_literal 180 0))
        p.m_pi)

  unfoldable pub float_phasor : Bool → p.Float → p.Float → Phasor p.Float → Phasor p.Float
  float_phasor polar t1 t2 x =
      if polar
      then record x { magnitude = t1; angle = t2 }
      else record x { magnitude = p.narrow (magnitude_of t1 t2); angle = angle_of t1 t2 }

  -- The polar branch multiplies the two `float` variables, not the words that it has just read.
  unfoldable pub integer_phasor : Bool → ℕ → ℕ → Temps p.Float → Phasor p.Float → Phasor p.Float
  integer_phasor polar w1 w2 temps x =
      if polar
      then record x {
        magnitude = p.float_mul temps.temp_float_1 x.conversion_factor;
        angle = p.float_mul temps.temp_float_2 x.conversion_factor;
      }
      else record x {
        magnitude = p.narrow (
            p.double_mul (magnitude_of (p.float_of_uint w1) (p.float_of_uint w2))
              (p.widen x.conversion_factor));
        angle = angle_of (p.float_of_uint w1) (p.float_of_uint w2);
      }

  unfoldable pub read_phasor :
      Configuration p.Float
      → Phasor p.Float
      → Temps p.Float
      → List ℕ
      → ℕ
      → Option (Phasor p.Float × Temps p.Float × ℕ)
  read_phasor self x temps buffer buf_pos =
      if self.phasor_is_floating_point
      then (do
        (t1, buf_pos) ← decode_floating_point_value p buffer buf_pos
        (t2, buf_pos) ← decode_floating_point_value p buffer buf_pos
        some (
          float_phasor self.phasor_is_polar t1 t2 x,
          record { temp_float_1 = t1; temp_float_2 = t2 },
          buf_pos,
        ))
      else (do
        (w1, buf_pos) ← two_byte_to_uint16 buffer buf_pos
        (w2, buf_pos) ← two_byte_to_uint16 buffer buf_pos
        some (integer_phasor self.phasor_is_polar w1 w2 temps x, temps, buf_pos))

  unfoldable pub read_phasors :
      ℕ
      → Configuration p.Float
      → List (Phasor p.Float)
      → Temps p.Float
      → List ℕ
      → ℕ
      → Option (List (Phasor p.Float) × Temps p.Float × ℕ)
  read_phasors zero self xs temps buffer buf_pos = some (xs, temps, buf_pos)
  read_phasors (suc rounds) self [] temps buffer buf_pos = none
  read_phasors (suc rounds) self (x ∷ xs) temps buffer buf_pos = do
    (x, temps, buf_pos) ← read_phasor self x temps buffer buf_pos
    (xs, temps, buf_pos) ← read_phasors rounds self xs temps buffer buf_pos
    some (x ∷ xs, temps, buf_pos)

  -- The two tests of `freqIsFloatingPoint`. Both integer branches assign `frequency`.
  unfoldable pub read_frequency :
      Configuration p.Float
      → Temps p.Float
      → List ℕ
      → ℕ
      → Option (Configuration p.Float × Temps p.Float × ℕ)
  read_frequency self temps buffer buf_pos =
      if self.freq_is_floating_point
      then (do
        (t, buf_pos) ← decode_floating_point_value p buffer buf_pos
        some (record self { frequency = t }, record temps { temp_float_1 = t }, buf_pos))
      else (do
        (w, buf_pos) ← two_byte_to_uint16 buffer buf_pos
        some (
          record self {
            frequency = p.narrow (
                p.double_add (p.widen self.f_nom)
                  (p.double_mul (p.widen (p.float_of_uint w)) (p.double_literal 1 3)));
          },
          temps,
          buf_pos,
        ))

  unfoldable pub read_rocof :
      Configuration p.Float
      → Temps p.Float
      → List ℕ
      → ℕ
      → Option (Configuration p.Float × Temps p.Float × ℕ)
  read_rocof self temps buffer buf_pos =
      if self.freq_is_floating_point
      then (do
        (t, buf_pos) ← decode_floating_point_value p buffer buf_pos
        some (
          record self { rocof = p.narrow (p.double_mul (p.widen t) (p.double_literal 1 2)) },
          record temps { temp_float_1 = t },
          buf_pos,
        ))
      else (do
        (w, buf_pos) ← two_byte_to_uint16 buffer buf_pos
        some (
          record self {
            frequency =
                p.narrow (p.double_mul (p.widen (p.float_of_uint w)) (p.double_literal 1 2));
          },
          temps,
          buf_pos,
        ))

  unfoldable pub read_analog :
      Configuration p.Float
      → Analog p.Float
      → Temps p.Float
      → List ℕ
      → ℕ
      → Option (Analog p.Float × Temps p.Float × ℕ)
  read_analog self x temps buffer buf_pos =
      if self.analog_is_floating_point
      then (do
        (t, buf_pos) ← decode_floating_point_value p buffer buf_pos
        some (record x { value = t }, record temps { temp_float_1 = t }, buf_pos))
      else (do
        (w, buf_pos) ← two_byte_to_uint16 buffer buf_pos
        some (
          record x { value = p.float_mul (p.float_of_uint w) x.conversion_factor },
          temps,
          buf_pos,
        ))

  unfoldable pub read_analogs :
      ℕ
      → Configuration p.Float
      → List (Analog p.Float)
      → Temps p.Float
      → List ℕ
      → ℕ
      → Option (List (Analog p.Float) × Temps p.Float × ℕ)
  read_analogs zero self xs temps buffer buf_pos = some (xs, temps, buf_pos)
  read_analogs (suc rounds) self [] temps buffer buf_pos = none
  read_analogs (suc rounds) self (x ∷ xs) temps buffer buf_pos = do
    (x, temps, buf_pos) ← read_analog self x temps buffer buf_pos
    (xs, temps, buf_pos) ← read_analogs rounds self xs temps buffer buf_pos
    some (x ∷ xs, temps, buf_pos)

-- The loop over the channels of a digital word, `tempUint16_1 & 1 == 1` being its lowest bit.
unfoldable pub set_status : ℕ → List Channel → List Channel
set_status word [] = []
set_status word (c ∷ cs) =
    record c { status = if bit_and word 1 == 0 then c.status else true } ∷ set_status (word / 2) cs

unfoldable pub read_digitals : ℕ → List Digital → List ℕ → ℕ → Option (List Digital × ℕ)
read_digitals zero ds buffer buf_pos = some (ds, buf_pos)
read_digitals (suc rounds) [] buffer buf_pos = none
read_digitals (suc rounds) (d ∷ ds) buffer buf_pos = do
  (word, buf_pos) ← two_byte_to_uint16 buffer buf_pos
  (ds, buf_pos) ← read_digitals rounds ds buffer buf_pos
  some (record d { digital_word = word; channel = set_status word d.channel } ∷ ds, buf_pos)

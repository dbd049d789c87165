-- ===== src/DataFrame/TypedValues.antt =====
-- The arrays of a PMU that a data frame is read into, against the types of their fields.
use khorjin.Prelude.{
  ◌∙◌, ℕ, zero, suc, ◌/◌, ◌≡◌, refl, Bool, true, false, List, [], ◌∷◌, All, Yields, Yields->>=,
  Yields->>=_with, Yields-if,
}
use khorjin.Platform.{Platform}
use khorjin.Types.{Configuration, Phasor, Analog, Digital, Channel}
use khorjin.Typed.{ChannelTyped, PhasorTyped, AnalogTyped, DigitalTyped}
use khorjin.Wire.Decode.{two_byte_to_uint16, decode_floating_point_value}
use khorjin.Wire.Typed.{Yields-two_byte}
use khorjin.DataFrame.Room.{length-set_status}
use khorjin.DataFrame.Values.{
  Temps, float_phasor, integer_phasor, read_phasor, read_phasors, read_analog, read_analogs,
  set_status, read_digitals,
}

set_status-Typed :
    (word : ℕ) (cs : List Channel) → All ChannelTyped cs → All ChannelTyped (set_status word cs)
unfolding set_status
set_status-Typed word [] h = tt
set_status-Typed word (c ∷ cs) h = (h.0, set_status-Typed (word / 2) cs h.1)

module _ (p : Platform) where
  float_phasor-name :
      (polar : Bool) (t1 t2 : p.Float) (x : Phasor p.Float)
      → (float_phasor p polar t1 t2 x).channel_name ≡ x.channel_name
  unfolding float_phasor
  float_phasor-name true t1 t2 x = refl
  float_phasor-name false t1 t2 x = refl

  integer_phasor-name :
      (polar : Bool) (w1 w2 : ℕ) (t : Temps p.Float) (x : Phasor p.Float)
      → (integer_phasor p polar w1 w2 t x).channel_name ≡ x.channel_name
  unfolding integer_phasor
  integer_phasor-name true w1 w2 t x = refl
  integer_phasor-name false w1 w2 t x = refl

module _ (p : Platform) (buf : List ℕ) where
  read_phasor-Typed :
      (c : Configuration p.Float) (x : Phasor p.Float) (t : Temps p.Float) (pos : ℕ)
      → PhasorTyped x
      → Yields (λ r. PhasorTyped r.0) (read_phasor p c x t buf pos)
  unfolding read_phasor
  read_phasor-Typed c x t pos v =
      Yields-if c.phasor_is_floating_point
        (Yields->>= _ (decode_floating_point_value p buf pos) _ λ t1.
          Yields->>= _ (decode_floating_point_value p buf t1.1) _
            λ t2. Yields.gives (rw (float_phasor-name p c.phasor_is_polar t1.0 t2.0 x) v))
        (Yields->>= _ (two_byte_to_uint16 buf pos) _ λ w1.
          Yields->>= _ (two_byte_to_uint16 buf w1.1) _
            λ w2. Yields.gives (rw (integer_phasor-name p c.phasor_is_polar w1.0 w2.0 t x) v))

  pub read_phasors-Typed :
      (n : ℕ) (c : Configuration p.Float) (xs : List (Phasor p.Float)) (t : Temps p.Float) (pos : ℕ)
      → All PhasorTyped xs
      → Yields (λ r. All PhasorTyped r.0) (read_phasors p n c xs t buf pos)
  unfolding read_phasors
  read_phasors-Typed zero c xs t pos v = Yields.gives v
  read_phasors-Typed (suc n) c [] t pos v = Yields.faults
  read_phasors-Typed (suc n) c (x ∷ xs) t pos v =
      Yields->>=_with _ (read_phasor p c x t buf pos) _ (read_phasor-Typed c x t pos v.0) λ r h.
        Yields->>=_with _ (read_phasors p n c xs r.1 buf r.2) _
          (read_phasors-Typed n c xs r.1 r.2 v.1) λ s k. Yields.gives (h, k)

  read_analog-Typed :
      (c : Configuration p.Float) (x : Analog p.Float) (t : Temps p.Float) (pos : ℕ)
      → AnalogTyped x
      → Yields (λ r. AnalogTyped r.0) (read_analog p c x t buf pos)
  unfolding read_analog
  read_analog-Typed c x t pos v =
      let kept : (value : p.Float) → AnalogTyped (record x { value = value }) =
        λ value. record { channel_name = v.channel_name; analog_type = v.analog_type } in
      Yields-if c.analog_is_floating_point
        (Yields->>= _ (decode_floating_point_value p buf pos) _ λ r. Yields.gives (kept _))
        (Yields->>= _ (two_byte_to_uint16 buf pos) _ λ w. Yields.gives (kept _))

  pub read_analogs-Typed :
      (n : ℕ) (c : Configuration p.Float) (xs : List (Analog p.Float)) (t : Temps p.Float) (pos : ℕ)
      → All AnalogTyped xs
      → Yields (λ r. All AnalogTyped r.0) (read_analogs p n c xs t buf pos)
  unfolding read_analogs
  read_analogs-Typed zero c xs t pos v = Yields.gives v
  read_analogs-Typed (suc n) c [] t pos v = Yields.faults
  read_analogs-Typed (suc n) c (x ∷ xs) t pos v =
      Yields->>=_with _ (read_analog p c x t buf pos) _ (read_analog-Typed c x t pos v.0) λ r h.
        Yields->>=_with _ (read_analogs p n c xs r.1 buf r.2) _
          (read_analogs-Typed n c xs r.1 r.2 v.1) λ s k. Yields.gives (h, k)

  pub read_digitals-Typed :
      (n : ℕ) (ds : List Digital) (pos : ℕ)
      → All DigitalTyped ds
      → Yields (λ r. All DigitalTyped r.0) (read_digitals n ds buf pos)
  unfolding read_digitals
  read_digitals-Typed zero ds pos v = Yields.gives v
  read_digitals-Typed (suc n) [] pos v = Yields.faults
  read_digitals-Typed (suc n) (d ∷ ds) pos v = Yields-two_byte buf pos λ w hw.
      Yields->>=_with _ (read_digitals n ds buf w.1) _ (read_digitals-Typed n ds w.1 v.1) λ r h.
        Yields.gives (
          record {
            channels = length-set_status w.0 d.channel ∙ v.0.channels;
            channel = set_status-Typed w.0 d.channel v.0.channel;
            digital_word = hw;
            dg_mask_word = v.0.dg_mask_word;
            valid_inputs = v.0.valid_inputs;
          },
          h,
        )

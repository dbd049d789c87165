-- ===== src/DataFrame/Layout.antt =====
-- The PMU structures but for the measured values and the status, and the arrays that a data frame is
-- read into.
use khorjin.Prelude.{
  ℕ, zero, suc, ◌/◌, ◌≡◌, refl, ap, Bool, true, false, List, [], ◌∷◌, map, Yields, Yields->>=,
  Yields->>=_with, Yields-if,
}
use khorjin.Platform.{Platform}
use khorjin.Types.{C37118Client, Configuration, Phasor, Analog, Digital, Channel}
use khorjin.Wire.Decode.{two_byte_to_uint16, decode_floating_point_value}
use khorjin.DataFrame.Values.{
  Temps, float_phasor, integer_phasor, read_phasor, read_phasors, read_analog, read_analogs,
  set_status, read_digitals,
}

-- A structure with its measured values and its status set back to zero.
abbrev pub blank_channel : Channel → Channel
blank_channel c = record c { status = false }

abbrev pub blank_digital : Digital → Digital
blank_digital d = record d { channel = map blank_channel d.channel; digital_word = 0 }

module _ (p : Platform) where
  abbrev pub blank_phasor : Phasor p.Float → Phasor p.Float
  blank_phasor x = record x { magnitude = p.float_of_bits 0; angle = p.float_of_bits 0 }

  abbrev pub blank_analog : Analog p.Float → Analog p.Float
  blank_analog x = record x { value = p.float_of_bits 0 }

  abbrev pub blank : Configuration p.Float → Configuration p.Float
  blank c = record c {
    frequency = p.float_of_bits 0;
    rocof = p.float_of_bits 0;
    phasor = map blank_phasor c.phasor;
    analog = map blank_analog c.analog;
    digital = map blank_digital c.digital;
    data_error = 0;
    pmu_is_not_sync = false;
    data_sorting_by_arrival_or_time = false;
    pmu_is_triggered = false;
    config_to_change = false;
    data_modified = false;
    pmu_time_quality = 0;
    unlock_time = 0;
    trigger_reason = 0;
    stat_word = 0;
  }

  -- The same configuration, whatever was measured.
  pub record SameLayout (self self' : C37118Client p.Float) : Type 0 where
    pub num_pmu : self'.num_pmu ≡ self.num_pmu
    pub time_base : self'.time_base ≡ self.time_base
    pub data_rate : self'.data_rate ≡ self.data_rate
    pub config_time_stamp : self'.config_time_stamp ≡ self.config_time_stamp
    pub configuration : map blank self'.configuration ≡ map blank self.configuration

  blank_float_phasor :
      (polar : Bool) (t1 t2 : p.Float) (x : Phasor p.Float)
      → blank_phasor (float_phasor p polar t1 t2 x) ≡ blank_phasor x
  unfolding float_phasor
  blank_float_phasor true t1 t2 x = refl
  blank_float_phasor false t1 t2 x = refl

  blank_integer_phasor :
      (polar : Bool) (w1 w2 : ℕ) (t : Temps p.Float) (x : Phasor p.Float)
      → blank_phasor (integer_phasor p polar w1 w2 t x) ≡ blank_phasor x
  unfolding integer_phasor
  blank_integer_phasor true w1 w2 t x = refl
  blank_integer_phasor false w1 w2 t x = refl

blank_set_status :
    (word : ℕ) (cs : List Channel) → map blank_channel (set_status word cs) ≡ map blank_channel cs
unfolding set_status
blank_set_status word [] = refl
blank_set_status word (c ∷ cs) = ap (◌∷◌ (blank_channel c)) (blank_set_status (word / 2) cs)

module _ (p : Platform) (buf : List ℕ) where
  read_phasor-blank :
      (c : Configuration p.Float) (x : Phasor p.Float) (t : Temps p.Float) (pos : ℕ)
      → Yields (λ r. blank_phasor p r.0 ≡ blank_phasor p x) (read_phasor p c x t buf pos)
  unfolding read_phasor
  read_phasor-blank c x t pos =
      Yields-if c.phasor_is_floating_point
        (Yields->>= _ (decode_floating_point_value p buf pos) _ λ t1.
          Yields->>= _ (decode_floating_point_value p buf t1.1) _
            λ t2. Yields.gives (blank_float_phasor p c.phasor_is_polar t1.0 t2.0 x))
        (Yields->>= _ (two_byte_to_uint16 buf pos) _ λ w1.
          Yields->>= _ (two_byte_to_uint16 buf w1.1) _
            λ w2. Yields.gives (blank_integer_phasor p c.phasor_is_polar w1.0 w2.0 t x))

  pub read_phasors-blank :
      (n : ℕ) (c : Configuration p.Float) (xs : List (Phasor p.Float)) (t : Temps p.Float) (pos : ℕ)
      → Yields
          (λ r. map (blank_phasor p) r.0 ≡ map (blank_phasor p) xs)
          (read_phasors p n c xs t buf pos)
  unfolding read_phasors
  read_phasors-blank zero c xs t pos = Yields.gives refl
  read_phasors-blank (suc n) c [] t pos = Yields.faults
  read_phasors-blank (suc n) c (x ∷ xs) t pos =
      Yields->>=_with _ (read_phasor p c x t buf pos) _ (read_phasor-blank c x t pos) λ r h.
        Yields->>=_with _ (read_phasors p n c xs r.1 buf r.2) _ (read_phasors-blank n c xs r.1 r.2)
          λ s k. Yields.gives (rw (h, k) refl)

  read_analog-blank :
      (c : Configuration p.Float) (x : Analog p.Float) (t : Temps p.Float) (pos : ℕ)
      → Yields (λ r. blank_analog p r.0 ≡ blank_analog p x) (read_analog p c x t buf pos)
  unfolding read_analog
  read_analog-blank c x t pos =
      Yields-if c.analog_is_floating_point
        (Yields->>= _ (decode_floating_point_value p buf pos) _ λ r. Yields.gives refl)
        (Yields->>= _ (two_byte_to_uint16 buf pos) _ λ w. Yields.gives refl)

  pub read_analogs-blank :
      (n : ℕ) (c : Configuration p.Float) (xs : List (Analog p.Float)) (t : Temps p.Float) (pos : ℕ)
      → Yields
          (λ r. map (blank_analog p) r.0 ≡ map (blank_analog p) xs)
          (read_analogs p n c xs t buf pos)
  unfolding read_analogs
  read_analogs-blank zero c xs t pos = Yields.gives refl
  read_analogs-blank (suc n) c [] t pos = Yields.faults
  read_analogs-blank (suc n) c (x ∷ xs) t pos =
      Yields->>=_with _ (read_analog p c x t buf pos) _ (read_analog-blank c x t pos) λ r h.
        Yields->>=_with _ (read_analogs p n c xs r.1 buf r.2) _ (read_analogs-blank n c xs r.1 r.2)
          λ s k. Yields.gives (rw (h, k) refl)

  pub read_digitals-blank :
      (n : ℕ) (ds : List Digital) (pos : ℕ)
      → Yields (λ r. map blank_digital r.0 ≡ map blank_digital ds) (read_digitals n ds buf pos)
  unfolding read_digitals
  read_digitals-blank zero ds pos = Yields.gives refl
  read_digitals-blank (suc n) [] pos = Yields.faults
  read_digitals-blank (suc n) (d ∷ ds) pos = Yields->>= _ (two_byte_to_uint16 buf pos) _ λ w.
      Yields->>=_with _ (read_digitals n ds buf w.1) _ (read_digitals-blank n ds w.1)
        λ r k. Yields.gives (rw (blank_set_status w.0 d.channel, k) refl)

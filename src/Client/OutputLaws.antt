-- ===== src/Client/OutputLaws.antt =====
-- `c37_118client_outputDataStream` on buffers that are long enough.
use khorjin.Prelude.{
  ℕ, ◌+◌, ◌≡◌, refl, ap, arith, some, List, [], ◌∷◌, ◌++◌, map, All, length, length-append,
  length-map, length-drop, drop, ◌≤◌, ◌<◌, append_assoc,
}
use khorjin.Platform.{ParsedTime}
use khorjin.Types.{C37118Client, Configuration, Phasor, Analog}
use khorjin.Client.Output.{Output, output_pmus, output_data_stream}
use khorjin.Client.Written.{
  all_phasors, all_analogs, IsCounted, magnitudes, angles, values, over, length-behind,
  written_phasors, written_analogs, over-step, store-first, map-append,
}

module _ {F : Type 0} where
  -- The values of the PMUs in front, and the old elements behind them, of the five buffers.
  abbrev pub joined : Output F → Output F → Output F
  joined w old = record {
    freq_buffer = w.freq_buffer ++ old.freq_buffer;
    rocof_buffer = w.rocof_buffer ++ old.rocof_buffer;
    phasors_mag_buffer = w.phasors_mag_buffer ++ old.phasors_mag_buffer;
    phasors_ang_buffer = w.phasors_ang_buffer ++ old.phasors_ang_buffer;
    analog_buffer = w.analog_buffer ++ old.analog_buffer;
  }

  -- The buffers after the call: the values of all PMUs, one behind the other.
  abbrev pub filled : List (Configuration F) → Output F → Output F
  filled cs old = record {
    freq_buffer = over (map (λ (c : Configuration F). c.frequency) cs) old.freq_buffer;
    rocof_buffer = over (map (λ (c : Configuration F). c.rocof) cs) old.rocof_buffer;
    phasors_mag_buffer = over (magnitudes (all_phasors cs)) old.phasors_mag_buffer;
    phasors_ang_buffer = over (angles (all_phasors cs)) old.phasors_ang_buffer;
    analog_buffer = over (values (all_analogs cs)) old.analog_buffer;
  }

  -- The buffers are long enough for the PMUs.
  pub record HasRoom (cs : List (Configuration F)) (old : Output F) : Type 0 where
    pub freq : length cs ≤ length old.freq_buffer
    pub rocof : length cs ≤ length old.rocof_buffer
    pub mag : length (all_phasors cs) ≤ length old.phasors_mag_buffer
    pub ang : length (all_phasors cs) ≤ length old.phasors_ang_buffer
    pub analog : length (all_analogs cs) ≤ length old.analog_buffer

  -- The indices of the loop stand behind what is written.
  record StandsAt (w : Output F) (i k m : ℕ) : Type 0 where
    freq : length w.freq_buffer ≡ i
    rocof : length w.rocof_buffer ≡ i
    mag : length w.phasors_mag_buffer ≡ k
    ang : length w.phasors_ang_buffer ≡ k
    analog : length w.analog_buffer ≡ m

  -- One more PMU is written, and its room is used up.
  abbrev with_pmu : Configuration F → Output F → Output F
  with_pmu c w = record {
    freq_buffer = w.freq_buffer ++ c.frequency ∷ [];
    rocof_buffer = w.rocof_buffer ++ c.rocof ∷ [];
    phasors_mag_buffer = w.phasors_mag_buffer ++ magnitudes c.phasor;
    phasors_ang_buffer = w.phasors_ang_buffer ++ angles c.phasor;
    analog_buffer = w.analog_buffer ++ values c.analog;
  }

  abbrev behind_pmu : Configuration F → Output F → Output F
  behind_pmu c old = record {
    freq_buffer = drop 1 old.freq_buffer;
    rocof_buffer = drop 1 old.rocof_buffer;
    phasors_mag_buffer = drop (length c.phasor) old.phasors_mag_buffer;
    phasors_ang_buffer = drop (length c.phasor) old.phasors_ang_buffer;
    analog_buffer = drop (length c.analog) old.analog_buffer;
  }

  HasRoom-behind_pmu :
      (c : Configuration F) (cs : List (Configuration F)) (old : Output F)
      → HasRoom (c ∷ cs) old
      → HasRoom cs (behind_pmu c old)
  HasRoom-behind_pmu c cs old r = record {
    freq = omega (arith, r.freq, length-drop 1 old.freq_buffer);
    rocof = omega (arith, r.rocof, length-drop 1 old.rocof_buffer);
    mag = omega (
      arith,
      r.mag,
      length-append c.phasor (all_phasors cs),
      length-drop (length c.phasor) old.phasors_mag_buffer,
    );
    ang = omega (
      arith,
      r.ang,
      length-append c.phasor (all_phasors cs),
      length-drop (length c.phasor) old.phasors_ang_buffer,
    );
    analog = omega (
      arith,
      r.analog,
      length-append c.analog (all_analogs cs),
      length-drop (length c.analog) old.analog_buffer,
    );
  }

  StandsAt-with_pmu :
      (c : Configuration F) (w : Output F) (i k m : ℕ)
      → StandsAt w i k m
      → StandsAt (with_pmu c w) (i + 1) (k + length c.phasor) (m + length c.analog)
  StandsAt-with_pmu c w i k m s = record {
    freq = length-behind w.freq_buffer c.frequency i s.freq;
    rocof = length-behind w.rocof_buffer c.rocof i s.rocof;
    mag = longer w.phasors_mag_buffer (λ (x : Phasor F). x.magnitude) c.phasor k s.mag;
    ang = longer w.phasors_ang_buffer (λ (x : Phasor F). x.angle) c.phasor k s.ang;
    analog = longer w.analog_buffer (λ (x : Analog F). x.value) c.analog m s.analog;
  }
    where
      longer :
          {A : Type 0} (front : List F) (f : A → F) (xs : List A) (n : ℕ)
          → length front ≡ n
          → length (front ++ map f xs) ≡ n + length xs
      longer front f xs n h = omega (arith, length-append front (map f xs), length-map f xs)

  filled-step :
      (c : Configuration F) (cs : List (Configuration F)) (w old : Output F)
      → joined (with_pmu c w) (filled cs (behind_pmu c old)) ≡ joined w (filled (c ∷ cs) old)
  filled-step c cs w old =
      let m : List F = magnitudes c.phasor in
      rw
        (
          over-step w.freq_buffer (c.frequency ∷ []) (map (λ (c : Configuration F). c.frequency) cs)
              old.freq_buffer 1 refl,
          over-step w.rocof_buffer (c.rocof ∷ []) (map (λ (c : Configuration F). c.rocof) cs)
              old.rocof_buffer 1 refl,
          over-step w.phasors_mag_buffer m (magnitudes (all_phasors cs)) old.phasors_mag_buffer
              (length c.phasor) (length-map (λ (x : Phasor F). x.magnitude) c.phasor),
          over-step w.phasors_ang_buffer (angles c.phasor) (angles (all_phasors cs))
              old.phasors_ang_buffer (length c.phasor)
              (length-map (λ (x : Phasor F). x.angle) c.phasor),
          over-step w.analog_buffer (values c.analog) (values (all_analogs cs)) old.analog_buffer
              (length c.analog) (length-map (λ (x : Analog F). x.value) c.analog),
          map-append (λ (x : Phasor F). x.magnitude) c.phasor (all_phasors cs),
          map-append (λ (x : Phasor F). x.angle) c.phasor (all_phasors cs),
          map-append (λ (x : Analog F). x.value) c.analog (all_analogs cs),
        )
        refl

  written_pmus :
      (cs : List (Configuration F)) (w old : Output F) (i k m : ℕ)
      → All IsCounted cs
      → HasRoom cs old
      → StandsAt w i k m
      → output_pmus (length cs) cs i k m (joined w old) ≡ some (joined w (filled cs old))
  unfolding output_pmus
  written_pmus [] w old i k m a r s = refl
  written_pmus (c ∷ cs) w old i k m a r s =
      let room : 0 < length old.freq_buffer = omega (arith, r.freq) in
      let room' : 0 < length old.rocof_buffer = omega (arith, r.rocof) in
      let at_phasors : Output F = record (joined w old) {
        freq_buffer = (w.freq_buffer ++ c.frequency ∷ []) ++ drop 1 old.freq_buffer;
        rocof_buffer = (w.rocof_buffer ++ c.rocof ∷ []) ++ drop 1 old.rocof_buffer;
      } in
      let at_analogs : Output F = record at_phasors {
        phasors_mag_buffer =
            w.phasors_mag_buffer
            ++ (magnitudes c.phasor ++ drop (length c.phasor) old.phasors_mag_buffer);
        phasors_ang_buffer =
            w.phasors_ang_buffer
            ++ (angles c.phasor ++ drop (length c.phasor) old.phasors_ang_buffer);
      } in
      rw
        (
          store-first w.freq_buffer old.freq_buffer c.frequency i s.freq room,
          store-first w.rocof_buffer old.rocof_buffer c.rocof i s.rocof room',
          a.0.0,
          written_phasors c.phasor w.phasors_mag_buffer w.phasors_ang_buffer old.phasors_mag_buffer
              old.phasors_ang_buffer k at_phasors
              (omega (arith, r.mag, length-append c.phasor (all_phasors cs)))
              (omega (arith, r.ang, length-append c.phasor (all_phasors cs))) s.mag s.ang refl refl,
          a.0.1,
          written_analogs c.analog w.analog_buffer old.analog_buffer m at_analogs
              (omega (arith, r.analog, length-append c.analog (all_analogs cs))) s.analog refl,
          ← append_assoc w.phasors_mag_buffer (magnitudes c.phasor)
              (drop (length c.phasor) old.phasors_mag_buffer),
          ← append_assoc w.phasors_ang_buffer (angles c.phasor)
              (drop (length c.phasor) old.phasors_ang_buffer),
          ← append_assoc w.analog_buffer (values c.analog)
              (drop (length c.analog) old.analog_buffer),
          written_pmus cs (with_pmu c w) (behind_pmu c old) (i + 1) (k + length c.phasor)
              (m + length c.analog) a.1 (HasRoom-behind_pmu c cs old r)
              (StandsAt-with_pmu c w i k m s),
        )
        (ap some (filled-step c cs w old))

  -- For a client whose counts agree with its arrays and that has a data time stamp, and buffers that are
  -- long enough for all of its PMUs, the call leaves no array and gives out the time and the values of all
  -- PMUs, one behind the other, over the front of each buffer.
  pub output_data_stream-filled :
      (self : C37118Client F) (out : Output F) (time : ParsedTime F)
      → self.data_time_stamp.parsed_time ≡ some time
      → self.num_pmu ≡ length self.configuration
      → All IsCounted self.configuration
      → HasRoom self.configuration out
      → output_data_stream self out ≡ some (time, filled self.configuration out)
  unfolding output_data_stream
  output_data_stream-filled self out time t n a r =
      let nothing : Output F = record {
        freq_buffer = [];
        rocof_buffer = [];
        phasors_mag_buffer = [];
        phasors_ang_buffer = [];
        analog_buffer = [];
      } in
      let start : StandsAt nothing 0 0 0 = record {
        freq = refl;
        rocof = refl;
        mag = refl;
        ang = refl;
        analog = refl;
      } in
      rw (t, n, written_pmus self.configuration nothing out 0 0 0 a r start) refl

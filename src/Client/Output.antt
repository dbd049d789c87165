-- ===== src/Client/Output.antt =====
-- `c37_118client_outputDataStream`: the measured values of all PMUs, into the caller's arrays.
use khorjin.Prelude.{ℕ, zero, suc, ◌+◌, Option, none, some, List, [], ◌∷◌, ◌>>=◌}
use khorjin.Platform.{ParsedTime}
use khorjin.Types.{C37118Client, Configuration, Phasor, Analog}
use khorjin.Wire.Encode.{store}

pub record Output (F : Type 0) : Type 0 where
  pub freq_buffer : List F
  pub rocof_buffer : List F
  pub phasors_mag_buffer : List F
  pub phasors_ang_buffer : List F
  pub analog_buffer : List F

module _ {F : Type 0} where
  -- The loop over the phasors of a PMU: rounds left, rest of the array, `k`.
  unfoldable pub output_phasors : ℕ → List (Phasor F) → ℕ → Output F → Option (ℕ × Output F)
  output_phasors zero xs k out = some (k, out)
  output_phasors (suc rounds) [] k out = none
  output_phasors (suc rounds) (x ∷ xs) k out = do
    mag ← store out.phasors_mag_buffer k x.magnitude
    ang ← store out.phasors_ang_buffer k x.angle
    output_phasors rounds xs (k + 1)
        (record out { phasors_mag_buffer = mag; phasors_ang_buffer = ang })

  unfoldable pub output_analogs : ℕ → List (Analog F) → ℕ → Output F → Option (ℕ × Output F)
  output_analogs zero xs m out = some (m, out)
  output_analogs (suc rounds) [] m out = none
  output_analogs (suc rounds) (x ∷ xs) m out = do
    values ← store out.analog_buffer m x.value
    output_analogs rounds xs (m + 1) (record out { analog_buffer = values })

  -- The loop over the PMUs at index `i`; `k` and `m` run on from one to the next.
  unfoldable pub output_pmus : ℕ → List (Configuration F) → ℕ → ℕ → ℕ → Output F → Option (Output F)
  output_pmus zero cs i k m out = some out
  output_pmus (suc rounds) [] i k m out = none
  output_pmus (suc rounds) (c ∷ cs) i k m out = do
    freq ← store out.freq_buffer i c.frequency
    rocof ← store out.rocof_buffer i c.rocof
    (k, out) ←
        output_phasors c.number_of_phasors c.phasor k
          (record out { freq_buffer = freq; rocof_buffer = rocof })
    (m, out) ← output_analogs c.number_of_analogs c.analog m out
    output_pmus rounds cs (i + 1) k m out

  unfoldable pub output_data_stream : C37118Client F → Output F → Option (ParsedTime F × Output F)
  output_data_stream self out = do
    time ← self.data_time_stamp.parsed_time
    out ← output_pmus self.num_pmu self.configuration 0 0 0 out
    some (time, out)

-- ===== src/Print/Totals.antt =====
-- The print functions on a client that knows a configuration frame, and on one that has taken in a data
-- frame.
use khorjin.Prelude.{
  ℕ, suc, ◌/◌, ◌≤◌, ◌≡◌, refl, ap, arith, List, [], ◌∷◌, map, All, length, length-map,
}
use khorjin.Platform.{Platform}
use khorjin.Types.{C37118Client, Configuration, Digital}
use khorjin.Config.Spec.{
  PmuSpec, DigitalSpec, IsPmu, IsDigital, header_of, phasor_of, analog_of, digital_of, channels_of,
  configuration_of,
}
use khorjin.Config.Received.{ConfigFrame, IsConfigFrame, pmus, configured}
use khorjin.TimeStamp.{stamp, seconds_with_fraction}
use khorjin.DataFrame.Stat.{apply_stat}
use khorjin.DataFrame.Values.{Temps}
use khorjin.DataFrame.Spec.{PmuData, Fits, AllFit, digitals_after, pmu_after, pmu_temps, pmus_after}
use khorjin.DataFrame.Whole.{DataFrame, IsDataFrame, measured}
use khorjin.DataFrame.Room.{length-set_status}
use khorjin.DataFrame.Ready.{length-phasors_after, length-analogs_after, length-digitals_after}
use khorjin.Shape.{HasChannels, HasArrays, IsEquipped}
use khorjin.Print.Configuration.{print_configuration}
use khorjin.Print.Stream.{print_data_stream}
use khorjin.Print.Printed.{Printed}
use khorjin.Print.ConfigurationPrinted.{print_configuration-Printed}
use khorjin.Print.StreamPrinted.{print_data_stream-Printed}

All-map :
    {A B : Type 0} {P : A → Type 0} (Q : B → Type 0) (f : A → B) (xs : List A)
    → ((x : A) → P x → Q (f x))
    → All P xs
    → All Q (map f xs)
All-map Q f [] h a = tt
All-map Q f (x ∷ xs) h a = (h x a.0, All-map Q f xs h a.1)

length-channels_of : (valid : ℕ) (ns : List (List ℕ)) → length (channels_of valid ns) ≡ length ns
length-channels_of valid [] = refl
length-channels_of valid (n ∷ ns) = ap suc (length-channels_of (valid / 2) ns)

digital_of-HasChannels : (s : DigitalSpec) → IsDigital s → HasChannels (digital_of s)
digital_of-HasChannels s v = omega (arith, v.0, length-channels_of s.valid s.names)

digitals_after-HasChannels :
    (ws : List ℕ) (ds : List Digital) → All HasChannels ds → All HasChannels (digitals_after ws ds)
digitals_after-HasChannels [] ds a = a
digitals_after-HasChannels (w ∷ ws) [] a = tt
digitals_after-HasChannels (w ∷ ws) (d ∷ ds) a =
    let h : 16 ≤ length d.channel = a.0 in
    (omega (arith, h, length-set_status w d.channel), digitals_after-HasChannels ws ds a.1)

module _ (p : Platform) where
  configuration_of-HasArrays : (s : PmuSpec) → IsPmu s → HasArrays (configuration_of p s)
  configuration_of-HasArrays s v = record {
    phasors =
        omega (arith, length-map (phasor_of p (header_of p s).phasor_is_floating_point) s.phasors);
    analogs = omega (arith, length-map (analog_of p) s.analogs);
    digitals = omega (arith, length-map digital_of s.digitals);
    channels = All-map HasChannels digital_of s.digitals digital_of-HasChannels v.digitals;
  }

  pub configured-IsEquipped :
      (self : C37118Client p.Float) (f : ConfigFrame)
      → IsConfigFrame f
      → IsEquipped (configured p f self)
  configured-IsEquipped self f v = record {
    num_pmu = omega (arith, length-map (configuration_of p) (pmus f));
    pmus = All-map HasArrays (configuration_of p) (pmus f) configuration_of-HasArrays v.pmus;
  }

  pmu_after-HasArrays :
      (c : Configuration p.Float) (d : PmuData) (t : Temps p.Float)
      → Fits c d
      → HasArrays c
      → HasArrays (pmu_after p d t c)
  unfolding apply_stat
  pmu_after-HasArrays c d t u v = record {
    phasors = rw (length-phasors_after p _ _ d.phasors t c.phasor u.phasor_array) v.phasors;
    analogs = rw (length-analogs_after p _ d.analogs c.analog u.analog_array) v.analogs;
    digitals = rw (length-digitals_after d.digitals c.digital u.digital_array) v.digitals;
    channels = digitals_after-HasChannels d.digitals c.digital v.channels;
  }

  pmus_after-HasArrays :
      (cs : List (Configuration p.Float)) (ds : List PmuData) (t : Temps p.Float)
      → AllFit cs ds
      → All HasArrays cs
      → All HasArrays (pmus_after p ds t cs) × (length (pmus_after p ds t cs) ≡ length cs)
  pmus_after-HasArrays [] [] t u v = (tt, refl)
  pmus_after-HasArrays [] (d ∷ ds) t u v = absurd u
  pmus_after-HasArrays (c ∷ cs) [] t u v = absurd u
  pmus_after-HasArrays (c ∷ cs) (d ∷ ds) t u v =
      let (rest, same) = pmus_after-HasArrays cs ds (pmu_temps p d t c) u.1 v.1 in
      ((pmu_after-HasArrays c d t u.0 v.0, rest), ap suc same)

  pub measured-IsEquipped :
      (self : C37118Client p.Float) (f : DataFrame) (t : Temps p.Float)
      → IsDataFrame self f
      → IsEquipped self
      → IsEquipped (measured p f t self)
  measured-IsEquipped self f t u v =
      let (rest, same) = pmus_after-HasArrays self.configuration f.pmus t u.pmus v.pmus in
      record { num_pmu = rw same v.num_pmu; pmus = rest }

  -- A client that knows a configuration frame of the standard prints it to the end without leaving an
  -- array.
  pub print_configuration-configured :
      (self : C37118Client p.Float) (f : ConfigFrame)
      → IsConfigFrame f
      → Printed (print_configuration (configured p f self))
  unfolding stamp seconds_with_fraction
  print_configuration-configured self f v =
      print_configuration-Printed (configured p f self) _ (configured-IsEquipped self f v) refl

  pub print_data_stream-measured :
      (self : C37118Client p.Float) (f : DataFrame) (t : Temps p.Float)
      → IsDataFrame self f
      → IsEquipped self
      → Printed (print_data_stream (measured p f t self))
  unfolding stamp seconds_with_fraction
  print_data_stream-measured self f t u v =
      print_data_stream-Printed (measured p f t self) _ (measured-IsEquipped self f t u v) refl

-- ===== src/DataFrame/Ready.antt =====
-- A configuration stays fit for data frames: the one that a configuration frame has brought, and the
-- one that a data frame has left.
use khorjin.Prelude.{
  ℕ, suc, ◌≡◌, refl, ap, ◌∙◌, arith, Bool, List, [], ◌∷◌, map, All, IsU16, IsU32, ◌<◌, length,
  length-map,
}
use khorjin.Platform.{Platform}
use khorjin.Types.{C37118Client, Configuration, Phasor, Analog, Digital}
use khorjin.Config.Spec.{PmuSpec, header_of, configuration_of}
use khorjin.Config.Received.{ConfigFrame, pmus, configured}
use khorjin.DataFrame.Stat.{apply_stat}
use khorjin.DataFrame.Values.{Temps}
use khorjin.DataFrame.Spec.{
  PhasorWords, PmuData, IsWord, Fits, AllFit, phasors_after, temps_after, analogs_after,
  digitals_after, pmu_after, pmu_temps, pmus_after,
}
use khorjin.DataFrame.Whole.{DataFrame, IsDataFrame, measured}

module _ (p : Platform) where
  pub length-phasors_after :
      (b polar : Bool) (ws : List PhasorWords) (t : Temps p.Float) (xs : List (Phasor p.Float))
      → length xs ≡ length ws
      → length (phasors_after p b polar ws t xs) ≡ length xs
  length-phasors_after b polar [] t xs h = refl
  length-phasors_after b polar (w ∷ ws) t [] h = refl
  length-phasors_after b polar (w ∷ ws) t (x ∷ xs) h =
      ap suc (length-phasors_after b polar ws (temps_after p b w t) xs (omega arith))

  pub length-analogs_after :
      (b : Bool) (ws : List ℕ) (xs : List (Analog p.Float))
      → length xs ≡ length ws
      → length (analogs_after p b ws xs) ≡ length xs
  length-analogs_after b [] xs h = refl
  length-analogs_after b (w ∷ ws) [] h = refl
  length-analogs_after b (w ∷ ws) (x ∷ xs) h = ap suc (length-analogs_after b ws xs (omega arith))

pub length-digitals_after :
    (ws : List ℕ) (ds : List Digital)
    → length ds ≡ length ws
    → length (digitals_after ws ds) ≡ length ds
length-digitals_after [] ds h = refl
length-digitals_after (w ∷ ws) [] h = refl
length-digitals_after (w ∷ ws) (d ∷ ds) h = ap suc (length-digitals_after ws ds (omega arith))

module _ (p : Platform) where
  Fits-pmu_after :
      (c : Configuration p.Float) (d g : PmuData) (t : Temps p.Float)
      → Fits c d
      → Fits c g
      → Fits (pmu_after p d t c) g
  unfolding apply_stat
  Fits-pmu_after c d g t u v = record {
    stat = v.stat;
    phasor_words = v.phasor_words;
    freq = v.freq;
    dfreq = v.dfreq;
    analog_words = v.analog_words;
    digital_words = v.digital_words;
    phasor_count = v.phasor_count;
    analog_count = v.analog_count;
    digital_count = v.digital_count;
    phasor_array = length-phasors_after p _ _ d.phasors t c.phasor u.phasor_array ∙ v.phasor_array;
    analog_array = length-analogs_after p _ d.analogs c.analog u.analog_array ∙ v.analog_array;
    digital_array = length-digitals_after d.digitals c.digital u.digital_array ∙ v.digital_array;
  }

  AllFit-pmus_after :
      (cs : List (Configuration p.Float)) (ds gs : List PmuData) (t : Temps p.Float)
      → AllFit cs ds
      → AllFit cs gs
      → AllFit (pmus_after p ds t cs) gs
  AllFit-pmus_after [] [] gs t u v = v
  AllFit-pmus_after [] (d ∷ ds) gs t u v = absurd u
  AllFit-pmus_after (c ∷ cs) [] gs t u v = absurd u
  AllFit-pmus_after (c ∷ cs) (d ∷ ds) [] t u v = absurd v
  AllFit-pmus_after (c ∷ cs) (d ∷ ds) (g ∷ gs) t u v =
      (Fits-pmu_after c d g t u.0 v.0, AllFit-pmus_after cs ds gs (pmu_temps p d t c) u.1 v.1)

  pub measured-IsDataFrame :
      (self : C37118Client p.Float) (f g : DataFrame) (t : Temps p.Float)
      → IsDataFrame self f
      → IsDataFrame self g
      → IsDataFrame (measured p f t self) g
  measured-IsDataFrame self f g t u v = record {
    id_code = v.id_code;
    soc = v.soc;
    fracsec = v.fracsec;
    addressed = v.addressed;
    num_pmu = v.num_pmu;
    pmus = AllFit-pmus_after self.configuration f.pmus g.pmus t u.pmus v.pmus;
  }

  -- The words of a PMU fit its description in the configuration frame.
  pub record Matches (s : PmuSpec) (d : PmuData) : Type 0 where
    pub stat : IsU16 d.stat
    pub phasor_words :
        All
          (λ (w : PhasorWords).
            IsWord (header_of p s).phasor_is_floating_point w.fst_word
            × IsWord (header_of p s).phasor_is_floating_point w.snd_word)
          d.phasors
    pub freq : IsWord (header_of p s).freq_is_floating_point d.freq
    pub dfreq : IsWord (header_of p s).freq_is_floating_point d.dfreq
    pub analog_words : All (IsWord (header_of p s).analog_is_floating_point) d.analogs
    pub digital_words : All IsU16 d.digitals
    pub phasors : length s.phasors ≡ length d.phasors
    pub analogs : length s.analogs ≡ length d.analogs
    pub digitals : length s.digitals ≡ length d.digitals

  abbrev pub AllMatch : List PmuSpec → List PmuData → Type 0
  AllMatch [] [] = Unit
  AllMatch [] (d ∷ ds) = ⊥
  AllMatch (s ∷ ss) [] = ⊥
  AllMatch (s ∷ ss) (d ∷ ds) = Matches s d × AllMatch ss ds

  Fits-configuration_of : (s : PmuSpec) (d : PmuData) → Matches s d → Fits (configuration_of p s) d
  Fits-configuration_of s d m = record {
    stat = m.stat;
    phasor_words = m.phasor_words;
    freq = m.freq;
    dfreq = m.dfreq;
    analog_words = m.analog_words;
    digital_words = m.digital_words;
    phasor_count = m.phasors;
    analog_count = m.analogs;
    digital_count = m.digitals;
    phasor_array = length-map _ s.phasors ∙ m.phasors;
    analog_array = length-map _ s.analogs ∙ m.analogs;
    digital_array = length-map _ s.digitals ∙ m.digitals;
  }

  AllFit-map :
      (ss : List PmuSpec) (ds : List PmuData)
      → AllMatch ss ds
      → AllFit (map (configuration_of p) ss) ds × (length ss ≡ length ds)
  AllFit-map [] [] m = (tt, refl)
  AllFit-map [] (d ∷ ds) m = absurd m
  AllFit-map (s ∷ ss) [] m = absurd m
  AllFit-map (s ∷ ss) (d ∷ ds) m =
      let (fits, same) = AllFit-map ss ds m.1 in
      ((Fits-configuration_of s d m.0, fits), ap suc same)

  pub configured-IsDataFrame :
      (self : C37118Client p.Float) (f : ConfigFrame) (g : DataFrame)
      → AllMatch (pmus f) g.pmus
      → IsU16 g.id_code
      → IsU32 g.soc
      → g.fracsec < 16777216
      → f.id_code ≡ g.id_code
      → IsDataFrame (configured p f self) g
  configured-IsDataFrame self f g m hid hs hf same =
      let (fits, count) = AllFit-map (pmus f) g.pmus m in
      record {
        id_code = hid;
        soc = hs;
        fracsec = hf;
        addressed = same;
        num_pmu = count;
        pmus = fits;
      }

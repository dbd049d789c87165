-- ===== src/DataFrame/Spec.antt =====
-- The data frame as the standard lays it out, and what a PMU's structure holds after it.
use khorjin.Prelude.{
  ℕ, ◌<◌, ◌≡◌, Bool, false, List, [], ◌∷◌, ◌++◌, All, IsU16, length, if◌then◌else◌,
}
use khorjin.Platform.{Platform}
use khorjin.Types.{Phasor, Analog, Digital, Configuration}
use khorjin.Wire.Cursor.{be16, be32}
use khorjin.DataFrame.Stat.{apply_stat}
use khorjin.DataFrame.Values.{Temps, float_phasor, integer_phasor, set_status}

-- A measured value takes 32 bits in the floating point format and 16 in the integer format.
abbrev pub encode_word : Bool → ℕ → List ℕ
encode_word floating w = if floating then be32 w else be16 w

abbrev pub IsWord : Bool → ℕ → Type 0
IsWord floating w = w < (if floating then 4294967296 else 65536)

-- Two words for a phasor: magnitude and angle, or real and imaginary part.
pub record PhasorWords : Type 0 where
  pub fst_word : ℕ
  pub snd_word : ℕ

pub record PmuData : Type 0 where
  pub stat : ℕ
  pub phasors : List PhasorWords
  pub freq : ℕ
  pub dfreq : ℕ
  pub analogs : List ℕ
  pub digitals : List ℕ

abbrev pub encode_phasors : Bool → List PhasorWords → List ℕ → List ℕ
encode_phasors b [] rest = rest
encode_phasors b (w ∷ ws) rest =
    encode_word b w.fst_word ++ (encode_word b w.snd_word ++ encode_phasors b ws rest)

abbrev pub encode_words : Bool → List ℕ → List ℕ → List ℕ
encode_words b [] rest = rest
encode_words b (w ∷ ws) rest = encode_word b w ++ encode_words b ws rest

abbrev pub encode_data : {F : Type 0} → Configuration F → PmuData → List ℕ → List ℕ
encode_data c d rest =
    be16 d.stat
    ++ encode_phasors c.phasor_is_floating_point d.phasors (
        encode_word c.freq_is_floating_point d.freq
        ++ (encode_word c.freq_is_floating_point d.dfreq
            ++ encode_words c.analog_is_floating_point d.analogs
                (encode_words false d.digitals rest)))

-- The words fit the formats of the configuration, and there are as many as it says; its arrays have
-- as many elements as its counts.
pub record Fits {F : Type 0} (c : Configuration F) (d : PmuData) : Type 0 where
  pub stat : IsU16 d.stat
  pub phasor_words :
      All
        (λ (w : PhasorWords).
          IsWord c.phasor_is_floating_point w.fst_word
          × IsWord c.phasor_is_floating_point w.snd_word)
        d.phasors
  pub freq : IsWord c.freq_is_floating_point d.freq
  pub dfreq : IsWord c.freq_is_floating_point d.dfreq
  pub analog_words : All (IsWord c.analog_is_floating_point) d.analogs
  pub digital_words : All IsU16 d.digitals
  pub phasor_count : c.number_of_phasors ≡ length d.phasors
  pub analog_count : c.number_of_analogs ≡ length d.analogs
  pub digital_count : c.number_of_digitals ≡ length d.digitals
  pub phasor_array : length c.phasor ≡ length d.phasors
  pub analog_array : length c.analog ≡ length d.analogs
  pub digital_array : length c.digital ≡ length d.digitals

module _ (p : Platform) where
  abbrev pub phasor_after :
      Bool → Bool → PhasorWords → Temps p.Float → Phasor p.Float → Phasor p.Float
  phasor_after floating polar w t x =
      if floating
      then float_phasor p polar (p.float_of_bits w.fst_word) (p.float_of_bits w.snd_word) x
      else integer_phasor p polar w.fst_word w.snd_word t x

  -- What the two variables hold after a phasor: in the integer format they are not written.
  abbrev pub temps_after : Bool → PhasorWords → Temps p.Float → Temps p.Float
  temps_after floating w t =
      if floating
      then record {
        temp_float_1 = p.float_of_bits w.fst_word;
        temp_float_2 = p.float_of_bits w.snd_word;
      }
      else t

  abbrev pub phasors_after :
      Bool → Bool → List PhasorWords → Temps p.Float → List (Phasor p.Float) → List (Phasor p.Float)
  phasors_after floating polar [] t xs = xs
  phasors_after floating polar (w ∷ ws) t [] = []
  phasors_after floating polar (w ∷ ws) t (x ∷ xs) =
      phasor_after floating polar w t x
      ∷ phasors_after floating polar ws (temps_after floating w t) xs

  abbrev pub phasors_temps : Bool → List PhasorWords → Temps p.Float → Temps p.Float
  phasors_temps floating [] t = t
  phasors_temps floating (w ∷ ws) t = phasors_temps floating ws (temps_after floating w t)

  abbrev pub temp_after : Bool → ℕ → Temps p.Float → Temps p.Float
  temp_after floating w t = if floating then record t { temp_float_1 = p.float_of_bits w } else t

  abbrev pub frequency_after : Bool → ℕ → Configuration p.Float → Configuration p.Float
  frequency_after floating w c = record c {
    frequency =
        if floating
        then p.float_of_bits w
        else p.narrow (
            p.double_add (p.widen c.f_nom)
              (p.double_mul (p.widen (p.float_of_uint w)) (p.double_literal 1 3)));
  }

  -- In the integer format the rate of change goes to the frequency.
  abbrev pub rocof_after : Bool → ℕ → Configuration p.Float → Configuration p.Float
  rocof_after floating r c = record c {
    rocof =
        if floating
        then p.narrow (p.double_mul (p.widen (p.float_of_bits r)) (p.double_literal 1 2))
        else c.rocof;
    frequency =
        if floating
        then c.frequency
        else p.narrow (p.double_mul (p.widen (p.float_of_uint r)) (p.double_literal 1 2));
  }

  abbrev pub rates_after : Bool → ℕ → ℕ → Configuration p.Float → Configuration p.Float
  rates_after floating w r c = rocof_after floating r (frequency_after floating w c)

  abbrev pub analog_after : Bool → ℕ → Analog p.Float → Analog p.Float
  analog_after floating w x =
      if floating
      then record x { value = p.float_of_bits w }
      else record x { value = p.float_mul (p.float_of_uint w) x.conversion_factor }

  abbrev pub analogs_after : Bool → List ℕ → List (Analog p.Float) → List (Analog p.Float)
  analogs_after floating [] xs = xs
  analogs_after floating (w ∷ ws) [] = []
  analogs_after floating (w ∷ ws) (x ∷ xs) =
      analog_after floating w x ∷ analogs_after floating ws xs

  abbrev pub words_temps : Bool → List ℕ → Temps p.Float → Temps p.Float
  words_temps floating [] t = t
  words_temps floating (w ∷ ws) t = words_temps floating ws (temp_after floating w t)

abbrev pub digital_after : ℕ → Digital → Digital
digital_after w d = record d { digital_word = w; channel = set_status w d.channel }

abbrev pub digitals_after : List ℕ → List Digital → List Digital
digitals_after [] ds = ds
digitals_after (w ∷ ws) [] = []
digitals_after (w ∷ ws) (d ∷ ds) = digital_after w d ∷ digitals_after ws ds

module _ (p : Platform) where
  -- A PMU after its part of the frame, from what the two variables held before it.
  abbrev pub pmu_after : PmuData → Temps p.Float → Configuration p.Float → Configuration p.Float
  pmu_after d t c =
      record (rates_after p c.freq_is_floating_point d.freq d.dfreq (apply_stat d.stat c)) {
        phasor = phasors_after p c.phasor_is_floating_point c.phasor_is_polar d.phasors t c.phasor;
        analog = analogs_after p c.analog_is_floating_point d.analogs c.analog;
        digital = digitals_after d.digitals c.digital;
      }

  abbrev pub pmu_temps : PmuData → Temps p.Float → Configuration p.Float → Temps p.Float
  pmu_temps d t c = words_temps p c.analog_is_floating_point d.analogs (
      temp_after p c.freq_is_floating_point d.dfreq (
        temp_after p c.freq_is_floating_point d.freq
          (phasors_temps p c.phasor_is_floating_point d.phasors t)))

  abbrev pub pmus_after :
      List PmuData → Temps p.Float → List (Configuration p.Float) → List (Configuration p.Float)
  pmus_after [] t cs = cs
  pmus_after (d ∷ ds) t [] = []
  pmus_after (d ∷ ds) t (c ∷ cs) = pmu_after d t c ∷ pmus_after ds (pmu_temps d t c) cs

-- The PMUs of a frame against those of the configuration, one to one.
abbrev pub AllFit : {F : Type 0} → List (Configuration F) → List PmuData → Type 0
AllFit [] [] = Unit
AllFit [] (d ∷ ds) = ⊥
AllFit (c ∷ cs) [] = ⊥
AllFit (c ∷ cs) (d ∷ ds) = Fits c d × AllFit cs ds

abbrev pub encode_all : {F : Type 0} → List (Configuration F) → List PmuData → List ℕ → List ℕ
encode_all [] ds rest = rest
encode_all (c ∷ cs) [] rest = rest
encode_all (c ∷ cs) (d ∷ ds) rest = encode_data c d (encode_all cs ds rest)

-- ===== src/DataFrame/Received.antt =====
-- `parseDataFrame` on a data frame of the standard.
use khorjin.Prelude.{
  ℕ, ◌+◌, ◌≡◌, refl, ap, ◌∙◌, Bool, false, some, List, [], ◌∷◌, ◌++◌, length, drop, drop-past,
}
use khorjin.Platform.{Platform}
use khorjin.Types.{Configuration}
use khorjin.Wire.Cursor.{be16, two_byte-be16}
use khorjin.DataFrame.Stat.{apply_stat, parse_stat_word}
use khorjin.DataFrame.Values.{Temps, read_phasors, read_analogs, read_digitals}
use khorjin.DataFrame.Pmu.{read_pmu, read_pmus}
use khorjin.DataFrame.Spec.{
  PmuData, Fits, AllFit, frequency_after, rates_after, temp_after, phasors_after, phasors_temps,
  encode_word, encode_phasors, encode_words, encode_data, encode_all, pmu_after, pmu_temps,
  pmus_after,
}
use khorjin.DataFrame.Arrays.{
  read_phasors-encode, read_frequency-encode, read_rocof-encode, read_analogs-encode,
  read_digitals-encode,
}

module _ (p : Platform) where
  read_pmu-encode :
      (c : Configuration p.Float) (d : PmuData) (t : Temps p.Float) (buf : List ℕ) (pos : ℕ)
      (rest : List ℕ)
      → Fits c d
      → drop pos buf ≡ encode_data c d rest
      → (end : ℕ) × (read_pmu p c t buf pos ≡ some (pmu_after p d t c, pmu_temps p d t c, end))
        × (drop end buf ≡ rest)
  unfolding read_pmu parse_stat_word apply_stat
  read_pmu-encode c d t buf pos rest v e =
      let c1 : Configuration p.Float = apply_stat d.stat c in
      let b : Bool = c.phasor_is_floating_point in
      let f : Bool = c.freq_is_floating_point in
      let g : Bool = c.analog_is_floating_point in
      let e1 : drop (pos + 2) buf
          ≡ encode_phasors b d.phasors (
              encode_word f d.freq
              ++ (encode_word f d.dfreq
                  ++ encode_words g d.analogs (encode_words false d.digitals rest))) =
        drop-past pos 2 buf (be16 d.stat) _ e refl in
      let (at2, phasors, e2) =
        read_phasors-encode p buf b c1 d.phasors c.phasor t (pos + 2) _ refl v.phasor_words
          v.phasor_array e1 in
      let t2 : Temps p.Float = phasors_temps p b d.phasors t in
      let c2 : Configuration p.Float = record c1 {
        phasor = phasors_after p b c.phasor_is_polar d.phasors t c.phasor;
      } in
      let (at3, frequency, e3) = read_frequency-encode p buf f c2 t2 d.freq at2 _ refl v.freq e2 in
      let (at4, rocof, e4) =
        read_rocof-encode p buf f (frequency_after p f d.freq c2) (temp_after p f d.freq t2) d.dfreq
          at3 _ refl v.dfreq e3 in
      let c4 : Configuration p.Float = rates_after p f d.freq d.dfreq c2 in
      let t4 : Temps p.Float = temp_after p f d.dfreq (temp_after p f d.freq t2) in
      let (at5, analogs, e5) =
        read_analogs-encode p buf g c4 d.analogs c.analog t4 at4 _ refl v.analog_words
          v.analog_array e4 in
      let (end, digitals, e6) =
        read_digitals-encode buf d.digitals c.digital at5 rest v.digital_words v.digital_array e5 in
      (
        end,
        rw (
          two_byte-be16 buf pos d.stat _ v.stat e,
          ap (λ k. read_phasors p k c1 c.phasor t buf (pos + 2)) v.phasor_count ∙ phasors,
          frequency,
          rocof,
          ap (λ k. read_analogs p k c4 c.analog t4 buf at4) v.analog_count ∙ analogs,
          ap (λ k. read_digitals k c.digital buf at5) v.digital_count ∙ digitals,
        ),
        e6,
      )

  pub read_pmus-encode :
      (cs : List (Configuration p.Float)) (ds : List PmuData) (t : Temps p.Float) (buf : List ℕ)
      (pos : ℕ) (rest : List ℕ)
      → AllFit cs ds
      → drop pos buf ≡ encode_all cs ds rest
      → read_pmus p (length ds) cs t buf pos ≡ some (pmus_after p ds t cs)
  unfolding read_pmus
  read_pmus-encode [] [] t buf pos rest v e = refl
  read_pmus-encode [] (d ∷ ds) t buf pos rest v e = absurd v
  read_pmus-encode (c ∷ cs) [] t buf pos rest v e = absurd v
  read_pmus-encode (c ∷ cs) (d ∷ ds) t buf pos rest v e =
      let (end, one, e1) = read_pmu-encode c d t buf pos _ v.0 e in
      rw (one, read_pmus-encode cs ds (pmu_temps p d t c) buf end rest v.1 e1)

-- ===== src/DataFrame/Kept.antt =====
-- What `parseDataFrame` does not change: the PMU structures but for the measured values and the status.
use khorjin.Prelude.{
  ℕ, zero, suc, ◌≡◌, refl, ◌∙◌, List, [], ◌∷◌, map, Yields, Yields->>=, Yields->>=_with, Yields-if,
  Yields-inv,
}
use khorjin.Prelude.Int.{ℤ}
use khorjin.Prelude.Outcome.{done}
use khorjin.Platform.{Platform}
use khorjin.Types.{C37118Client, Configuration, Phasor, Analog, Digital}
use khorjin.Wire.Decode.{two_byte_to_uint16, decode_floating_point_value}
use khorjin.TimeStamp.{parse_time_stamp}
use khorjin.DataFrame.Stat.{apply_stat, parse_stat_word}
use khorjin.DataFrame.Values.{
  Temps, read_phasors, read_frequency, read_rocof, read_analogs, read_digitals,
}
use khorjin.DataFrame.Pmu.{read_pmu, read_pmus, read_data}
use khorjin.DataFrame.Frame.{parse_data_frame}
use khorjin.DataFrame.Accept.{parse_data_frame-IsAddressed}
use khorjin.DataFrame.Layout.{
  blank_phasor, blank_analog, blank_digital, blank, SameLayout, read_phasors-blank,
  read_analogs-blank, read_digitals-blank,
}

module _ (p : Platform) where
  blank_refilled :
      (c : Configuration p.Float) (xs : List (Phasor p.Float)) (ys : List (Analog p.Float))
      (ds : List Digital)
      → map (blank_phasor p) xs ≡ map (blank_phasor p) c.phasor
      → map (blank_analog p) ys ≡ map (blank_analog p) c.analog
      → map blank_digital ds ≡ map blank_digital c.digital
      → blank p (record c { phasor = xs; analog = ys; digital = ds }) ≡ blank p c
  blank_refilled c xs ys ds hx hy hd = rw (hx, hy, hd) refl

module _ (p : Platform) (buf : List ℕ) where
  parse_stat_word-blank :
      (c : Configuration p.Float) (pos : ℕ)
      → Yields (λ r. blank p r.0 ≡ blank p c) (parse_stat_word c buf pos)
  unfolding parse_stat_word apply_stat
  parse_stat_word-blank c pos = Yields->>= _ (two_byte_to_uint16 buf pos) _ λ w. Yields.gives refl

  read_frequency-blank :
      (c : Configuration p.Float) (t : Temps p.Float) (pos : ℕ)
      → Yields (λ r. blank p r.0 ≡ blank p c) (read_frequency p c t buf pos)
  unfolding read_frequency
  read_frequency-blank c t pos =
      Yields-if c.freq_is_floating_point
        (Yields->>= _ (decode_floating_point_value p buf pos) _ λ r. Yields.gives refl)
        (Yields->>= _ (two_byte_to_uint16 buf pos) _ λ w. Yields.gives refl)

  read_rocof-blank :
      (c : Configuration p.Float) (t : Temps p.Float) (pos : ℕ)
      → Yields (λ r. blank p r.0 ≡ blank p c) (read_rocof p c t buf pos)
  unfolding read_rocof
  read_rocof-blank c t pos =
      Yields-if c.freq_is_floating_point
        (Yields->>= _ (decode_floating_point_value p buf pos) _ λ r. Yields.gives refl)
        (Yields->>= _ (two_byte_to_uint16 buf pos) _ λ w. Yields.gives refl)

  read_pmu-blank :
      (c : Configuration p.Float) (t : Temps p.Float) (pos : ℕ)
      → Yields (λ r. blank p r.0 ≡ blank p c) (read_pmu p c t buf pos)
  unfolding read_pmu
  read_pmu-blank c t pos =
      Yields->>=_with _ (parse_stat_word c buf pos) _ (parse_stat_word-blank c pos) λ s hs.
        Yields->>=_with _ (read_phasors p s.0.number_of_phasors s.0 s.0.phasor t buf s.1) _
          (read_phasors-blank p buf s.0.number_of_phasors s.0 s.0.phasor t s.1)
          λ xs hx.
            let c1 : Configuration p.Float = record s.0 { phasor = xs.0 } in
            Yields->>=_with _ (read_frequency p c1 xs.1 buf xs.2) _
              (read_frequency-blank c1 xs.1 xs.2)
              λ f hf.
                Yields->>=_with _ (read_rocof p f.0 f.1 buf f.2) _ (read_rocof-blank f.0 f.1 f.2)
                  λ r hr.
                    Yields->>=_with _
                      (read_analogs p r.0.number_of_analogs r.0 r.0.analog r.1 buf r.2) _
                      (read_analogs-blank p buf r.0.number_of_analogs r.0 r.0.analog r.1 r.2)
                      λ ys hy.
                        Yields->>=_with _
                          (read_digitals r.0.number_of_digitals r.0.digital buf ys.2) _
                          (read_digitals-blank p buf r.0.number_of_digitals r.0.digital ys.2)
                          λ ds hd. Yields.gives (
                            blank_refilled p r.0 r.0.phasor ys.0 ds.0 refl hy hd
                            ∙ hr
                            ∙ hf
                            ∙ blank_refilled p s.0 xs.0 s.0.analog s.0.digital hx refl refl
                            ∙ hs)

  read_pmus-blank :
      (n : ℕ) (cs : List (Configuration p.Float)) (t : Temps p.Float) (pos : ℕ)
      → Yields (λ ds. map (blank p) ds ≡ map (blank p) cs) (read_pmus p n cs t buf pos)
  unfolding read_pmus
  read_pmus-blank zero cs t pos = Yields.gives refl
  read_pmus-blank (suc n) [] t pos = Yields.faults
  read_pmus-blank (suc n) (c ∷ cs) t pos =
      Yields->>=_with _ (read_pmu p c t buf pos) _ (read_pmu-blank c t pos) λ r h.
        Yields->>=_with _ (read_pmus p n cs r.1 buf r.2) _ (read_pmus-blank n cs r.1 r.2)
          λ ds k. Yields.gives (rw (h, k) refl)

  read_data-SameLayout :
      (self : C37118Client p.Float) (t : Temps p.Float) (pos : ℕ)
      → Yields (SameLayout p self) (read_data p self t buf pos)
  unfolding read_data
  read_data-SameLayout self t pos =
      Yields->>= _ (parse_time_stamp p self.data_time_stamp self.time_base buf pos) _ λ s.
        Yields->>=_with _ (read_pmus p self.num_pmu self.configuration t buf s.1) _
          (read_pmus-blank self.num_pmu self.configuration t s.1)
          λ cs h. Yields.gives (record {
            num_pmu = refl;
            time_base = refl;
            data_rate = refl;
            config_time_stamp = refl;
            configuration = h;
          })

  pub parse_data_frame-SameLayout :
      (self self' : C37118Client p.Float) (t : Temps p.Float) (size : ℤ)
      → parse_data_frame p self t buf size ≡ done self'
      → SameLayout p self self'
  parse_data_frame-SameLayout self self' t size h =
      let (a, r) = (parse_data_frame-IsAddressed p self buf size t self').0 h in
      Yields-inv _ (read_data-SameLayout self t a.id_end) r

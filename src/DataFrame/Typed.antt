-- ===== src/DataFrame/Typed.antt =====
-- The integers and texts of a client against their types, when a data frame is read, whatever it holds.
use khorjin.Prelude.{
  ℕ, zero, suc, ◌≡◌, arith, List, [], ◌∷◌, All, Yields, Yields->>=, Yields->>=_with, Yields-if,
  Yields-inv,
}
use khorjin.Prelude.Int.{ℤ}
use khorjin.Prelude.Outcome.{done}
use khorjin.Platform.{Platform}
use khorjin.Types.{C37118Client, Configuration, Phasor, Analog, Digital}
use khorjin.Typed.{PhasorTyped, AnalogTyped, DigitalTyped, ConfigurationTyped, ClientTyped}
use khorjin.Wire.Decode.{two_byte_to_uint16, decode_floating_point_value}
use khorjin.Wire.Typed.{Yields-two_byte}
use khorjin.TimeStamp.{parse_time_stamp}
use khorjin.TimeStamp.Typed.{parse_time_stamp-TimeTyped}
use khorjin.DataFrame.Stat.{apply_stat, parse_stat_word}
use khorjin.DataFrame.Values.{
  Temps, read_phasors, read_frequency, read_rocof, read_analogs, read_digitals,
}
use khorjin.DataFrame.Pmu.{read_pmu, read_pmus, read_data}
use khorjin.DataFrame.Frame.{parse_data_frame}
use khorjin.DataFrame.Accept.{parse_data_frame-IsAddressed}
use khorjin.DataFrame.TypedValues.{read_phasors-Typed, read_analogs-Typed, read_digitals-Typed}

module _ (p : Platform) (buf : List ℕ) where
  -- The bytes that `parseSTATWord` cuts and the numbers that it leaves alone.
  parse_stat_word-Typed :
      (c : Configuration p.Float) (pos : ℕ)
      → ConfigurationTyped c
      → Yields (λ r. ConfigurationTyped r.0) (parse_stat_word c buf pos)
  unfolding parse_stat_word apply_stat
  parse_stat_word-Typed c pos v = Yields-two_byte buf pos λ w hw. Yields.gives (record {
    pmu_idcode = v.pmu_idcode;
    station_name = v.station_name;
    number_of_phasors = v.number_of_phasors;
    number_of_analogs = v.number_of_analogs;
    number_of_digitals = v.number_of_digitals;
    cfg_cnt = v.cfg_cnt;
    phasor = v.phasor;
    analog = v.analog;
    digital = v.digital;
    data_error = omega arith;
    pmu_time_quality = omega arith;
    unlock_time = omega arith;
    trigger_reason = omega arith;
    stat_word = hw;
  })

  -- The values of the channels and the frequency are floating point numbers.
  refilled :
      (c : Configuration p.Float) (xs : List (Phasor p.Float)) (ys : List (Analog p.Float))
      (ds : List Digital) (f r : p.Float)
      → ConfigurationTyped c
      → All PhasorTyped xs
      → All AnalogTyped ys
      → All DigitalTyped ds
      → ConfigurationTyped
          (record c { phasor = xs; analog = ys; digital = ds; frequency = f; rocof = r })
  refilled c xs ys ds f r v hx hy hd = record {
    pmu_idcode = v.pmu_idcode;
    station_name = v.station_name;
    number_of_phasors = v.number_of_phasors;
    number_of_analogs = v.number_of_analogs;
    number_of_digitals = v.number_of_digitals;
    cfg_cnt = v.cfg_cnt;
    phasor = hx;
    analog = hy;
    digital = hd;
    data_error = v.data_error;
    pmu_time_quality = v.pmu_time_quality;
    unlock_time = v.unlock_time;
    trigger_reason = v.trigger_reason;
    stat_word = v.stat_word;
  }

  read_frequency-Typed :
      (c : Configuration p.Float) (t : Temps p.Float) (pos : ℕ)
      → ConfigurationTyped c
      → Yields (λ r. ConfigurationTyped r.0) (read_frequency p c t buf pos)
  unfolding read_frequency
  read_frequency-Typed c t pos v =
      Yields-if c.freq_is_floating_point
        (Yields->>= _ (decode_floating_point_value p buf pos) _
          λ r. Yields.gives (refilled c _ _ _ _ _ v v.phasor v.analog v.digital))
        (Yields->>= _ (two_byte_to_uint16 buf pos) _
          λ w. Yields.gives (refilled c _ _ _ _ _ v v.phasor v.analog v.digital))

  read_rocof-Typed :
      (c : Configuration p.Float) (t : Temps p.Float) (pos : ℕ)
      → ConfigurationTyped c
      → Yields (λ r. ConfigurationTyped r.0) (read_rocof p c t buf pos)
  unfolding read_rocof
  read_rocof-Typed c t pos v =
      Yields-if c.freq_is_floating_point
        (Yields->>= _ (decode_floating_point_value p buf pos) _
          λ r. Yields.gives (refilled c _ _ _ _ _ v v.phasor v.analog v.digital))
        (Yields->>= _ (two_byte_to_uint16 buf pos) _
          λ w. Yields.gives (refilled c _ _ _ _ _ v v.phasor v.analog v.digital))

  read_pmu-Typed :
      (c : Configuration p.Float) (t : Temps p.Float) (pos : ℕ)
      → ConfigurationTyped c
      → Yields (λ r. ConfigurationTyped r.0) (read_pmu p c t buf pos)
  unfolding read_pmu
  read_pmu-Typed c t pos v =
      Yields->>=_with _ (parse_stat_word c buf pos) _ (parse_stat_word-Typed c pos v) λ s hs.
        Yields->>=_with _ (read_phasors p s.0.number_of_phasors s.0 s.0.phasor t buf s.1) _
          (read_phasors-Typed p buf s.0.number_of_phasors s.0 s.0.phasor t s.1 hs.phasor)
          λ xs hx.
            let c1 : Configuration p.Float = record s.0 { phasor = xs.0 } in
            Yields->>=_with _ (read_frequency p c1 xs.1 buf xs.2) _
              (read_frequency-Typed c1 xs.1 xs.2
                (refilled s.0 _ _ _ _ _ hs hx hs.analog hs.digital))
              λ f hf.
                Yields->>=_with _ (read_rocof p f.0 f.1 buf f.2) _ (read_rocof-Typed f.0 f.1 f.2 hf)
                  λ r hr.
                    Yields->>=_with _
                      (read_analogs p r.0.number_of_analogs r.0 r.0.analog r.1 buf r.2) _
                      (read_analogs-Typed p buf r.0.number_of_analogs r.0 r.0.analog r.1 r.2
                        hr.analog)
                      λ ys hy.
                        Yields->>=_with _
                          (read_digitals r.0.number_of_digitals r.0.digital buf ys.2) _
                          (read_digitals-Typed p buf r.0.number_of_digitals r.0.digital ys.2
                            hr.digital)
                          λ ds hd. Yields.gives (refilled r.0 _ _ _ _ _ hr hr.phasor hy hd)

  read_pmus-Typed :
      (n : ℕ) (cs : List (Configuration p.Float)) (t : Temps p.Float) (pos : ℕ)
      → All ConfigurationTyped cs
      → Yields (λ ds. All ConfigurationTyped ds) (read_pmus p n cs t buf pos)
  unfolding read_pmus
  read_pmus-Typed zero cs t pos v = Yields.gives v
  read_pmus-Typed (suc n) [] t pos v = Yields.faults
  read_pmus-Typed (suc n) (c ∷ cs) t pos v =
      Yields->>=_with _ (read_pmu p c t buf pos) _ (read_pmu-Typed c t pos v.0) λ r h.
        Yields->>=_with _ (read_pmus p n cs r.1 buf r.2) _ (read_pmus-Typed n cs r.1 r.2 v.1)
          λ ds k. Yields.gives (h, k)

  read_data-Typed :
      (self : C37118Client p.Float) (t : Temps p.Float) (pos : ℕ)
      → ClientTyped self
      → Yields ClientTyped (read_data p self t buf pos)
  unfolding read_data
  read_data-Typed self t pos v =
      Yields->>=_with _ (parse_time_stamp p self.data_time_stamp self.time_base buf pos) _
        (parse_time_stamp-TimeTyped p _ self.time_base buf pos v.data_time_stamp)
        λ s hs.
          Yields->>=_with _ (read_pmus p self.num_pmu self.configuration t buf s.1) _
            (read_pmus-Typed self.num_pmu self.configuration t s.1 v.configuration)
            λ cs h. Yields.gives (record {
              buffer_snd = v.buffer_snd;
              buffer_rcv = v.buffer_rcv;
              idcode = v.idcode;
              num_pmu = v.num_pmu;
              time_base = v.time_base;
              data_rate = v.data_rate;
              config_time_stamp = v.config_time_stamp;
              header_time_stamp = v.header_time_stamp;
              data_time_stamp = hs;
              configuration = h;
            })

  pub parse_data_frame-Typed :
      (self self' : C37118Client p.Float) (t : Temps p.Float) (size : ℤ)
      → ClientTyped self
      → parse_data_frame p self t buf size ≡ done self'
      → ClientTyped self'
  parse_data_frame-Typed self self' t size v h =
      let (a, r) = (parse_data_frame-IsAddressed p self buf size t self').0 h in
      Yields-inv _ (read_data-Typed self t a.id_end v) r

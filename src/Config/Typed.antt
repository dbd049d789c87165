-- ===== src/Config/Typed.antt =====
-- The integers and texts of a configuration frame that is read from bytes, against their types.
use khorjin.Prelude.{
  ℕ, zero, suc, ◌+◌, ◌-◌, ◌*◌, arith, Option, none, some, List, [], All, IsBytes, IsU16, ◌≡◌, ◌||◌,
  ◌==◌, if◌then◌else◌, Yields, Yields->>=_with, Yields-if, Yields-inv,
}
use khorjin.Prelude.Int.{ℤ}
use khorjin.Prelude.Outcome.{done}
use khorjin.Platform.{Platform}
use khorjin.Types.{C37118Client, Configuration}
use khorjin.Typed.{PhasorTyped, AnalogTyped, DigitalTyped, ConfigurationTyped, ClientTyped}
use khorjin.Wire.Decode.{two_byte_to_uint16, four_byte_to_uint32, copy_name}
use khorjin.Wire.Typed.{
  Yields-two_byte, two_byte_to_uint16-IsU16, four_byte_to_uint32-IsU32, copy_name-IsText,
}
use khorjin.TimeStamp.{parse_time_stamp}
use khorjin.TimeStamp.Typed.{parse_time_stamp-TimeTyped}
use khorjin.Config.Prepare.{
  prepare_phsor, prepare_analog, prepare_digital, prepare_header, first_or, prepare_pmus,
  prepare_configuration,
}
use khorjin.Config.Read.{data_rate_at, read_configuration}
use khorjin.Config.Frame.{parse_configuration_frame}
use khorjin.Config.TypedArrays.{prepare_phsor-Typed, prepare_analog-Typed, prepare_digital-Typed}
use khorjin.DataFrame.Accept.{parse_configuration_frame-IsAddressed}

data_rate_at-IsU16 : (buf : List ℕ) (size : ℕ) → Yields IsU16 (data_rate_at buf size)
unfolding data_rate_at
data_rate_at-IsU16 buf size =
    Yields-if (size == 0 || size == 1 || size == 2 || size == 3) Yields.faults (
      Yields->>=_with _ (two_byte_to_uint16 buf (size - 4)) _
        (two_byte_to_uint16-IsU16 buf (size - 4)) λ r h. Yields.gives h)

module _ (p : Platform) (buf : List ℕ) (bytes : IsBytes buf) where
  prepare_header-Typed : (pos : ℕ) → Yields (λ r. ConfigurationTyped r.0) (prepare_header p buf pos)
  unfolding prepare_header
  prepare_header-Typed pos =
      Yields->>=_with _ (copy_name buf pos) _ (copy_name-IsText buf pos bytes) λ name t.
        Yields-two_byte buf (pos + 16) λ id hid. Yields-two_byte buf id.1 λ format hf.
          Yields-two_byte buf format.1 λ np hp. Yields-two_byte buf np.1 λ na ha.
            Yields-two_byte buf na.1 λ nd hd. Yields.gives (record {
              pmu_idcode = hid;
              station_name = t;
              number_of_phasors = hp;
              number_of_analogs = ha;
              number_of_digitals = hd;
              cfg_cnt = omega arith;
              phasor = tt;
              analog = tt;
              digital = tt;
              data_error = omega arith;
              pmu_time_quality = omega arith;
              unlock_time = omega arith;
              trigger_reason = omega arith;
              stat_word = omega arith;
            })

  prepare_pmus-Typed :
      (n : ℕ) (first : Option (Configuration p.Float)) (pos : ℕ)
      → Yields (λ cs. All ConfigurationTyped cs) (prepare_pmus p n first buf pos)
  unfolding prepare_pmus
  prepare_pmus-Typed zero first pos = Yields.gives tt
  prepare_pmus-Typed (suc n) first pos =
      Yields->>=_with _ (prepare_header p buf pos) _ (prepare_header-Typed pos) λ h v.
        let c : Configuration p.Float = first_or p first h.0 in
        let pos1 : ℕ = h.1 + 16 * c.number_of_phasors in
        let pos2 : ℕ = pos1 + 16 * c.number_of_analogs in
        Yields->>=_with _
          (if h.0.number_of_phasors == 0 then some [] else prepare_phsor p c buf h.1) _
          (Yields-if {P = λ xs. All PhasorTyped xs} _ (Yields.gives tt)
            (prepare_phsor-Typed p buf bytes c h.1))
          λ ps hps.
            Yields->>=_with _
              (if h.0.number_of_analogs == 0 then some [] else prepare_analog p c buf pos1) _
              (Yields-if {P = λ xs. All AnalogTyped xs} _ (Yields.gives tt)
                (prepare_analog-Typed p buf bytes c pos1))
              λ xs hxs.
                Yields->>=_with _
                  (if h.0.number_of_digitals == 0 then some [] else prepare_digital p c buf pos2) _
                  (Yields-if {P = λ xs. All DigitalTyped xs} _ (Yields.gives tt)
                    (prepare_digital-Typed p buf bytes c pos2))
                  λ ds hds. Yields-two_byte buf _ λ fnom hf. Yields-two_byte buf fnom.1 λ cnt hc.
                    Yields->>=_with _ (prepare_pmus p n (some c) buf cnt.1) _
                      (prepare_pmus-Typed n (some c) cnt.1)
                      λ cs hcs. Yields.gives (
                        record {
                          pmu_idcode = v.pmu_idcode;
                          station_name = v.station_name;
                          number_of_phasors = v.number_of_phasors;
                          number_of_analogs = v.number_of_analogs;
                          number_of_digitals = v.number_of_digitals;
                          cfg_cnt = hc;
                          phasor = hps;
                          analog = hxs;
                          digital = hds;
                          data_error = v.data_error;
                          pmu_time_quality = v.pmu_time_quality;
                          unlock_time = v.unlock_time;
                          trigger_reason = v.trigger_reason;
                          stat_word = v.stat_word;
                        },
                        hcs,
                      )

  read_configuration-Typed :
      (self : C37118Client p.Float) (size pos : ℕ)
      → ClientTyped self
      → Yields ClientTyped (read_configuration p self buf size pos)
  unfolding read_configuration prepare_configuration
  read_configuration-Typed self size pos v =
      Yields->>=_with _ (four_byte_to_uint32 buf (pos + 8)) _ (four_byte_to_uint32-IsU32 buf _)
        λ b hb.
          Yields->>=_with _ (parse_time_stamp p self.config_time_stamp 1000 buf (b.1 - 12)) _
            (parse_time_stamp-TimeTyped p _ 1000 buf _ v.config_time_stamp)
            λ s hs. Yields-two_byte buf (s.1 + 4) λ n hn.
              Yields->>=_with _ (data_rate_at buf size) _ (data_rate_at-IsU16 buf size) λ r hr.
                Yields->>=_with _ (prepare_pmus p n.0 none buf n.1) _
                  (prepare_pmus-Typed n.0 none n.1)
                  λ cs hcs. Yields.gives (record {
                    buffer_snd = v.buffer_snd;
                    buffer_rcv = v.buffer_rcv;
                    idcode = v.idcode;
                    num_pmu = hn;
                    time_base = hb;
                    data_rate = hr;
                    config_time_stamp = hs;
                    header_time_stamp = v.header_time_stamp;
                    data_time_stamp = v.data_time_stamp;
                    configuration = hcs;
                  })

  pub parse_configuration_frame-Typed :
      (self self' : C37118Client p.Float) (size : ℤ)
      → ClientTyped self
      → parse_configuration_frame p self buf size ≡ done self'
      → ClientTyped self'
  parse_configuration_frame-Typed self self' size v h =
      let (a, r) = (parse_configuration_frame-IsAddressed p self buf size self').0 h in
      Yields-inv _ (read_configuration-Typed self a.frame_size a.id_end v) r

-- ===== src/DataFrame/Total.antt =====
-- `parseDataFrame` on any bytes, in a buffer that has room for the data frame of the configuration.
use khorjin.Prelude.{
  ℕ, zero, suc, ◌+◌, ◌≤◌, ◌≡◌, refl, ap, arith, some, List, [], ◌∷◌, All, length, get_elem?, Gives,
  Gives->>=,
}
use khorjin.Platform.{Platform, ParsedTime}
use khorjin.Types.{Time, C37118Client, Configuration}
use khorjin.Wire.Decode.{two_byte_to_uint16, three_byte_to_uint32, four_byte_to_uint32}
use khorjin.Wire.Room.{
  get_elem?-Gives, two_byte_to_uint16-Gives, three_byte_to_uint32-Gives, four_byte_to_uint32-Gives,
}
use khorjin.Shape.{HasArrays, IsEquipped, pmu_size, pmus_size}
use khorjin.TimeStamp.{stamp, seconds_with_fraction, parse_time_stamp}
use khorjin.DataFrame.Stat.{apply_stat, parse_stat_word}
use khorjin.DataFrame.Values.{
  Temps, read_phasors, read_frequency, read_rocof, read_analogs, read_digitals,
}
use khorjin.DataFrame.Room.{
  read_phasors-Gives, read_frequency-Gives, read_rocof-Gives, read_analogs-Gives,
  read_digitals-Gives,
}
use khorjin.DataFrame.Pmu.{read_pmu, read_pmus, read_data}

parse_stat_word-Gives :
    {F : Type 0} (c : Configuration F) (buf : List ℕ) (pos : ℕ)
    → pos + 2 ≤ length buf
    → Gives (λ r. (w : ℕ) × (r.0 ≡ apply_stat w c) × (r.1 ≡ pos + 2)) (parse_stat_word c buf pos)
unfolding parse_stat_word
parse_stat_word-Gives c buf pos h =
    Gives->>= _ (two_byte_to_uint16 buf pos) _ (two_byte_to_uint16-Gives buf pos h)
      λ r e. Gives.gives (r.0, refl, e)

module _ (p : Platform) (buf : List ℕ) where
  read_pmu-Gives :
      (c : Configuration p.Float) (t : Temps p.Float) (pos : ℕ)
      → HasArrays c
      → pos + pmu_size c ≤ length buf
      → Gives
          (λ r. HasArrays r.0 × (pmu_size r.0 ≡ pmu_size c) × (r.2 ≡ pos + pmu_size c))
          (read_pmu p c t buf pos)
  unfolding read_pmu apply_stat
  read_pmu-Gives c t pos v h =
      Gives->>= _ (parse_stat_word c buf pos) _ (parse_stat_word-Gives c buf pos (omega arith))
        λ r0 (w, e0, f0). rw e0 (
          Gives->>= _ (read_phasors p c.number_of_phasors (apply_stat w c) c.phasor t buf r0.1) _
            (read_phasors-Gives p buf c.number_of_phasors (apply_stat w c) c.phasor t r0.1 v.phasors
              (omega arith))
            λ r1 (same1, e1).
              let c1 : Configuration p.Float = record (apply_stat w c) { phasor = r1.0 } in
              Gives->>= _ (read_frequency p c1 r1.1 buf r1.2) _
                (read_frequency-Gives p buf c1 r1.1 r1.2 (omega arith))
                λ r2 (f, g, e2, f2). rw e2 (
                  let c2 : Configuration p.Float = record c1 { frequency = f; rocof = g } in
                  Gives->>= _ (read_rocof p c2 r2.1 buf r2.2) _
                    (read_rocof-Gives p buf c2 r2.1 r2.2 (omega arith))
                    λ r3 (f', g', e3, f3). rw e3 (
                      let c3 : Configuration p.Float = record c1 { frequency = f'; rocof = g' } in
                      Gives->>= _ (read_analogs p c.number_of_analogs c3 c.analog r3.1 buf r3.2) _
                        (read_analogs-Gives p buf c.number_of_analogs c3 c.analog r3.1 r3.2
                          v.analogs (omega arith))
                        λ r4 (same4, e4).
                          Gives->>= _ (read_digitals c.number_of_digitals c.digital buf r4.2) _
                            (read_digitals-Gives p buf c.number_of_digitals c.digital r4.2
                              v.digitals v.channels (omega arith))
                            λ r5 (same5, a5, e5). Gives.gives (
                              record {
                                phasors = rw same1 v.phasors;
                                analogs = rw same4 v.analogs;
                                digitals = rw same5 v.digitals;
                                channels = a5;
                              },
                              refl,
                              omega arith,
                            ))))

  -- The PMUs of the list keep their arrays and their sizes.
  read_pmus-Gives :
      (n : ℕ) (cs : List (Configuration p.Float)) (t : Temps p.Float) (pos : ℕ)
      → n ≤ length cs
      → All HasArrays cs
      → pos + pmus_size cs ≤ length buf
      → Gives
          (λ cs'. (length cs' ≡ length cs) × All HasArrays cs' × (pmus_size cs' ≡ pmus_size cs))
          (read_pmus p n cs t buf pos)
  unfolding read_pmus
  read_pmus-Gives zero cs t pos h a k = Gives.gives (refl, a, refl)
  read_pmus-Gives (suc n) [] t pos h a k = absurd (omega arith)
  read_pmus-Gives (suc n) (c ∷ cs) t pos h a k =
      Gives->>= _ (read_pmu p c t buf pos) _ (read_pmu-Gives c t pos a.0 (omega arith))
        λ r (v, same, e).
          Gives->>= _ (read_pmus p n cs r.1 buf r.2) _
            (read_pmus-Gives n cs r.1 r.2 (omega arith) a.1 (omega (arith, k, e)))
            λ cs' (count, a', sizes).
              Gives.gives (ap suc count, (v, a'), omega (arith, same, sizes))

  parse_time_stamp-Gives :
      (t : Time p.Float) (time_base pos : ℕ)
      → pos + 8 ≤ length buf
      → Gives
          (λ r. ((c : ParsedTime p.Float) × (r.0.parsed_time ≡ some c)) × (r.1 ≡ pos + 8))
          (parse_time_stamp p t time_base buf pos)
  unfolding parse_time_stamp stamp seconds_with_fraction
  parse_time_stamp-Gives t time_base pos h =
      Gives->>= _ (four_byte_to_uint32 buf pos) _ (four_byte_to_uint32-Gives buf pos (omega arith))
        λ r e. Gives->>= _ (get_elem? buf r.1) _ (get_elem?-Gives buf r.1 (omega arith)) λ q u.
          Gives->>= _ (three_byte_to_uint32 buf (r.1 + 1)) _
            (three_byte_to_uint32-Gives buf (r.1 + 1) (omega arith))
            λ s f. Gives.gives ((_, refl), omega arith)

-- A client that every data frame has room in and that prints: its arrays, and a buffer of `size` bytes
-- that holds the data frame of its configuration.
pub record IsReady {F : Type 0} (size : ℕ) (self : C37118Client F) : Type 0 where
  pub equipped : IsEquipped self
  pub fits : 14 + pmus_size self.configuration ≤ size

abbrev pub IsDated : {F : Type 0} → C37118Client F → Type 0
IsDated {F} self = (c : ParsedTime F) × (self.data_time_stamp.parsed_time ≡ some c)

-- A client after any data frame: the identification code, the socket and `running` are as they were.
pub record IsAfter {F : Type 0} (size : ℕ) (self self' : C37118Client F) : Type 0 where
  pub ready : IsReady size self'
  pub dated : IsDated self'
  pub idcode : self'.idcode ≡ self.idcode
  pub socket : self'.socket ≡ self.socket
  pub running : self'.running ≡ self.running

module _ (p : Platform) (buf : List ℕ) where
  pub read_data-Gives :
      (self : C37118Client p.Float) (t : Temps p.Float)
      → IsReady (length buf) self
      → Gives (IsAfter (length buf) self) (read_data p self t buf 6)
  unfolding read_data
  read_data-Gives self t v =
      let room : 14 + pmus_size self.configuration ≤ length buf = v.fits in
      Gives->>= _ (parse_time_stamp p self.data_time_stamp self.time_base buf 6) _
        (parse_time_stamp-Gives p buf self.data_time_stamp self.time_base 6 (omega arith))
        λ s (dated, e).
          Gives->>= _ (read_pmus p self.num_pmu self.configuration t buf s.1) _
            (read_pmus-Gives p buf self.num_pmu self.configuration t s.1 v.equipped.num_pmu
              v.equipped.pmus (omega arith))
            λ cs (count, a, sizes). Gives.gives (record {
              ready = record {
                equipped = record { num_pmu = rw count v.equipped.num_pmu; pmus = a };
                fits = rw sizes v.fits;
              };
              dated = dated;
              idcode = refl;
              socket = refl;
              running = refl;
            })

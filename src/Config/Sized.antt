-- ===== src/Config/Sized.antt =====
-- The array of a configuration frame, whatever the frame holds.
use khorjin.Prelude.{
  ℕ, zero, suc, ◌≡◌, refl, ap, Option, none, some, List, [], length, ◌+◌, ◌-◌, Yields-inv, ◌*◌,
  ◌==◌, if◌then◌else◌, Yields, Yields->>=, Yields->>=_with,
}
use khorjin.Platform.{Platform}
use khorjin.Types.{C37118Client, Configuration}
use khorjin.Config.Prepare.{
  prepare_pmus, prepare_configuration, prepare_header, first_or, prepare_phsor, prepare_analog,
  prepare_digital,
}
use khorjin.Prelude.Int.{ℤ}
use khorjin.Prelude.Outcome.{done}
use khorjin.TimeStamp.{parse_time_stamp}
use khorjin.Config.Frame.{parse_configuration_frame}
use khorjin.DataFrame.Accept.{parse_configuration_frame-IsAddressed}
use khorjin.Wire.Decode.{four_byte_to_uint32, two_byte_to_uint16}
use khorjin.Config.Read.{data_rate_at, read_configuration}

module _ (p : Platform) where
  -- As many structures as rounds.
  prepare_pmus-length :
      (n : ℕ) (first : Option (Configuration p.Float)) (buf : List ℕ) (pos : ℕ)
      → Yields (λ cs. length cs ≡ n) (prepare_pmus p n first buf pos)
  unfolding prepare_pmus
  prepare_pmus-length zero first buf pos = Yields.gives refl
  prepare_pmus-length (suc n) first buf pos = Yields->>= _ (prepare_header p buf pos) _ λ h.
      let c : Configuration p.Float = first_or p first h.0 in
      let pos1 : ℕ = h.1 + 16 * c.number_of_phasors in
      let pos2 : ℕ = pos1 + 16 * c.number_of_analogs in
      let pos3 : ℕ =
        pos2
        + (16 * 16 * h.0.number_of_digitals
            + 4 * (h.0.number_of_analogs + h.0.number_of_digitals + h.0.number_of_phasors)) in
      Yields->>= _ (if h.0.number_of_phasors == 0 then some [] else prepare_phsor p c buf h.1) _
        λ ps.
          Yields->>= _ (if h.0.number_of_analogs == 0 then some [] else prepare_analog p c buf pos1)
            _
            λ xs.
              Yields->>= _
                (if h.0.number_of_digitals == 0 then some [] else prepare_digital p c buf pos2) _
                λ ds. Yields->>= _ (two_byte_to_uint16 buf pos3) _ λ fnom.
                  Yields->>= _ (two_byte_to_uint16 buf fnom.1) _ λ cfgcnt.
                    Yields->>=_with _ (prepare_pmus p n (some c) buf cfgcnt.1) _
                      (prepare_pmus-length n (some c) buf cfgcnt.1)
                      (λ cs e. Yields.gives (ap suc e))

  -- What both parsers leave alone, and that the count of PMUs is that of the structures.
  pub record Follows (self self' : C37118Client p.Float) : Type 0 where
    pub idcode : self'.idcode ≡ self.idcode
    pub socket : self'.socket ≡ self.socket
    pub running : self'.running ≡ self.running
    pub sized : length self'.configuration ≡ self'.num_pmu

  read_configuration-Follows :
      (self : C37118Client p.Float) (buf : List ℕ) (size pos : ℕ)
      → Yields (Follows self) (read_configuration p self buf size pos)
  unfolding read_configuration prepare_configuration
  read_configuration-Follows self buf size pos =
      Yields->>= _ (four_byte_to_uint32 buf (pos + 8)) _ λ b.
        Yields->>= _ (parse_time_stamp p self.config_time_stamp 1000 buf (b.1 - 12)) _ λ s.
          Yields->>= _ (two_byte_to_uint16 buf (s.1 + 4)) _ λ n.
            Yields->>= _ (data_rate_at buf size) _ λ r.
              Yields->>=_with _ (prepare_pmus p n.0 none buf n.1) _
                (prepare_pmus-length n.0 none buf n.1)
                (λ cs e.
                  Yields.gives (record { idcode = refl; socket = refl; running = refl; sized = e }))

  pub parse_configuration_frame-Follows :
      (self self' : C37118Client p.Float) (buf : List ℕ) (size : ℤ)
      → parse_configuration_frame p self buf size ≡ done self'
      → Follows self self'
  parse_configuration_frame-Follows self self' buf size h =
      let (v, r) = (parse_configuration_frame-IsAddressed p self buf size self').0 h in
      Yields-inv _ (read_configuration-Follows self buf v.frame_size v.id_end) r

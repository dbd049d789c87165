-- ===== src/Config/Overrun.antt =====
-- Configuration frames whose count of PMUs the buffer has no room for.
use khorjin.Prelude.{
  ℕ, zero, suc, ◌+◌, ◌*◌, ◌-◌, ◌<◌, ◌≤◌, ◌≡◌, refl, ap, ◌∙◌, arith, Option, none, some, List, [],
  ◌∷◌, length, get_elem?, ◌==◌, if◌then◌else◌, Yields, Yields->>=, Yields->>=_with, Yields->>=_by,
  Yields-inv, Yields-none,
}
use khorjin.Prelude.Int.{ℤ}
use khorjin.Prelude.Outcome.{fault, access}
use khorjin.Platform.{Platform}
use khorjin.Types.{C37118Client, Time, Configuration}
use khorjin.Checks.{IsAddressed, IsAddressed-checked}
use khorjin.Wire.Decode.{two_byte_to_uint16, four_byte_to_uint32, three_byte_to_uint32, copy_name}
use khorjin.TimeStamp.{parse_time_stamp}
use khorjin.Config.Prepare.{
  prepare_header, first_or, prepare_phsor, prepare_analog, prepare_digital, prepare_pmus,
  prepare_configuration,
}
use khorjin.Config.Read.{data_rate_at, read_configuration}
use khorjin.Config.Frame.{parse_configuration_frame}

get_elem?-Yields : (xs : List ℕ) (i : ℕ) → Yields (λ x. i < length xs) (get_elem? xs i)
get_elem?-Yields [] i = Yields.faults
get_elem?-Yields (x ∷ xs) zero = Yields.gives (omega arith)
get_elem?-Yields (x ∷ xs) (suc i) = deeper (get_elem? xs i) (get_elem?-Yields xs i)
  where
    deeper :
        (m : Option ℕ) → Yields (λ x. i < length xs) m → Yields (λ x. suc i < suc (length xs)) m
    deeper none u = Yields.faults
    deeper (some a) (Yields.gives h) = Yields.gives (omega (arith, h))

two_byte_to_uint16-Yields :
    (buf : List ℕ) (pos : ℕ)
    → Yields (λ r. (r.1 ≡ pos + 2) × (pos + 2 ≤ length buf)) (two_byte_to_uint16 buf pos)
unfolding two_byte_to_uint16
two_byte_to_uint16-Yields buf pos = Yields->>= _ (get_elem? buf pos) _ λ a.
    Yields->>=_with _ (get_elem? buf (pos + 1)) _ (get_elem?-Yields buf (pos + 1))
      λ b h. Yields.gives (refl, omega (arith, h))

four_byte_to_uint32-Yields :
    (buf : List ℕ) (pos : ℕ) → Yields (λ r. r.1 ≡ pos + 4) (four_byte_to_uint32 buf pos)
unfolding four_byte_to_uint32
four_byte_to_uint32-Yields buf pos = Yields->>= _ (get_elem? buf pos) _ λ a.
    Yields->>= _ (get_elem? buf (pos + 1)) _ λ b.
      Yields->>= _ (get_elem? buf (pos + 2)) _
        λ c. Yields->>= _ (get_elem? buf (pos + 3)) _ λ d. Yields.gives refl

three_byte_to_uint32-Yields :
    (buf : List ℕ) (pos : ℕ) → Yields (λ r. r.1 ≡ pos + 3) (three_byte_to_uint32 buf pos)
unfolding three_byte_to_uint32
three_byte_to_uint32-Yields buf pos = Yields->>= _ (get_elem? buf pos) _ λ a.
    Yields->>= _ (get_elem? buf (pos + 1)) _
      λ b. Yields->>= _ (get_elem? buf (pos + 2)) _ λ c. Yields.gives refl

module _ (p : Platform) where
  parse_time_stamp-Yields :
      (t : Time p.Float) (time_base : ℕ) (buf : List ℕ) (pos : ℕ)
      → Yields (λ r. r.1 ≡ pos + 8) (parse_time_stamp p t time_base buf pos)
  unfolding parse_time_stamp
  parse_time_stamp-Yields t time_base buf pos =
      Yields->>=_with _ (four_byte_to_uint32 buf pos) _ (four_byte_to_uint32-Yields buf pos) λ r e.
        Yields->>= _ (get_elem? buf r.1) _ λ q.
          Yields->>=_with _ (three_byte_to_uint32 buf (r.1 + 1)) _
            (three_byte_to_uint32-Yields buf (r.1 + 1)) λ s f. Yields.gives (omega arith)

  -- The header of a PMU is 26 bytes.
  prepare_header-Yields :
      (buf : List ℕ) (pos : ℕ) → Yields (λ r. r.1 ≡ pos + 26) (prepare_header p buf pos)
  unfolding prepare_header
  prepare_header-Yields buf pos = Yields->>= _ (copy_name buf pos) _ λ name.
      Yields->>=_with _ (two_byte_to_uint16 buf (pos + 16)) _
        (two_byte_to_uint16-Yields buf (pos + 16))
        λ r1 (e1, h1).
          Yields->>=_with _ (two_byte_to_uint16 buf r1.1) _ (two_byte_to_uint16-Yields buf r1.1)
            λ r2 (e2, h2).
              Yields->>=_with _ (two_byte_to_uint16 buf r2.1) _ (two_byte_to_uint16-Yields buf r2.1)
                λ r3 (e3, h3).
                  Yields->>=_with _ (two_byte_to_uint16 buf r3.1) _
                    (two_byte_to_uint16-Yields buf r3.1)
                    λ r4 (e4, h4).
                      Yields->>=_with _ (two_byte_to_uint16 buf r4.1) _
                        (two_byte_to_uint16-Yields buf r4.1)
                        λ r5 (e5, h5). Yields.gives (omega arith)

  -- A PMU takes 30 bytes at least, so the array is made only if there are 30 bytes for each.
  prepare_pmus-room :
      (n : ℕ) (first : Option (Configuration p.Float)) (buf : List ℕ) (pos : ℕ)
      → pos ≤ length buf
      → Yields (λ cs. pos + 30 * n ≤ length buf) (prepare_pmus p n first buf pos)
  unfolding prepare_pmus
  prepare_pmus-room zero first buf pos k = Yields.gives (omega arith)
  prepare_pmus-room (suc n) first buf pos k =
      Yields->>=_with _ (prepare_header p buf pos) _ (prepare_header-Yields buf pos) λ h e.
        let c : Configuration p.Float = first_or p first h.0 in
        let pos1 : ℕ = h.1 + 16 * c.number_of_phasors in
        let pos2 : ℕ = pos1 + 16 * c.number_of_analogs in
        let pos3 : ℕ =
          pos2
          + (16 * 16 * h.0.number_of_digitals
              + 4 * (h.0.number_of_analogs + h.0.number_of_digitals + h.0.number_of_phasors)) in
        Yields->>= _ (if h.0.number_of_phasors == 0 then some [] else prepare_phsor p c buf h.1) _
          λ ps.
            Yields->>= _
              (if h.0.number_of_analogs == 0 then some [] else prepare_analog p c buf pos1) _
              λ xs.
                Yields->>= _
                  (if h.0.number_of_digitals == 0 then some [] else prepare_digital p c buf pos2) _
                  λ ds.
                    Yields->>=_with _ (two_byte_to_uint16 buf pos3) _
                      (two_byte_to_uint16-Yields buf pos3)
                      λ fnom (e1, h1).
                        Yields->>=_with _ (two_byte_to_uint16 buf fnom.1) _
                          (two_byte_to_uint16-Yields buf fnom.1)
                          λ cfgcnt (e2, h2).
                            Yields->>=_with _ (prepare_pmus p n (some c) buf cfgcnt.1) _
                              (prepare_pmus-room n (some c) buf cfgcnt.1 (omega arith))
                              (λ cs more. Yields.gives (omega arith))

  -- The count of PMUs is the word at byte 18.
  read_configuration-room :
      (self : C37118Client p.Float) (buf : List ℕ) (size : ℕ)
      → Yields
          (λ (self' : C37118Client p.Float).
            (num_pmu : ℕ) × (two_byte_to_uint16 buf 18 ≡ some (num_pmu, 20))
            × (20 + 30 * num_pmu ≤ length buf))
          (read_configuration p self buf size 6)
  unfolding read_configuration prepare_configuration
  read_configuration-room self buf size =
      Yields->>=_with _ (four_byte_to_uint32 buf 14) _ (four_byte_to_uint32-Yields buf 14) λ b e.
        Yields->>=_with _ (parse_time_stamp p self.config_time_stamp 1000 buf (b.1 - 12)) _
          (parse_time_stamp-Yields self.config_time_stamp 1000 buf (b.1 - 12))
          λ s f.
            let at : s.1 + 4 ≡ 18 = omega arith in
            rw at (
              Yields->>=_by _ (two_byte_to_uint16 buf 18) _ λ n same.
                let (past, room) = Yields-inv _ (two_byte_to_uint16-Yields buf 18) same in
                Yields->>= _ (data_rate_at buf size) _ λ r.
                  Yields->>=_with _ (prepare_pmus p n.0 none buf n.1) _
                    (prepare_pmus-room n.0 none buf n.1 (omega arith))
                    λ cs more. Yields.gives (n.0, same ∙ ap (λ k. some (n.0, k)) past, omega arith))

  -- If a frame passes the five checks of `parseConfigurationFrame`, and 30 bytes for each of the PMUs
  -- that its word at byte 18 counts, with the 20 in front of them, are more than the buffer has, then
  -- the parser reads outside the buffer: no check compares the count with the size of the frame.
  pub parse_configuration_frame-overrun :
      (self : C37118Client p.Float) (buf : List ℕ) (size : ℤ) (num_pmu : ℕ)
      → IsAddressed 0x31 self.idcode buf size
      → two_byte_to_uint16 buf 18 ≡ some (num_pmu, 20)
      → length buf < 20 + 30 * num_pmu
      → parse_configuration_frame p self buf size ≡ fault
  unfolding parse_configuration_frame
  parse_configuration_frame-overrun self buf size num_pmu v e h =
      let (past, room) = Yields-inv _ (two_byte_to_uint16-Yields buf 2) v.reads_size in
      let (past', room') = Yields-inv _ (two_byte_to_uint16-Yields buf v.size_end) v.reads_id in
      let six : v.id_end ≡ 6 = omega arith in
      let fails : read_configuration p self buf v.frame_size 6 ≡ none =
        Yields-none (read_configuration-room self buf v.frame_size)
          (λ self' (k, e', more). let same : k ≡ num_pmu = cc in omega (arith, same, more, h)) in
      IsAddressed-checked 0x31 self.idcode buf size
        (λ frame_size id_code buf_pos.
          access (read_configuration p (record self { idcode = id_code }) buf frame_size buf_pos))
        v
      ∙ rw six (ap access fails)

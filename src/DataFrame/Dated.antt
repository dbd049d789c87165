-- ===== src/DataFrame/Dated.antt =====
-- The calendar that a frame which is read puts into its time stamp.
use khorjin.Prelude.{
  ℕ, ◌+◌, ◌-◌, ◌≡◌, refl, some, List, get_elem?, ◌==◌, Bool-cases, inl, inr, Yields, Yields->>=,
  Yields->>=_with,
}
use khorjin.Platform.{Platform, ParsedTime}
use khorjin.Types.{C37118Client, Time}
use khorjin.Wire.Decode.{two_byte_to_uint16, three_byte_to_uint32, four_byte_to_uint32}
use khorjin.TimeStamp.{
  overwritten, scale_fraction, set_parsed_time, seconds_with_fraction, stamp, parse_time_stamp,
}
use khorjin.Config.Prepare.{prepare_configuration}
use khorjin.Config.Read.{data_rate_at, read_configuration}
use khorjin.DataFrame.Values.{Temps}
use khorjin.DataFrame.Pmu.{read_pmus, read_data}

-- What a time stamp is after `parseTimeStamp`: its pointer is set again, and the structure that it had
-- is lost.
abbrev pub Reset : {F : Type 0} → Time F → Time F → Type 0
Reset {F} old new =
    ((c : ParsedTime F) × (new.parsed_time ≡ some c))
    × (new.lost ≡ overwritten old.parsed_time old.lost)

module _ (p : Platform) where
  scale_fraction-lost :
      (time_base soc fracsec : ℕ) (t : Time p.Float)
      → (scale_fraction p time_base soc fracsec t).lost ≡ t.lost
  unfolding scale_fraction
  scale_fraction-lost time_base soc fracsec t = elim (Bool-cases (time_base == 0)) [
    | inl e ↦ rw e refl
    | inr e ↦ rw e refl
  ]

module _ (p : Platform) (buf : List ℕ) where
  parse_time_stamp-Reset :
      (t : Time p.Float) (time_base pos : ℕ)
      → Yields (λ r. Reset t r.0) (parse_time_stamp p t time_base buf pos)
  unfolding parse_time_stamp stamp seconds_with_fraction set_parsed_time
  parse_time_stamp-Reset t time_base pos = Yields->>= _ (four_byte_to_uint32 buf pos) _ λ s.
      Yields->>= _ (get_elem? buf s.1) _ λ q.
        Yields->>= _ (three_byte_to_uint32 buf (s.1 + 1)) _
          λ f. Yields.gives ((_, refl), scale_fraction-lost p time_base s.0 f.0 _)

  pub read_configuration-Reset :
      (self : C37118Client p.Float) (size pos : ℕ)
      → Yields
          (λ r.
            Reset self.config_time_stamp r.config_time_stamp
            × (r.data_time_stamp ≡ self.data_time_stamp))
          (read_configuration p self buf size pos)
  unfolding read_configuration
  read_configuration-Reset self size pos = Yields->>= _ (four_byte_to_uint32 buf (pos + 8)) _ λ b.
      Yields->>=_with _ (parse_time_stamp p self.config_time_stamp 1000 buf (b.1 - 12)) _
        (parse_time_stamp-Reset self.config_time_stamp 1000 (b.1 - 12))
        λ s h. Yields->>= _ (two_byte_to_uint16 buf (s.1 + 4)) _ λ n.
          Yields->>= _ (data_rate_at buf size) _
            λ r. Yields->>= _ (prepare_configuration p n.0 buf n.1) _ λ cs. Yields.gives (h, refl)

  pub read_data-Reset :
      (self : C37118Client p.Float) (t : Temps p.Float) (pos : ℕ)
      → Yields
          (λ r.
            Reset self.data_time_stamp r.data_time_stamp
            × (r.config_time_stamp ≡ self.config_time_stamp))
          (read_data p self t buf pos)
  unfolding read_data
  read_data-Reset self t pos =
      Yields->>=_with _ (parse_time_stamp p self.data_time_stamp self.time_base buf pos) _
        (parse_time_stamp-Reset self.data_time_stamp self.time_base pos)
        λ s h.
          Yields->>= _ (read_pmus p self.num_pmu self.configuration t buf s.1) _
            λ cs. Yields.gives (h, refl)

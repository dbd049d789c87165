-- ===== src/DataFrame/Sized.antt =====
-- What `parseDataFrame` leaves alone, whatever the frame holds.
use khorjin.Prelude.{
  ℕ, zero, suc, ◌≡◌, refl, ap, ◌∙◌, List, [], ◌∷◌, length, Yields, Yields->>=, Yields->>=_with,
  Yields-inv,
}
use khorjin.Prelude.Int.{ℤ}
use khorjin.Prelude.Outcome.{done}
use khorjin.Platform.{Platform}
use khorjin.Types.{C37118Client, Configuration}
use khorjin.TimeStamp.{parse_time_stamp}
use khorjin.Config.Sized.{Follows}
use khorjin.DataFrame.Values.{Temps}
use khorjin.DataFrame.Pmu.{read_pmu, read_pmus, read_data}
use khorjin.DataFrame.Frame.{parse_data_frame}
use khorjin.DataFrame.Accept.{parse_data_frame-IsAddressed}

module _ (p : Platform) where
  read_pmus-length :
      (n : ℕ) (cs : List (Configuration p.Float)) (t : Temps p.Float) (buf : List ℕ) (pos : ℕ)
      → Yields (λ cs'. length cs' ≡ length cs) (read_pmus p n cs t buf pos)
  unfolding read_pmus
  read_pmus-length zero cs t buf pos = Yields.gives refl
  read_pmus-length (suc n) [] t buf pos = Yields.faults
  read_pmus-length (suc n) (c ∷ cs) t buf pos = Yields->>= _ (read_pmu p c t buf pos) _ λ r.
      Yields->>=_with _ (read_pmus p n cs r.1 buf r.2) _ (read_pmus-length n cs r.1 buf r.2)
        (λ cs' e. Yields.gives (ap suc e))

  read_data-Follows :
      (self : C37118Client p.Float) (t : Temps p.Float) (buf : List ℕ) (pos : ℕ)
      → length self.configuration ≡ self.num_pmu
      → Yields (Follows p self) (read_data p self t buf pos)
  unfolding read_data
  read_data-Follows self t buf pos h =
      Yields->>= _ (parse_time_stamp p self.data_time_stamp self.time_base buf pos) _ λ s.
        Yields->>=_with _ (read_pmus p self.num_pmu self.configuration t buf s.1) _
          (read_pmus-length self.num_pmu self.configuration t buf s.1)
          (λ cs e.
            Yields.gives (record { idcode = refl; socket = refl; running = refl; sized = e ∙ h }))

  pub parse_data_frame-Follows :
      (self self' : C37118Client p.Float) (t : Temps p.Float) (buf : List ℕ) (size : ℤ)
      → length self.configuration ≡ self.num_pmu
      → parse_data_frame p self t buf size ≡ done self'
      → Follows p self self'
  parse_data_frame-Follows self self' t buf size h e =
      let (v, r) = (parse_data_frame-IsAddressed p self buf size t self').0 e in
      Yields-inv _ (read_data-Follows self t buf v.id_end h) r

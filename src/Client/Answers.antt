-- ===== src/Client/Answers.antt =====
-- What the query functions tell the application before and after the receiver loop.
use khorjin.Prelude.{
  ℕ, zero, suc, ◌+◌, ◌≡◌, refl, ap, sym, ◌∙◌, Bool, Option, List, [], ◌∷◌, ◌>>=◌, map, get_elem?,
}
use mathlib.Core.Path.{fun_ext}
use khorjin.Platform.{Platform}
use khorjin.Print.{Line}
use khorjin.Pal.{Pal, returns, Returns-inv}
use khorjin.Types.{C37118Client, Configuration}
use khorjin.DataFrame.Values.{Temps}
use khorjin.DataFrame.Layout.{blank, blank_phasor, blank_analog, SameLayout}
use khorjin.Client.Stream.{receiver_loop}
use khorjin.Client.Steady.{receiver_loop-SameLayout}
use khorjin.Client.Query.{
  ConfArrays, conf_pmu, conf_pmus, get_conf_pdc, get_conf_pmu, get_conf_pmu_station_name,
  get_conf_pmu_channel_name, get_conf_pmu_analogs,
}

-- A reader that does not look at what `f` takes away gives the same on lists that agree behind `f`.
module _ {A B : Type 0} (f : A → A) (g : A → Option B) (blind : (x : A) → g (f x) ≡ g x) where
  get_elem?-blind : (xs : List A) (i : ℕ) → (get_elem? (map f xs) i >>= g) ≡ (get_elem? xs i >>= g)
  get_elem?-blind [] i = refl
  get_elem?-blind (x ∷ xs) zero = blind x
  get_elem?-blind (x ∷ xs) (suc i) = get_elem?-blind xs i

  get_elem?-agree :
      (xs ys : List A) (i : ℕ)
      → map f xs ≡ map f ys
      → (get_elem? xs i >>= g) ≡ (get_elem? ys i >>= g)
  get_elem?-agree xs ys i e =
      sym (get_elem?-blind xs i)
      ∙ ap (λ (zs : List A). get_elem? zs i >>= g) e
      ∙ get_elem?-blind ys i

module _ (p : Platform) where
  -- All that the functions on the configuration give out.
  pub record SameAnswers (self self' : C37118Client p.Float) : Type 0 where
    pub pdc : get_conf_pdc self' ≡ get_conf_pdc self
    pub pmu : (out : ConfArrays p.Float) → get_conf_pmu self' out ≡ get_conf_pmu self out
    pub station_name :
        (i : ℕ) → get_conf_pmu_station_name self' i ≡ get_conf_pmu_station_name self i
    pub channel_name :
        (i j : ℕ) → get_conf_pmu_channel_name self' i j ≡ get_conf_pmu_channel_name self i j
    pub analogs : (i j : ℕ) → get_conf_pmu_analogs self' i j ≡ get_conf_pmu_analogs self i j

  conf_pmus-blank :
      (n : ℕ) (cs : List (Configuration p.Float)) (i : ℕ) (out : ConfArrays p.Float)
      → conf_pmus n (map (blank p) cs) i out ≡ conf_pmus n cs i out
  unfolding conf_pmus conf_pmu
  conf_pmus-blank zero cs i out = refl
  conf_pmus-blank (suc n) [] i out = refl
  conf_pmus-blank (suc n) (c ∷ cs) i out =
      ap (λ k. conf_pmu c i out >>= k) (fun_ext (λ out'. conf_pmus-blank n cs (i + 1) out'))

  module _ (self self' : C37118Client p.Float) (v : SameLayout p self self') where
    pmu_agrees : (out : ConfArrays p.Float) → get_conf_pmu self' out ≡ get_conf_pmu self out
    unfolding get_conf_pmu
    pmu_agrees out =
        sym (conf_pmus-blank self'.num_pmu self'.configuration 0 out)
        ∙ ap (λ cs. conf_pmus self'.num_pmu cs 0 out) v.configuration
        ∙ conf_pmus-blank self'.num_pmu self.configuration 0 out
        ∙ ap (λ n. conf_pmus n self.configuration 0 out) v.num_pmu

    station_name_agrees :
        (i : ℕ) → get_conf_pmu_station_name self' i ≡ get_conf_pmu_station_name self i
    unfolding get_conf_pmu_station_name
    station_name_agrees i =
        get_elem?-agree (blank p) _ (λ c. refl) self'.configuration self.configuration i
          v.configuration

    channel_name_agrees :
        (i j : ℕ) → get_conf_pmu_channel_name self' i j ≡ get_conf_pmu_channel_name self i j
    unfolding get_conf_pmu_channel_name
    channel_name_agrees i j =
        get_elem?-agree (blank p) _ (λ c. get_elem?-blind (blank_phasor p) _ (λ x. refl) c.phasor j)
          self'.configuration self.configuration i v.configuration

    analogs_agree : (i j : ℕ) → get_conf_pmu_analogs self' i j ≡ get_conf_pmu_analogs self i j
    unfolding get_conf_pmu_analogs
    analogs_agree i j =
        get_elem?-agree (blank p) _ (λ c. get_elem?-blind (blank_analog p) _ (λ x. refl) c.analog j)
          self'.configuration self.configuration i v.configuration

    pdc_agrees : get_conf_pdc self' ≡ get_conf_pdc self
    unfolding get_conf_pdc
    pdc_agrees = rw (v.num_pmu, v.data_rate, v.config_time_stamp) refl

  -- When the receiver loop returns, then whatever the server has sent, and whenever it was stopped, each
  -- of the five query functions gives out what it gave before the loop, for every PMU and channel.
  pub receiver_loop-SameAnswers :
      (pal : Pal) (rounds : ℕ) (schedule : List (Bool × Temps p.Float))
      (self self' : C37118Client p.Float) (w w' : pal.World) (lines : List (Line p.Float))
      → receiver_loop p pal rounds schedule self w ≡ returns (lines, self', w')
      → SameAnswers self self'
  receiver_loop-SameAnswers pal rounds schedule self self' w w' lines e =
      let v : SameLayout p self self' =
        Returns-inv _ (receiver_loop-SameLayout p pal rounds schedule self w) e in
      record {
        pdc = pdc_agrees self self' v;
        pmu = pmu_agrees self self' v;
        station_name = station_name_agrees self self' v;
        channel_name = channel_name_agrees self self' v;
        analogs = analogs_agree self self' v;
      }

-- ===== src/Client/ConfRoom.antt =====
-- The six arrays of `c37_118client_getConf_pmu` have room for all that it has written.
use khorjin.Prelude.{
  ℕ, zero, suc, ◌+◌, ◌≤◌, ◌<◌, ◌≡◌, refl, arith, Option, List, [], ◌∷◌, length, Yields,
  Yields->>=_with,
}
use mathlib.Core.Path.{subst}
use khorjin.Types.{Configuration}
use khorjin.Wire.Encode.{store}
use khorjin.Client.Query.{ConfArrays, conf_pmu, conf_pmus}

-- A write stands inside the array and keeps its length.
abbrev Inside : {A : Type 0} → List A → ℕ → List A → Type 0
Inside xs i xs' = (i < length xs) × (length xs' ≡ length xs)

store-Yields : {A : Type 0} (xs : List A) (i : ℕ) (v : A) → Yields (Inside xs i) (store xs i v)
unfolding store
store-Yields [] i v = Yields.faults
store-Yields (x ∷ xs) zero v = Yields.gives (omega arith, refl)
store-Yields (x ∷ xs) (suc i) v =
    Yields->>=_with _ (store xs i v) _ (store-Yields xs i v)
      (λ xs' h. Yields.gives (omega (arith, h.0), omega (arith, h.1)))

module _ {F : Type 0} where
  -- Each array has room for `n` PMUs.
  pub record HasRoom (n : ℕ) (old : ConfArrays F) : Type 0 where
    pub num_phasors : n ≤ length old.num_phasors
    pub num_analog : n ≤ length old.num_analog
    pub numdigital : n ≤ length old.numdigital
    pub freq_nom : n ≤ length old.freq_nom
    pub config_count : n ≤ length old.config_count
    pub id_code : n ≤ length old.id_code

  record SameRoom (old new : ConfArrays F) : Type 0 where
    num_phasors : length new.num_phasors ≡ length old.num_phasors
    num_analog : length new.num_analog ≡ length old.num_analog
    numdigital : length new.numdigital ≡ length old.numdigital
    freq_nom : length new.freq_nom ≡ length old.freq_nom
    config_count : length new.config_count ≡ length old.config_count
    id_code : length new.id_code ≡ length old.id_code

  HasRoom-SameRoom :
      (n : ℕ) (old new : ConfArrays F) → SameRoom old new → HasRoom n new → HasRoom n old
  HasRoom-SameRoom n old new s r = record {
    num_phasors = omega (arith, s.num_phasors, r.num_phasors);
    num_analog = omega (arith, s.num_analog, r.num_analog);
    numdigital = omega (arith, s.numdigital, r.numdigital);
    freq_nom = omega (arith, s.freq_nom, r.freq_nom);
    config_count = omega (arith, s.config_count, r.config_count);
    id_code = omega (arith, s.id_code, r.id_code);
  }

  conf_pmu-Yields :
      (c : Configuration F) (i : ℕ) (out : ConfArrays F)
      → Yields (λ new. HasRoom (i + 1) new × SameRoom out new) (conf_pmu c i out)
  unfolding conf_pmu
  conf_pmu-Yields c i out =
      Yields->>=_with _ (store out.num_phasors i _) _ (store-Yields _ i _) λ a ha.
        Yields->>=_with _ (store out.num_analog i _) _ (store-Yields _ i _) λ b hb.
          Yields->>=_with _ (store out.numdigital i _) _ (store-Yields _ i _) λ d hd.
            Yields->>=_with _ (store out.freq_nom i _) _ (store-Yields _ i _) λ e he.
              Yields->>=_with _ (store out.config_count i _) _ (store-Yields _ i _) λ f hf.
                Yields->>=_with _ (store out.id_code i _) _ (store-Yields _ i _) λ g hg.
                  Yields.gives (
                    record {
                      num_phasors = omega (arith, ha.0, ha.1);
                      num_analog = omega (arith, hb.0, hb.1);
                      numdigital = omega (arith, hd.0, hd.1);
                      freq_nom = omega (arith, he.0, he.1);
                      config_count = omega (arith, hf.0, hf.1);
                      id_code = omega (arith, hg.0, hg.1);
                    },
                    record {
                      num_phasors = ha.1;
                      num_analog = hb.1;
                      numdigital = hd.1;
                      freq_nom = he.1;
                      config_count = hf.1;
                      id_code = hg.1;
                    },
                  )

  pub conf_pmus-Yields :
      (n i : ℕ) (cs : List (Configuration F)) (out : ConfArrays F)
      → HasRoom i out
      → Yields (λ _. HasRoom (i + n) out) (conf_pmus n cs i out)
  unfolding conf_pmus
  conf_pmus-Yields zero i cs out r = Yields.gives (subst (λ k. HasRoom k out) (omega arith) r)
  conf_pmus-Yields (suc n) i [] out r = Yields.faults
  conf_pmus-Yields (suc n) i (c ∷ cs) out r =
      Yields->>=_with _ (conf_pmu c i out) _ (conf_pmu-Yields c i out) λ new h.
        Yields-map (conf_pmus-Yields n (i + 1) cs new h.0) (λ _ r'.
          HasRoom-SameRoom (i + suc n) out new h.1 (subst (λ k. HasRoom k new) (omega arith) r'))
    where
      Yields-map :
          {A : Type 0} {P Q : A → Type 0} {m : Option A}
          → Yields P m
          → ((a : A) → P a → Q a)
          → Yields Q m
      Yields-map Yields.faults f = Yields.faults
      Yields-map (Yields.gives x) f = Yields.gives (f _ x)

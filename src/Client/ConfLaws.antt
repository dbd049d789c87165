-- ===== src/Client/ConfLaws.antt =====
-- `c37_118client_getConf_pmu` on a client that a configuration frame has configured.
use khorjin.Prelude.{
  ℕ, suc, ◌+◌, ◌≡◌, ◌↔◌, refl, sym, ap, ◌∙◌, Yields-inv, arith, some, List, [], ◌∷◌, ◌++◌, map,
  length, length-drop, drop,
}
use mathlib.Core.Path.{subst}
use khorjin.Platform.{Platform}
use khorjin.Types.{C37118Client}
use khorjin.Config.Spec.{PmuSpec, configuration_of, nominal_of}
use khorjin.Config.Received.{ConfigFrame, configured, pmus}
use khorjin.Client.Query.{ConfArrays, conf_pmu, conf_pmus, get_conf_pmu}
use khorjin.Client.ConfRoom.{HasRoom, conf_pmus-Yields}
use khorjin.Client.Written.{over, over-step, store-first, length-behind}

module _ (p : Platform) where
  -- The arrays after the call: the numbers of the PMUs over the front of each.
  abbrev pub described : List PmuSpec → ConfArrays p.Float → ConfArrays p.Float
  described ss old = record {
    num_phasors = over (map (λ (s : PmuSpec). length s.phasors) ss) old.num_phasors;
    num_analog = over (map (λ (s : PmuSpec). length s.analogs) ss) old.num_analog;
    numdigital = over (map (λ (s : PmuSpec). length s.digitals) ss) old.numdigital;
    freq_nom = over (map (λ (s : PmuSpec). nominal_of p s.fnom) ss) old.freq_nom;
    config_count = over (map (λ (s : PmuSpec). s.cfgcnt) ss) old.config_count;
    id_code = over (map (λ (s : PmuSpec). s.id_code) ss) old.id_code;
  }

  -- What is written in front of the old elements.
  abbrev joined : ConfArrays p.Float → ConfArrays p.Float → ConfArrays p.Float
  joined w old = record {
    num_phasors = w.num_phasors ++ old.num_phasors;
    num_analog = w.num_analog ++ old.num_analog;
    numdigital = w.numdigital ++ old.numdigital;
    freq_nom = w.freq_nom ++ old.freq_nom;
    config_count = w.config_count ++ old.config_count;
    id_code = w.id_code ++ old.id_code;
  }

  record StandsAt (w : ConfArrays p.Float) (i : ℕ) : Type 0 where
    num_phasors : length w.num_phasors ≡ i
    num_analog : length w.num_analog ≡ i
    numdigital : length w.numdigital ≡ i
    freq_nom : length w.freq_nom ≡ i
    config_count : length w.config_count ≡ i
    id_code : length w.id_code ≡ i

  abbrev with_pmu : PmuSpec → ConfArrays p.Float → ConfArrays p.Float
  with_pmu s w = record {
    num_phasors = w.num_phasors ++ length s.phasors ∷ [];
    num_analog = w.num_analog ++ length s.analogs ∷ [];
    numdigital = w.numdigital ++ length s.digitals ∷ [];
    freq_nom = w.freq_nom ++ nominal_of p s.fnom ∷ [];
    config_count = w.config_count ++ s.cfgcnt ∷ [];
    id_code = w.id_code ++ s.id_code ∷ [];
  }

  abbrev behind_pmu : ConfArrays p.Float → ConfArrays p.Float
  behind_pmu old = record {
    num_phasors = drop 1 old.num_phasors;
    num_analog = drop 1 old.num_analog;
    numdigital = drop 1 old.numdigital;
    freq_nom = drop 1 old.freq_nom;
    config_count = drop 1 old.config_count;
    id_code = drop 1 old.id_code;
  }

  HasRoom-behind_pmu :
      (n : ℕ) (old : ConfArrays p.Float) → HasRoom (suc n) old → HasRoom n (behind_pmu old)
  HasRoom-behind_pmu n old r = record {
    num_phasors = omega (arith, r.num_phasors, length-drop 1 old.num_phasors);
    num_analog = omega (arith, r.num_analog, length-drop 1 old.num_analog);
    numdigital = omega (arith, r.numdigital, length-drop 1 old.numdigital);
    freq_nom = omega (arith, r.freq_nom, length-drop 1 old.freq_nom);
    config_count = omega (arith, r.config_count, length-drop 1 old.config_count);
    id_code = omega (arith, r.id_code, length-drop 1 old.id_code);
  }

  StandsAt-with_pmu :
      (s : PmuSpec) (w : ConfArrays p.Float) (i : ℕ)
      → StandsAt w i
      → StandsAt (with_pmu s w) (i + 1)
  StandsAt-with_pmu s w i a = record {
    num_phasors = length-behind w.num_phasors _ i a.num_phasors;
    num_analog = length-behind w.num_analog _ i a.num_analog;
    numdigital = length-behind w.numdigital _ i a.numdigital;
    freq_nom = length-behind w.freq_nom _ i a.freq_nom;
    config_count = length-behind w.config_count _ i a.config_count;
    id_code = length-behind w.id_code _ i a.id_code;
  }

  conf_pmu-joined :
      (s : PmuSpec) (n : ℕ) (w old : ConfArrays p.Float) (i : ℕ)
      → HasRoom (suc n) old
      → StandsAt w i
      → conf_pmu (configuration_of p s) i (joined w old)
        ≡ some (joined (with_pmu s w) (behind_pmu old))
  unfolding conf_pmu
  conf_pmu-joined s n w old i r a =
      rw
        (
          store-first w.num_phasors old.num_phasors (length s.phasors) i a.num_phasors
              (omega (arith, r.num_phasors)),
          store-first w.num_analog old.num_analog (length s.analogs) i a.num_analog
              (omega (arith, r.num_analog)),
          store-first w.numdigital old.numdigital (length s.digitals) i a.numdigital
              (omega (arith, r.numdigital)),
          store-first w.freq_nom old.freq_nom (nominal_of p s.fnom) i a.freq_nom
              (omega (arith, r.freq_nom)),
          store-first w.config_count old.config_count s.cfgcnt i a.config_count
              (omega (arith, r.config_count)),
          store-first w.id_code old.id_code s.id_code i a.id_code (omega (arith, r.id_code)),
        )
        refl

  described-step :
      (s : PmuSpec) (ss : List PmuSpec) (w old : ConfArrays p.Float)
      → joined (with_pmu s w) (described ss (behind_pmu old)) ≡ joined w (described (s ∷ ss) old)
  described-step s ss w old =
      rw
        (
          over-step w.num_phasors (length s.phasors ∷ [])
              (map (λ (s : PmuSpec). length s.phasors) ss) old.num_phasors 1 refl,
          over-step w.num_analog (length s.analogs ∷ [])
              (map (λ (s : PmuSpec). length s.analogs) ss) old.num_analog 1 refl,
          over-step w.numdigital (length s.digitals ∷ [])
              (map (λ (s : PmuSpec). length s.digitals) ss) old.numdigital 1 refl,
          over-step w.freq_nom (nominal_of p s.fnom ∷ [])
              (map (λ (s : PmuSpec). nominal_of p s.fnom) ss) old.freq_nom 1 refl,
          over-step w.config_count (s.cfgcnt ∷ []) (map (λ (s : PmuSpec). s.cfgcnt) ss)
              old.config_count 1 refl,
          over-step w.id_code (s.id_code ∷ []) (map (λ (s : PmuSpec). s.id_code) ss) old.id_code 1
              refl,
        )
        refl

  conf_pmus-joined :
      (ss : List PmuSpec) (w old : ConfArrays p.Float) (i : ℕ)
      → HasRoom (length ss) old
      → StandsAt w i
      → conf_pmus (length ss) (map (configuration_of p) ss) i (joined w old)
        ≡ some (joined w (described ss old))
  unfolding conf_pmus
  conf_pmus-joined [] w old i r a = refl
  conf_pmus-joined (s ∷ ss) w old i r a =
      rw
        (
          conf_pmu-joined s (length ss) w old i r a,
          conf_pmus-joined ss (with_pmu s w) (behind_pmu old) (i + 1)
              (HasRoom-behind_pmu (length ss) old r) (StandsAt-with_pmu s w i a),
        )
        (ap some (described-step s ss w old))

  conf_pmus-start :
      (ss : List PmuSpec) (out : ConfArrays p.Float)
      → HasRoom (length ss) out
      → conf_pmus (length ss) (map (configuration_of p) ss) 0 out ≡ some (described ss out)
  conf_pmus-start ss out r =
      let nothing : ConfArrays p.Float = record {
        num_phasors = [];
        num_analog = [];
        numdigital = [];
        freq_nom = [];
        config_count = [];
        id_code = [];
      } in
      let start : StandsAt nothing 0 = record {
        num_phasors = refl;
        num_analog = refl;
        numdigital = refl;
        freq_nom = refl;
        config_count = refl;
        id_code = refl;
      } in
      conf_pmus-joined ss nothing out 0 r start

  -- For a client that a configuration frame has configured, the call leaves none of the six arrays of the
  -- caller exactly if each has at least as many elements as the frame has PMUs. It then writes the numbers
  -- of phasors, of analogs and of digital words, the nominal frequency (50 Hz if the lowest bit of FNOM is
  -- set, else 60 Hz), CFGCNT and the identification code of each PMU of the frame, in their order, over
  -- the front of the arrays, and keeps all behind.
  pub get_conf_pmu-configured :
      (self : C37118Client p.Float) (f : ConfigFrame) (out out' : ConfArrays p.Float)
      → (get_conf_pmu (configured p f self) out ≡ some out')
        ↔ (HasRoom (length (pmus f)) out × (out' ≡ described (pmus f) out))
  unfolding get_conf_pmu
  get_conf_pmu-configured self f out out' = (
    (λ e.
        let r : HasRoom (length (pmus f)) out =
          subst (λ k. HasRoom k out) (omega arith)
            (Yields-inv _
              (conf_pmus-Yields (length (pmus f)) 0 (map (configuration_of p) (pmus f)) out
                none_yet)
              e) in
        let same : some out' ≡ some (described (pmus f) out) =
          sym e ∙ conf_pmus-start (pmus f) out r in
        (r, cc)),
    (λ h. conf_pmus-start (pmus f) out h.0 ∙ ap some (sym h.1)),
  )
    where
      none_yet : HasRoom 0 out
      none_yet = record {
        num_phasors = omega arith;
        num_analog = omega arith;
        numdigital = omega arith;
        freq_nom = omega arith;
        config_count = omega arith;
        id_code = omega arith;
      }

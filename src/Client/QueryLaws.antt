-- ===== src/Client/QueryLaws.antt =====
-- The query functions on a client that a configuration frame has configured.
use khorjin.Prelude.{
  ℕ, zero, suc, ◌≡◌, refl, ap, some, List, [], ◌∷◌, map, All, get_elem?, take, take-append,
  replicate, if◌then◌else◌, ◌==◌,
}
use khorjin.Platform.{Platform}
use khorjin.Types.{C37118Client}
use khorjin.Wire.Cursor.{stored_name}
use khorjin.Config.Spec.{
  ChannelSpec, PmuSpec, IsName, IsChannel, IsPmu, configuration_of, phasor_of,
}
use khorjin.Config.Received.{ConfigFrame, IsConfigFrame, configured, pmus}
use mathlib.Core.Path.{subst}
use khorjin.Client.Query.{get_conf_pmu_station_name, get_conf_pmu_channel_name}

module _ {A B : Type 0} where
  get_elem?-map :
      (f : A → B) (xs : List A) (i : ℕ) (x : A)
      → get_elem? xs i ≡ some x
      → get_elem? (map f xs) i ≡ some (f x)
  get_elem?-map f [] i x h = cc
  get_elem?-map f (y ∷ ys) zero x h = let e : y ≡ x = cc in ap (λ z. some (f z)) e
  get_elem?-map f (y ∷ ys) (suc i) x h = get_elem?-map f ys i x h

All-get_elem? :
    {A : Type 0} (P : A → Type 0) (xs : List A) (i : ℕ) (x : A)
    → All P xs
    → get_elem? xs i ≡ some x
    → P x
All-get_elem? P [] i x a h = cc
All-get_elem? P (y ∷ ys) zero x a h = let e : y ≡ x = cc in subst P e a.0
All-get_elem? P (y ∷ ys) (suc i) x a h = All-get_elem? P ys i x a.1 h

take-stored_name : (name : List ℕ) → IsName name → take 16 (stored_name name) ≡ name
take-stored_name name h = rw (← h) (take-append name (replicate 4 0))

module _ (p : Platform) (self : C37118Client p.Float) (f : ConfigFrame) (v : IsConfigFrame f) where
  -- A client that a configuration frame has configured gives out the station name of the frame for every
  -- PMU of it.
  pub get_conf_pmu_station_name-configured :
      (i : ℕ) (s : PmuSpec)
      → get_elem? (pmus f) i ≡ some s
      → get_conf_pmu_station_name (configured p f self) i ≡ some s.station
  unfolding get_conf_pmu_station_name
  get_conf_pmu_station_name-configured i s h =
      rw (get_elem?-map (configuration_of p) (pmus f) i s h)
        (ap some (take-stored_name s.station (All-get_elem? IsPmu (pmus f) i s v.pmus h).station))

  -- A client that a configuration frame has configured gives out the channel name of the frame for every
  -- phasor of it, with the type 0 for a voltage and 1 for all else.
  pub get_conf_pmu_channel_name-configured :
      (i j : ℕ) (s : PmuSpec) (x : ChannelSpec)
      → get_elem? (pmus f) i ≡ some s
      → get_elem? s.phasors j ≡ some x
      → get_conf_pmu_channel_name (configured p f self) i j
        ≡ some (x.name, if x.kind == 0 then 0 else 1)
  unfolding get_conf_pmu_channel_name
  get_conf_pmu_channel_name-configured i j s x h g =
      let c : IsChannel x =
        All-get_elem? IsChannel s.phasors j x (All-get_elem? IsPmu (pmus f) i s v.pmus h).phasors
          g in
      rw
        (
          get_elem?-map (configuration_of p) (pmus f) i s h,
          get_elem?-map (phasor_of p (configuration_of p s).phasor_is_floating_point) s.phasors j x
              g,
          take-stored_name x.name c.0,
        )
        refl

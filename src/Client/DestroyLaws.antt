-- ===== src/Client/DestroyLaws.antt =====
-- `c37_118client_destroy` on a client whose number of PMUs is that of its structures.
use khorjin.Prelude.{
  ℕ, zero, suc, ◌+◌, ◌<◌, ◌≡◌, refl, arith, false, some, List, [], ◌∷◌, ◌++◌, length, get_elem?,
  ◌==◌,
}
use khorjin.Platform.{Platform}
use khorjin.Pal.{Pal, returns}
use khorjin.Types.{C37118Client, Configuration}
use khorjin.Client.Session.{
  Block, receive_buffer, send_buffer, config_calendar, data_calendar, phasors, analogs, digitals,
  configurations, client_structure, calendar, free_arrays, free_configuration, destroy,
}

-- The three arrays of each of `n` PMUs from PMU `i` on.
abbrev pub arrays_from : ℕ → ℕ → List Block
arrays_from i zero = []
arrays_from i (suc n) = phasors i ∷ analogs i ∷ digitals i ∷ arrays_from (i + 1) n

-- What `n` PMUs own: nothing if there are none.
abbrev pub owned : ℕ → List Block
owned zero = []
owned (suc n) = arrays_from 0 (suc n) ++ configurations ∷ []

get_elem?-below :
    {A : Type 0} (xs : List A) (i : ℕ) → i < length xs → (x : A) × (get_elem? xs i ≡ some x)
get_elem?-below [] i h = absurd (omega arith)
get_elem?-below (x ∷ xs) zero h = (x, refl)
get_elem?-below (x ∷ xs) (suc i) h = get_elem?-below xs i (omega arith)

module _ (p : Platform) (pal : Pal) where
  free_round :
      (n i : ℕ) (cs : List (Configuration p.Float)) (c : Configuration p.Float)
      (blocks : List Block)
      → get_elem? cs i ≡ some c
      → free_arrays p pal n (i + 1) cs ≡ some blocks
      → free_arrays p pal (suc n) i cs ≡ some (phasors i ∷ analogs i ∷ digitals i ∷ blocks)
  unfolding free_arrays
  free_round n i cs c blocks e h = rw (e, h) refl

  free_arrays_lem :
      (n i : ℕ) (cs : List (Configuration p.Float))
      → i + n ≡ length cs
      → free_arrays p pal n i cs ≡ some (arrays_from i n)
  unfolding free_arrays
  free_arrays_lem zero i cs h = refl
  free_arrays_lem (suc n) i cs h =
      let (c, e) = get_elem?-below cs i (omega arith) in
      free_round n i cs c (arrays_from (i + 1) n) e (free_arrays_lem n (i + 1) cs (omega arith))

  free_configuration_lem :
      (self : C37118Client p.Float) (n : ℕ)
      → self.num_pmu ≡ n
      → length self.configuration ≡ n
      → free_configuration p pal self ≡ some (owned n)
  unfolding free_configuration
  free_configuration_lem self zero h l = rw h refl
  free_configuration_lem self (suc n) h l =
      let some_pmu : (suc n == 0) ≡ false = ground arith in
      rw (h, some_pmu, free_arrays_lem (suc n) 0 self.configuration (omega arith)) refl

  -- For a client with as many structures as `numPmu` says, the call leaves no array: it destroys the socket
  -- and frees the two buffers, the calendars that there are, the three arrays of every PMU, the array of
  -- the structures if there are PMUs, and the client.
  pub destroy-owned :
      (self : C37118Client p.Float) (w : pal.World)
      → length self.configuration ≡ self.num_pmu
      → destroy p pal self w
        ≡ returns (
          receive_buffer
                ∷ send_buffer
                ∷ calendar p pal config_calendar self.config_time_stamp.parsed_time
              ++ (calendar p pal data_calendar self.data_time_stamp.parsed_time
                  ++ (owned self.num_pmu ++ client_structure ∷ [])),
          pal.socket_destroy self.socket w,
        )
  unfolding destroy
  destroy-owned self w l = rw (free_configuration_lem self self.num_pmu refl l) refl

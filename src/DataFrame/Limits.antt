-- ===== src/DataFrame/Limits.antt =====
-- Arrays that are too short, and the integer formats.
use khorjin.Prelude.{
  ℕ, zero, suc, ◌+◌, ◌<◌, ◌≡◌, refl, sym, ap, ◌∙◌, arith, Bool, true, false, Option, none, some,
  List, [], ◌∷◌, ◌>>=◌, length, length-replicate, replicate, get_elem?, drop, All, IsU16,
}
use khorjin.Platform.{Platform}
use khorjin.Types.{Phasor, Configuration, zero_phasor}
use khorjin.Wire.Decode.{copy_name, three_byte_to_uint32}
use khorjin.Config.Prepare.{name_phasors, scale_phasors, prepare_phsor}
use khorjin.DataFrame.Values.{Temps, integer_phasor, read_phasor, read_phasors}
use khorjin.DataFrame.Spec.{PhasorWords, phasors_after, phasors_temps, encode_phasors}
use khorjin.DataFrame.Arrays.{read_phasors-encode}
use mathlib.Core.Path.{subst}

module _ {A B : Type 0} where
  -- Inversion of a successful step.
  >>=-eq-some :
      (m : Option A) (f : A → Option B) {b : B}
      → (m >>= f) ≡ some b
      → (a : A) × (m ≡ some a) × (f a ≡ some b)
  >>=-eq-some none f h = cc
  >>=-eq-some (some a) f h = (a, refl, h)

  -- A step behind which everything faults.
  >>=-none : (m : Option A) (f : A → Option B) → ((a : A) → f a ≡ none) → (m >>= f) ≡ none
  >>=-none none f h = refl
  >>=-none (some a) f h = h a

module _ (p : Platform) where
  length-name_phasors :
      (xs : List (Phasor p.Float)) (buf : List ℕ) (pos : ℕ) (r : List (Phasor p.Float) × ℕ)
      → name_phasors p xs buf pos ≡ some r
      → length r.0 ≡ length xs
  unfolding name_phasors
  length-name_phasors [] buf pos r h = ground arith
  length-name_phasors (x ∷ xs) buf pos r h =
      let (name, h1, h2) = >>=-eq-some (copy_name buf pos) _ h in
      let (ys, h3, h4) = >>=-eq-some (name_phasors p xs buf (pos + 16)) _ h2 in
      ground (arith, length-name_phasors xs buf (pos + 16) ys h3)

  length-scale_phasors :
      (b : Bool) (xs : List (Phasor p.Float)) (buf : List ℕ) (pos : ℕ) (ys : List (Phasor p.Float))
      → scale_phasors p b xs buf pos ≡ some ys
      → length ys ≡ length xs
  unfolding scale_phasors
  length-scale_phasors b [] buf pos ys h = ground arith
  length-scale_phasors b (x ∷ xs) buf pos ys h =
      let (kind, h1, h2) = >>=-eq-some (get_elem? buf pos) _ h in
      let (unit, h3, h4) = >>=-eq-some (three_byte_to_uint32 buf (pos + 1)) _ h2 in
      let (zs, h5, h6) = >>=-eq-some (scale_phasors p b xs buf unit.1) _ h4 in
      ground (arith, length-scale_phasors b xs buf unit.1 zs h5)

  length-prepare_phsor :
      (c : Configuration p.Float) (buf : List ℕ) (pos : ℕ) (xs : List (Phasor p.Float))
      → prepare_phsor p c buf pos ≡ some xs
      → length xs ≡ c.number_of_phasors
  unfolding prepare_phsor
  length-prepare_phsor c buf pos xs h =
      let zeros : List (Phasor p.Float) = replicate c.number_of_phasors (zero_phasor p) in
      let (named, h1, h2) = >>=-eq-some (name_phasors p zeros buf pos) _ h in
      length-scale_phasors _ named.0 buf _ xs h2
      ∙ length-name_phasors zeros buf pos named h1
      ∙ length-replicate c.number_of_phasors (zero_phasor p)

  overrun :
      (n : ℕ) (self : Configuration p.Float) (xs : List (Phasor p.Float)) (t : Temps p.Float)
      (buf : List ℕ) (pos : ℕ)
      → length xs < n
      → read_phasors p n self xs t buf pos ≡ none
  unfolding read_phasors
  overrun zero self xs t buf pos h = elim h [ ]
  overrun (suc n) self [] t buf pos h = refl
  overrun (suc n) self (x ∷ xs) t buf pos h =
      >>=-none (read_phasor p self x t buf pos) _
        (λ r. rw (overrun n self xs r.1 buf r.2 (omega arith)))

  -- An array that `preparePhsor` made from the structure `first` of one PMU is too short for a PMU
  -- with more phasors than `first`: its part of every data frame is written past the array.
  pub read_phasors-prepare_phsor :
      (first self : Configuration p.Float) (buf : List ℕ) (pos : ℕ) (xs : List (Phasor p.Float))
      (t : Temps p.Float) (data_buf : List ℕ) (data_pos : ℕ)
      → prepare_phsor p first buf pos ≡ some xs
      → first.number_of_phasors < self.number_of_phasors
      → read_phasors p self.number_of_phasors self xs t data_buf data_pos ≡ none
  read_phasors-prepare_phsor first self buf pos xs t data_buf data_pos made more =
      overrun self.number_of_phasors self xs t data_buf data_pos
        (omega (arith, length-prepare_phsor first buf pos xs made))

  phasors_after_polar :
      (ws vs : List PhasorWords) (t : Temps p.Float) (xs : List (Phasor p.Float))
      → length ws ≡ length vs
      → phasors_after p false true ws t xs ≡ phasors_after p false true vs t xs
  unfolding integer_phasor
  phasors_after_polar [] [] t xs h = refl
  phasors_after_polar [] (v ∷ vs) t xs h = absurd (omega arith)
  phasors_after_polar (w ∷ ws) [] t xs h = absurd (omega arith)
  phasors_after_polar (w ∷ ws) (v ∷ vs) t [] h = refl
  phasors_after_polar (w ∷ ws) (v ∷ vs) t (x ∷ xs) h =
      ap (◌∷◌ (integer_phasor p true w.fst_word w.snd_word t x))
        (phasors_after_polar ws vs t xs (omega arith))

  -- In the integer polar format the phasors of a PMU after a frame do not depend on the words that the
  -- frame has for them: any two frames with as many words of 16 bits as there are phasors leave the same
  -- phasors, from the same values of the two variables.
  pub read_phasors_polar :
      (self : Configuration p.Float) (ws vs : List PhasorWords) (xs : List (Phasor p.Float))
      (t : Temps p.Float) (buf buf' : List ℕ) (pos pos' : ℕ) (rest rest' : List ℕ)
      → self.phasor_is_floating_point ≡ false
      → self.phasor_is_polar ≡ true
      → All (λ (w : PhasorWords). IsU16 w.fst_word × IsU16 w.snd_word) ws
      → All (λ (w : PhasorWords). IsU16 w.fst_word × IsU16 w.snd_word) vs
      → length xs ≡ length ws
      → length xs ≡ length vs
      → drop pos buf ≡ encode_phasors false ws rest
      → drop pos' buf' ≡ encode_phasors false vs rest'
      → (ys : List (Phasor p.Float)) × (end : ℕ) × (end' : ℕ) × (read_phasors p
            (length xs)
            self
            xs
            t
            buf
            pos
          ≡ some (ys, t, end))
        × (read_phasors p (length xs) self xs t buf' pos' ≡ some (ys, t, end'))
  read_phasors_polar self ws vs xs t buf buf' pos pos' rest rest' f q hw hv nw nv e e' =
      let (end, r, after) = read_phasors-encode p buf false self ws xs t pos rest f hw nw e in
      let (end', r', after') =
        read_phasors-encode p buf' false self vs xs t pos' rest' f hv nv e' in
      let same : phasors_after p false self.phasor_is_polar vs t xs
          ≡ phasors_after p false self.phasor_is_polar ws t xs =
        subst (λ b. phasors_after p false b vs t xs ≡ phasors_after p false b ws t xs) (sym q)
          (phasors_after_polar vs ws t xs (omega arith)) in
      (
        phasors_after p false self.phasor_is_polar ws t xs,
        end,
        end',
        ap (λ k. read_phasors p k self xs t buf pos) nw
            ∙ r
            ∙ ap (λ u. some (phasors_after p false self.phasor_is_polar ws t xs, u, end))
                (kept ws t),
        ap (λ k. read_phasors p k self xs t buf' pos') nv
            ∙ r'
            ∙ ap (λ ys. some (ys, phasors_temps p false vs t, end')) same
            ∙ ap (λ u. some (phasors_after p false self.phasor_is_polar ws t xs, u, end'))
                (kept vs t),
      )
    where
      kept : (us : List PhasorWords) (u : Temps p.Float) → phasors_temps p false us u ≡ u
      kept [] u = refl
      kept (x ∷ us) u = kept us u

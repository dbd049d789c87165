-- ===== src/Client/Written.antt =====
-- The buffers of `c37_118client_outputDataStream` while it writes them.
use khorjin.Prelude.{
  ℕ, zero, suc, ◌+◌, ◌≡◌, refl, sym, ap, ◌∙◌, arith, some, List, [], ◌∷◌, ◌++◌, map, length,
  length-append, drop, ◌≤◌, ◌<◌, append_assoc,
}
use native.Mathlib.Nat.{add-zero}
use khorjin.Types.{Configuration, Phasor, Analog}
use khorjin.Wire.Encode.{store}
use khorjin.Client.Output.{Output, output_phasors, output_analogs}

store-append :
    {A : Type 0} (front : List A) (x v : A) (back : List A)
    → store (front ++ x ∷ back) (length front) v ≡ some (front ++ v ∷ back)
unfolding store
store-append [] x v back = refl
store-append (y ∷ front) x v back = rw (store-append front x v back) refl

-- A write on the first element behind `front`.
store-at :
    {A : Type 0} (buffer front : List A) (x v : A) (back : List A) (k : ℕ)
    → buffer ≡ front ++ x ∷ back
    → length front ≡ k
    → store buffer k v ≡ some ((front ++ v ∷ []) ++ back)
store-at buffer front x v back k e h =
    rw (e, ← h) (store-append front x v back ∙ ap some (sym (append_assoc front (v ∷ []) back)))

pub length-behind :
    {A : Type 0} (front : List A) (v : A) (k : ℕ)
    → length front ≡ k
    → length (front ++ v ∷ []) ≡ k + 1
length-behind front v k h = omega (arith, length-append front (v ∷ []))

pub map-append :
    {A B : Type 0} (f : A → B) (xs ys : List A) → map f (xs ++ ys) ≡ map f xs ++ map f ys
map-append f [] ys = refl
map-append f (x ∷ xs) ys = ap (◌∷◌ (f x)) (map-append f xs ys)

module _ {F : Type 0} where
  -- What the PMUs of a list have, one behind the other.
  abbrev pub all_phasors : List (Configuration F) → List (Phasor F)
  all_phasors [] = []
  all_phasors (c ∷ cs) = c.phasor ++ all_phasors cs

  abbrev pub all_analogs : List (Configuration F) → List (Analog F)
  all_analogs [] = []
  all_analogs (c ∷ cs) = c.analog ++ all_analogs cs

  -- The arrays of a PMU have as many elements as its counts say.
  abbrev pub IsCounted : Configuration F → Type 0
  IsCounted c = (c.number_of_phasors ≡ length c.phasor) × (c.number_of_analogs ≡ length c.analog)

  abbrev pub magnitudes : List (Phasor F) → List F
  magnitudes xs = map (λ (x : Phasor F). x.magnitude) xs

  abbrev pub angles : List (Phasor F) → List F
  angles xs = map (λ (x : Phasor F). x.angle) xs

  abbrev pub values : List (Analog F) → List F
  values xs = map (λ (x : Analog F). x.value) xs

  -- Values over the front of a buffer.
  abbrev pub over : List F → List F → List F
  over vs old = vs ++ drop (length vs) old

  pub written_phasors :
      (xs : List (Phasor F)) (mags angs old old' : List F) (k : ℕ) (out : Output F)
      → length xs ≤ length old
      → length xs ≤ length old'
      → length mags ≡ k
      → length angs ≡ k
      → out.phasors_mag_buffer ≡ mags ++ old
      → out.phasors_ang_buffer ≡ angs ++ old'
      → output_phasors (length xs) xs k out
        ≡ some (
          k + length xs,
          record out {
            phasors_mag_buffer = mags ++ (magnitudes xs ++ drop (length xs) old);
            phasors_ang_buffer = angs ++ (angles xs ++ drop (length xs) old');
          },
        )
  unfolding output_phasors
  written_phasors [] mags angs old old' k out h h' m n e e' = rw (← e, ← e', add-zero) refl
  written_phasors (x ∷ xs) mags angs [] old' k out h h' m n e e' = absurd (omega arith)
  written_phasors (x ∷ xs) mags angs (o ∷ old) [] k out h h' m n e e' = absurd (omega arith)
  written_phasors (x ∷ xs) mags angs (o ∷ old) (o' ∷ old') k out h h' m n e e' =
      let count : k + 1 + length xs ≡ k + suc (length xs) = omega arith in
      rw
        (
          store-at out.phasors_mag_buffer mags o x.magnitude old k e m,
          store-at out.phasors_ang_buffer angs o' x.angle old' k e' n,
          written_phasors xs (mags ++ x.magnitude ∷ []) (angs ++ x.angle ∷ []) old old' (k + 1)
              (record out {
                phasors_mag_buffer = (mags ++ x.magnitude ∷ []) ++ old;
                phasors_ang_buffer = (angs ++ x.angle ∷ []) ++ old';
              })
              (omega arith) (omega arith) (length-behind mags x.magnitude k m)
              (length-behind angs x.angle k n) refl refl,
          count,
          append_assoc mags (x.magnitude ∷ []) (magnitudes xs ++ drop (length xs) old),
          append_assoc angs (x.angle ∷ []) (angles xs ++ drop (length xs) old'),
        )
        refl

  pub written_analogs :
      (xs : List (Analog F)) (front old : List F) (m : ℕ) (out : Output F)
      → length xs ≤ length old
      → length front ≡ m
      → out.analog_buffer ≡ front ++ old
      → output_analogs (length xs) xs m out
        ≡ some (
          m + length xs,
          record out { analog_buffer = front ++ (values xs ++ drop (length xs) old) },
        )
  unfolding output_analogs
  written_analogs [] front old m out h n e = rw (← e, add-zero) refl
  written_analogs (x ∷ xs) front [] m out h n e = absurd (omega arith)
  written_analogs (x ∷ xs) front (o ∷ old) m out h n e =
      let count : m + 1 + length xs ≡ m + suc (length xs) = omega arith in
      rw
        (
          store-at out.analog_buffer front o x.value old m e n,
          written_analogs xs (front ++ x.value ∷ []) old (m + 1)
              (record out { analog_buffer = (front ++ x.value ∷ []) ++ old }) (omega arith)
              (length-behind front x.value m n) refl,
          count,
          append_assoc front (x.value ∷ []) (values xs ++ drop (length xs) old),
        )
        refl

  drop-nil : (k : ℕ) → drop {A = F} k [] ≡ []
  drop-nil zero = refl
  drop-nil (suc k) = refl

  drop-drop : (xs : List F) (n k m : ℕ) → n + k ≡ m → drop k (drop n xs) ≡ drop m xs
  drop-drop xs zero k m h = let e : k ≡ m = omega arith in ap (λ j. drop j xs) e
  drop-drop xs (suc n) k zero h = absurd (omega arith)
  drop-drop [] (suc n) k (suc m) h = drop-nil k
  drop-drop (x ∷ xs) (suc n) k (suc m) h = drop-drop xs n k m (omega arith)

  pub over-step :
      (front vs ws old : List F) (n : ℕ)
      → length vs ≡ n
      → (front ++ vs) ++ over ws (drop n old) ≡ front ++ over (vs ++ ws) old
  over-step front vs ws old n h =
      rw
        (
          ← h,
          length-append vs ws,
          drop-drop old (length vs) (length ws) (length vs + length ws) refl,
        )
        (append_assoc front vs _
          ∙ ap (◌++◌ front) (sym (append_assoc vs ws (drop (length vs + length ws) old))))

  pub store-first :
      (front old : List F) (v : F) (k : ℕ)
      → length front ≡ k
      → 0 < length old
      → store (front ++ old) k v ≡ some ((front ++ v ∷ []) ++ drop 1 old)
  store-first front [] v k h n = absurd (omega arith)
  store-first front (o ∷ old) v k h n = store-at (front ++ o ∷ old) front o v old k refl h

-- ===== src/DataFrame/Room.antt =====
-- The loops of `parseDataFrame` where the arrays and the buffer have room for them, whatever the bytes
-- are: the arrays keep their lengths, and the position moves on by the size of what was read.
use khorjin.Prelude.{
  ℕ, zero, suc, ◌+◌, ◌*◌, ◌/◌, ◌≤◌, ◌≡◌, refl, ap, arith, Bool, true, false, Option, List, [], ◌∷◌,
  All, length, if◌then◌else◌, some, ◌>>=◌, Gives, Gives->>=,
}
use khorjin.Platform.{Platform}
use khorjin.Types.{Configuration, Phasor, Analog, Digital, Channel}
use khorjin.Wire.Decode.{two_byte_to_uint16, decode_floating_point_value}
use khorjin.Wire.Room.{two_byte_to_uint16-Gives, decode_floating_point_value-Gives}
use khorjin.Shape.{HasChannels, width, words}
use khorjin.DataFrame.Values.{
  Temps, read_phasor, read_phasors, read_frequency, read_rocof, read_analog, read_analogs,
  set_status, read_digitals,
}

-- Code that reads `k` values of 4 or 2 bytes.
Gives-format :
    {A : Type 0} (P : ℕ → A → Type 0) (size pos k : ℕ) (b : Bool) (x y : Option A)
    → (pos + k * 4 ≤ size → Gives (P (pos + k * 4)) x)
    → (pos + k * 2 ≤ size → Gives (P (pos + k * 2)) y)
    → pos + k * width b ≤ size
    → Gives (P (pos + k * width b)) (if b then x else y)
Gives-format P size pos k true x y f g h = f h
Gives-format P size pos k false x y f g h = g h

pub length-set_status : (word : ℕ) (cs : List Channel) → length (set_status word cs) ≡ length cs
unfolding set_status
length-set_status word [] = refl
length-set_status word (c ∷ cs) = ap suc (length-set_status (word / 2) cs)

module _ (p : Platform) (buf : List ℕ) where
  read_phasor-Gives :
      (c : Configuration p.Float) (x : Phasor p.Float) (t : Temps p.Float) (pos : ℕ)
      → pos + 2 * width c.phasor_is_floating_point ≤ length buf
      → Gives (λ r. r.2 ≡ pos + 2 * width c.phasor_is_floating_point) (read_phasor p c x t buf pos)
  unfolding read_phasor
  read_phasor-Gives c x t pos =
      Gives-format (λ end r. r.2 ≡ end) (length buf) pos 2 c.phasor_is_floating_point _ _
        (λ h.
          Gives->>= _ (decode_floating_point_value p buf pos) _
            (decode_floating_point_value-Gives buf pos p (omega arith))
            λ r1 e1.
              Gives->>= _ (decode_floating_point_value p buf r1.1) _
                (decode_floating_point_value-Gives buf r1.1 p (omega arith))
                λ r2 e2. Gives.gives (omega arith))
        (λ h.
          Gives->>= _ (two_byte_to_uint16 buf pos) _
            (two_byte_to_uint16-Gives buf pos (omega arith))
            λ r1 e1.
              Gives->>= _ (two_byte_to_uint16 buf r1.1) _
                (two_byte_to_uint16-Gives buf r1.1 (omega arith))
                λ r2 e2. Gives.gives (omega arith))

  pub read_phasors-Gives :
      (n : ℕ) (c : Configuration p.Float) (xs : List (Phasor p.Float)) (t : Temps p.Float) (pos : ℕ)
      → n ≤ length xs
      → pos + words n (2 * width c.phasor_is_floating_point) ≤ length buf
      → Gives
          (λ r.
            (length r.0 ≡ length xs) × (r.2 ≡ pos + words n (2 * width c.phasor_is_floating_point)))
          (read_phasors p n c xs t buf pos)
  unfolding read_phasors
  read_phasors-Gives zero c xs t pos h k = Gives.gives (refl, omega arith)
  read_phasors-Gives (suc n) c [] t pos h k = absurd (omega arith)
  read_phasors-Gives (suc n) c (x ∷ xs) t pos h k =
      Gives->>= _ (read_phasor p c x t buf pos) _ (read_phasor-Gives c x t pos (omega arith)) λ r e.
        Gives->>= _ (read_phasors p n c xs r.1 buf r.2) _
          (read_phasors-Gives n c xs r.1 r.2 (omega arith) (omega arith))
          λ s (same, e'). Gives.gives (ap suc same, omega arith)

  -- One value in one of the two formats, and what is made of it and of the position behind it.
  one_value-Gives :
      {A : Type 0} (P : ℕ → A → Type 0) (pos : ℕ) (b : Bool) (f : p.Float × ℕ → A) (g : ℕ × ℕ → A)
      → ((r : p.Float × ℕ) → r.1 ≡ pos + 1 * 4 → P (pos + 1 * 4) (f r))
      → ((r : ℕ × ℕ) → r.1 ≡ pos + 1 * 2 → P (pos + 1 * 2) (g r))
      → pos + 1 * width b ≤ length buf
      → Gives (P (pos + 1 * width b)) (
          if b
          then (decode_floating_point_value p buf pos >>= λ r. some (f r))
          else (two_byte_to_uint16 buf pos >>= λ r. some (g r)))
  one_value-Gives P pos b f g floating integer =
      Gives-format P (length buf) pos 1 b _ _
        (λ h.
          Gives->>= _ (decode_floating_point_value p buf pos) _
            (decode_floating_point_value-Gives buf pos p (omega arith))
            λ r e. Gives.gives (floating r (omega arith)))
        (λ h.
          Gives->>= _ (two_byte_to_uint16 buf pos) _
            (two_byte_to_uint16-Gives buf pos (omega arith))
            λ r e. Gives.gives (integer r (omega arith)))

  -- The structure after a frequency or a rate of change: two of its fields are new.
  abbrev pub Rated : Configuration p.Float → ℕ → Configuration p.Float × Temps p.Float × ℕ → Type 0
  Rated c end r =
      (f : p.Float) × (g : p.Float) × (r.0 ≡ record c { frequency = f; rocof = g }) × (r.2 ≡ end)

  pub read_frequency-Gives :
      (c : Configuration p.Float) (t : Temps p.Float) (pos : ℕ)
      → pos + 1 * width c.freq_is_floating_point ≤ length buf
      → Gives (Rated c (pos + 1 * width c.freq_is_floating_point)) (read_frequency p c t buf pos)
  unfolding read_frequency
  read_frequency-Gives c t pos =
      one_value-Gives (Rated c) pos c.freq_is_floating_point _ _ (λ r e. (_, _, refl, e))
        (λ r e. (_, _, refl, e))

  pub read_rocof-Gives :
      (c : Configuration p.Float) (t : Temps p.Float) (pos : ℕ)
      → pos + 1 * width c.freq_is_floating_point ≤ length buf
      → Gives (Rated c (pos + 1 * width c.freq_is_floating_point)) (read_rocof p c t buf pos)
  unfolding read_rocof
  read_rocof-Gives c t pos =
      one_value-Gives (Rated c) pos c.freq_is_floating_point _ _ (λ r e. (_, _, refl, e))
        (λ r e. (_, _, refl, e))

  read_analog-Gives :
      (c : Configuration p.Float) (x : Analog p.Float) (t : Temps p.Float) (pos : ℕ)
      → pos + 1 * width c.analog_is_floating_point ≤ length buf
      → Gives (λ r. r.2 ≡ pos + 1 * width c.analog_is_floating_point) (read_analog p c x t buf pos)
  unfolding read_analog
  read_analog-Gives c x t pos =
      one_value-Gives (λ end r. r.2 ≡ end) pos c.analog_is_floating_point _ _ (λ r e. e) (λ r e. e)

  pub read_analogs-Gives :
      (n : ℕ) (c : Configuration p.Float) (xs : List (Analog p.Float)) (t : Temps p.Float) (pos : ℕ)
      → n ≤ length xs
      → pos + words n (width c.analog_is_floating_point) ≤ length buf
      → Gives
          (λ r. (length r.0 ≡ length xs) × (r.2 ≡ pos + words n (width c.analog_is_floating_point)))
          (read_analogs p n c xs t buf pos)
  unfolding read_analogs
  read_analogs-Gives zero c xs t pos h k = Gives.gives (refl, omega arith)
  read_analogs-Gives (suc n) c [] t pos h k = absurd (omega arith)
  read_analogs-Gives (suc n) c (x ∷ xs) t pos h k =
      Gives->>= _ (read_analog p c x t buf pos) _ (read_analog-Gives c x t pos (omega arith)) λ r e.
        Gives->>= _ (read_analogs p n c xs r.1 buf r.2) _
          (read_analogs-Gives n c xs r.1 r.2 (omega arith) (omega arith))
          λ s (same, e'). Gives.gives (ap suc same, omega arith)

  pub read_digitals-Gives :
      (n : ℕ) (ds : List Digital) (pos : ℕ)
      → n ≤ length ds
      → All HasChannels ds
      → pos + words n 2 ≤ length buf
      → Gives
          (λ r. (length r.0 ≡ length ds) × All HasChannels r.0 × (r.1 ≡ pos + words n 2))
          (read_digitals n ds buf pos)
  unfolding read_digitals
  read_digitals-Gives zero ds pos h a k = Gives.gives (refl, a, omega arith)
  read_digitals-Gives (suc n) [] pos h a k = absurd (omega arith)
  read_digitals-Gives (suc n) (d ∷ ds) pos h a k =
      let channels : 16 ≤ length d.channel = a.0 in
      Gives->>= _ (two_byte_to_uint16 buf pos) _ (two_byte_to_uint16-Gives buf pos (omega arith))
        λ r e.
          Gives->>= _ (read_digitals n ds buf r.1) _
            (read_digitals-Gives n ds r.1 (omega arith) a.1 (omega arith))
            λ s (same, a', e'). Gives.gives (
              ap suc same,
              (omega (arith, channels, length-set_status r.0 d.channel), a'),
              omega arith,
            )

-- ===== src/DataFrame/Arrays.antt =====
-- The loops of `parseDataFrame` over one PMU, on encoded words.
use khorjin.Prelude.{
  ℕ, ◌+◌, ◌≡◌, refl, arith, Bool, true, false, some, List, [], ◌∷◌, ◌++◌, All, IsU16, length, drop,
  drop-past,
}
use khorjin.Platform.{Platform}
use khorjin.Types.{Phasor, Analog, Digital, Configuration}
use khorjin.Wire.Cursor.{be16, be32, two_byte-be16, decode_floating_point_value-be32}
use khorjin.DataFrame.Values.{
  Temps, read_phasor, read_phasors, read_frequency, read_rocof, read_analog, read_analogs,
  read_digitals,
}
use khorjin.DataFrame.Spec.{
  encode_word, IsWord, PhasorWords, encode_phasors, encode_words, phasor_after, temps_after,
  phasors_after, phasors_temps, temp_after, frequency_after, rocof_after, analog_after,
  analogs_after, words_temps, digitals_after,
}

module _ (p : Platform) (buf : List ℕ) where
  read_phasor-encode :
      (b : Bool) (self : Configuration p.Float) (x : Phasor p.Float) (t : Temps p.Float)
      (w : PhasorWords) (pos : ℕ) (rest : List ℕ)
      → self.phasor_is_floating_point ≡ b
      → IsWord b w.fst_word
      → IsWord b w.snd_word
      → drop pos buf ≡ encode_word b w.fst_word ++ (encode_word b w.snd_word ++ rest)
      → (end : ℕ) × (read_phasor p self x t buf pos
          ≡ some (phasor_after p b self.phasor_is_polar w t x, temps_after p b w t, end))
        × (drop end buf ≡ rest)
  unfolding read_phasor
  read_phasor-encode true self x t w pos rest f h1 h2 e =
      let e1 : drop (pos + 4) buf ≡ be32 w.snd_word ++ rest =
        drop-past pos 4 buf (be32 w.fst_word) _ e refl in
      (
        pos + 4 + 4,
        rw (
          f,
          decode_floating_point_value-be32 buf pos w.fst_word _ p h1 e,
          decode_floating_point_value-be32 buf (pos + 4) w.snd_word rest p h2 e1,
        ),
        drop-past (pos + 4) 4 buf (be32 w.snd_word) rest e1 refl,
      )
  read_phasor-encode false self x t w pos rest f h1 h2 e =
      let e1 : drop (pos + 2) buf ≡ be16 w.snd_word ++ rest =
        drop-past pos 2 buf (be16 w.fst_word) _ e refl in
      (
        pos + 2 + 2,
        rw (
          f,
          two_byte-be16 buf pos w.fst_word _ h1 e,
          two_byte-be16 buf (pos + 2) w.snd_word rest h2 e1,
        ),
        drop-past (pos + 2) 2 buf (be16 w.snd_word) rest e1 refl,
      )

  pub read_phasors-encode :
      (b : Bool) (self : Configuration p.Float) (ws : List PhasorWords) (xs : List (Phasor p.Float))
      (t : Temps p.Float) (pos : ℕ) (rest : List ℕ)
      → self.phasor_is_floating_point ≡ b
      → All (λ (w : PhasorWords). IsWord b w.fst_word × IsWord b w.snd_word) ws
      → length xs ≡ length ws
      → drop pos buf ≡ encode_phasors b ws rest
      → (end : ℕ) × (read_phasors p (length ws) self xs t buf pos
          ≡ some (phasors_after p b self.phasor_is_polar ws t xs, phasors_temps p b ws t, end))
        × (drop end buf ≡ rest)
  unfolding read_phasors
  read_phasors-encode b self [] xs t pos rest f h n e = (pos, refl, e)
  read_phasors-encode b self (w ∷ ws) [] t pos rest f h n e = absurd (omega arith)
  read_phasors-encode b self (w ∷ ws) (x ∷ xs) t pos rest f h n e =
      let (mid, one, e1) = read_phasor-encode b self x t w pos _ f h.0.0 h.0.1 e in
      let (end, more, e2) =
        read_phasors-encode b self ws xs (temps_after p b w t) mid rest f h.1 (omega arith) e1 in
      (end, rw (one, more), e2)

  pub read_frequency-encode :
      (b : Bool) (self : Configuration p.Float) (t : Temps p.Float) (w pos : ℕ) (rest : List ℕ)
      → self.freq_is_floating_point ≡ b
      → IsWord b w
      → drop pos buf ≡ encode_word b w ++ rest
      → (end : ℕ) × (read_frequency p self t buf pos
          ≡ some (frequency_after p b w self, temp_after p b w t, end))
        × (drop end buf ≡ rest)
  unfolding read_frequency
  read_frequency-encode true self t w pos rest f h e = (
    pos + 4,
    rw (f, decode_floating_point_value-be32 buf pos w rest p h e),
    drop-past pos 4 buf (be32 w) rest e refl,
  )
  read_frequency-encode false self t w pos rest f h e =
      (pos + 2, rw (f, two_byte-be16 buf pos w rest h e), drop-past pos 2 buf (be16 w) rest e refl)

  pub read_rocof-encode :
      (b : Bool) (self : Configuration p.Float) (t : Temps p.Float) (w pos : ℕ) (rest : List ℕ)
      → self.freq_is_floating_point ≡ b
      → IsWord b w
      → drop pos buf ≡ encode_word b w ++ rest
      → (end : ℕ) × (read_rocof p self t buf pos
          ≡ some (rocof_after p b w self, temp_after p b w t, end))
        × (drop end buf ≡ rest)
  unfolding read_rocof
  read_rocof-encode true self t w pos rest f h e = (
    pos + 4,
    rw (f, decode_floating_point_value-be32 buf pos w rest p h e),
    drop-past pos 4 buf (be32 w) rest e refl,
  )
  read_rocof-encode false self t w pos rest f h e =
      (pos + 2, rw (f, two_byte-be16 buf pos w rest h e), drop-past pos 2 buf (be16 w) rest e refl)

  read_analog-encode :
      (b : Bool) (self : Configuration p.Float) (x : Analog p.Float) (t : Temps p.Float) (w pos : ℕ)
      (rest : List ℕ)
      → self.analog_is_floating_point ≡ b
      → IsWord b w
      → drop pos buf ≡ encode_word b w ++ rest
      → (end : ℕ) × (read_analog p self x t buf pos
          ≡ some (analog_after p b w x, temp_after p b w t, end))
        × (drop end buf ≡ rest)
  unfolding read_analog
  read_analog-encode true self x t w pos rest f h e = (
    pos + 4,
    rw (f, decode_floating_point_value-be32 buf pos w rest p h e),
    drop-past pos 4 buf (be32 w) rest e refl,
  )
  read_analog-encode false self x t w pos rest f h e =
      (pos + 2, rw (f, two_byte-be16 buf pos w rest h e), drop-past pos 2 buf (be16 w) rest e refl)

  pub read_analogs-encode :
      (b : Bool) (self : Configuration p.Float) (ws : List ℕ) (xs : List (Analog p.Float))
      (t : Temps p.Float) (pos : ℕ) (rest : List ℕ)
      → self.analog_is_floating_point ≡ b
      → All (IsWord b) ws
      → length xs ≡ length ws
      → drop pos buf ≡ encode_words b ws rest
      → (end : ℕ) × (read_analogs p (length ws) self xs t buf pos
          ≡ some (analogs_after p b ws xs, words_temps p b ws t, end))
        × (drop end buf ≡ rest)
  unfolding read_analogs
  read_analogs-encode b self [] xs t pos rest f h n e = (pos, refl, e)
  read_analogs-encode b self (w ∷ ws) [] t pos rest f h n e = absurd (omega arith)
  read_analogs-encode b self (w ∷ ws) (x ∷ xs) t pos rest f h n e =
      let (mid, one, e1) = read_analog-encode b self x t w pos _ f h.0 e in
      let (end, more, e2) =
        read_analogs-encode b self ws xs (temp_after p b w t) mid rest f h.1 (omega arith) e1 in
      (end, rw (one, more), e2)

pub read_digitals-encode :
    (buf : List ℕ) (ws : List ℕ) (ds : List Digital) (pos : ℕ) (rest : List ℕ)
    → All IsU16 ws
    → length ds ≡ length ws
    → drop pos buf ≡ encode_words false ws rest
    → (end : ℕ) × (read_digitals (length ws) ds buf pos ≡ some (digitals_after ws ds, end))
      × (drop end buf ≡ rest)
unfolding read_digitals
read_digitals-encode buf [] ds pos rest h n e = (pos, refl, e)
read_digitals-encode buf (w ∷ ws) [] pos rest h n e = absurd (omega arith)
read_digitals-encode buf (w ∷ ws) (d ∷ ds) pos rest h n e =
    let (end, more, e2) =
      read_digitals-encode buf ws ds (pos + 2) rest h.1 (omega arith)
        (drop-past pos 2 buf (be16 w) _ e refl) in
    (end, rw (two_byte-be16 buf pos w _ h.0 e, more), e2)

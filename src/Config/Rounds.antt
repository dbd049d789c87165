-- ===== src/Config/Rounds.antt =====
-- `prepareConfiguration` on the encoded PMUs of a frame.
use khorjin.Prelude.{
  ℕ, suc, ◌+◌, ◌*◌, ◌≡◌, refl, ap, ◌∙◌, arith, false, Option, none, some, List, [], ◌∷◌, ◌++◌, map,
  All, length, drop, drop-past, ◌>>=◌, ◌==◌, if◌then◌else◌,
}
use khorjin.Platform.{Platform}
use khorjin.Types.{Configuration}
use khorjin.Wire.Cursor.{be16, two_byte-be16}
use khorjin.Config.Prepare.{prepare_pmus, prepare_configuration}
use khorjin.Config.Leaves.{nominal_frequency_lem}
use khorjin.Config.Spec.{
  PmuSpec, IsPmu, encode_channels, encode_pmu, encode_pmus, header_of, configuration_of,
}
use khorjin.Config.Block.{
  Agrees, pointed, prepare_header-encode, past_units, prepare_phsor-encode, prepare_analog-encode,
  prepare_digital-encode,
}

suc-ne-zero : (n : ℕ) → (suc n == 0) ≡ false
suc-ne-zero n = ground arith

-- An array is prepared unless its count is 0, and then it is empty.
unless_empty {ℓ κ} :
    {A : Type ℓ} {B : Type κ} (f : A → B) (xs : List A) (prepared : Option (List B))
    → prepared ≡ some (map f xs)
    → (if length xs == 0 then some [] else prepared) ≡ some (map f xs)
unless_empty f [] prepared e = refl
unless_empty f (x ∷ xs) prepared e = rw (suc-ne-zero (length xs)) e

module _ (p : Platform) where
  round :
      (first : Option (Configuration p.Float)) (n : ℕ) (s : PmuSpec) (buf : List ℕ) (pos : ℕ)
      (rest : List ℕ)
      → IsPmu s
      → Agrees p (pointed p first s) s
      → drop pos buf ≡ encode_pmu s rest
      → (end : ℕ) × (prepare_pmus p (suc n) first buf pos ≡ (
          prepare_pmus p n (some (pointed p first s)) buf end >>= λ cs.
          some (configuration_of p s ∷ cs)))
        × (drop end buf ≡ rest)
  unfolding prepare_pmus
  round first n s buf pos rest v a e =
      let c : Configuration p.Float = pointed p first s in
      let h : Configuration p.Float = header_of p s in
      let tail : List ℕ = be16 s.fnom ++ (be16 s.cfgcnt ++ rest) in
      let (header, e0) = prepare_header-encode p s buf pos (encode_channels s tail) v e in
      let pos0 : ℕ = pos + 26 in
      let end0 : ℕ =
        pos0
        + 16 * h.number_of_phasors
        + 16 * h.number_of_analogs
        + (16 * 16 * h.number_of_digitals
            + 4 * (h.number_of_analogs + h.number_of_digitals + h.number_of_phasors)) in
      let e1 : drop end0 buf ≡ tail = rw units_end at (past_units p s buf pos0 tail v e0) in
      let e2 : drop (end0 + 2) buf ≡ be16 s.cfgcnt ++ rest =
        drop-past end0 2 buf (be16 s.fnom) _ e1 refl in
      (
        end0 + 2 + 2,
        rw (
          header,
          unless_empty _ s.phasors _ (prepare_phsor-encode p s buf pos0 tail v e0 c a),
          a.phasors,
          unless_empty _ s.analogs _ (prepare_analog-encode p s buf pos0 tail v e0 c a),
          a.analogs,
          unless_empty _ s.digitals _ (prepare_digital-encode p s buf pos0 tail v e0 c a),
          two_byte-be16 buf end0 s.fnom _ v.fnom e1,
          two_byte-be16 buf (end0 + 2) s.cfgcnt rest v.cfgcnt e2,
          nominal_frequency_lem p s.fnom,
        ),
        drop-past (end0 + 2) 2 buf (be16 s.cfgcnt) rest e2 refl,
      )
    where
      units_end :
          pos
            + 26
            + 16 * length s.phasors
            + 16 * length s.analogs
            + 256 * length s.digitals
            + 4 * length s.phasors
            + 4 * length s.analogs
            + 4 * length s.digitals
          ≡ pos
            + 26
            + 16 * length s.phasors
            + 16 * length s.analogs
            + (16 * 16 * length s.digitals
                + 4 * (length s.analogs + length s.digitals + length s.phasors))
      units_end = omega arith

  -- With the first structure given, on any number of PMUs that agree with it.
  later_rounds :
      (c : Configuration p.Float) (ss : List PmuSpec) (buf : List ℕ) (pos : ℕ) (rest : List ℕ)
      → All IsPmu ss
      → All (Agrees p c) ss
      → drop pos buf ≡ encode_pmus ss rest
      → prepare_pmus p (length ss) (some c) buf pos ≡ some (map (configuration_of p) ss)
  later_rounds c [] buf pos rest v a e = unfold prepare_pmus in refl
  later_rounds c (s ∷ ss) buf pos rest v a e =
      let (end, step, after) = round (some c) (length ss) s buf pos _ v.0 a.0 e in
      step
      ∙ ap (λ m. m >>= λ cs. some (configuration_of p s ∷ cs))
          (later_rounds c ss buf end rest v.1 a.1 after)

  -- `prepareConfiguration` turns the encoded PMUs at its position, which all agree with the first in
  -- their channel counts and their phasor format, into the array of their structures.
  pub prepare_configuration-encode :
      (s : PmuSpec) (ss : List PmuSpec) (buf : List ℕ) (pos : ℕ) (rest : List ℕ)
      → All IsPmu (s ∷ ss)
      → All (Agrees p (header_of p s)) ss
      → drop pos buf ≡ encode_pmus (s ∷ ss) rest
      → prepare_configuration p (suc (length ss)) buf pos ≡ some (map (configuration_of p) (s ∷ ss))
  unfolding prepare_configuration
  prepare_configuration-encode s ss buf pos rest v a e =
      let itself : Agrees p (header_of p s) s = record {
        phasors = refl;
        analogs = refl;
        digitals = refl;
        floating = refl;
      } in
      let (end, step, after) = round none (length ss) s buf pos _ v.0 itself e in
      step
      ∙ ap (λ m. m >>= λ cs. some (configuration_of p s ∷ cs))
          (later_rounds (header_of p s) ss buf end rest v.1 a after)

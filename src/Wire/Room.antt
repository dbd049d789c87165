-- ===== src/Wire/Room.antt =====
-- The readers where the buffer has room for what they read.
use khorjin.Prelude.{
  ℕ, zero, suc, ◌+◌, ◌<◌, ◌≤◌, ◌≡◌, refl, arith, List, [], ◌∷◌, length, get_elem?, Gives, Gives->>=,
}
use khorjin.Platform.{Platform}
use khorjin.Wire.Decode.{
  two_byte_to_uint16, three_byte_to_uint32, four_byte_to_uint32, decode_floating_point_value,
}

module _ {ℓ} {A : Type ℓ} where
  pub get_elem?-Gives :
      (xs : List A) (i : ℕ) → i < length xs → Gives (λ x. Unit {0}) (get_elem? xs i)
  get_elem?-Gives [] i h = absurd (omega arith)
  get_elem?-Gives (x ∷ xs) zero h = Gives.gives tt
  get_elem?-Gives (x ∷ xs) (suc i) h = get_elem?-Gives xs i (omega arith)

module _ (buf : List ℕ) (pos : ℕ) where
  pub two_byte_to_uint16-Gives :
      pos + 2 ≤ length buf → Gives (λ r. r.1 ≡ pos + 2) (two_byte_to_uint16 buf pos)
  unfolding two_byte_to_uint16
  two_byte_to_uint16-Gives h =
      Gives->>= _ (get_elem? buf pos) _ (get_elem?-Gives buf pos (omega arith)) λ a u.
        Gives->>= _ (get_elem? buf (pos + 1)) _ (get_elem?-Gives buf (pos + 1) (omega arith))
          λ b v. Gives.gives refl

  pub three_byte_to_uint32-Gives :
      pos + 3 ≤ length buf → Gives (λ r. r.1 ≡ pos + 3) (three_byte_to_uint32 buf pos)
  unfolding three_byte_to_uint32
  three_byte_to_uint32-Gives h =
      Gives->>= _ (get_elem? buf pos) _ (get_elem?-Gives buf pos (omega arith)) λ a u.
        Gives->>= _ (get_elem? buf (pos + 1)) _ (get_elem?-Gives buf (pos + 1) (omega arith)) λ b v.
          Gives->>= _ (get_elem? buf (pos + 2)) _ (get_elem?-Gives buf (pos + 2) (omega arith))
            λ c w. Gives.gives refl

  pub four_byte_to_uint32-Gives :
      pos + 4 ≤ length buf → Gives (λ r. r.1 ≡ pos + 4) (four_byte_to_uint32 buf pos)
  unfolding four_byte_to_uint32
  four_byte_to_uint32-Gives h =
      Gives->>= _ (get_elem? buf pos) _ (get_elem?-Gives buf pos (omega arith)) λ a u.
        Gives->>= _ (get_elem? buf (pos + 1)) _ (get_elem?-Gives buf (pos + 1) (omega arith)) λ b v.
          Gives->>= _ (get_elem? buf (pos + 2)) _ (get_elem?-Gives buf (pos + 2) (omega arith))
            λ c w.
              Gives->>= _ (get_elem? buf (pos + 3)) _ (get_elem?-Gives buf (pos + 3) (omega arith))
                λ d x. Gives.gives refl

  pub decode_floating_point_value-Gives :
      (p : Platform)
      → pos + 4 ≤ length buf
      → Gives (λ r. r.1 ≡ pos + 4) (decode_floating_point_value p buf pos)
  unfolding decode_floating_point_value
  decode_floating_point_value-Gives p h =
      Gives->>= _ (get_elem? buf pos) _ (get_elem?-Gives buf pos (omega arith)) λ a u.
        Gives->>= _ (get_elem? buf (pos + 1)) _ (get_elem?-Gives buf (pos + 1) (omega arith)) λ b v.
          Gives->>= _ (get_elem? buf (pos + 2)) _ (get_elem?-Gives buf (pos + 2) (omega arith))
            λ c w.
              Gives->>= _ (get_elem? buf (pos + 3)) _ (get_elem?-Gives buf (pos + 3) (omega arith))
                λ d x. Gives.gives refl

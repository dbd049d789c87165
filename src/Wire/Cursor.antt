-- ===== src/Wire/Cursor.antt =====
-- The readers of Wire/Decode at a place of the buffer where an encoded word stands.
use khorjin.Prelude.{
  ℕ, ◌+◌, ◌/◌, ◌%◌, ◌<◌, ◌≡◌, ap, some, List, [], ◌∷◌, ◌++◌, arith, IsU16, IsU32, get_elem?,
  get_elem?-drop, drop, drop-append, take-append, length, length-append, length-drop, replicate,
  le→leb,
}
use khorjin.Platform.{Platform}
use khorjin.Wire.Decode.{
  two_byte_to_uint16, three_byte_to_uint32, four_byte_to_uint32, decode_floating_point_value,
  copy_name,
}

-- The big endian forms of the standard.
abbrev pub be16 : ℕ → List ℕ
be16 w = (w / 256) ∷ (w % 256) ∷ []

abbrev pub be24 : ℕ → List ℕ
be24 w = (w / 65536) ∷ (w / 256 % 256) ∷ (w % 256) ∷ []

abbrev pub be32 : ℕ → List ℕ
be32 w = (w / 16777216) ∷ (w / 65536 % 256) ∷ (w / 256 % 256) ∷ (w % 256) ∷ []

module _ (buf : List ℕ) (pos : ℕ) (rest : List ℕ) where
  pub byte-at : (a : ℕ) → drop pos buf ≡ a ∷ rest → get_elem? buf pos ≡ some a
  byte-at a e = get_elem?-drop buf pos a rest e

  second-at : (a b : ℕ) → drop pos buf ≡ a ∷ b ∷ rest → get_elem? buf (pos + 1) ≡ some b
  second-at a b e = get_elem?-drop buf (pos + 1) b rest (drop-append pos buf (a ∷ []) _ e)

  third-at : (a b c : ℕ) → drop pos buf ≡ a ∷ b ∷ c ∷ rest → get_elem? buf (pos + 2) ≡ some c
  third-at a b c e = get_elem?-drop buf (pos + 2) c rest (drop-append pos buf (a ∷ b ∷ []) _ e)

  fourth-at : (a b c d : ℕ) → drop pos buf ≡ a ∷ b ∷ c ∷ d ∷ rest → get_elem? buf (pos + 3) ≡ some d
  fourth-at a b c d e =
      get_elem?-drop buf (pos + 3) d rest (drop-append pos buf (a ∷ b ∷ c ∷ []) _ e)

module _ (buf : List ℕ) (pos w : ℕ) (rest : List ℕ) where
  pub two_byte-be16 :
      IsU16 w → drop pos buf ≡ be16 w ++ rest → two_byte_to_uint16 buf pos ≡ some (w, pos + 2)
  unfolding two_byte_to_uint16
  two_byte-be16 h e =
      rw (byte-at buf pos _ _ e, second-at buf pos rest _ _ e)
        (ap (λ v. some (v, pos + 2)) (omega arith))

  pub three_byte-be24 :
      w < 16777216
      → drop pos buf ≡ be24 w ++ rest
      → three_byte_to_uint32 buf pos ≡ some (w, pos + 3)
  unfolding three_byte_to_uint32
  three_byte-be24 h e =
      rw (byte-at buf pos _ _ e, second-at buf pos _ _ _ e, third-at buf pos rest _ _ _ e)
        (ap (λ v. some (v, pos + 3)) (omega arith))

  pub four_byte-be32 :
      IsU32 w → drop pos buf ≡ be32 w ++ rest → four_byte_to_uint32 buf pos ≡ some (w, pos + 4)
  unfolding four_byte_to_uint32
  four_byte-be32 h e =
      rw
        (
          byte-at buf pos _ _ e,
          second-at buf pos _ _ _ e,
          third-at buf pos _ _ _ _ e,
          fourth-at buf pos rest _ _ _ _ e,
        )
        (ap (λ v. some (v, pos + 4)) (omega arith))

  pub decode_floating_point_value-be32 :
      (p : Platform)
      → IsU32 w
      → drop pos buf ≡ be32 w ++ rest
      → decode_floating_point_value p buf pos ≡ some (p.float_of_bits w, pos + 4)
  unfolding decode_floating_point_value
  decode_floating_point_value-be32 p h e =
      rw
        (
          byte-at buf pos _ _ e,
          second-at buf pos _ _ _ e,
          third-at buf pos _ _ _ _ e,
          fourth-at buf pos rest _ _ _ _ e,
        )
        (ap (λ v. some (p.float_of_bits v, pos + 4)) (omega arith))

-- What `copy_name` makes of the 16 bytes of a name.
abbrev pub stored_name : List ℕ → List ℕ
stored_name name = name ++ replicate 4 0

pub copy_name-at :
    (buf : List ℕ) (pos : ℕ) (name rest : List ℕ)
    → length name ≡ 16
    → drop pos buf ≡ name ++ rest
    → copy_name buf pos ≡ some (stored_name name)
unfolding copy_name
copy_name-at buf pos name rest h e = rw (
  le→leb (pos + 16) (length buf)
      (omega (arith, length-drop pos buf, length-append name rest, ap length e)),
  e,
  ← h,
  take-append name rest,
)

-- ===== src/Wire/Typed.antt =====
-- What the readers give: words of their width, and from a buffer of bytes a byte or a text.
use khorjin.Prelude.{
  ℕ, zero, suc, ◌+◌, ◌≡◌, refl, ap, ◌∙◌, arith, List, [], ◌∷◌, ◌++◌, All, All-append, All-replicate,
  All-take, All-drop, IsByte, IsBytes, IsU16, IsU32, length, length-append, length-take,
  length-drop, get_elem?, get_elem?-append, take, drop, replicate, leb, leb→le, Yields, Yields->>=,
  Yields->>=_with, Option, ◌>>=◌, Bool-cases, inl, inr,
}
use khorjin.Typed.{IsText}
use khorjin.Wire.Decode.{two_byte_to_uint16, three_byte_to_uint32, four_byte_to_uint32, copy_name}

pub get_elem?-All {ℓ κ} :
    {A : Type ℓ} {P : A → Type κ} (xs : List A) (i : ℕ) → All P xs → Yields P (get_elem? xs i)
get_elem?-All [] i h = Yields.faults
get_elem?-All (x ∷ xs) zero h = Yields.gives h.0
get_elem?-All (x ∷ xs) (suc i) h = get_elem?-All xs i h.1

module _ (buf : List ℕ) (pos : ℕ) where
  pub two_byte_to_uint16-IsU16 : Yields (λ r. IsU16 r.0) (two_byte_to_uint16 buf pos)
  unfolding two_byte_to_uint16
  two_byte_to_uint16-IsU16 =
      Yields->>= _ (get_elem? buf pos) _
        λ a. Yields->>= _ (get_elem? buf (pos + 1)) _ λ b. Yields.gives (omega arith)

  -- A word is read, and then what goes on has it.
  pub Yields-two_byte {κ} :
      {B : Type 0} {Q : B → Type κ} {f : ℕ × ℕ → Option B}
      → ((r : ℕ × ℕ) → IsU16 r.0 → Yields Q (f r))
      → Yields Q (two_byte_to_uint16 buf pos >>= f)
  Yields-two_byte h = Yields->>=_with _ (two_byte_to_uint16 buf pos) _ two_byte_to_uint16-IsU16 h

  pub three_byte_to_uint32-IsU32 : Yields (λ r. IsU32 r.0) (three_byte_to_uint32 buf pos)
  unfolding three_byte_to_uint32
  three_byte_to_uint32-IsU32 = Yields->>= _ (get_elem? buf pos) _ λ a.
      Yields->>= _ (get_elem? buf (pos + 1)) _
        λ b. Yields->>= _ (get_elem? buf (pos + 2)) _ λ c. Yields.gives (omega arith)

  pub four_byte_to_uint32-IsU32 : Yields (λ r. IsU32 r.0) (four_byte_to_uint32 buf pos)
  unfolding four_byte_to_uint32
  four_byte_to_uint32-IsU32 = Yields->>= _ (get_elem? buf pos) _ λ a.
      Yields->>= _ (get_elem? buf (pos + 1)) _ λ b.
        Yields->>= _ (get_elem? buf (pos + 2)) _
          λ c. Yields->>= _ (get_elem? buf (pos + 3)) _ λ d. Yields.gives (omega arith)

pub zeros-IsText : IsText (replicate 20 0)
zeros-IsText = record { size = refl; bytes = All-replicate IsByte 20 0 (omega arith); ended = refl }

stored-IsText : (name : List ℕ) → length name ≡ 16 → IsBytes name → IsText (name ++ replicate 4 0)
stored-IsText name n h = record {
  size = omega (arith, length-append name (replicate 4 0), n);
  bytes = All-append IsByte name (replicate 4 0) h (All-replicate IsByte 4 0 (omega arith));
  ended =
      let last : 19 ≡ length name + 3 = omega (arith, n) in
      ap (get_elem? (name ++ replicate 4 0)) last ∙ get_elem?-append name (replicate 4 0) 3;
}

pub copy_name-IsText : (buf : List ℕ) (pos : ℕ) → IsBytes buf → Yields IsText (copy_name buf pos)
unfolding copy_name
copy_name-IsText buf pos h = elim (Bool-cases (leb (pos + 16) (length buf))) [
  | inl e ↦ rw e (
      Yields.gives (
        stored-IsText (take 16 (drop pos buf))
          (length-take 16 (drop pos buf) (omega (arith, leb→le _ _ e, length-drop pos buf)))
          (All-take IsByte 16 (drop pos buf) (All-drop IsByte pos buf h))))
  | inr e ↦ rw e Yields.faults
]

-- ===== src/Wire/RoundTrip.antt =====
-- `encodeUInt32FixedSize` and `encodeUInt16FixedSize`, read back by `fourByteToUint32` and
-- `twoByteToUint16`.
use khorjin.Prelude.{
  ℕ, zero, suc, ◌+◌, ◌/◌, ◌%◌, ◌≡◌, refl, arith, some, List, [], ◌∷◌, ◌++◌, IsU16, IsU32, length,
  drop-length,
}
use khorjin.Wire.Decode.{two_byte_to_uint16, four_byte_to_uint32}
use khorjin.Wire.Encode.{store, encode_uint32_fixed_size, encode_uint16_fixed_size}
use khorjin.Wire.Cursor.{be16, be32, two_byte-be16, four_byte-be32}

-- A write behind a front leaves the front alone.
store-past :
    (front xs ys : List ℕ) (i k v : ℕ)
    → k ≡ length front + i
    → store xs i v ≡ some ys
    → store (front ++ xs) k v ≡ some (front ++ ys)
unfolding store
store-past [] xs ys i k v h e = let same : k ≡ i = omega arith in rw (same, e) refl
store-past (x ∷ front) xs ys i zero v h e = absurd (omega arith)
store-past (x ∷ front) xs ys i (suc k) v h e =
    rw (store-past front xs ys i k v (omega arith) e) refl

module _ (front rest : List ℕ) where
  encode_uint32_fixed_size-over :
      (a b c d value : ℕ)
      → IsU32 value
      → encode_uint32_fixed_size value (front ++ a ∷ b ∷ c ∷ d ∷ rest) (length front)
        ≡ some (front ++ (be32 value ++ rest), length front + 4)
  unfolding encode_uint32_fixed_size store
  encode_uint32_fixed_size-over a b c d value h =
      let top : value / 16777216 % 256 ≡ value / 16777216 = omega arith in
      let v0 : ℕ = value / 16777216 in
      let v1 : ℕ = value / 65536 % 256 in
      let v2 : ℕ = value / 256 % 256 in
      rw (
        top,
        store-past front (a ∷ b ∷ c ∷ d ∷ rest) _ 0 (length front) v0 (omega arith) refl,
        store-past front (v0 ∷ b ∷ c ∷ d ∷ rest) _ 1 (length front + 1) v1 refl refl,
        store-past front (v0 ∷ v1 ∷ c ∷ d ∷ rest) _ 2 (length front + 2) v2 refl refl,
        store-past front (v0 ∷ v1 ∷ v2 ∷ d ∷ rest) _ 3 (length front + 3) (value % 256) refl refl,
      )

  encode_uint16_fixed_size-over :
      (a b value : ℕ)
      → IsU16 value
      → encode_uint16_fixed_size value (front ++ a ∷ b ∷ rest) (length front)
        ≡ some (front ++ (be16 value ++ rest), length front + 2)
  unfolding encode_uint16_fixed_size store
  encode_uint16_fixed_size-over a b value h =
      let top : value / 256 % 256 ≡ value / 256 = omega arith in
      let v0 : ℕ = value / 256 in
      rw (
        top,
        store-past front (a ∷ b ∷ rest) _ 0 (length front) v0 (omega arith) refl,
        store-past front (v0 ∷ b ∷ rest) _ 1 (length front + 1) (value % 256) refl refl,
      )

  -- A value of 32 bits that `encodeUInt32FixedSize` has written anywhere in a buffer is what
  -- `fourByteToUint32` reads at that place, and the position of both is then behind it; likewise a value
  -- of 16 bits with `encodeUInt16FixedSize` and `twoByteToUint16`. Each writes its four or two bytes and
  -- nothing else.
  pub encode_uint32_fixed_size-four_byte :
      (a b c d value word : ℕ)
      → IsU32 value
      → IsU16 word
      → ((buffer : List ℕ) × (encode_uint32_fixed_size value
              (front ++ a ∷ b ∷ c ∷ d ∷ rest)
              (length front)
            ≡ some (buffer, length front + 4))
          × (buffer ≡ front ++ (be32 value ++ rest))
          × (four_byte_to_uint32 buffer (length front) ≡ some (value, length front + 4)))
        × ((buffer : List ℕ) × (encode_uint16_fixed_size word (front ++ a ∷ b ∷ rest) (length front)
              ≡ some (buffer, length front + 2))
            × (buffer ≡ front ++ (be16 word ++ rest))
            × (two_byte_to_uint16 buffer (length front) ≡ some (word, length front + 2)))
  encode_uint32_fixed_size-four_byte a b c d value word h k = (
    (
      front ++ (be32 value ++ rest),
      encode_uint32_fixed_size-over a b c d value h,
      refl,
      four_byte-be32 _ (length front) value rest h (drop-length front (be32 value ++ rest)),
    ),
    (
      front ++ (be16 word ++ rest),
      encode_uint16_fixed_size-over a b word k,
      refl,
      two_byte-be16 _ (length front) word rest k (drop-length front (be16 word ++ rest)),
    ),
  )

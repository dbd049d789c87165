-- ===== src/Checks.antt =====
-- The five checks in front of both parsers, taken by themselves.
use khorjin.Prelude.{
  ℕ, ◌≡◌, refl, sym, ap, ◌∙◌, true, some, List, ◌==◌, ==_iff, ==_refl, get_elem?, ◌↔◌,
}
use khorjin.Prelude.Int
use khorjin.Prelude.Int.{ℤ, negsuc}
use khorjin.Prelude.Outcome.{
  Outcome, done, access, require, ◌>>=◌, ◌>>◌, >>=-eq-done, access-eq-done, require-eq-done,
}
use khorjin.Wire.Decode.{two_byte_to_uint16}
use khorjin.Wire.Crc.{crc_check}
use khorjin.Config.Frame.{same_size}

-- The checks, then the body on FRAMESIZE, the identification code and the position behind it.
abbrev pub checked : {A : Type 0} → ℕ → ℕ → List ℕ → ℤ → (ℕ → ℕ → ℕ → Outcome A) → Outcome A
checked kind idcode buffer size body = do
  intact ← access (crc_check buffer size)
  require intact
  sync ← access (get_elem? buffer 0)
  require (sync == 0xAA)
  kind_byte ← access (get_elem? buffer 1)
  require (kind_byte == kind)
  (frame_size, buf_pos) ← access (two_byte_to_uint16 buffer 2)
  require (same_size frame_size size)
  (id_code, buf_pos) ← access (two_byte_to_uint16 buffer buf_pos)
  require (id_code == idcode)
  body frame_size id_code buf_pos

same_size-eq : (m : ℕ) (z : ℤ) → same_size m z ≡ true → z ≡ Int.pos m
same_size-eq m (Int.pos n) h = ap Int.pos (sym ((==_iff m n).0 h))
same_size-eq m (negsuc n) h = cc

-- The five conditions on a frame of `kind` for a client: the checksum, the two bytes of SYNC, the
-- FRAMESIZE word and the identification code.
pub record IsAddressed (kind idcode : ℕ) (buffer : List ℕ) (size : ℤ) : Type 0 where
  pub intact : crc_check buffer size ≡ some true
  pub sync : get_elem? buffer 0 ≡ some 0xAA
  pub kind_byte : get_elem? buffer 1 ≡ some kind
  pub frame_size : ℕ
  pub size_end : ℕ
  pub reads_size : two_byte_to_uint16 buffer 2 ≡ some (frame_size, size_end)
  pub whole : size ≡ Int.pos frame_size
  pub id_end : ℕ
  pub reads_id : two_byte_to_uint16 buffer size_end ≡ some (idcode, id_end)

same_size_refl : (m : ℕ) (z : ℤ) → z ≡ Int.pos m → same_size m z ≡ true
same_size_refl m (Int.pos n) h = let e : m ≡ n = cc in (==_iff m n).1 e
same_size_refl m (negsuc n) h = cc

module _ {A : Type 0} (kind idcode : ℕ) (buffer : List ℕ) (size : ℤ)
    (body : ℕ → ℕ → ℕ → Outcome A) where
  pub IsAddressed-checked :
      (v : IsAddressed kind idcode buffer size)
      → checked kind idcode buffer size body ≡ body v.frame_size idcode v.id_end
  IsAddressed-checked v =
      rw
        (
          v.intact,
          v.sync,
          v.kind_byte,
          ==_refl kind,
          v.reads_size,
          same_size_refl v.frame_size size v.whole,
          v.reads_id,
          ==_refl idcode,
        )
        refl

  checked-IsAddressed :
      (a : A)
      → checked kind idcode buffer size body ≡ done a
      → (v : IsAddressed kind idcode buffer size) × (body v.frame_size idcode v.id_end ≡ done a)
  checked-IsAddressed a h =
      let (intact, h0, h1) = >>=-eq-done (access (crc_check buffer size)) _ h in
      let (u1, h2, h3) = >>=-eq-done (require intact) _ h1 in
      let (sync, h4, h5) = >>=-eq-done (access (get_elem? buffer 0)) _ h3 in
      let (u2, h6, h7) = >>=-eq-done (require (sync == 0xAA)) _ h5 in
      let (byte, h8, h9) = >>=-eq-done (access (get_elem? buffer 1)) _ h7 in
      let (u3, h10, h11) = >>=-eq-done (require (byte == kind)) _ h9 in
      let (w, h12, h13) = >>=-eq-done (access (two_byte_to_uint16 buffer 2)) _ h11 in
      let (u4, h14, h15) = >>=-eq-done (require (same_size w.0 size)) _ h13 in
      let (i, h16, h17) = >>=-eq-done (access (two_byte_to_uint16 buffer w.1)) _ h15 in
      let (u5, h18, h19) = >>=-eq-done (require (i.0 == idcode)) _ h17 in
      let same : i.0 ≡ idcode = (==_iff i.0 idcode).0 (require-eq-done _ h18) in
      (
        record {
          intact = access-eq-done _ h0 ∙ ap some (require-eq-done intact h2);
          sync = access-eq-done _ h4 ∙ ap some ((==_iff sync 0xAA).0 (require-eq-done _ h6));
          kind_byte = access-eq-done _ h8 ∙ ap some ((==_iff byte kind).0 (require-eq-done _ h10));
          frame_size = w.0;
          size_end = w.1;
          reads_size = access-eq-done _ h12;
          whole = same_size-eq w.0 size (require-eq-done _ h14);
          id_end = i.1;
          reads_id = access-eq-done _ h16 ∙ ap (λ k. some (k, i.1)) same;
        },
        ap (λ k. body w.0 k i.1) (sym same) ∙ h19,
      )

  -- The checks let a frame through exactly if it meets the five conditions.
  pub checked_iff :
      (a : A)
      → (checked kind idcode buffer size body ≡ done a)
        ↔ ((v : IsAddressed kind idcode buffer size) × (body v.frame_size idcode v.id_end ≡ done a))
  checked_iff a = (checked-IsAddressed a, λ r. IsAddressed-checked r.0 ∙ r.1)

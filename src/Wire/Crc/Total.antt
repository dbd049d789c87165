-- ===== src/Wire/Crc/Total.antt =====
-- `crcCheck` on a buffer and a number of bytes received: when it leaves the buffer.
use khorjin.Prelude.{
  ℕ, zero, suc, ◌-◌, ◌%◌, ◌<◌, ◌≤◌, ◌≡◌, refl, arith, Option, some, none, List, [], ◌∷◌, ◌>>=◌,
  length, leb, le→leb, true, get_elem?, Gives, Gives->>=,
}
use khorjin.Prelude.Int.{pos, ◌-ℤ◌, uint32}
use khorjin.Wire.Room.{get_elem?-Gives}
use khorjin.Wire.Crc.{crc_step, crc_loop, compute_crc, crc_check}

crc_loop-Gives :
    (xs : List ℕ) (rounds crc : ℕ)
    → rounds ≤ length xs
    → Gives (λ c. Unit {0}) (crc_loop xs rounds crc)
unfolding crc_loop
crc_loop-Gives [] zero crc h = Gives.gives tt
crc_loop-Gives [] (suc rounds) crc h = absurd (omega arith)
crc_loop-Gives (b ∷ bs) zero crc h = Gives.gives tt
crc_loop-Gives (b ∷ bs) (suc rounds) crc h = crc_loop-Gives bs rounds (crc_step crc b) (omega arith)

-- On two bytes and more, up to the length of the buffer, the check ends.
pub crc_check-Gives :
    (buffer : List ℕ) (n : ℕ)
    → 2 ≤ n
    → n ≤ length buffer
    → Gives (λ b. Unit {0}) (crc_check buffer (pos n))
unfolding crc_check compute_crc
crc_check-Gives buffer n few h =
    let two : leb 2 n ≡ true = le→leb 2 n few in
    let one : leb 1 n ≡ true = le→leb 1 n (omega arith) in
    rw (two, one)
      (Gives->>= _ (crc_loop buffer ((n - 2) % 4294967296) 0xFFFF) _
        (crc_loop-Gives buffer _ 0xFFFF (omega arith))
        λ c u.
          Gives->>= _ (get_elem? buffer (n - 2)) _ (get_elem?-Gives buffer _ (omega arith)) λ hi v.
            Gives->>= _ (get_elem? buffer (n - 1)) _ (get_elem?-Gives buffer _ (omega arith))
              λ lo w. Gives.gives tt)

abbrev no_value : {A B : Type 0} → A → Option B
no_value a = none

then_none : {A B : Type 0} (m : Option A) → (m >>= no_value {B = B}) ≡ none
then_none none = refl
then_none (some a) = refl

-- On no byte and on one the high byte of the checksum stands in front of the buffer.
pub crc_check_short : (buffer : List ℕ) (n : ℕ) → n < 2 → crc_check buffer (pos n) ≡ none
unfolding crc_check
crc_check_short buffer zero h = then_none (compute_crc buffer (uint32 (pos 0 -ℤ 2)))
crc_check_short buffer (suc zero) h = then_none (compute_crc buffer (uint32 (pos 1 -ℤ 2)))
crc_check_short buffer (suc (suc n)) h = absurd (omega arith)

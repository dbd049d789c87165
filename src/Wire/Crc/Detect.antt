-- ===== src/Wire/Crc/Detect.antt =====
-- What `crcCheck` notices, and what becomes of it on a length below 2.
use khorjin.Prelude.{
  All-append, IsByte, ℕ, ◌+◌, ◌*◌, ◌/◌, ◌%◌, ◌<◌, ◌≡◌, ◌≢◌, refl, sym, ap, ◌∙◌, arith, false,
  Option, none, some, List, [], ◌∷◌, ◌++◌, IsByte, IsBytes, IsU16, ◌==◌, length, ◌>>=◌,
}
use khorjin.Prelude.Int.{pos, negsuc, ◌-ℤ◌, uint32}
use khorjin.Wire.Crc.{crc_step, compute_crc, crc_check}
use khorjin.Wire.Crc.Step.{crc_step-IsU16, crc_step_injective, crc_step-byte_injective}
use khorjin.Wire.Crc.Check.{crc_from, crc_of, crc_of-IsU16, crc_check-compares}

-- Different checksums stay different over the same bytes.
pub crc_from_injective :
    (xs : List ℕ) (c c' : ℕ)
    → IsU16 c
    → IsU16 c'
    → IsBytes xs
    → crc_from c xs ≡ crc_from c' xs
    → c ≡ c'
unfolding crc_from
crc_from_injective [] c c' hc hc' h e = e
crc_from_injective (b ∷ bs) c c' hc hc' h e = crc_step_injective c c' b hc hc' h.0 (
    crc_from_injective bs (crc_step c b) (crc_step c' b) (crc_step-IsU16 c b hc h.0)
      (crc_step-IsU16 c' b hc' h.0) h.1 e)

pub crc_from-append : (xs ys : List ℕ) (c : ℕ) → crc_from c (xs ++ ys) ≡ crc_from (crc_from c xs) ys
unfolding crc_from
crc_from-append [] ys c = refl
crc_from-append (x ∷ xs) ys c = crc_from-append xs ys (crc_step c x)

-- Two messages that differ in one byte have different checksums.
crc_of_one_byte :
    (front back : List ℕ) (b b' : ℕ)
    → IsBytes front
    → IsBytes back
    → IsByte b
    → IsByte b'
    → crc_of (front ++ b ∷ back) ≡ crc_of (front ++ b' ∷ back)
    → b ≡ b'
crc_of_one_byte front back b b' hf hb h h' e =
    let c : ℕ = crc_of front in
    let hc : IsU16 c = crc_of-IsU16 front hf in
    let tails : crc_from c (b ∷ back) ≡ crc_from c (b' ∷ back) =
      sym (crc_from-append front (b ∷ back) 0xFFFF)
      ∙ e
      ∙ crc_from-append front (b' ∷ back) 0xFFFF in
    crc_step-byte_injective c b b' hc h h' (
      crc_from_injective back (crc_step c b) (crc_step c b') (crc_step-IsU16 c b hc h)
        (crc_step-IsU16 c b' hc h') hb (unfold crc_from in tails))

pub differ→false : (x y : ℕ) → x ≢ y → (x == y) ≡ false
differ→false x y h = ground arith

-- A frame of less than 0x7FFFFFF0 bytes whose body has one byte changed on the way is refused by
-- `crcCheck`.
pub crc_check_one_byte :
    (front back rest : List ℕ) (b b' n : ℕ)
    → IsBytes front
    → IsBytes back
    → IsByte b
    → IsByte b'
    → b ≢ b'
    → length (front ++ b' ∷ back) ≡ n
    → n < 0x7FFFFFF0
    → crc_check
        ((front ++ b' ∷ back)
          ++ (crc_of (front ++ b ∷ back) / 256) ∷ (crc_of (front ++ b ∷ back) % 256) ∷ rest)
        (pos (n + 2))
      ≡ some false
crc_check_one_byte front back rest b b' n hf hb h h' ne hn small =
    let sent : ℕ = crc_of (front ++ b ∷ back) in
    let word : IsU16 sent = crc_of-IsU16 _ (All-append IsByte front (b ∷ back) hf (h, hb)) in
    let parts : sent / 256 * 256 + sent % 256 ≡ sent = omega arith in
    crc_check-compares (front ++ b' ∷ back) rest _ _ n hn small (omega arith) (omega arith)
    ∙ ap some (
        ap (◌==◌ (crc_of (front ++ b' ∷ back))) parts
        ∙ differ→false _ _ (λ e. ne (sym (crc_of_one_byte front back b' b hf hb h' h e))))

-- Below two bytes the check leaves the buffer: on -1, the answer of a closed connection, at once.
pub crc_check_negative : (buffer : List ℕ) (n : ℕ) → crc_check buffer (negsuc n) ≡ none
unfolding crc_check
crc_check_negative buffer n = elim_on (compute_crc buffer (uint32 (negsuc n -ℤ 2)))
  where
    elim_on :
        (m : Option ℕ)
        → (m >>= λ crc. (none >>= λ hi. (none >>= λ lo. some (crc == (hi * 256 + lo) % 65536))))
          ≡ none
    elim_on none = refl
    elim_on (some c) = refl

-- ===== src/Wire/Crc/Burst.antt =====
-- What `crcCheck` notices of damage to two bytes that stand side by side.
use khorjin.Prelude.{
  All-append, IsByte, ℕ, ◌+◌, ◌*◌, ◌/◌, ◌%◌, ◌<◌, ◌≡◌, sym, ap, ◌∙◌, arith, false, some, List, ◌∷◌,
  ◌++◌, IsByte, IsBytes, IsU16, ◌==◌, length,
}
use khorjin.Prelude.Int.{pos}
use khorjin.Wire.Crc.{crc_check}
use khorjin.Wire.Crc.Step.{crc_step-IsU16, crc_step-two_injective}
use khorjin.Wire.Crc.Check.{crc_from, crc_of, crc_of-IsU16, crc_check-compares}
use khorjin.Wire.Crc.Detect.{crc_from_injective, crc_from-append, differ→false}

-- Two messages that differ in two bytes side by side have different checksums.
crc_of_two_bytes :
    (front back : List ℕ) (b1 b2 b1' b2' : ℕ)
    → IsBytes front
    → IsBytes back
    → IsByte b1
    → IsByte b2
    → IsByte b1'
    → IsByte b2'
    → crc_of (front ++ b1 ∷ b2 ∷ back) ≡ crc_of (front ++ b1' ∷ b2' ∷ back)
    → (b1 ≡ b1') × (b2 ≡ b2')
crc_of_two_bytes front back b1 b2 b1' b2' hf hb h1 h2 h1' h2' e =
    let c : ℕ = crc_of front in
    let hc : IsU16 c = crc_of-IsU16 front hf in
    let tails : crc_from c (b1 ∷ b2 ∷ back) ≡ crc_from c (b1' ∷ b2' ∷ back) =
      sym (crc_from-append front (b1 ∷ b2 ∷ back) 0xFFFF)
      ∙ e
      ∙ crc_from-append front (b1' ∷ b2' ∷ back) 0xFFFF in
    crc_step-two_injective c b1 b2 b1' b2' hc h1 h2 h1' h2' (
      crc_from_injective back _ _ (crc_step-IsU16 _ b2 (crc_step-IsU16 c b1 hc h1) h2)
        (crc_step-IsU16 _ b2' (crc_step-IsU16 c b1' hc h1') h2') hb (unfold crc_from in tails))

-- A frame of less than 0x7FFFFFF0 bytes in whose body one byte or two bytes side by side were changed on
-- the way, in any way, is refused by `crcCheck`.
pub crc_check_two_bytes :
    (front back rest : List ℕ) (b1 b2 b1' b2' n : ℕ)
    → IsBytes front
    → IsBytes back
    → IsByte b1
    → IsByte b2
    → IsByte b1'
    → IsByte b2'
    → ¬ ((b1 ≡ b1') × (b2 ≡ b2'))
    → length (front ++ b1' ∷ b2' ∷ back) ≡ n
    → n < 0x7FFFFFF0
    → crc_check
        ((front ++ b1' ∷ b2' ∷ back)
          ++ (crc_of (front ++ b1 ∷ b2 ∷ back) / 256)
            ∷ (crc_of (front ++ b1 ∷ b2 ∷ back) % 256)
            ∷ rest)
        (pos (n + 2))
      ≡ some false
crc_check_two_bytes front back rest b1 b2 b1' b2' n hf hb h1 h2 h1' h2' ne hn small =
    let sent : ℕ = crc_of (front ++ b1 ∷ b2 ∷ back) in
    let word : IsU16 sent =
      crc_of-IsU16 _ (All-append IsByte front (b1 ∷ b2 ∷ back) hf (h1, (h2, hb))) in
    let parts : sent / 256 * 256 + sent % 256 ≡ sent = omega arith in
    crc_check-compares (front ++ b1' ∷ b2' ∷ back) rest _ _ n hn small (omega arith) (omega arith)
    ∙ ap some (
        ap (◌==◌ (crc_of (front ++ b1' ∷ b2' ∷ back))) parts
        ∙ differ→false _ _
            (λ e. ne (crc_of_two_bytes front back b1 b2 b1' b2' hf hb h1 h2 h1' h2' (sym e))))

-- ===== src/Wire/Crc/Serial.antt =====
-- The checksum of the standard, CRC-CCITT: one bit at a time, with the polynomial
-- x^16 + x^12 + x^5 + 1, and its agreement with the rounds of `computeCRC`.
use khorjin.Prelude.{
  true, ℕ, zero, suc, ◌+◌, ◌*◌, ◌/◌, ◌%◌, ◌^◌, ◌≡◌, refl, sym, ap, ◌∙◌, arith, bit_xor, IsByte,
  IsU16, ◌⊎◌, inl, inr,
}
use khorjin.Prelude.Bits.Xor.{bit_xor-lt, zero-bit_xor}
use khorjin.Prelude.Bits.Split.{
  bit_xor_split, bit_xor-div_32768, bit_xor-mod_32768, bit_xor-twice, bit_xor_interchange,
}
use khorjin.Prelude.Tables.{same_below, same_below→eq}
use khorjin.Wire.Crc.{crc_step}
use khorjin.Wire.Crc.Step.{spread, crc_step-spread, mixed-IsByte}

-- The register moves up by one bit; the bit that falls out adds the polynomial.
unfoldable pub crc_bit : ℕ → ℕ
crc_bit c = bit_xor (c % 32768 * 2) (c / 32768 * 0x1021)

unfoldable pub crc_bits : ℕ → ℕ → ℕ
crc_bits zero c = c
crc_bits (suc n) c = crc_bits n (crc_bit c)

-- A byte enters at the top of the register, and eight bits are worked off.
unfoldable pub serial_step : ℕ → ℕ → ℕ
serial_step c b = crc_bits 8 (bit_xor c (b * 256))

crc_bit-IsU16 : (c : ℕ) → IsU16 c → IsU16 (crc_bit c)
unfolding crc_bit
crc_bit-IsU16 c h = bit_xor-lt 16 _ _ (omega arith) (omega arith)

top_cases : (c : ℕ) → IsU16 c → (c / 32768 ≡ 0) ⊎ (c / 32768 ≡ 1)
top_cases c h = omega arith

polynomial-xor :
    (x y : ℕ)
    → (x ≡ 0) ⊎ (x ≡ 1)
    → (y ≡ 0) ⊎ (y ≡ 1)
    → bit_xor x y * 0x1021 ≡ bit_xor (x * 0x1021) (y * 0x1021)
polynomial-xor x y (inl ex) (inl ey) = rw (ex, ey)
polynomial-xor x y (inl ex) (inr ey) = rw (ex, ey)
polynomial-xor x y (inr ex) (inl ey) = rw (ex, ey)
polynomial-xor x y (inr ex) (inr ey) = rw (ex, ey)

-- The register is linear.
crc_bit-xor :
    (a b : ℕ) → IsU16 a → IsU16 b → crc_bit (bit_xor a b) ≡ bit_xor (crc_bit a) (crc_bit b)
unfolding crc_bit
crc_bit-xor a b ha hb =
    rw
      (
        bit_xor-mod_32768 a b,
        bit_xor-div_32768 a b,
        ← bit_xor-twice (a % 32768) (b % 32768),
        polynomial-xor (a / 32768) (b / 32768) (top_cases a ha) (top_cases b hb),
      )
      (bit_xor_interchange 16 (a % 32768 * 2) (b % 32768 * 2) (a / 32768 * 0x1021)
        (b / 32768 * 0x1021) (omega arith) (omega arith) (omega arith) (omega arith))

crc_bits-xor :
    (n a b : ℕ)
    → IsU16 a
    → IsU16 b
    → crc_bits n (bit_xor a b) ≡ bit_xor (crc_bits n a) (crc_bits n b)
unfolding crc_bits
crc_bits-xor zero a b ha hb = refl
crc_bits-xor (suc n) a b ha hb =
    ap (crc_bits n) (crc_bit-xor a b ha hb)
    ∙ crc_bits-xor n (crc_bit a) (crc_bit b) (crc_bit-IsU16 a ha) (crc_bit-IsU16 b hb)

low_table : same_below 256 (λ l. crc_bits 8 l) (λ l. l * 256) ≡ true
unfolding same_below crc_bits crc_bit
low_table = refl

high_table : same_below 256 (λ t. crc_bits 8 (t * 256)) (λ t. spread t) ≡ true
unfolding same_below crc_bits crc_bit
high_table = refl

-- The byte meets the high byte of the register.
entered :
    (c b : ℕ)
    → IsU16 c
    → IsByte b
    → bit_xor c (b * 256) ≡ bit_xor (c % 256) (bit_xor (c / 256) b * 256)
entered c b hc hb =
    let t : ℕ = bit_xor (c / 256) b in
    let ec : c ≡ c / 256 * 2 ^ 8 + c % 256 = omega arith in
    let eb : b * 256 ≡ b * 2 ^ 8 + 0 = omega arith in
    let el : c % 256 ≡ 0 * 2 ^ 8 + c % 256 = omega arith in
    let et : t * 256 ≡ t * 2 ^ 8 + 0 = omega arith in
    ap (λ x. bit_xor x (b * 256)) ec
    ∙ ap (bit_xor (c / 256 * 2 ^ 8 + c % 256)) eb
    ∙ bit_xor_split 8 (c / 256) b (c % 256) 0 (omega arith) (omega arith)
    ∙ ap (λ x. x * 2 ^ 8 + bit_xor (c % 256) 0) (sym (zero-bit_xor t))
    ∙ sym (bit_xor_split 8 0 t (c % 256) 0 (omega arith) (omega arith))
    ∙ ap (bit_xor (0 * 2 ^ 8 + c % 256)) (sym et)
    ∙ ap (λ x. bit_xor x (t * 256)) (sym el)

-- A round of `computeCRC` is eight steps of the register of the standard.
pub crc_step-serial : (c b : ℕ) → IsU16 c → IsByte b → crc_step c b ≡ serial_step c b
unfolding serial_step
crc_step-serial c b hc hb =
    let t : ℕ = bit_xor (c / 256) b in
    let ht : IsByte t = mixed-IsByte c b hc hb in
    crc_step-spread c b hc hb
    ∙ ap (λ x. bit_xor x (spread t)) (sym (same_below→eq 256 _ _ (c % 256) low_table (omega arith)))
    ∙ ap (bit_xor (crc_bits 8 (c % 256))) (sym (same_below→eq 256 _ _ t high_table ht))
    ∙ sym (crc_bits-xor 8 (c % 256) (t * 256) (omega arith) (omega arith))
    ∙ ap (crc_bits 8) (sym (entered c b hc hb))

-- ===== src/Wire/Crc/Step.antt =====
-- One round of `computeCRC`: the low byte of the checksum moves up, and what the high byte and the
-- message byte make is added to it.
use khorjin.Prelude.{
  true, ℕ, ◌*◌, ◌/◌, ◌%◌, ◌^◌, ◌<◌, ◌≡◌, refl, sym, ap, ◌∙◌, arith, bit_xor, IsByte, IsU16, u16,
}
use khorjin.Prelude.Bits.Xor.{bit_xor-lt, bit_xor_assoc, bit_xor_cancel, bit_xor_comm, zero-bit_xor}
use khorjin.Prelude.Bits.Split.{bit_xor-mod_256}
use khorjin.Prelude.Tables.{same_below, same_below→eq}
use khorjin.Wire.Crc.{crc_step}

-- `temp ^ (temp >> 4)`, and its copies at bits 0, 5 and 12.
abbrev pub fold : ℕ → ℕ
fold t = bit_xor t (t / 16)

abbrev pub spread : ℕ → ℕ
spread t = bit_xor (fold t) (bit_xor (u16 (fold t * 32)) (u16 (u16 (fold t * 32) * 128)))

fold-IsByte : (t : ℕ) → IsByte t → IsByte (fold t)
fold-IsByte t h = bit_xor-lt 8 t (t / 16) h (omega arith)

pub spread-IsU16 : (t : ℕ) → IsByte t → IsU16 (spread t)
spread-IsU16 t h =
    bit_xor-lt 16 (fold t) _ (omega (arith, fold-IsByte t h))
      (bit_xor-lt 16 _ _ (omega arith) (omega arith))

pub mixed-IsByte : (c b : ℕ) → IsU16 c → IsByte b → IsByte (bit_xor (c / 256) b)
mixed-IsByte c b hc hb = bit_xor-lt 8 (c / 256) b (omega arith) hb

pub crc_step-spread :
    (c b : ℕ)
    → IsU16 c
    → IsByte b
    → crc_step c b ≡ bit_xor (c % 256 * 256) (spread (bit_xor (c / 256) b))
unfolding crc_step
crc_step-spread c b hc hb =
    let t : ℕ = bit_xor (c / 256) b in
    let up : c * 256 % 65536 ≡ c % 256 * 256 = omega arith in
    let small : fold t < 2 ^ 16 = omega (arith, fold-IsByte t (mixed-IsByte c b hc hb)) in
    rw up (
      bit_xor_assoc 16 _ (u16 (fold t * 32)) (u16 (u16 (fold t * 32) * 128))
        (bit_xor-lt 16 (c % 256 * 256) (fold t) (omega arith) small) (omega arith) (omega arith)
      ∙ bit_xor_assoc 16 (c % 256 * 256) (fold t) _ (omega arith) small
          (bit_xor-lt 16 _ _ (omega arith) (omega arith)))

pub crc_step-IsU16 : (c b : ℕ) → IsU16 c → IsByte b → IsU16 (crc_step c b)
crc_step-IsU16 c b hc hb =
    rw (crc_step-spread c b hc hb)
      (bit_xor-lt 16 (c % 256 * 256) _ (omega arith) (spread-IsU16 _ (mixed-IsByte c b hc hb)))

-- The low byte of `spread t` gives `t` back.
unspread : ℕ → ℕ
unspread l = fold (bit_xor l (l % 8 * 32))

unspread_table : same_below 256 (λ t. unspread (spread t % 256)) (λ t. t) ≡ true
unfolding same_below unspread
unspread_table = refl

unspread-spread : (t : ℕ) → IsByte t → unspread (spread t % 256) ≡ t
unspread-spread t h = same_below→eq 256 _ _ t unspread_table h

-- The low byte of the new checksum is that of `spread`.
low_byte : (l s : ℕ) → l < 256 → IsU16 s → bit_xor (l * 256) s % 256 ≡ s % 256
low_byte l s hl hs =
    let e : l * 256 % 256 ≡ 0 = omega arith in
    rw (bit_xor-mod_256 (l * 256) s, e) (zero-bit_xor (s % 256))

pub mixed_determined :
    (c b c' b' : ℕ)
    → IsU16 c
    → IsByte b
    → IsU16 c'
    → IsByte b'
    → crc_step c b ≡ crc_step c' b'
    → bit_xor (c / 256) b ≡ bit_xor (c' / 256) b'
mixed_determined c b c' b' hc hb hc' hb' e =
    let t : ℕ = bit_xor (c / 256) b in
    let t' : ℕ = bit_xor (c' / 256) b' in
    let ht : IsByte t = mixed-IsByte c b hc hb in
    let ht' : IsByte t' = mixed-IsByte c' b' hc' hb' in
    let same : spread t % 256 ≡ spread t' % 256 =
      sym (low_byte (c % 256) (spread t) (omega arith) (spread-IsU16 t ht))
      ∙ ap (λ (x : ℕ). x % 256)
          (sym (crc_step-spread c b hc hb) ∙ e ∙ crc_step-spread c' b' hc' hb')
      ∙ low_byte (c' % 256) (spread t') (omega arith) (spread-IsU16 t' ht') in
    sym (unspread-spread t ht) ∙ ap unspread same ∙ unspread-spread t' ht'

-- From one checksum, two bytes that lead to the same checksum are the same.
pub crc_step-byte_injective :
    (c b b' : ℕ) → IsU16 c → IsByte b → IsByte b' → crc_step c b ≡ crc_step c b' → b ≡ b'
crc_step-byte_injective c b b' hc hb hb' e =
    bit_xor_cancel 8 (c / 256) b b' (omega arith) hb hb' (mixed_determined c b c b' hc hb hc hb' e)

-- The low byte of a checksum is determined by what comes of it.
pub low_determined :
    (c b c' b' : ℕ)
    → IsU16 c
    → IsByte b
    → IsU16 c'
    → IsByte b'
    → crc_step c b ≡ crc_step c' b'
    → c % 256 ≡ c' % 256
low_determined c b c' b' hc hb hc' hb' e =
    let s : ℕ = spread (bit_xor (c / 256) b) in
    let hs : s < 2 ^ 16 = spread-IsU16 _ (mixed-IsByte c b hc hb) in
    let whole : bit_xor (c % 256 * 256) s ≡ bit_xor (c' % 256 * 256) s =
      sym (crc_step-spread c b hc hb)
      ∙ e
      ∙ crc_step-spread c' b' hc' hb'
      ∙ ap (λ (x : ℕ). bit_xor (c' % 256 * 256) (spread x))
          (sym (mixed_determined c b c' b' hc hb hc' hb' e)) in
    let low : c % 256 * 256 ≡ c' % 256 * 256 =
      bit_xor_cancel 16 s (c % 256 * 256) (c' % 256 * 256) hs (omega arith) (omega arith) (
        bit_xor_comm 16 s (c % 256 * 256) hs (omega arith)
        ∙ whole
        ∙ bit_xor_comm 16 (c' % 256 * 256) s (omega arith) hs) in
    omega arith

-- By one byte, two checksums that lead to the same checksum are the same.
pub crc_step_injective :
    (c c' b : ℕ) → IsU16 c → IsU16 c' → IsByte b → crc_step c b ≡ crc_step c' b → c ≡ c'
crc_step_injective c c' b hc hc' hb e =
    let mixed : bit_xor (c / 256) b ≡ bit_xor (c' / 256) b =
      mixed_determined c b c' b hc hb hc' hb e in
    let high : c / 256 ≡ c' / 256 =
      bit_xor_cancel 8 b (c / 256) (c' / 256) hb (omega arith) (omega arith) (
        bit_xor_comm 8 b (c / 256) hb (omega arith)
        ∙ mixed
        ∙ bit_xor_comm 8 (c' / 256) b (omega arith) hb) in
    omega (arith, high, low_determined c b c' b hc hb hc' hb e)

-- From one checksum, two pairs of bytes that lead to the same checksum are the same.
pub crc_step-two_injective :
    (c b1 b2 b1' b2' : ℕ)
    → IsU16 c
    → IsByte b1
    → IsByte b2
    → IsByte b1'
    → IsByte b2'
    → crc_step (crc_step c b1) b2 ≡ crc_step (crc_step c b1') b2'
    → (b1 ≡ b1') × (b2 ≡ b2')
crc_step-two_injective c b1 b2 b1' b2' hc h1 h2 h1' h2' e =
    let d : ℕ = crc_step c b1 in
    let d' : ℕ = crc_step c b1' in
    let hd : IsU16 d = crc_step-IsU16 c b1 hc h1 in
    let hd' : IsU16 d' = crc_step-IsU16 c b1' hc h1' in
    let t : ℕ = bit_xor (c / 256) b1 in
    let t' : ℕ = bit_xor (c / 256) b1' in
    let ht : IsByte t = mixed-IsByte c b1 hc h1 in
    let ht' : IsByte t' = mixed-IsByte c b1' hc h1' in
    let low : spread t % 256 ≡ spread t' % 256 =
      sym (low_byte (c % 256) (spread t) (omega arith) (spread-IsU16 t ht))
      ∙ ap (λ (x : ℕ). x % 256) (sym (crc_step-spread c b1 hc h1))
      ∙ low_determined d b2 d' b2' hd h2 hd' h2' e
      ∙ ap (λ (x : ℕ). x % 256) (crc_step-spread c b1' hc h1')
      ∙ low_byte (c % 256) (spread t') (omega arith) (spread-IsU16 t' ht') in
    let mixed : t ≡ t' = sym (unspread-spread t ht) ∙ ap unspread low ∙ unspread-spread t' ht' in
    let first : b1 ≡ b1' = bit_xor_cancel 8 (c / 256) b1 b1' (omega arith) h1 h1' mixed in
    (
      first,
      crc_step-byte_injective d b2 b2' hd h2 h2'
          (e ∙ ap (λ b. crc_step (crc_step c b) b2') (sym first)),
    )

-- ===== src/Prelude/Bits/Split.antt =====
-- Exclusive or on a number cut in two at a bit.
use Prim.Native.Nat.{ℕ, zero, suc, ◌+◌, ◌*◌, ◌/◌, ◌%◌, ◌^◌, ◌<◌, bit_xor}
use mathlib.Core.Path.{◌≡◌, ap, sym, ◌∙◌}
use native.Mathlib.Omega.{arith}
use native.Mathlib.Nat.{pow-suc}
use khorjin.Prelude.Bits.Digits.{bit_xor_digit}
use khorjin.Prelude.Bits.Xor.{bit_xor-lt, bit_xor_assoc, bit_xor_comm}

double : (q n : ℕ) → q * 2 ^ suc n ≡ q * 2 ^ n * 2
double q n = omega (arith, ap (λ (t : ℕ). q * t) (pow-suc 2 n))

pub bit_xor_split :
    (n a b x y : ℕ)
    → x < 2 ^ n
    → y < 2 ^ n
    → bit_xor (a * 2 ^ n + x) (b * 2 ^ n + y) ≡ bit_xor a b * 2 ^ n + bit_xor x y
bit_xor_split zero a b x y hx hy =
    let ex : x ≡ 0 = omega arith in
    let ey : y ≡ 0 = omega arith in
    let ea : a * 2 ^ zero + 0 ≡ a = omega arith in
    let eb : b * 2 ^ zero + 0 ≡ b = omega arith in rw (ex, ey, ea, eb) (omega arith)
bit_xor_split (suc n) a b x y hx hy =
    let la : (a * 2 ^ suc n + x) / 2 ≡ a * 2 ^ n + x / 2 = omega (arith, double a n) in
    let lb : (b * 2 ^ suc n + y) / 2 ≡ b * 2 ^ n + y / 2 = omega (arith, double b n) in
    let pa : (a * 2 ^ suc n + x) % 2 ≡ x % 2 = omega (arith, double a n) in
    let pb : (b * 2 ^ suc n + y) % 2 ≡ y % 2 = omega (arith, double b n) in
    rw
      (
        bit_xor_digit (a * 2 ^ suc n + x) (b * 2 ^ suc n + y),
        la,
        lb,
        pa,
        pb,
        bit_xor_split n a b (x / 2) (y / 2) (omega (arith, pow-suc 2 n))
            (omega (arith, pow-suc 2 n)),
      )
      (omega (arith, double (bit_xor a b) n, bit_xor_digit x y))

-- The cut of both numbers at bit 8 and at bit 15.
pub bit_xor-mod_256 : (a b : ℕ) → bit_xor a b % 256 ≡ bit_xor (a % 256) (b % 256)
bit_xor-mod_256 a b =
    let ea : a ≡ a / 256 * 2 ^ 8 + a % 256 = omega arith in
    let eb : b ≡ b / 256 * 2 ^ 8 + b % 256 = omega arith in
    omega (
      arith,
      ap (λ (t : ℕ). bit_xor t b) ea,
      ap (λ (t : ℕ). bit_xor (a / 256 * 2 ^ 8 + a % 256) t) eb,
      bit_xor_split 8 (a / 256) (b / 256) (a % 256) (b % 256) (omega arith) (omega arith),
      bit_xor-lt 8 (a % 256) (b % 256) (omega arith) (omega arith),
    )

at_15 :
    (a b : ℕ)
    → bit_xor a b ≡ bit_xor (a / 32768) (b / 32768) * 32768 + bit_xor (a % 32768) (b % 32768)
at_15 a b =
    let ea : a ≡ a / 32768 * 2 ^ 15 + a % 32768 = omega arith in
    let eb : b ≡ b / 32768 * 2 ^ 15 + b % 32768 = omega arith in
    omega (
      arith,
      ap (λ (t : ℕ). bit_xor t b) ea,
      ap (λ (t : ℕ). bit_xor (a / 32768 * 2 ^ 15 + a % 32768) t) eb,
      bit_xor_split 15 (a / 32768) (b / 32768) (a % 32768) (b % 32768) (omega arith) (omega arith),
    )

pub bit_xor-div_32768 : (a b : ℕ) → bit_xor a b / 32768 ≡ bit_xor (a / 32768) (b / 32768)
bit_xor-div_32768 a b =
    omega (arith, at_15 a b, bit_xor-lt 15 (a % 32768) (b % 32768) (omega arith) (omega arith))

pub bit_xor-mod_32768 : (a b : ℕ) → bit_xor a b % 32768 ≡ bit_xor (a % 32768) (b % 32768)
bit_xor-mod_32768 a b =
    omega (arith, at_15 a b, bit_xor-lt 15 (a % 32768) (b % 32768) (omega arith) (omega arith))

pub bit_xor-twice : (a b : ℕ) → bit_xor (a * 2) (b * 2) ≡ bit_xor a b * 2
bit_xor-twice a b =
    let ea : a * 2 ≡ a * 2 ^ 1 + 0 = omega arith in
    let eb : b * 2 ≡ b * 2 ^ 1 + 0 = omega arith in
    rw (ea, eb, bit_xor_split 1 a b 0 0 (omega arith) (omega arith)) (omega arith)

pub bit_xor_interchange :
    (n a b c d : ℕ)
    → a < 2 ^ n
    → b < 2 ^ n
    → c < 2 ^ n
    → d < 2 ^ n
    → bit_xor (bit_xor a b) (bit_xor c d) ≡ bit_xor (bit_xor a c) (bit_xor b d)
bit_xor_interchange n a b c d ha hb hc hd =
    bit_xor_assoc n a b (bit_xor c d) ha hb (bit_xor-lt n c d hc hd)
    ∙ ap (bit_xor a) (
        sym (bit_xor_assoc n b c d hb hc hd)
        ∙ ap (λ t. bit_xor t d) (bit_xor_comm n b c hb hc)
        ∙ bit_xor_assoc n c b d hc hb hd)
    ∙ sym (bit_xor_assoc n a c (bit_xor b d) ha hc (bit_xor-lt n b d hb hd))

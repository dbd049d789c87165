-- ===== src/Config/Leaves.antt =====
-- The words of a configuration frame as the parser takes them, against the bits that the standard means.
use khorjin.Prelude.{
  ℕ, ◌/◌, ◌%◌, ◌≡◌, refl, ap, arith, bit_and, Bool, true, false, List, [], ◌∷◌, map, ◌⊎◌, inl, inr,
  if◌then◌else◌, ◌==◌,
}
use khorjin.Prelude.Bits.Masks.{bit_and-one, bit_and-two, bit_and-four, bit_and-eight}
use khorjin.Platform.{Platform}
use khorjin.Config.Prepare.{phasor_kind, phasor_factor, nominal_frequency, enable_channels}
use khorjin.Config.Spec.{named_channel, channels_of, factor_of, nominal_of}

bit_cases : (a : ℕ) → (a % 2 ≡ 0) ⊎ (a % 2 ≡ 1)
bit_cases a = omega arith

enabled_lem : (w : ℕ) → (if bit_and w 1 == 0 then false else true) ≡ (w % 2 == 1)
enabled_lem w = elim (bit_cases w) [ inl z ↦ rw (bit_and-one w, z) | inr o ↦ rw (bit_and-one w, o) ]

pub enable_channels_lem :
    (valid : ℕ) (ns : List (List ℕ))
    → enable_channels valid (map named_channel ns) ≡ channels_of valid ns
unfolding enable_channels
enable_channels_lem valid [] = refl
enable_channels_lem valid (n ∷ ns) = rw (enabled_lem valid, enable_channels_lem (valid / 2) ns) refl

-- The four tests of FORMAT.
module _ (format : ℕ) where
  pub bit_0 : (bit_and format 0x1 == 0x1) ≡ (format % 2 == 1)
  bit_0 = ap (λ (n : ℕ). n == 1) (bit_and-one format)

  pub bit_1 : (bit_and format 0x2 == 0x2) ≡ (format / 2 % 2 == 1)
  bit_1 = elim (bit_cases (format / 2)) [
    | inl z ↦ rw (bit_and-two format, z)
    | inr o ↦ rw (bit_and-two format, o)
  ]

  pub bit_2 : (bit_and format 0x4 == 0x4) ≡ (format / 4 % 2 == 1)
  bit_2 = elim (bit_cases (format / 4)) [
    | inl z ↦ rw (bit_and-four format, z)
    | inr o ↦ rw (bit_and-four format, o)
  ]

  pub bit_3 : (bit_and format 0x8 == 0x8) ≡ (format / 8 % 2 == 1)
  bit_3 = elim (bit_cases (format / 8)) [
    | inl z ↦ rw (bit_and-eight format, z)
    | inr o ↦ rw (bit_and-eight format, o)
  ]

module _ (p : Platform) where
  pub phasor_kind_lem : (kind : ℕ) → phasor_kind p kind false ≡ (kind == 0)
  unfolding phasor_kind
  phasor_kind_lem kind = ground arith

  pub phasor_factor_lem :
      (floating : Bool) (unit : ℕ) → phasor_factor p floating unit ≡ factor_of p floating unit
  unfolding phasor_factor
  phasor_factor_lem true unit = refl
  phasor_factor_lem false unit = refl

  pub nominal_frequency_lem : (fnom : ℕ) → nominal_frequency p fnom ≡ nominal_of p fnom
  unfolding nominal_frequency
  nominal_frequency_lem fnom = elim (bit_cases fnom) [
    | inl z ↦ rw (bit_and-one fnom, z)
    | inr o ↦ rw (bit_and-one fnom, o)
  ]

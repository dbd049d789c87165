-- ===== src/DataFrame/StatLaws.antt =====
-- The fields of the status word, and the channels of a digital word.
use khorjin.Prelude.{
  ℕ, zero, suc, ◌+◌, ◌*◌, ◌/◌, ◌%◌, ◌≡◌, ap, arith, bit_and, Bool, true, false, ◌||◌, some, List,
  [], ◌∷◌, IsU16, get_elem?, if◌then◌else◌, ◌==◌, ◌⊎◌, inl, inr,
}
use khorjin.Prelude.Bits.Masks.{bit_and-one, bit_and-0x11, bit_and-0x111, bit_and-0x1111}
use khorjin.Types.{Configuration, Channel}
use khorjin.DataFrame.Stat.{apply_stat, raise}
use khorjin.DataFrame.Values.{set_status}

bit_cases : (a : ℕ) → (a % 2 ≡ 0) ⊎ (a % 2 ≡ 1)
bit_cases a = omega arith

raise_lem : (w : ℕ) (flag : Bool) → raise w flag ≡ (flag || w % 2 == 1)
raise_lem w true = rw (bit_and-one w) (elim_bit (w % 2))
  where
    elim_bit : (d : ℕ) → (if d == 1 then true else true) ≡ true
    elim_bit d = ground arith
raise_lem w false = rw (bit_and-one w) (elim_bit (w % 2))
  where
    elim_bit : (d : ℕ) → (if d == 1 then true else false) ≡ (d == 1)
    elim_bit d = ground arith

module _ {F : Type 0} (c : Configuration F) (w : ℕ) where
  -- What the four fields of several bits hold after a status word of 16 bits: of each only the lowest bit and the bit four above it
  -- that still fits the byte. The standard has bits 14 and 15 for the data error, 6 to 8 for the time
  -- quality, 4 and 5 for the unlocked time and 0 to 3 for the trigger reason.
  pub apply_stat_fields :
      IsU16 w
      → ((apply_stat w c).data_error ≡ w / 16384 % 2)
        × ((apply_stat w c).pmu_time_quality ≡ w / 64 % 2 + w / 1024 % 2 * 16)
        × ((apply_stat w c).unlock_time ≡ w / 16 % 2 + w / 256 % 2 * 16)
        × ((apply_stat w c).trigger_reason ≡ w % 2 + w / 16 % 2 * 16)
  unfolding apply_stat
  apply_stat_fields h = (
    omega (arith, bit_and-0x11 (w / 16384)),
    omega (arith, bit_and-0x111 (w / 64)),
    omega (arith, bit_and-0x11 (w / 16)),
    omega (arith, bit_and-0x1111 w),
  )

  -- The data error code 2, test mode, is stored as 0, which the library prints as good data.
  pub apply_stat_test_mode : IsU16 w → w / 16384 ≡ 2 → (apply_stat w c).data_error ≡ 0
  apply_stat_test_mode h two = omega (arith, (apply_stat_fields h).0)

  -- Each of the five flags becomes the disjunction of what it was and its bit: none is ever cleared.
  pub apply_stat_flags :
      ((apply_stat w c).data_modified ≡ (c.data_modified || w / 512 % 2 == 1))
      × ((apply_stat w c).config_to_change ≡ (c.config_to_change || w / 1024 % 2 == 1))
      × ((apply_stat w c).pmu_is_triggered ≡ (c.pmu_is_triggered || w / 2048 % 2 == 1))
      × ((apply_stat w c).data_sorting_by_arrival_or_time
          ≡ (c.data_sorting_by_arrival_or_time || w / 4096 % 2 == 1))
      × ((apply_stat w c).pmu_is_not_sync ≡ (c.pmu_is_not_sync || w / 8192 % 2 == 1))
  unfolding apply_stat
  apply_stat_flags = (
    raise_lem (w / 512) c.data_modified,
    raise_lem (w / 1024) c.config_to_change,
    raise_lem (w / 2048) c.pmu_is_triggered,
    raise_lem (w / 4096) c.data_sorting_by_arrival_or_time,
    raise_lem (w / 8192) c.pmu_is_not_sync,
  )

-- Bit `k` of a word.
unfoldable pub nth_bit : ℕ → ℕ → Bool
nth_bit w zero = w % 2 == 1
nth_bit w (suc k) = nth_bit (w / 2) k

channel_status :
    (w : ℕ) (old : Bool) → (if bit_and w 1 == 0 then old else true) ≡ (old || w % 2 == 1)
channel_status w true = rw (bit_and-one w) (both (w % 2))
  where
    both : (d : ℕ) → (if d == 0 then true else true) ≡ true
    both d = ground arith
channel_status w false = elim (bit_cases w) [
  | inl z ↦ rw (bit_and-one w, z)
  | inr o ↦ rw (bit_and-one w, o)
]

-- Channel `k` keeps its name and is enabled as before; it is on if it was on before the frame or if
-- bit `k` of the digital word is set, so it never goes off again.
pub get_elem?-set_status :
    (w k : ℕ) (cs : List Channel) (c : Channel)
    → get_elem? cs k ≡ some c
    → get_elem? (set_status w cs) k ≡ some (record c { status = c.status || nth_bit w k })
unfolding set_status nth_bit
get_elem?-set_status w k [] c h = cc
get_elem?-set_status w zero (x ∷ xs) c h =
    let e : x ≡ c = cc in
    rw e (ap (λ b. some (record c { status = b })) (channel_status w c.status))
get_elem?-set_status w (suc k) (x ∷ xs) c h = get_elem?-set_status (w / 2) k xs c h

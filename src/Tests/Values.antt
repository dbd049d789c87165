-- ===== src/Tests/Values.antt =====
-- Examples on the values and the status of a PMU.
use khorjin.Prelude.{ℕ, ◌≡◌, refl, arith, true, false, none, some, List, [], ◌∷◌, map, get_elem?}
use khorjin.Types.{Configuration, Phasor, Channel, zero_configuration, zero_phasor, zero_channel}
use khorjin.Config.Spec.{header_of, encode_channels, phasor_of}
use khorjin.Config.Block.{prepare_phsor-encode}
use khorjin.DataFrame.Stat.{apply_stat}
use khorjin.DataFrame.StatLaws.{apply_stat_fields, apply_stat_flags, nth_bit, get_elem?-set_status}
use khorjin.DataFrame.Values.{set_status, read_phasors}
use khorjin.DataFrame.Limits.{read_phasors-prepare_phsor, read_phasors_polar}
use khorjin.DataFrame.Spec.{PhasorWords}
use khorjin.Print.Stream.{print_pmu_values}
use khorjin.Print.Laws.{print_pmu_values-trigger_reason}
use khorjin.Tests.Frames.{substation-IsPmu}
use khorjin.Tests.Fixture.{desk, substation, temps}

abbrev pmu : Configuration ℕ
pmu = zero_configuration desk

apply_stat_fields_example :
    ((apply_stat 0xC0FF pmu).data_error ≡ 1)
    × ((apply_stat 0xC0FF pmu).pmu_time_quality ≡ 1)
    × ((apply_stat 0xC0FF pmu).unlock_time ≡ 1)
    × ((apply_stat 0xC0FF pmu).trigger_reason ≡ 17)
apply_stat_fields_example = apply_stat_fields pmu 0xC0FF (omega arith)

apply_stat_flags_example :
    ((apply_stat 0x2000 pmu).data_modified ≡ false)
    × ((apply_stat 0x2000 pmu).config_to_change ≡ false)
    × ((apply_stat 0x2000 pmu).pmu_is_triggered ≡ false)
    × ((apply_stat 0x2000 pmu).data_sorting_by_arrival_or_time ≡ false)
    × ((apply_stat 0x2000 pmu).pmu_is_not_sync ≡ true)
apply_stat_flags_example = apply_stat_flags pmu 0x2000

abbrev lit : Channel
lit = record zero_channel { status = true }

get_elem?-set_status_example : get_elem? (set_status 4 (zero_channel ∷ lit ∷ [])) 1 ≡ some lit
unfolding nth_bit
get_elem?-set_status_example = get_elem?-set_status 4 1 (zero_channel ∷ lit ∷ []) lit refl

abbrev two_phasors : Configuration ℕ
two_phasors = record pmu { number_of_phasors = 2 }

read_phasors-prepare_phsor_example :
    read_phasors desk 2 two_phasors
      (map (phasor_of desk true) (substation 83).phasors)
      temps
      (1 ∷ 2 ∷ [])
      0
    ≡ none
read_phasors-prepare_phsor_example =
    read_phasors-prepare_phsor desk (header_of desk (substation 83)) two_phasors
      (encode_channels (substation 83) []) 0 _ temps (1 ∷ 2 ∷ []) 0
      (prepare_phsor-encode desk (substation 83) (encode_channels (substation 83) []) 0 []
        (substation-IsPmu 83) refl (header_of desk (substation 83))
        (record { phasors = refl; analogs = refl; digitals = refl; floating = refl }))
      (omega arith)

abbrev polar : Configuration ℕ
polar = record pmu { phasor_is_polar = true }

abbrev words : ℕ → List PhasorWords
words w = record { fst_word = w; snd_word = 4 } ∷ []

read_phasors_polar_example :
    (ys : List (Phasor ℕ)) × (end : ℕ) × (end' : ℕ) × (read_phasors desk 1 polar
        (zero_phasor desk ∷ [])
        temps
        (0 ∷ 3 ∷ 0 ∷ 4 ∷ [])
        0
      ≡ some (ys, temps, end))
    × (read_phasors desk 1 polar (zero_phasor desk ∷ []) temps (0 ∷ 9 ∷ 0 ∷ 4 ∷ []) 0
        ≡ some (ys, temps, end'))
read_phasors_polar_example =
    read_phasors_polar desk polar (words 3) (words 9) (zero_phasor desk ∷ []) temps
      (0 ∷ 3 ∷ 0 ∷ 4 ∷ []) (0 ∷ 9 ∷ 0 ∷ 4 ∷ []) 0 0 [] [] refl refl ((omega arith, omega arith), tt)
      ((omega arith, omega arith), tt) refl refl refl refl

print_pmu_values-trigger_reason_example :
    print_pmu_values 0 (record pmu { trigger_reason = 4 }) ≡ print_pmu_values 0 pmu
print_pmu_values-trigger_reason_example = print_pmu_values-trigger_reason 0 4 pmu

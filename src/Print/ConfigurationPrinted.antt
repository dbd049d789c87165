-- ===== src/Print/ConfigurationPrinted.antt =====
-- When `print_configuration` leaves no array.
use khorjin.Prelude.{ℕ, ◌+◌, ◌≤◌, ◌≡◌, Bool, true, false, some, [], ◌∷◌, length, ltb, if◌then◌else◌}
use khorjin.Platform.{ParsedTime}
use khorjin.Types.{C37118Client, Configuration, Phasor, Analog, Digital, Channel}
use khorjin.Shape.{HasChannels, HasArrays, IsEquipped}
use khorjin.Print.{uint, chars, printf}
use khorjin.Print.Configuration.{
  print_phasor_entry, print_analog_entry, print_digital_entry, print_pmu_entry, print_rate,
  print_configuration,
}
use khorjin.Print.Printed.{
  Printed, printed, Printed-each, any_element, print_rules, print_date-Printed,
}

module _ {F : Type 0} where
  print_phasor_entry-Printed : (i j : ℕ) (x : Phasor F) → Printed (print_phasor_entry i j x)
  unfolding print_phasor_entry
  print_phasor_entry-Printed i j x = search print_rules

  print_analog_entry-Printed : (i j : ℕ) (x : Analog F) → Printed (print_analog_entry i j x)
  unfolding print_analog_entry
  print_analog_entry-Printed i j x = search print_rules

  print_digital_entry-Printed :
      (i j : ℕ) (d : Digital) → 16 ≤ length d.channel → Printed {F = F} (print_digital_entry i j d)
  unfolding print_digital_entry
  print_digital_entry-Printed i j d h =
      let names =
        Printed-each {F = F} {P = λ (c : Channel). Unit {0}}
          (λ k (c : Channel).
            printf "Digital %d of PMU %d -> Channel Name %d =       %s\n"
              (uint (j + 1) ∷ uint (i + 1) ∷ uint k ∷ chars c.channel_name ∷ []))
          16 0 d.channel (λ k c u. printed _) h (any_element d.channel) in
      search (print_rules, names)

  print_pmu_entry-Printed :
      (i : ℕ) (c : Configuration F) → HasArrays c → Printed (print_pmu_entry i c)
  unfolding print_pmu_entry
  print_pmu_entry-Printed i c v =
      let ps =
        Printed-each {P = λ x. Unit {0}} (print_phasor_entry i) c.number_of_phasors 0 c.phasor
          (λ j x u. print_phasor_entry-Printed i j x) v.phasors (any_element c.phasor) in
      let xs =
        Printed-each {P = λ x. Unit {0}} (print_analog_entry i) c.number_of_analogs 0 c.analog
          (λ j x u. print_analog_entry-Printed i j x) v.analogs (any_element c.analog) in
      let ds =
        Printed-each {P = HasChannels} (print_digital_entry i) c.number_of_digitals 0 c.digital
          (print_digital_entry-Printed i) v.digitals v.channels in
      search (print_rules, ps, xs, ds) depth 60

  print_rate-Printed : (rate : ℕ) → Printed {F = F} (print_rate rate)
  unfolding print_rate
  print_rate-Printed rate = on_sign (ltb 0 rate)
    where
      on_sign :
          (b : Bool)
          → Printed {F = F} (
              if b
              then printf "Data rate =                 %d frames per second\n" (uint rate ∷ [])
              else printf "Data rate =                 1 frames per %d seconds\n" (uint 0 ∷ []))
      on_sign true = printed _
      on_sign false = printed _

  pub print_configuration-Printed :
      (self : C37118Client F) (c : ParsedTime F)
      → IsEquipped self
      → self.config_time_stamp.parsed_time ≡ some c
      → Printed (print_configuration self)
  unfolding print_configuration
  print_configuration-Printed self c v e =
      let entries =
        Printed-each print_pmu_entry self.num_pmu 0 self.configuration print_pmu_entry-Printed
          v.num_pmu v.pmus in
      let date =
        print_date-Printed "Configuration Time Stamp: %d-%d-%d , %d:%d:%9.6f\n\n"
          self.config_time_stamp c e in
      search (print_rules, print_rate-Printed self.data_rate, entries, date) depth 60

-- ===== src/Print/StreamPrinted.antt =====
-- When `print_data_stream` leaves no array.
use khorjin.Prelude.{ℕ, zero, suc, ◌≤◌, ◌≡◌, Bool, true, false, some, [], length, if◌then◌else◌}
use khorjin.Platform.{ParsedTime}
use khorjin.Types.{C37118Client, Configuration, Phasor, Analog, Digital, Channel}
use khorjin.Shape.{HasChannels, HasArrays, IsEquipped}
use khorjin.Print.{◌>>◌, puts, print_each}
use khorjin.Print.Stream.{
  print_data_error, print_time_quality, print_unlock_time, trigger_text, print_trigger,
  print_status, print_phasor_value, print_analog_value, print_channel_value, print_pmu_values,
  print_data_stream,
}
use khorjin.Print.Printed.{
  Printed, printed, Printed->>, Printed-each, any_element, print_rules, print_date-Printed,
}

module _ {F : Type 0} where
  print_phasor_value-Printed : (i j : ℕ) (x : Phasor F) → Printed (print_phasor_value i j x)
  unfolding print_phasor_value
  print_phasor_value-Printed i j x = search print_rules

  print_analog_value-Printed : (i j : ℕ) (x : Analog F) → Printed (print_analog_value i j x)
  unfolding print_analog_value
  print_analog_value-Printed i j x = search print_rules

  print_channel_value-Printed :
      (i j k : ℕ) (c : Channel) → Printed {F = F} (print_channel_value i j k c)
  unfolding print_channel_value
  print_channel_value-Printed i j k c = search print_rules

  print_data_error-Printed : (n : ℕ) → Printed {F = F} (print_data_error n)
  unfolding print_data_error
  print_data_error-Printed zero = printed _
  print_data_error-Printed (suc zero) = printed _
  print_data_error-Printed (suc (suc zero)) = printed _
  print_data_error-Printed (suc (suc (suc zero))) = printed _
  print_data_error-Printed (suc (suc (suc (suc n)))) = printed _

  print_time_quality-Printed : (n : ℕ) → Printed {F = F} (print_time_quality n)
  unfolding print_time_quality
  print_time_quality-Printed zero = printed _
  print_time_quality-Printed (suc zero) = printed _
  print_time_quality-Printed (suc (suc zero)) = printed _
  print_time_quality-Printed (suc (suc (suc zero))) = printed _
  print_time_quality-Printed (suc (suc (suc (suc zero)))) = printed _
  print_time_quality-Printed (suc (suc (suc (suc (suc zero))))) = printed _
  print_time_quality-Printed (suc (suc (suc (suc (suc (suc zero)))))) = printed _
  print_time_quality-Printed (suc (suc (suc (suc (suc (suc (suc zero))))))) = printed _
  print_time_quality-Printed (suc (suc (suc (suc (suc (suc (suc (suc n)))))))) = printed _

  print_unlock_time-Printed : (n : ℕ) → Printed {F = F} (print_unlock_time n)
  unfolding print_unlock_time
  print_unlock_time-Printed zero = printed _
  print_unlock_time-Printed (suc zero) = printed _
  print_unlock_time-Printed (suc (suc zero)) = printed _
  print_unlock_time-Printed (suc (suc (suc zero))) = printed _
  print_unlock_time-Printed (suc (suc (suc (suc n)))) = printed _

  trigger_text-Printed : (n : ℕ) → Printed {F = F} (trigger_text n)
  unfolding trigger_text
  trigger_text-Printed zero = printed _
  trigger_text-Printed (suc zero) = printed _
  trigger_text-Printed (suc (suc zero)) = printed _
  trigger_text-Printed (suc (suc (suc zero))) = printed _
  trigger_text-Printed (suc (suc (suc (suc zero)))) = printed _
  trigger_text-Printed (suc (suc (suc (suc (suc zero))))) = printed _
  trigger_text-Printed (suc (suc (suc (suc (suc (suc zero)))))) = printed _
  trigger_text-Printed (suc (suc (suc (suc (suc (suc (suc zero))))))) = printed _
  trigger_text-Printed (suc (suc (suc (suc (suc (suc (suc (suc n)))))))) = printed _

  print_trigger-Printed : (c : Configuration F) → Printed (print_trigger c)
  unfolding print_trigger
  print_trigger-Printed c = on_flag c.pmu_is_triggered
    where
      on_flag :
          (b : Bool)
          → Printed {F = F} (
              if b
              then puts "9. PMU Trigger reason:             " >> trigger_text c.pmu_time_quality
              else some [])
      on_flag true = Printed->> (printed _) (trigger_text-Printed c.pmu_time_quality)
      on_flag false = printed []

  ruleset status_rules = (
    print_rules, print_data_error-Printed, print_time_quality-Printed, print_unlock_time-Printed,
    print_trigger-Printed,
  )

  print_status-Printed : (c : Configuration F) → Printed (print_status c)
  unfolding print_status
  print_status-Printed c = search status_rules depth 40

  print_digital_value-Printed :
      (i j : ℕ) (d : Digital)
      → 16 ≤ length d.channel
      → Printed {F = F} (print_each (print_channel_value i j) 16 0 d.channel)
  print_digital_value-Printed i j d h =
      Printed-each {P = λ c. Unit {0}} (print_channel_value i j) 16 0 d.channel
        (λ k c u. print_channel_value-Printed i j k c) h (any_element d.channel)

  print_pmu_values-Printed :
      (i : ℕ) (c : Configuration F) → HasArrays c → Printed (print_pmu_values i c)
  unfolding print_pmu_values
  print_pmu_values-Printed i c v =
      let ps =
        Printed-each {P = λ x. Unit {0}} (print_phasor_value i) c.number_of_phasors 0 c.phasor
          (λ j x u. print_phasor_value-Printed i j x) v.phasors (any_element c.phasor) in
      let xs =
        Printed-each {P = λ x. Unit {0}} (print_analog_value i) c.number_of_analogs 0 c.analog
          (λ j x u. print_analog_value-Printed i j x) v.analogs (any_element c.analog) in
      let ds =
        Printed-each {P = HasChannels}
          (λ j (d : Digital). print_each (print_channel_value i j) 16 0 d.channel)
          c.number_of_digitals 0 c.digital (print_digital_value-Printed i) v.digitals v.channels in
      search (print_rules, print_status-Printed c, ps, xs, ds) depth 40

  pub print_data_stream-Printed :
      (self : C37118Client F) (c : ParsedTime F)
      → IsEquipped self
      → self.data_time_stamp.parsed_time ≡ some c
      → Printed (print_data_stream self)
  unfolding print_data_stream
  print_data_stream-Printed self c v e =
      let values =
        Printed-each print_pmu_values self.num_pmu 0 self.configuration print_pmu_values-Printed
          v.num_pmu v.pmus in
      let date =
        print_date-Printed "Data Time Stamp: %d-%d-%d , %d:%d:%9.6f\n\n" self.data_time_stamp c e in
      search (print_rules, values, date) depth 60

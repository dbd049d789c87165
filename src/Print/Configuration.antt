-- ===== src/Print/Configuration.antt =====
-- `c37_118client_printConfiguration`.
use khorjin.Prelude.{ℕ, ◌+◌, Option, List, [], ◌∷◌, if◌then◌else◌, ltb}
use khorjin.Types.{C37118Client, Configuration, Phasor, Analog, Digital, Channel}
use khorjin.Print.{uint, float, chars, Line, ◌>>◌, printf, puts, bool_text, print_each, print_date}

module _ {F : Type 0} where
  unfoldable pub print_phasor_entry : ℕ → ℕ → Phasor F → Option (List (Line F))
  print_phasor_entry i j x = do
    printf "Phasor %d of PMU %d -> Channel Name =           %s\n"
        (uint (j + 1) ∷ uint (i + 1) ∷ chars x.channel_name ∷ [])
    printf "Phasor %d of PMU %d -> conversion factor =      %f\n"
        (uint (j + 1) ∷ uint (i + 1) ∷ float x.conversion_factor ∷ [])
    printf "Phasor %d of PMU %d -> is Voltage =             %s\n"
        (uint (j + 1) ∷ uint (i + 1) ∷ bool_text "true" "false" x.phasor_is_v_or_i ∷ [])

  unfoldable pub print_analog_entry : ℕ → ℕ → Analog F → Option (List (Line F))
  print_analog_entry i j x = do
    printf "Analog %d of PMU %d -> Channel Name =           %s\n"
        (uint (j + 1) ∷ uint (i + 1) ∷ chars x.channel_name ∷ [])
    printf "Analog %d of PMU %d -> Analog type =            %u\n"
        (uint (j + 1) ∷ uint (i + 1) ∷ uint x.analog_type ∷ [])
    printf "Analog %d of PMU %d -> conversion factor =      %f\n"
        (uint (j + 1) ∷ uint (i + 1) ∷ float x.conversion_factor ∷ [])

  -- The mask word is an integer, printed by "%f".
  unfoldable pub print_digital_entry : ℕ → ℕ → Digital → Option (List (Line F))
  print_digital_entry i j d = do
    print_each
        (λ k (c : Channel).
          printf "Digital %d of PMU %d -> Channel Name %d =       %s\n"
            (uint (j + 1) ∷ uint (i + 1) ∷ uint k ∷ chars c.channel_name ∷ []))
        16 0 d.channel
    printf "Digital %d of PMU %d -> Valid Inputs =          %u\n"
        (uint (j + 1) ∷ uint (i + 1) ∷ uint d.valid_inputs ∷ [])
    printf "Digital %d of PMU %d -> Mask Word =             %f\n"
        (uint (j + 1) ∷ uint (i + 1) ∷ uint d.dg_mask_word ∷ [])

  unfoldable pub print_pmu_entry : ℕ → Configuration F → Option (List (Line F))
  print_pmu_entry i c = do
    printf "3_%d_PMU %d :\n" (uint (i + 1) ∷ uint (i + 1) ∷ [])
    puts ".............\n"
    printf "Configuration count =   %u\n" (uint c.cfg_cnt ∷ [])
    printf "PMU Name =              %s\n" (chars c.station_name ∷ [])
    printf "PMU IDCODE =            %u\n\n" (uint c.pmu_idcode ∷ [])
    printf "Number of Phasors =     %u\n" (uint c.number_of_phasors ∷ [])
    printf "Phasors are sent with type %s in %s format.\n\n" (
        bool_text "FLOATING-POINT" "16-BIT INTEGER" c.phasor_is_floating_point
        ∷ bool_text "POLAR" "RECTANGULAR" c.phasor_is_polar
        ∷ [])
    printf "Number of Analogs =     %u\n" (uint c.number_of_analogs ∷ [])
    printf "Analogs are sent with type %s.\n\n"
        (bool_text "FLOATING-POINT" "16-BIT INTEGER" c.analog_is_floating_point ∷ [])
    printf "Number of Digitals =    %u\n" (uint c.number_of_digitals ∷ [])
    printf "Nominal frequency =     %f\n" (float c.f_nom ∷ [])
    printf "Frequency & ROCOF are sent with type %s.\n\n"
        (bool_text "FLOATING-POINT" "16-BIT INTEGER" c.freq_is_floating_point ∷ [])
    print_each (print_phasor_entry i) c.number_of_phasors 0 c.phasor
    puts "\n\n"
    print_each (print_analog_entry i) c.number_of_analogs 0 c.analog
    puts "\n\n"
    print_each (print_digital_entry i) c.number_of_digitals 0 c.digital

  -- `dataRate` is unsigned: the second format is met only at 0, and `dataRate*-1` is then 0.
  unfoldable pub print_rate : ℕ → Option (List (Line F))
  print_rate rate =
      if ltb 0 rate
      then printf "Data rate =                 %d frames per second\n" (uint rate ∷ [])
      else printf "Data rate =                 1 frames per %d seconds\n" (uint 0 ∷ [])

  unfoldable pub print_configuration : C37118Client F → Option (List (Line F))
  print_configuration self = do
    puts "PDC Configuration Data :\n"
    puts "========================\n\n"
    puts "1_Configuration Time Stamp: \n"
    puts "---------------------------\n\n"
    printf "Configuration Time Stamp: quality ->Leap Second Occured =  %s\n"
        (bool_text "true" "false" self.config_time_stamp.quality.leap_second_occured ∷ [])
    printf "Configuration Time Stamp: quality ->Leap Second Pending =  %s\n"
        (bool_text "true" "false" self.config_time_stamp.quality.leap_second_pending ∷ [])
    printf "Configuration Time Stamp: quality ->Time is Locked =       %s\n"
        (bool_text "true" "false" self.config_time_stamp.quality.time_is_locked ∷ [])
    printf "Configuration Time Stamp: quality ->Time error =           %f\n\n"
        (float self.config_time_stamp.quality.time_error ∷ [])
    printf "Configuration Time Stamp: timeValueInMs =                  %llu\n"
        (uint self.config_time_stamp.time_value_in_ms ∷ [])
    print_date "Configuration Time Stamp: %d-%d-%d , %d:%d:%9.6f\n\n" self.config_time_stamp
    puts "2_PDC Data: \n"
    puts "---------------------------\n"
    printf "PDC IDCODE =                %u\n" (uint self.idcode ∷ [])
    printf "Number of PMUs =            %d\n" (uint self.num_pmu ∷ [])
    printf "Time Base =                 %d\n" (uint self.time_base ∷ [])
    print_rate self.data_rate
    puts "\n3_PMUs Data: :\n"
    puts "---------------------------\n"
    print_each print_pmu_entry self.num_pmu 0 self.configuration

-- ===== src/Print/Stream.antt =====
-- `c37_118client_printDataStream`.
use khorjin.Prelude.{ℕ, zero, suc, ◌+◌, Option, some, List, [], ◌∷◌, if◌then◌else◌}
use khorjin.Types.{C37118Client, Configuration, Phasor, Analog, Digital, Channel}
use khorjin.Print.{uint, float, chars, Line, ◌>>◌, printf, puts, bool_text, print_each, print_date}

module _ {F : Type 0} where
  -- The `switch` statements; a value that has no case prints nothing.
  unfoldable pub print_data_error : ℕ → Option (List (Line F))
  print_data_error zero = puts "GOOD MEASUREMENT DATA, NO ERRORS\n"
  print_data_error (suc zero) = puts "PMU ERROR. NO INFORMATION ABOUT DATA\n"
  print_data_error (suc (suc zero)) =
      puts "PMU IN TEST MODE OR ABSENT DATA TAGS HAVE BEEN INSERTED (DO NOT USE VALUES)\n"
  print_data_error (suc (suc (suc zero))) = puts "PMU ERROR. (DO NOT USE VALUES)\n"
  print_data_error (suc (suc (suc (suc n)))) = some []

  unfoldable pub print_time_quality : ℕ → Option (List (Line F))
  print_time_quality zero = puts "NOT USED\n"
  print_time_quality (suc zero) = puts "ESTIMATED MAXIMUM TIME ERROR < 100 ns\n"
  print_time_quality (suc (suc zero)) = puts "ESTIMATED MAXIMUM TIME ERROR < 1 micro SECOND\n"
  print_time_quality (suc (suc (suc zero))) =
      puts "ESTIMATED MAXIMUM TIME ERROR < 10 micro SECOND\n"
  print_time_quality (suc (suc (suc (suc zero)))) =
      puts "ESTIMATED MAXIMUM TIME ERROR < 100 micro SECOND\n"
  print_time_quality (suc (suc (suc (suc (suc zero))))) =
      puts "ESTIMATED MAXIMUM TIME ERROR < 1 ms\n"
  print_time_quality (suc (suc (suc (suc (suc (suc zero)))))) =
      puts "ESTIMATED MAXIMUM TIME ERROR < 10 ms\n"
  print_time_quality (suc (suc (suc (suc (suc (suc (suc zero))))))) =
      puts "ESTIMATED MAXIMUM TIME ERROR > 10 ms OR TIME ERROR UNKNOWN\n"
  print_time_quality (suc (suc (suc (suc (suc (suc (suc (suc n)))))))) = some []

  unfoldable pub print_unlock_time : ℕ → Option (List (Line F))
  print_unlock_time zero = puts "SYNC LOCKED OR UNLOCKED <10s (BEST QUALITY)\n"
  print_unlock_time (suc zero) = puts "10 s =< UNLOCKED TIME < 100 s\n"
  print_unlock_time (suc (suc zero)) = puts "100 s < UNLOCKED TIME =< 1000 s\n"
  print_unlock_time (suc (suc (suc zero))) = puts "UNLOCKED TIME > 1000 s\n"
  print_unlock_time (suc (suc (suc (suc n)))) = some []

  unfoldable pub trigger_text : ℕ → Option (List (Line F))
  trigger_text zero = puts "MANUAL\n"
  trigger_text (suc zero) = puts "MAGNITUDE LOW\n"
  trigger_text (suc (suc zero)) = puts "MAGNITUDE HIGH\n"
  trigger_text (suc (suc (suc zero))) = puts "PHASE ANGLE DIFF\n"
  trigger_text (suc (suc (suc (suc zero)))) = puts "FREQUENCY HIGH OR LOW\n"
  trigger_text (suc (suc (suc (suc (suc zero))))) = puts "df/dt HIGH\n"
  trigger_text (suc (suc (suc (suc (suc (suc zero)))))) = puts "USER DEFINED\n"
  trigger_text (suc (suc (suc (suc (suc (suc (suc zero))))))) = puts "DIGITAL\n"
  trigger_text (suc (suc (suc (suc (suc (suc (suc (suc n)))))))) = puts "USER DEFINED\n"

  -- The ninth item. The `switch` is on `pmuTimeQuality`.
  unfoldable pub print_trigger : Configuration F → Option (List (Line F))
  print_trigger c =
      if c.pmu_is_triggered
      then puts "9. PMU Trigger reason:             " >> trigger_text c.pmu_time_quality
      else some []

  unfoldable pub print_status : Configuration F → Option (List (Line F))
  print_status c = do
    puts "Status of Data Frame:\n"
    puts "---------------------\n\n"
    puts "1. Data Error:                     "
    print_data_error c.data_error
    printf "2. Is PMU syncronised with a UTC:  %s \n"
        (bool_text "FALSE" "TRUE" c.pmu_is_not_sync ∷ [])
    printf "3. PMU data sorting metrice:       %s \n"
        (bool_text "ARRIVAL" "TIME STAMP" c.data_sorting_by_arrival_or_time ∷ [])
    printf "4. Is PMU triggered:               %s \n"
        (bool_text "TRUE" "FALSE" c.pmu_is_triggered ∷ [])
    printf "5. Is PMU configuration to change: %s \n"
        (bool_text "TRUE" "FALSE" c.config_to_change ∷ [])
    printf "6. Is PMU data modified:           %s \n"
        (bool_text "TRUE" "FALSE" c.data_modified ∷ [])
    puts "7. PMU Time Quality:               "
    print_time_quality c.pmu_time_quality
    puts "8. PMU Unlocked time:              "
    print_unlock_time c.unlock_time
    print_trigger c

  unfoldable pub print_phasor_value : ℕ → ℕ → Phasor F → Option (List (Line F))
  print_phasor_value i j x = do
    printf "Phasor %d of PMU %d -> Channel Name = %s\n"
        (uint (j + 1) ∷ uint (i + 1) ∷ chars x.channel_name ∷ [])
    printf "Phasor %d of PMU %d -> Magnitude    = %f\n"
        (uint (j + 1) ∷ uint (i + 1) ∷ float x.magnitude ∷ [])
    printf "Phasor %d of PMU %d -> Angle        = %f\n\n"
        (uint (j + 1) ∷ uint (i + 1) ∷ float x.angle ∷ [])

  -- The value is a `float`, printed by "%u".
  unfoldable pub print_analog_value : ℕ → ℕ → Analog F → Option (List (Line F))
  print_analog_value i j x = do
    printf "Analog %d of PMU %d -> Channel Name = %s\n"
        (uint (j + 1) ∷ uint (i + 1) ∷ chars x.channel_name ∷ [])
    printf "Analog %d of PMU %d -> Value = %u\n\n"
        (uint (j + 1) ∷ uint (i + 1) ∷ float x.value ∷ [])

  unfoldable pub print_channel_value : ℕ → ℕ → ℕ → Channel → Option (List (Line F))
  print_channel_value i j k c = do
    printf "Channel %d of Digital %d of PMU %d -> Channel Name = %s\n"
        (uint k ∷ uint (j + 1) ∷ uint (i + 1) ∷ chars c.channel_name ∷ [])
    printf "Channel %d of Digital %d of PMU %d -> is Enable    = %s\n"
        (uint k ∷ uint (j + 1) ∷ uint (i + 1) ∷ bool_text "TURE" "FALSE" c.is_enabled ∷ [])
    printf "Channel %d of Digital %d of PMU %d -> Status       = %s\n\n"
        (uint k ∷ uint (j + 1) ∷ uint (i + 1) ∷ bool_text "ON" "OFF" c.status ∷ [])

  unfoldable pub print_pmu_values : ℕ → Configuration F → Option (List (Line F))
  print_pmu_values i c = do
    printf "Data of PMU No.%d :\n" (uint (i + 1) ∷ [])
    puts "=====================\n\n"
    print_status c
    puts "\nValues of Data Frame:\n"
    puts "---------------------\n\n"
    printf "Frequency of PMU %d = %f\n" (uint (i + 1) ∷ float c.frequency ∷ [])
    printf "ROCOF     of PMU %d = %f\n\n" (uint (i + 1) ∷ float c.rocof ∷ [])
    print_each (print_phasor_value i) c.number_of_phasors 0 c.phasor
    print_each (print_analog_value i) c.number_of_analogs 0 c.analog
    print_each (λ j (d : Digital). print_each (print_channel_value i j) 16 0 d.channel)
        c.number_of_digitals 0 c.digital

  unfoldable pub print_data_stream : C37118Client F → Option (List (Line F))
  print_data_stream self = do
    puts "\n----------------------------------------------------------\n"
    printf "Data Frame Time Stamp: quality ->Leap Second Occured = %s\n"
        (bool_text "TRUE" "FALSE" self.data_time_stamp.quality.leap_second_occured ∷ [])
    printf "Data Frame Time Stamp: quality ->Leap Second Pending = %s\n"
        (bool_text "TRUE" "FALSE" self.data_time_stamp.quality.leap_second_pending ∷ [])
    printf "Data Frame Time Stamp: quality ->Time is Locked =      %s\n"
        (bool_text "TRUE" "FALSE" self.data_time_stamp.quality.time_is_locked ∷ [])
    printf "Data Frame Time Stamp: quality ->Time error =          %f\n\n"
        (float self.data_time_stamp.quality.time_error ∷ [])
    printf "Data Frame Time Stamp: timeValueInMs =                 %llu\n"
        (uint self.data_time_stamp.time_value_in_ms ∷ [])
    print_date "Data Time Stamp: %d-%d-%d , %d:%d:%9.6f\n\n" self.data_time_stamp
    print_each print_pmu_values self.num_pmu 0 self.configuration

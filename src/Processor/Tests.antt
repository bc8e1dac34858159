-- ===== src/Processor/Tests.antt =====
-- The processor over a stand-in for `float` that counts hundredths.
use i_mx6ull_water_qualit.Base.{
  arith, List, length, done, ◌+◌, ◌*◌, ◌≡◌, refl, true, false, not, ◌&&◌, [], ◌∷◌, some,
}
use i_mx6ull_water_qualit.Base.Int.{ℤ, pos, negsuc, ltb_ℤ}
use i_mx6ull_water_qualit.Float.{Float}
use i_mx6ull_water_qualit.Sample.{Sample}
use i_mx6ull_water_qualit.SampleQueue.{SampleQueue, Wake}
use i_mx6ull_water_qualit.SampleQueue.Fifo.{Fifo, empty}
use i_mx6ull_water_qualit.SampleQueue.Refine.{Represents}
use i_mx6ull_water_qualit.Processor.Thread.{Processing, Round, processor_round, processor_thread}
use i_mx6ull_water_qualit.Processor.Passing.{Passed, processor_round-Passed}
use i_mx6ull_water_qualit.Processor.Lights.{starting, Pops, processor_thread_lights}
use i_mx6ull_water_qualit.Processor.Sees.{words, lit}
use i_mx6ull_water_qualit.Processor.Debounce.{should_light}
use i_mx6ull_water_qualit.Processor.{Threshold, threshold_default, compute_alarm}
use i_mx6ull_water_qualit.Processor.Alarms.{flag, compute_alarm_bits}
use i_mx6ull_water_qualit.Processor.Debounce.{led_after, device_after, debounce_rule}

abbrev counted : Float ℤ
counted = record {
  less = ltb_ℤ;
  hundredths = λ n. n;
  of_int = λ n. n;
  times = λ a b. a;
  plus = λ a b. a;
}

-- Test 3 of the sensor tests: pH 4.50, turbidity 50.00
abbrev alarming : Sample ℤ
alarming = record {
  timestamp_ms = pos 0;
  ph = pos 450;
  temperature = pos 2500;
  turbidity = pos 5000;
  conductivity = pos 150000;
  sensor_status = 0;
  alarm_status = 16;
  sequence = 3072;
}

abbrev thresholds : Threshold ℤ
thresholds = record {
  ph_min = pos 650;
  ph_max = pos 850;
  temp_min = pos 0;
  temp_max = pos 4500;
  turb_max = pos 500;
  cond_max = pos 200000;
}

thresholds_are_default : threshold_default counted (some thresholds) ≡ some thresholds
unfolding threshold_default
thresholds_are_default = refl

compute_alarm_test : compute_alarm counted (some alarming) (some thresholds) ≡ 5
unfolding compute_alarm
compute_alarm_test = refl

compute_alarm_bits_example :
    compute_alarm counted (some alarming) (some thresholds)
    ≡ flag true + flag (not true && false) * 2 + flag true * 4 + flag false * 8 + flag false * 16
compute_alarm_bits_example = compute_alarm_bits counted alarming thresholds

-- newest first: two alarms, one clear sample, three alarms
debounce_rule_example :
    ((led_after (4 ∷ 4 ∷ 0 ∷ 1 ∷ 1 ∷ 1 ∷ [])).led_on ≡ true)
    × (device_after (pos 3) (4 ∷ 4 ∷ 0 ∷ 1 ∷ 1 ∷ 1 ∷ []) ≡ true)
    × (device_after (negsuc 0) (4 ∷ 4 ∷ 0 ∷ 1 ∷ 1 ∷ 1 ∷ []) ≡ false)
debounce_rule_example = debounce_rule 3 0 (4 ∷ 4 ∷ 0 ∷ 1 ∷ 1 ∷ 1 ∷ [])

-- Three alarming samples in the raw queue, and an empty store queue that is full after two.
abbrev three_samples : SampleQueue (Sample ℤ)
three_samples = record {
  samples = alarming ∷ alarming ∷ alarming ∷ [];
  capacity = 3;
  head = 0;
  tail = 0;
  count = 3;
  shutdown = false;
  overflow_count = 0;
  push_count = 3;
  pop_count = 0;
}

abbrev three_items : Fifo (Sample ℤ)
three_items = record {
  items = alarming ∷ alarming ∷ alarming ∷ [];
  closed = false;
  pushed = 3;
  popped = 0;
  dropped = 0;
}

three_samples-Represents : Represents alarming three_samples three_items
three_samples-Represents = record {
  valid = omega arith;
  held = refl;
  closed = refl;
  pushed = refl;
  popped = refl;
  dropped = refl;
}

abbrev room_for_two : SampleQueue (Sample ℤ)
room_for_two = record {
  samples = alarming ∷ alarming ∷ [];
  capacity = 2;
  head = 0;
  tail = 0;
  count = 0;
  shutdown = false;
  overflow_count = 0;
  push_count = 0;
  pop_count = 0;
}

room_for_two-Represents : Represents alarming room_for_two empty
room_for_two-Represents = record {
  valid = omega arith;
  held = refl;
  closed = refl;
  pushed = refl;
  popped = refl;
  dropped = refl;
}

abbrev expires : List (Wake (Sample ℤ))
expires = record { others = []; timed_out = true } ∷ []

abbrev round : Round ℤ
round = record { pop_wakes = expires; push_wakes = expires }

processor_round-Passed_example :
    Passed counted thresholds
      (pos 3)
      alarming
      round
      three_samples
      room_for_two
      three_items
      empty
      (starting counted thresholds (pos 3) alarming three_samples room_for_two)
      (processor_round counted thresholds
        (pos 3)
        round
        (starting counted thresholds (pos 3) alarming three_samples room_for_two))
processor_round-Passed_example =
    processor_round-Passed counted thresholds (pos 3) alarming round three_samples room_for_two
      three_items empty (starting counted thresholds (pos 3) alarming three_samples room_for_two)
      three_samples-Represents room_for_two-Represents

processor_thread_lights_example :
    (xs : List (Sample ℤ)) × (after : Processing ℤ) × (processor_thread counted thresholds
        (pos 3)
        (round ∷ round ∷ round ∷ round ∷ [])
        (starting counted thresholds (pos 3) alarming three_samples room_for_two)
      ≡ done (some after))
    × Pops counted thresholds
        (pos 3)
        alarming
        (round ∷ round ∷ round ∷ round ∷ [])
        (starting counted thresholds (pos 3) alarming three_samples room_for_two)
        []
        xs
    × (after.sample_counter ≡ length xs)
    × (after.led.led_on ≡ should_light (words counted thresholds (pos 3) alarming xs))
    × (lit after.device ≡ should_light (words counted thresholds (pos 3) alarming xs))
processor_thread_lights_example =
    processor_thread_lights counted thresholds 3 alarming (round ∷ round ∷ round ∷ round ∷ [])
      three_samples room_for_two three_items empty three_samples-Represents room_for_two-Represents
      (
        ((1, refl), (1, refl)),
        (((1, refl), (1, refl)), (((1, refl), (1, refl)), (((1, refl), (1, refl)), tt))),
      )

-- ===== src/Processor.antt =====
-- app/src/processor.c and app/include/processor.h: thresholds, alarm bits and the debounced LED.
pub mod Alarms
pub mod Debounce
pub mod Thread
pub mod Passing
pub mod Sees
pub mod Lights
pub mod Straight
mod Tests
use i_mx6ull_water_qualit.Base.{
  ℕ, ◌+◌, ◌==◌, leb, if◌then◌else◌, ◌&&◌, not, Bool, true, false, Option, none, some, bit_or,
}
use i_mx6ull_water_qualit.Base.Int.{ℤ, pos}
use i_mx6ull_water_qualit.Float.{Float}
use i_mx6ull_water_qualit.Sample.{Sample}
use i_mx6ull_water_qualit.Alarm.{alarm_client_set}

abbrev pub alarm_ph_low : ℕ
alarm_ph_low = 1

abbrev pub alarm_ph_high : ℕ
alarm_ph_high = 2

abbrev pub alarm_turb_high : ℕ
alarm_turb_high = 4

abbrev pub alarm_cond_high : ℕ
alarm_cond_high = 8

abbrev pub alarm_temp_high : ℕ
alarm_temp_high = 16

abbrev pub debounce_on_count : ℕ
debounce_on_count = 3

abbrev pub debounce_off_count : ℕ
debounce_off_count = 2

pub record Threshold (F : Type 0) : Type 0 where
  pub ph_min : F
  pub ph_max : F
  pub temp_min : F
  pub temp_max : F
  pub turb_max : F
  pub cond_max : F

-- The locals of `processor_thread` that outlive a round. The counters are `int`: they stay below
-- the number of samples of a run.
pub record Led : Type 0 where
  pub led_on : Bool
  pub alarm_cnt : ℕ
  pub clear_cnt : ℕ

abbrev pub led_start : Led
led_start = record { led_on = false; alarm_cnt = 0; clear_cnt = 0 }

module _ {F : Type 0} (float : Float F) where
  open float use {less, hundredths}

  unfoldable pub threshold_default : Option (Threshold F) → Option (Threshold F)
  threshold_default none = none
  threshold_default (some th) = some (record {
    ph_min = hundredths (pos 650);
    ph_max = hundredths (pos 850);
    temp_min = hundredths (pos 0);
    temp_max = hundredths (pos 4500);
    turb_max = hundredths (pos 500);
    cond_max = hundredths (pos 200000);
  })

  unfoldable pub compute_alarm : Option (Sample F) → Option (Threshold F) → ℕ
  compute_alarm none th = 0
  compute_alarm (some sample) none = 0
  compute_alarm (some sample) (some th) =
      let alarm : ℕ = 0 in
      let alarm =
        if less sample.ph th.ph_min
        then bit_or alarm alarm_ph_low
        else (if less th.ph_max sample.ph then bit_or alarm alarm_ph_high else alarm) in
      let alarm =
        if less th.temp_max sample.temperature then bit_or alarm alarm_temp_high else alarm in
      let alarm =
        if less th.turb_max sample.turbidity then bit_or alarm alarm_turb_high else alarm in
      if less th.cond_max sample.conductivity then bit_or alarm alarm_cond_high else alarm

-- The debouncing of a round: the new state, and the argument of `alarm_client_set` if it is called.
unfoldable pub debounce : ℕ → Led → Led × Option ℕ
debounce alarm s =
    if not (alarm == 0)
    then (if not s.led_on && leb debounce_on_count (s.alarm_cnt + 1)
        then (record { led_on = true; alarm_cnt = s.alarm_cnt + 1; clear_cnt = 0 }, some 1)
        else (record s { alarm_cnt = s.alarm_cnt + 1; clear_cnt = 0 }, none))
    else (if s.led_on && leb debounce_off_count (s.clear_cnt + 1)
        then (record { led_on = false; alarm_cnt = 0; clear_cnt = s.clear_cnt + 1 }, some 0)
        else (record s { alarm_cnt = 0; clear_cnt = s.clear_cnt + 1 }, none))

-- What a round writes to the LED device `alarm_fd`.
unfoldable pub led_write_of : ℤ → Option ℕ → Option ℕ
led_write_of alarm_fd none = none
led_write_of alarm_fd (some on) = alarm_client_set alarm_fd on

-- The sample that goes on to the store queue.
unfoldable pub mark_alarm : {F : Type 0} → ℕ → Sample F → Sample F
mark_alarm alarm sample =
    if not (alarm == 0)
    then record sample { alarm_status = bit_or sample.alarm_status alarm }
    else sample

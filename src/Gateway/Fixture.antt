-- ===== src/Gateway/Fixture.antt =====
-- A stand-in for `float` that counts hundredths, a turn with a sensor, and an empty queue.
use i_mx6ull_water_qualit.Base.{ℕ, refl, arith, false, List, [], ◌∷◌, replicate}
use i_mx6ull_water_qualit.Base.Int.{ℤ, pos, ltb_ℤ}
use i_mx6ull_water_qualit.Float.{Float}
use i_mx6ull_water_qualit.Sample.{Sample}
use i_mx6ull_water_qualit.SampleQueue.{SampleQueue}
use i_mx6ull_water_qualit.SampleQueue.Fifo.{empty}
use i_mx6ull_water_qualit.SampleQueue.Refine.{Represents}
use i_mx6ull_water_qualit.Modbus.Master.Script.{sensor_line}
use i_mx6ull_water_qualit.Gateway.Collect.{Turn, Collecting}

-- A sensor with the registers 712, 2534, 320, 820, 0, 0 and 1280, and an empty queue.
abbrev pub counted : Float ℤ
counted = record {
  less = ltb_ℤ;
  hundredths = λ n. n;
  of_int = λ n. n;
  times = λ a b. a;
  plus = λ a b. a;
}

abbrev pub blank : Sample ℤ
blank = record {
  timestamp_ms = pos 0;
  ph = pos 0;
  temperature = pos 0;
  turbidity = pos 0;
  conductivity = pos 0;
  sensor_status = 0;
  alarm_status = 0;
  sequence = 0;
}

abbrev pub seven_registers : List ℕ
seven_registers =
    1 ∷ 3 ∷ 14 ∷ 2 ∷ 200 ∷ 9 ∷ 230 ∷ 1 ∷ 64 ∷ 3 ∷ 52 ∷ 0 ∷ 0 ∷ 0 ∷ 0 ∷ 5 ∷ 0 ∷ 241 ∷ 73 ∷ []

abbrev pub turn : Turn ℤ
turn = record {
  line = sensor_line seven_registers;
  request = replicate 8 0;
  response = replicate 256 0;
  values = replicate 7 0;
  sample = blank;
  clock = record { tv_sec = 1; tv_usec = 2000 };
  wakes = [];
}

abbrev pub empty_queue : SampleQueue (Sample ℤ)
empty_queue = record {
  samples = blank ∷ blank ∷ [];
  capacity = 2;
  head = 0;
  tail = 0;
  count = 0;
  shutdown = false;
  overflow_count = 0;
  push_count = 0;
  pop_count = 0;
}

pub empty_queue-Represents : Represents blank empty_queue empty
empty_queue-Represents = record {
  valid = omega arith;
  held = refl;
  closed = refl;
  pushed = refl;
  popped = refl;
  dropped = refl;
}

abbrev pub collecting : Collecting ℤ
collecting = record { raw_queue = empty_queue; mock_sequence = 4; modbus_ok = false }

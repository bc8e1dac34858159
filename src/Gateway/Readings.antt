-- ===== src/Gateway/Readings.antt =====
-- The samples that a round of `collect_thread` makes, of registers or mocked.
use i_mx6ull_water_qualit.Base.{
  ℕ, ◌+◌, ◌≤◌, ◌<◌, ◌≡◌, refl, arith, true, false, List, Option, some, done, length, get_or,
  load-eq-done, signed16, u32,
}
use i_mx6ull_water_qualit.Base.Int.{pos}
use i_mx6ull_water_qualit.Float.{Float}
use i_mx6ull_water_qualit.Modbus.Response.Copy.{register_at}
use i_mx6ull_water_qualit.Sample.{
  Sample, Timeval, now_ms, sample_generate_mock, sample_from_modbus_regs, read_registers,
}
use i_mx6ull_water_qualit.Gateway.Collect.{Turn, Collecting}

module _ {F : Type 0} (float : Float F) where
  -- the sample of seven registers
  abbrev pub from_seven : ℕ → ℕ → ℕ → ℕ → ℕ → ℕ → ℕ → Timeval → Sample F
  from_seven r0 r1 r2 r3 r4 r5 r6 clock = record {
    timestamp_ms = now_ms clock;
    ph = float.times (float.of_int (pos r0)) (float.hundredths (pos 1));
    temperature = float.times (float.of_int (signed16 r1)) (float.hundredths (pos 1));
    turbidity = float.times (float.of_int (pos r2)) (float.hundredths (pos 1));
    conductivity = float.of_int (pos r3);
    sensor_status = r4;
    alarm_status = r5;
    sequence = r6;
  }

  -- the sample of the registers of an answer
  abbrev pub from_frame : List ℕ → Timeval → Sample F
  from_frame buf clock =
      from_seven (register_at buf 0) (register_at buf 1) (register_at buf 2) (register_at buf 3)
        (register_at buf 4) (register_at buf 5) (register_at buf 6) clock

  pub from_regs :
      (sample : Sample F) (regs : List ℕ) (clock : Timeval)
      → 7 ≤ length regs
      → sample_from_modbus_regs float (some sample) (some regs) (pos 7) clock
        ≡ done (
            some (
              from_seven
                (get_or regs 0 0)
                (get_or regs 1 0)
                (get_or regs 2 0)
                (get_or regs 3 0)
                (get_or regs 4 0)
                (get_or regs 5 0)
                (get_or regs 6 0)
                clock))
  unfolding sample_from_modbus_regs read_registers
  from_regs sample regs clock h =
      rw
        (
          load-eq-done regs 0 0 (omega arith),
          load-eq-done regs 1 0 (omega arith),
          load-eq-done regs 2 0 (omega arith),
          load-eq-done regs 3 0 (omega arith),
          load-eq-done regs 4 0 (omega arith),
          load-eq-done regs 5 0 (omega arith),
          load-eq-done regs 6 0 (omega arith),
        )
        refl

  pub from_copied :
      (buf regs : List ℕ) (clock : Timeval)
      → ((j : ℕ) → j < 7 → get_or regs j 0 ≡ register_at buf j)
      → from_seven
          (get_or regs 0 0)
          (get_or regs 1 0)
          (get_or regs 2 0)
          (get_or regs 3 0)
          (get_or regs 4 0)
          (get_or regs 5 0)
          (get_or regs 6 0)
          clock
        ≡ from_frame buf clock
  from_copied buf regs clock c = λ i.
      from_seven (c 0 (omega arith) i) (c 1 (omega arith) i) (c 2 (omega arith) i)
        (c 3 (omega arith) i) (c 4 (omega arith) i) (c 5 (omega arith) i) (c 6 (omega arith) i)
        clock

  -- the mock sample of a turn, and the context after it
  abbrev pub mock_of : Turn F → Collecting F → Option (Sample F)
  mock_of t s = (sample_generate_mock float s.mock_sequence t.clock (some t.sample)).1

  abbrev pub mock_state : Turn F → Collecting F → Collecting F
  mock_state t s = record s { mock_sequence = u32 (s.mock_sequence + 1); modbus_ok = false }

  abbrev pub read_state : Collecting F → Collecting F
  read_state s = record s { modbus_ok = true }

-- ===== src/Modbus/Master/Probe.antt =====
-- `modbus_test_serial_read` of app/src/modbus_rtu.c: a read of seven registers, or the sensor tests
-- when no slave answers. What is printed is kept as the registers or the totals.
pub mod Reports
mod Tests
use i_mx6ull_water_qualit.Base.{
  ℕ, suc, zero, ◌+◌, if◌then◌else◌, List, [], ◌∷◌, Option, none, some, Run, done, ◌>>=◌, load,
}
use i_mx6ull_water_qualit.Base.Int.{ℤ, pos, ltb_ℤ, pos_part}
use i_mx6ull_water_qualit.Float.{Float}
use i_mx6ull_water_qualit.Modbus.{Output}
use i_mx6ull_water_qualit.Modbus.Master.{Line, modbus_read_registers}
use i_mx6ull_water_qualit.Modbus.SelfTest.{array_of, modbus_run_sensor_tests}

pub data Report : Type 0 where
  registers : List ℕ → Report
  simulated : ℕ × ℕ → Report

-- the loop over the `n` registers from `i` on
unfoldable pub read_values : ℕ → ℕ → List ℕ → Run (List ℕ)
read_values zero i values = done []
read_values (suc n) i values = do
  value ← load values i
  rest ← read_values n (i + 1) values
  done (value ∷ rest)

module _ {F : Type 0} (float : Float F) where
  -- `buf` and `scratch` are the arrays of the sensor tests.
  unfoldable pub report : List ℕ → List ℕ → List ℕ → Output → Run (Option Report)
  unfolding read_values
  report buf scratch values (count, out) =
      if ltb_ℤ (pos 0) count
      then read_values (pos_part count) 0 (array_of values out)
        >>= (λ read. done (some (registers read)))
      else modbus_run_sensor_tests float buf scratch >>= (λ totals. done (some (simulated totals)))

  unfoldable pub modbus_test_serial_read :
      ℤ → List ℕ → List ℕ → List ℕ → List ℕ → List ℕ → Line → Run (Option Report)
  unfolding report
  modbus_test_serial_read fd request response values buf scratch line = do
    exchanged ←
        modbus_read_registers fd 0x01 0x0000 7 request response (some values) (pos 16) (pos 1000)
          line
    elim exchanged [ none ↦ done none | some exchange ↦ report buf scratch values exchange.0 ]

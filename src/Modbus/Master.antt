-- ===== src/Modbus/Master.antt =====
-- `modbus_read_registers` of app/src/modbus_rtu.c: a request, its way over the serial port, and the
-- answer. The frames are also printed, which is left out here.
pub mod Exchange
pub mod Script
pub mod Probe
mod Tests
use i_mx6ull_water_qualit.Base.{
  ℕ, not, if◌then◌else◌, List, [], Option, none, some, Run, done, ◌>>=◌,
}
use i_mx6ull_water_qualit.Base.Int.{ℤ, pos, ltb_ℤ, eqb_ℤ}
use i_mx6ull_water_qualit.Modbus.{Output, refused}
use i_mx6ull_water_qualit.Modbus.Request.{build_read_request}
use i_mx6ull_water_qualit.Modbus.Response.{parse_response}
use i_mx6ull_water_qualit.Sample.{Timeval}
use i_mx6ull_water_qualit.Serial.{WriteAnswer, SelectAnswer, ReadAnswer, serial_write, serial_read}

-- What the kernel answers during an exchange.
pub record Line : Type 0 where
  pub writes : List (ℕ → WriteAnswer)
  pub select : ℤ → Option Timeval → SelectAnswer
  pub read : ℕ → ReadAnswer

-- The result with the array of values, and the bytes that went out.
abbrev pub Exchanged : Type 0
Exchanged = Output × List ℕ

-- from `resp_len = serial_read(...)` on
unfoldable pub receive :
    ℤ → List ℕ → Option (List ℕ) → ℤ → ℤ → Line → List ℕ → Run (Option Exchanged)
receive fd response values max_values timeout_ms line sent = do
  let answer = serial_read fd (some response) (pos 256) timeout_ms line.select line.read
  if not (ltb_ℤ (pos 0) answer.0)
      then done (some (refused values, sent))
      else (parse_response answer.1 answer.0 values max_values >>= (λ out. done (some (out, sent))))

-- `request` and `response` are the arrays of 8 and 256 bytes on the stack, as they happen to be;
-- `none` is a call that still writes when `line.writes` ends.
unfoldable pub modbus_read_registers :
    ℤ → ℕ → ℕ → ℕ → List ℕ → List ℕ → Option (List ℕ) → ℤ → ℤ → Line → Run (Option Exchanged)
modbus_read_registers fd slave_addr start_addr quantity request response values max_values
      timeout_ms line =
    do
      built ← build_read_request slave_addr start_addr quantity (some request) (pos 8)
      if ltb_ℤ built.0 (pos 0)
          then done (some (refused values, []))
          else elim (serial_write fd built.1 built.0 line.writes) [
            | none ↦ done none
            | some sent ↦
                (if not (eqb_ℤ sent.result built.0)
                  then done (some (refused values, sent.bytes))
                  else receive fd response values max_values timeout_ms line sent.bytes)
          ]

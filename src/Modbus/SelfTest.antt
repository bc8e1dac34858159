-- ===== src/Modbus/SelfTest.antt =====
-- `modbus_run_sensor_tests` of app/src/modbus_rtu.c: eight answers of a sensor, parsed and checked. What
-- is printed, the frames included, is left out; the counts of passed and failed checks are kept.
pub mod Ready
pub mod Frames
pub mod CrcError
pub mod Passed
pub mod Fixture
mod Tests
use i_mx6ull_water_qualit.Base.{
  ℕ, ◌+◌, ◌-◌, ◌==◌, if◌then◌else◌, Bool, true, false, List, [], ◌∷◌, Option, none, some, Run, done,
  ◌>>=◌, load, store, u8, shr, bit_and, signed16,
}
use i_mx6ull_water_qualit.Base.Int.{ℤ, pos, ltb_ℤ, eqb_ℤ}
use i_mx6ull_water_qualit.Float.{Float}
use i_mx6ull_water_qualit.Modbus.{Output}
use i_mx6ull_water_qualit.Modbus.Crc.{crc16}
use i_mx6ull_water_qualit.Modbus.Response.{parse_response}
use i_mx6ull_water_qualit.Modbus.Answer.{build_test_response}

-- After a test: its counts, and the arrays `buf` and `values` of the function.
pub record Tested : Type 0 where
  pub pass : ℕ
  pub fail : ℕ
  pub buf : List ℕ
  pub values : List ℕ

-- a check of one register
pub record Check : Type 0 where
  pub index : ℕ
  pub holds : ℕ → Bool

abbrev pub equals : ℕ → ℕ → Check
equals index value = record { index = index; holds = λ v. v == value }

-- if (...) pass++; else fail++;
abbrev pub count_check : Bool → Tested → Tested
count_check true t = record t { pass = t.pass + 1 }
count_check false t = record t { fail = t.fail + 1 }

unfoldable pub run_checks : List Check → Tested → Run Tested
run_checks [] t = done t
run_checks (check ∷ checks) t = do
  value ← load t.values check.index
  run_checks checks (count_check (check.holds value) t)

abbrev pub array_of : List ℕ → Option (List ℕ) → List ℕ
array_of values none = values
array_of values (some out) = out

-- after `modbus_parse_response` of an answer with seven registers
unfoldable pub check_count : List Check → List ℕ → List ℕ → Output → Run Tested
unfolding run_checks
check_count checks buf values (count, out) =
    let t : Tested = record { pass = 0; fail = 0; buf = buf; values = array_of values out } in
    if eqb_ℤ count (pos 7)
    then run_checks checks (count_check true t)
    else done (count_check false t)

-- Tests 1 to 5
unfoldable pub test_registers : List ℕ → List Check → List ℕ → List ℕ → Run Tested
unfolding check_count
test_registers regs checks buf values = do
  built ← build_test_response buf regs 7
  out ← parse_response (some built.0) (pos built.1) (some values) (pos 16)
  check_count checks built.0 values out

-- after `modbus_parse_response` of an answer that is wrong
unfoldable pub check_refused : List ℕ → List ℕ → Output → Tested
check_refused buf values (count, out) =
    count_check (ltb_ℤ count (pos 0))
      (record { pass = 0; fail = 0; buf = buf; values = array_of values out })

unfoldable pub test_exception : List ℕ → List ℕ → Run Tested
unfolding check_refused
test_exception buf values = do
  buf ← store buf 0 0x01
  buf ← store buf 1 0x83
  buf ← store buf 2 0x02
  crc ← crc16 (some buf) (pos 3)
  buf ← store buf 3 (u8 (bit_and crc 0xFF))
  buf ← store buf 4 (u8 (shr crc 8))
  out ← parse_response (some buf) (pos 5) (some values) (pos 16)
  done (check_refused buf values out)

abbrev pub normal_registers : List ℕ
normal_registers = 712 ∷ 2534 ∷ 320 ∷ 820 ∷ 0 ∷ 0 ∷ 1280 ∷ []

unfoldable pub test_crc_error : List ℕ → List ℕ → Run Tested
unfolding check_refused
test_crc_error buf values = do
  built ← build_test_response buf normal_registers 7
  buf ← store built.0 (built.1 - 2) 0x00
  buf ← store buf (built.1 - 1) 0x00
  out ← parse_response (some buf) (pos built.1) (some values) (pos 16)
  done (check_refused buf values out)

unfoldable pub test_short_frame : List ℕ → List ℕ → Run Tested
unfolding check_refused
test_short_frame buf values = do
  buf ← store buf 0 0x01
  buf ← store buf 1 0x03
  buf ← store buf 2 0x0E
  buf ← store buf 3 0x02
  out ← parse_response (some buf) (pos 4) (some values) (pos 16)
  done (check_refused buf values out)

abbrev pub normal_checks : List Check
normal_checks =
    equals 0 712
    ∷ record { index = 1; holds = λ v. eqb_ℤ (signed16 v) (pos 2534) }
    ∷ equals 2 320
    ∷ equals 3 820
    ∷ equals 4 0
    ∷ equals 5 0
    ∷ equals 6 1280
    ∷ []

abbrev pub fault_registers : List ℕ
fault_registers = 0 ∷ 32767 ∷ 320 ∷ 820 ∷ 0x0003 ∷ 0 ∷ 2048 ∷ []

abbrev pub fault_checks : List Check
fault_checks = equals 4 0x0003 ∷ equals 0 0 ∷ equals 5 0 ∷ []

abbrev pub alarm_registers : List ℕ
alarm_registers = 450 ∷ 2500 ∷ 5000 ∷ 1500 ∷ 0 ∷ 0x0005 ∷ 3072 ∷ []

-- the same value in all seven registers, and the checks for it
abbrev pub seven_times : ℕ → List ℕ
seven_times v = v ∷ v ∷ v ∷ v ∷ v ∷ v ∷ v ∷ []

abbrev pub seven_checks : ℕ → List Check
seven_checks v =
    equals 0 v ∷ equals 1 v ∷ equals 2 v ∷ equals 3 v ∷ equals 4 v ∷ equals 5 v ∷ equals 6 v ∷ []

module _ {F : Type 0} (float : Float F) where
  open float use {less, hundredths, of_int, times}

  -- values[i] * 0.01f
  abbrev pub scaled : ℕ → F
  scaled v = times (of_int (pos v)) (hundredths (pos 1))

  abbrev pub alarm_checks : List Check
  alarm_checks =
      equals 5 0x0005
      ∷ record { index = 0; holds = λ v. less (scaled v) (hundredths (pos 700)) }
      ∷ record { index = 2; holds = λ v. less (hundredths (pos 1000)) (scaled v) }
      ∷ []

  -- the two totals, from `buf` and `values` as they happen to be on the stack
  unfoldable pub modbus_run_sensor_tests : List ℕ → List ℕ → Run (ℕ × ℕ)
  unfolding test_registers test_exception test_crc_error test_short_frame
  modbus_run_sensor_tests buf values = do
    t1 ← test_registers normal_registers normal_checks buf values
    t2 ← test_registers fault_registers fault_checks t1.buf t1.values
    t3 ← test_registers alarm_registers alarm_checks t2.buf t2.values
    t4 ← test_registers (seven_times 0) (seven_checks 0) t3.buf t3.values
    t5 ← test_registers (seven_times 0xFFFF) (seven_checks 0xFFFF) t4.buf t4.values
    t6 ← test_exception t5.buf t5.values
    t7 ← test_crc_error t6.buf t6.values
    t8 ← test_short_frame t7.buf t7.values
    done (
      t1.pass + t2.pass + t3.pass + t4.pass + t5.pass + t6.pass + t7.pass + t8.pass,
      t1.fail + t2.fail + t3.fail + t4.fail + t5.fail + t6.fail + t7.fail + t8.fail,
    )

-- ===== src/Modbus/SelfTest/Passed.antt =====
-- The totals of `modbus_run_sensor_tests`.
use i_mx6ull_water_qualit.Base.{ℕ, ◌<◌, ◌^◌, ◌≡◌, ◌==◌, refl, arith, true, List, done, IsWords}
use i_mx6ull_water_qualit.Base.Int.{pos}
use i_mx6ull_water_qualit.Float.{Float}
use i_mx6ull_water_qualit.Modbus.SelfTest.{
  normal_registers, normal_checks, fault_registers, fault_checks, alarm_registers, alarm_checks,
  seven_times, seven_checks, scaled, test_registers, test_exception, test_crc_error,
  test_short_frame, modbus_run_sensor_tests,
}
use i_mx6ull_water_qualit.Modbus.SelfTest.Ready.{IsReady, Passes, Hold, test_registers-Passes}
use i_mx6ull_water_qualit.Modbus.SelfTest.Frames.{test_exception-Passes, test_short_frame-Passes}
use i_mx6ull_water_qualit.Modbus.SelfTest.CrcError.{test_crc_error-Passes}

seven_times-IsWords : (v : ℕ) → v < 2 ^ 16 → IsWords (seven_times v)
seven_times-IsWords v h = (h, (h, (h, (h, (h, (h, (h, tt)))))))

seven_checks-Hold : (v : ℕ) → Hold (seven_times v) (seven_checks v)
seven_checks-Hold v = (
  (omega arith, same),
  (
    (omega arith, same),
    (
      (omega arith, same),
      (
        (omega arith, same),
        ((omega arith, same), ((omega arith, same), ((omega arith, same), tt))),
      ),
    ),
  ),
)
  where
    same : (v == v) ≡ true
    same = ground arith

-- If `float` orders 450 and 5000 hundredths against 7 and 10, the sensor tests pass all their 35
-- checks and fail none, whatever the two arrays on the stack hold, and access nothing out of the two.
pub modbus_run_sensor_tests-passes :
    {F : Type 0} (float : Float F) (buf values : List ℕ)
    → IsReady buf values
    → float.less (scaled float 450) (float.hundredths (pos 700)) ≡ true
    → float.less (float.hundredths (pos 1000)) (scaled float 5000) ≡ true
    → modbus_run_sensor_tests float buf values ≡ done (35, 0)
unfolding modbus_run_sensor_tests
modbus_run_sensor_tests-passes float buf values ready low high =
    rw
      (
        p1.returns, p2.returns, p3.returns, p4.returns, p5.returns, p6.returns, p7.returns,
        p8.returns,
      )
      refl
  where
    p1 : Passes 8 (test_registers normal_registers normal_checks buf values)
    p1 =
        test_registers-Passes normal_registers normal_checks buf values ready
          (
            omega arith,
            (
              omega arith,
              (omega arith, (omega arith, (omega arith, (omega arith, (omega arith, tt))))),
            ),
          )
          refl
          (
            (omega arith, refl),
            (
              (omega arith, refl),
              (
                (omega arith, refl),
                (
                  (omega arith, refl),
                  ((omega arith, refl), ((omega arith, refl), ((omega arith, refl), tt))),
                ),
              ),
            ),
          )

    p2 : Passes 4 (test_registers fault_registers fault_checks p1.buf p1.values)
    p2 =
        test_registers-Passes fault_registers fault_checks p1.buf p1.values p1.ready
          (
            omega arith,
            (
              omega arith,
              (omega arith, (omega arith, (omega arith, (omega arith, (omega arith, tt))))),
            ),
          )
          refl ((omega arith, refl), ((omega arith, refl), ((omega arith, refl), tt)))

    p3 : Passes 4 (test_registers alarm_registers (alarm_checks float) p2.buf p2.values)
    p3 =
        test_registers-Passes alarm_registers (alarm_checks float) p2.buf p2.values p2.ready
          (
            omega arith,
            (
              omega arith,
              (omega arith, (omega arith, (omega arith, (omega arith, (omega arith, tt))))),
            ),
          )
          refl ((omega arith, refl), ((omega arith, low), ((omega arith, high), tt)))

    p4 : Passes 8 (test_registers (seven_times 0) (seven_checks 0) p3.buf p3.values)
    p4 =
        test_registers-Passes (seven_times 0) (seven_checks 0) p3.buf p3.values p3.ready
          (seven_times-IsWords 0 (omega arith)) refl (seven_checks-Hold 0)

    p5 : Passes 8 (test_registers (seven_times 0xFFFF) (seven_checks 0xFFFF) p4.buf p4.values)
    p5 =
        test_registers-Passes (seven_times 0xFFFF) (seven_checks 0xFFFF) p4.buf p4.values p4.ready
          (seven_times-IsWords 0xFFFF (omega arith)) refl (seven_checks-Hold 0xFFFF)

    p6 : Passes 1 (test_exception p5.buf p5.values)
    p6 = test_exception-Passes p5.buf p5.values p5.ready

    p7 : Passes 1 (test_crc_error p6.buf p6.values)
    p7 = test_crc_error-Passes p6.buf p6.values p6.ready

    p8 : Passes 1 (test_short_frame p7.buf p7.values)
    p8 = test_short_frame-Passes p7.buf p7.values p7.ready

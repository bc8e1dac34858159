-- ===== src/Modbus/SelfTest/Tests.antt =====
-- The sensor tests of app/src/modbus_rtu.c on arrays of zeros, over a float of whole hundredths.
use i_mx6ull_water_qualit.Base.{◌≡◌, refl, done, replicate}
use i_mx6ull_water_qualit.Modbus.SelfTest.Fixture.{hundredths_only, zeros-IsReady}
use i_mx6ull_water_qualit.Modbus.SelfTest.{modbus_run_sensor_tests}
use i_mx6ull_water_qualit.Modbus.SelfTest.Passed.{modbus_run_sensor_tests-passes}

modbus_run_sensor_tests-passes_example :
    modbus_run_sensor_tests hundredths_only (replicate 256 0) (replicate 16 0) ≡ done (35, 0)
modbus_run_sensor_tests-passes_example =
    modbus_run_sensor_tests-passes hundredths_only (replicate 256 0) (replicate 16 0) zeros-IsReady
      refl refl

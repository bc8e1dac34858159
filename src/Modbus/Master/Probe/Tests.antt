-- ===== src/Modbus/Master/Probe/Tests.antt =====
-- A probe of a slave that answers with one register.
use i_mx6ull_water_qualit.Base.{
  ℕ, ◌<◌, ◌^◌, ◌≡◌, ◌⊎◌, refl, arith, List, [], ◌∷◌, ◌++◌, some, done, replicate, drop, take,
  All-replicate,
}
use i_mx6ull_water_qualit.Base.Int.{pos}
use i_mx6ull_water_qualit.Modbus.{Output}
use i_mx6ull_water_qualit.Modbus.Response.Exact.{Accepts, Parsed, register_count}
use i_mx6ull_water_qualit.Modbus.SelfTest.Fixture.{hundredths_only, zeros-IsReady}
use i_mx6ull_water_qualit.Modbus.Master.Script.{sensor_line, sensor_line-Answers}
use i_mx6ull_water_qualit.Modbus.Master.Probe.{registers, simulated, modbus_test_serial_read}
use i_mx6ull_water_qualit.Modbus.Master.Probe.Reports.{modbus_test_serial_read-Reports}

-- one register, 0x02C8
abbrev sensor_frame : List ℕ
sensor_frame = 0x01 ∷ 0x03 ∷ 0x02 ∷ 0x02 ∷ 0xC8 ∷ 0xB8 ∷ 0xB2 ∷ []

modbus_test_serial_read-Reports_example :
    let received = sensor_frame ++ drop 7 (replicate 256 0) in
    let values : List ℕ = replicate 16 0 in
    let count = register_count received 16 in
    let result =
      modbus_test_serial_read hundredths_only
        (pos 3)
        (replicate 8 0)
        (replicate 256 0)
        values
        (replicate 256 0)
        values
        (sensor_line sensor_frame) in
    ((out : Output) × (p : Parsed received values count (done out)) × Accepts received 7
      × (0 < count)
      × (result ≡ done (some (registers (take count p.out)))))
    ⊎ ((¬ Accepts received 7 ⊎ (count ≡ 0)) × (result ≡ done (some (simulated (35, 0)))))
modbus_test_serial_read-Reports_example =
    modbus_test_serial_read-Reports hundredths_only (replicate 256 0) (replicate 16 0) zeros-IsReady
      refl refl 3 (replicate 8 0) (replicate 256 0) (replicate 16 0) sensor_frame
      (sensor_line sensor_frame) refl refl (All-replicate (λ b. b < 2 ^ 8) 256 0 (omega arith))
      (omega arith) (omega arith) (omega arith) refl (sensor_line-Answers sensor_frame)

-- ===== src/Modbus/Master/Tests.antt =====
-- An exchange at a scripted line.
use i_mx6ull_water_qualit.Base.{
  ℕ, ◌<◌, ◌^◌, All-replicate, ◌≡◌, ◌⊎◌, refl, arith, List, [], ◌∷◌, ◌++◌, some, replicate, drop,
  done, IsBytes,
}
use i_mx6ull_water_qualit.Base.Int.{pos}
use i_mx6ull_water_qualit.Modbus.{Output, refused}
use i_mx6ull_water_qualit.Modbus.Request.Layout.{request_frame}
use i_mx6ull_water_qualit.Modbus.Response.Exact.{Accepts, Parsed, register_count}
use i_mx6ull_water_qualit.Modbus.Master.{modbus_read_registers}
use i_mx6ull_water_qualit.Modbus.Master.Script.{sensor_line, sensor_line-Answers}
use i_mx6ull_water_qualit.Modbus.Master.Exchange.{modbus_read_registers_exact}

-- one register, 0x02C8
abbrev sensor_frame : List ℕ
sensor_frame = 0x01 ∷ 0x03 ∷ 0x02 ∷ 0x02 ∷ 0xC8 ∷ 0xB8 ∷ 0xB2 ∷ []

modbus_read_registers_exact_example :
    let received = sensor_frame ++ drop 7 (replicate 256 0) in
    (out : Output) × (modbus_read_registers
        (pos 3)
        1
        0
        1
        (replicate 8 0)
        (replicate 256 0)
        (some (0 ∷ 0 ∷ []))
        (pos 2)
        (pos 500)
        (sensor_line sensor_frame)
      ≡ done (some (out, request_frame 1 0 1)))
    × ((Accepts received 7 × Parsed received (0 ∷ 0 ∷ []) (register_count received 2) (done out))
        ⊎ (¬ Accepts received 7 × (out ≡ refused (some (0 ∷ 0 ∷ [])))))
modbus_read_registers_exact_example =
    modbus_read_registers_exact 3 1 0 1 (replicate 8 0) (replicate 256 0) (0 ∷ 0 ∷ []) sensor_frame
      2 (pos 500) (sensor_line sensor_frame) (omega arith) (omega arith) (omega arith) (omega arith)
      refl refl zeros (omega arith) (omega arith) (omega arith) (omega arith) (omega arith)
      (sensor_line-Answers sensor_frame)
  where
    zeros : IsBytes (replicate 256 0)
    zeros = All-replicate (λ b. b < 2 ^ 8) 256 0 (omega arith)

-- ===== src/Modbus/Tests.antt =====
-- Frames of the sensor tests in app/src/modbus_rtu.c, and the theorems at them.
use Prim.Native.Nat.{min}
use i_mx6ull_water_qualit.Base.{
  ℕ, ◌<◌, ◌≤◌, ◌≡◌, ◌⊎◌, none, ◌>>=◌, refl, arith, List, [], ◌∷◌, ◌++◌, some, done, get_or, length,
  replicate, IsBytes,
}
use i_mx6ull_water_qualit.Base.Int.{pos}
use i_mx6ull_water_qualit.Modbus.{refused, max_registers}
use i_mx6ull_water_qualit.Modbus.HexDump.{
  hex_text, put_text, print, dump_loop, modbus_hex_dump, modbus_hex_dump_bounds,
}
use i_mx6ull_water_qualit.Modbus.Crc.{crc16, crc_start, crc_rounds, crc_round}
use i_mx6ull_water_qualit.Modbus.Crc.Fold.{crc_bytes}
use i_mx6ull_water_qualit.Modbus.Request.{build_read_request}
use i_mx6ull_water_qualit.Modbus.Request.Layout.{request_frame, build_read_request_exact}
use i_mx6ull_water_qualit.Modbus.Response.{parse_response, copy_registers, join_bytes}
use i_mx6ull_water_qualit.Modbus.Response.Exact.{
  Accepts, Parsed, register_count, parse_response_exact,
}
use i_mx6ull_water_qualit.Modbus.Response.Detect.{parse_response_corrupted}
use i_mx6ull_water_qualit.Modbus.Answer.{build_test_response, put_registers}
use i_mx6ull_water_qualit.Modbus.SelfTest.{normal_registers}
use i_mx6ull_water_qualit.Modbus.Answer.RoundTrip.{parse_response-build_test_response}

abbrev room : List ℕ
room = replicate 16 0

abbrev buffer : List ℕ
buffer = replicate 24 0

-- a read of one register, with the checksum of the Modbus specification's example
abbrev request_01_03 : List ℕ
request_01_03 = 0x01 ∷ 0x03 ∷ 0x00 ∷ 0x00 ∷ 0x00 ∷ 0x01 ∷ []

crc16_known : crc16 (some request_01_03) (pos 6) ≡ done 0x0A84
unfolding crc16
crc16_known = refl

crc16_null : (crc16 none (pos 6) ≡ done 0) × (crc16 (some request_01_03) (pos 0) ≡ done 0)
unfolding crc16
crc16_null = (refl, refl)

-- pH 7.12 alone
abbrev answer : List ℕ
answer = 0x01 ∷ 0x03 ∷ 0x02 ∷ 0x02 ∷ 0xC8 ∷ 0xB8 ∷ 0xB2 ∷ []

answer_accepted :
    parse_response (some answer) (pos 7) (some (9 ∷ 9 ∷ [])) (pos 2)
    ≡ done (pos 1, some (712 ∷ 9 ∷ []))
unfolding parse_response copy_registers join_bytes crc16
answer_accepted = refl

-- Test 6: an exception; Test 7: a broken checksum; Test 8: a short frame.
answers_refused :
    (parse_response (some (0x01 ∷ 0x83 ∷ 0x02 ∷ 0xC0 ∷ 0xF1 ∷ [])) (pos 5) (some room) (pos 16)
      ≡ done (refused (some room)))
    × (parse_response
          (some (0x01 ∷ 0x03 ∷ 0x02 ∷ 0x02 ∷ 0xC8 ∷ 0 ∷ 0 ∷ []))
          (pos 7)
          (some room)
          (pos 16)
        ≡ done (refused (some room)))
    × (parse_response (some (0x01 ∷ 0x03 ∷ 0x0E ∷ 0x02 ∷ [])) (pos 4) (some room) (pos 16)
        ≡ done (refused (some room)))
unfolding parse_response copy_registers join_bytes crc16
answers_refused = (refl, refl, refl)

-- Test 1: the builder's answer is read back.
normal_read_back :
    (build_test_response buffer normal_registers 7 >>= λ r.
    parse_response (some r.0) (pos r.1) (some room) (pos 16))
    ≡ done (pos 7, some (normal_registers ++ replicate 9 0))
unfolding build_test_response put_registers parse_response copy_registers join_bytes crc16
normal_read_back = refl

answer-Accepts : Accepts answer 7
unfolding crc_rounds crc_round
answer-Accepts = record { function = refl; sized = refl; checked = refl }

answer-IsBytes : IsBytes answer
answer-IsBytes = omega arith

parse_response_exact_example :
    let result = parse_response (some answer) (pos 7) (some room) (pos 16) in
    (Accepts answer 7 × Parsed answer room (register_count answer 16) result)
    ⊎ (¬ Accepts answer 7 × (result ≡ done (refused (some room))))
parse_response_exact_example =
    parse_response_exact answer room 7 16 answer-IsBytes (omega arith) (omega arith) (omega arith)

-- The two bytes of the register are changed.
parse_response_corrupted_example :
    parse_response
      (some (0x01 ∷ 0x03 ∷ 0x02 ∷ 0x03 ∷ 0xC9 ∷ 0xB8 ∷ 0xB2 ∷ []))
      (pos 7)
      (some room)
      (pos 16)
    ≡ done (refused (some room))
parse_response_corrupted_example =
    parse_response_corrupted (0x01 ∷ 0x03 ∷ 0x02 ∷ []) (0xB8 ∷ 0xB2 ∷ []) room 0x02 0xC8 0x03 0xC9
      16 (omega arith) (omega arith) (omega arith) (omega arith) (omega arith) (omega arith)
      answer-Accepts

build_read_request_exact_example :
    let result = build_read_request 1 0 7 (some (replicate 8 0)) (pos 8) in
    let frame = request_frame 1 0 7 in
    ((1 ≤ 7)
      × (7 ≤ max_registers)
      × (8 ≤ 8)
      × (result ≡ done (pos 8, some (frame ++ [])))
      × (crc_bytes crc_start frame ≡ 0))
    ⊎ (((◌≡◌ {A = ℕ} 7 0) ⊎ ((max_registers < 7) ⊎ (8 < 8)))
        × (result ≡ done (refused (some (replicate 8 0)))))
build_read_request_exact_example =
    build_read_request_exact 1 0 7 8 (replicate 8 0) (omega arith) (omega arith) (omega arith)

parse_response-build_test_response_example :
    (frame out : List ℕ) × (build_test_response buffer normal_registers 7 ≡ done (frame, 19))
    × (parse_response (some frame) (pos 19) (some room) (pos 16) ≡ done (pos 7, some out))
    × ((j : ℕ) → j < min 7 16 → get_or out j 0 ≡ get_or normal_registers j 0)
parse_response-build_test_response_example =
    parse_response-build_test_response buffer normal_registers room 7 16 (omega arith) (omega arith)
      (omega arith) (omega arith) (omega arith) (omega arith) (omega arith)

-- "01 FF"
hex_dump_two :
    modbus_hex_dump (some (0x01 ∷ 0xFF ∷ [])) 2 (some (replicate 10 7)) (pos 10)
    ≡ done (some (48 ∷ 49 ∷ 32 ∷ 70 ∷ 70 ∷ 0 ∷ 7 ∷ 7 ∷ 7 ∷ 7 ∷ []), 5)
unfolding modbus_hex_dump dump_loop hex_text put_text print
hex_dump_two = refl

modbus_hex_dump_bounds_example :
    (after : List ℕ) × (last : ℕ) × (modbus_hex_dump
        (some request_01_03)
        6
        (some (replicate 10 7))
        (pos 10)
      ≡ done (some after, last))
    × (length after ≡ length {A = ℕ} (replicate 10 7))
    × (last < 10)
modbus_hex_dump_bounds_example =
    modbus_hex_dump_bounds request_01_03 (replicate 10 7) 6 10 (omega arith) (omega arith)
      (omega arith)

-- ===== src/Modbus/Answer.antt =====
-- `build_test_response` of app/src/modbus_rtu.c: the answer that a sensor gives.
pub mod Write
pub mod Seal
pub mod RoundTrip
use i_mx6ull_water_qualit.Base.{
  ℕ, zero, suc, ◌+◌, ◌*◌, List, some, Run, done, ◌>>=◌, load, store, shr, u8, bit_and,
}
use i_mx6ull_water_qualit.Base.Int.{pos}
use i_mx6ull_water_qualit.Modbus.{func_read_holding}
use i_mx6ull_water_qualit.Modbus.Crc.{crc16}

-- the loop at register `i`, with `left` registers to go
unfoldable pub put_registers : List ℕ → ℕ → ℕ → List ℕ → Run (List ℕ)
put_registers regs zero i buf = done buf
put_registers regs (suc left) i buf = do
  reg ← load regs i
  buf ← store buf (3 + i * 2) (u8 (shr reg 8))
  buf ← store buf (4 + i * 2) (u8 (bit_and reg 0xFF))
  put_registers regs left (i + 1) buf

-- the frame in `buf`, and its length
unfoldable pub build_test_response : List ℕ → List ℕ → ℕ → Run (List ℕ × ℕ)
build_test_response buf regs reg_count = do
  let byte_count = reg_count * 2
  buf ← store buf 0 0x01
  buf ← store buf 1 func_read_holding
  buf ← store buf 2 (u8 byte_count)
  buf ← put_registers regs reg_count 0 buf
  crc ← crc16 (some buf) (pos (3 + byte_count))
  buf ← store buf (3 + byte_count) (u8 (bit_and crc 0xFF))
  buf ← store buf (4 + byte_count) (u8 (shr crc 8))
  done (buf, 5 + byte_count)

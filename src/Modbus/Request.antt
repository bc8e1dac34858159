-- ===== src/Modbus/Request.antt =====
-- `modbus_build_read_request` of app/src/modbus_rtu.c.
pub mod Layout
use i_mx6ull_water_qualit.Base.{
  ℕ, ◌==◌, ltb, if◌then◌else◌, ◌||◌, List, Option, none, some, Run, done, ◌>>=◌, store, shr, u8,
  bit_and,
}
use i_mx6ull_water_qualit.Base.Int.{ℤ, pos, ltb_ℤ}
use i_mx6ull_water_qualit.Modbus.{func_read_holding, max_registers, Output, refused}
use i_mx6ull_water_qualit.Modbus.Crc.{crc16}

-- the stores, once the guards have passed
unfoldable pub write_request : ℕ → ℕ → ℕ → List ℕ → Run Output
write_request slave start quantity buf = do
  buf ← store buf 0 slave
  buf ← store buf 1 func_read_holding
  buf ← store buf 2 (u8 (shr start 8))
  buf ← store buf 3 (u8 (bit_and start 0xFF))
  buf ← store buf 4 (u8 (shr quantity 8))
  buf ← store buf 5 (u8 (bit_and quantity 0xFF))
  crc ← crc16 (some buf) (pos 6)
  buf ← store buf 6 (u8 (bit_and crc 0xFF))
  buf ← store buf 7 (u8 (shr crc 8))
  done (pos 8, some buf)

unfoldable pub build_read_request : ℕ → ℕ → ℕ → Option (List ℕ) → ℤ → Run Output
build_read_request slave start quantity none size = done (refused none)
build_read_request slave start quantity (some buf) size =
    if ltb_ℤ size (pos 8)
    then done (refused (some buf))
    else (if quantity == 0 || ltb max_registers quantity
        then done (refused (some buf))
        else write_request slave start quantity buf)

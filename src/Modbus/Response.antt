-- ===== src/Modbus/Response.antt =====
-- `modbus_parse_response` of app/src/modbus_rtu.c.
pub mod Copy
pub mod Exact
pub mod Detect
use i_mx6ull_water_qualit.Base.{
  ℕ, zero, suc, ◌+◌, ◌-◌, ◌*◌, ◌/◌, ◌==◌, ltb, not, if◌then◌else◌, List, Option, none, some, Run,
  done, ◌>>=◌, load, store, shl, u16, bit_and, bit_or,
}
use i_mx6ull_water_qualit.Base.Int.{ℤ, pos, pos_part, ltb_ℤ}
use i_mx6ull_water_qualit.Modbus.{func_read_holding, response_min, Output, refused}
use i_mx6ull_water_qualit.Modbus.Crc.{crc16}

-- two bytes as an `unsigned short`
unfoldable pub join_bytes : ℕ → ℕ → ℕ
join_bytes high low = u16 (bit_or (shl high 8) low)

-- the copying loop at register `i`, with `left` registers to go
unfoldable pub copy_registers : List ℕ → ℕ → ℕ → List ℕ → Run (List ℕ)
copy_registers buf zero i values = done values
copy_registers buf (suc left) i values = do
  high ← load buf (3 + i * 2)
  low ← load buf (4 + i * 2)
  values ← store values i (join_bytes high low)
  copy_registers buf left (i + 1) values

-- from `reg_count = byte_count / 2` on
unfoldable pub take_registers : List ℕ → ℕ → List ℕ → ℕ → Run Output
take_registers buf byte_count values max_values = do
  let counted = byte_count / 2
  let reg_count = if ltb max_values counted then max_values else counted
  out ← copy_registers buf reg_count 0 values
  done (pos reg_count, some out)

-- from `expected_crc = ...` on
unfoldable pub check_crc : List ℕ → ℕ → ℕ → List ℕ → ℕ → Run Output
check_crc buf len byte_count values max_values = do
  expected_crc ← crc16 (some buf) (pos (len - 2))
  high ← load buf (len - 1)
  low ← load buf (len - 2)
  if not (join_bytes high low == expected_crc)
      then done (refused (some values))
      else take_registers buf byte_count values max_values

-- The frame, once the arguments have passed. The message for an exception reads its code.
unfoldable pub parse_frame : List ℕ → ℕ → List ℕ → ℕ → Run Output
unfolding check_crc take_registers
parse_frame buf len values max_values = do
  func ← load buf 1
  if not (bit_and func 0x80 == 0)
      then load buf 2 >>= (λ _. done (refused (some values)))
      else (if not (func == func_read_holding) then done (refused (some values)) else (do
        byte_count ← load buf 2
        if not (len == byte_count + 5)
            then done (refused (some values))
            else check_crc buf len byte_count values max_values))

unfoldable pub parse_response : Option (List ℕ) → ℤ → Option (List ℕ) → ℤ → Run Output
unfolding parse_frame
parse_response none len values max_values = done (refused values)
parse_response (some buf) len none max_values = done (refused none)
parse_response (some buf) len (some values) max_values =
    if ltb_ℤ (pos 0) max_values
    then (if ltb_ℤ len (pos response_min)
        then done (refused (some values))
        else parse_frame buf (pos_part len) values (pos_part max_values))
    else done (refused (some values))

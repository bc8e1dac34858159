-- ===== src/Modbus.antt =====
-- app/src/modbus_rtu.c and app/include/modbus_rtu.h: the Modbus RTU master. `Crc` is the checksum,
-- `Request` the frame that is sent, `Response` the parser of the answer, `Answer` the builder of
-- a normal answer that the sensor tests use.
pub mod Crc
pub mod Request
pub mod Response
pub mod Answer
pub mod Master
pub mod HexDump
pub mod SelfTest
mod Tests
use i_mx6ull_water_qualit.Base.{ℕ, List, Option}
use i_mx6ull_water_qualit.Base.Int.{ℤ, negsuc}

-- MODBUS_FUNC_READ_HOLDING, MODBUS_MAX_REGISTERS, MODBUS_RESPONSE_MIN
abbrev pub func_read_holding : ℕ
func_read_holding = 0x03

abbrev pub max_registers : ℕ
max_registers = 125

abbrev pub response_min : ℕ
response_min = 5

-- What a function of the module returns: its `int`, and the array behind its output pointer
-- (`none` for a null pointer).
abbrev pub Output : Type 0
Output = ℤ × Option (List ℕ)

-- the result -1
abbrev pub refused : Option (List ℕ) → Output
refused out = (negsuc 0, out)

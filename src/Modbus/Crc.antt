-- ===== src/Modbus/Crc.antt =====
-- `modbus_crc16` of app/src/modbus_rtu.c.
pub mod Rounds
pub mod Fold
pub mod Residue
use i_mx6ull_water_qualit.Base.{
  ℕ, zero, suc, ◌+◌, ◌==◌, if◌then◌else◌, List, Option, none, some, Run, done, ◌>>=◌, load, shr,
  u16, bit_and, bit_xor,
}
use i_mx6ull_water_qualit.Base.Int.{ℤ, pos, negsuc}

abbrev pub crc_start : ℕ
crc_start = 0xFFFF

abbrev pub crc_polynomial : ℕ
crc_polynomial = 0xA001

-- the body of the inner loop
unfoldable pub crc_round : ℕ → ℕ
crc_round crc =
    if bit_and crc 0x0001 == 0 then shr crc 1 else u16 (bit_xor (shr crc 1) crc_polynomial)

-- the inner loop, with the rounds that are left
unfoldable pub crc_rounds : ℕ → ℕ → ℕ
crc_rounds zero crc = crc
crc_rounds (suc left) crc = crc_rounds left (crc_round crc)

-- the outer loop at index `i`, with `left` bytes to go
unfoldable pub crc_loop : List ℕ → ℕ → ℕ → ℕ → Run ℕ
crc_loop buf zero i crc = done crc
crc_loop buf (suc left) i crc = do
  byte ← load buf i
  crc_loop buf left (i + 1) (crc_rounds 8 (bit_xor crc byte))

-- `none` is a null pointer.
unfoldable pub crc16 : Option (List ℕ) → ℤ → Run ℕ
unfolding crc_loop crc_rounds crc_round
crc16 none len = done 0
crc16 (some buf) (negsuc _) = done 0
crc16 (some buf) (pos zero) = done 0
crc16 (some buf) (pos (suc n)) = crc_loop buf (suc n) 0 crc_start

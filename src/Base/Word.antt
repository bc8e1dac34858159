-- ===== src/Base/Word.antt =====
-- Machine words: casts to the unsigned widths of the program, shifts, and two's complement.
-- `unsigned long` is 32 bits wide on the gateway's ARM processor.
use Prim.Native.Nat.{ℕ, ◌-◌, ◌*◌, ◌/◌, ◌%◌, ◌^◌}
use i_mx6ull_water_qualit.Base.Tests.{ltb, if◌then◌else◌}
use i_mx6ull_water_qualit.Base.Int.{ℤ, pos, negsuc}

abbrev pub u8 : ℕ → ℕ
u8 n = n % 2 ^ 8

abbrev pub u16 : ℕ → ℕ
u16 n = n % 2 ^ 16

abbrev pub u32 : ℕ → ℕ
u32 n = n % 2 ^ 32

abbrev pub shl : ℕ → ℕ → ℕ
shl x k = x * 2 ^ k

abbrev pub shr : ℕ → ℕ → ℕ
shr x k = x / 2 ^ k

-- `(signed short)w` for a 16-bit pattern `w`
abbrev pub signed16 : ℕ → ℤ
signed16 w = if ltb w (2 ^ 15) then pos w else negsuc (2 ^ 16 - w - 1)

-- ===== src/Base/Bits/Masks.antt =====
-- One bit of a word set or cleared by a mask, as arithmetic.
use Prim.Native.Nat.{ℕ, zero, suc, ◌+◌, ◌-◌, ◌*◌, ◌/◌, ◌%◌, ◌^◌, ◌<◌, bit_and, bit_or}
use mathlib.Core.Path.{◌≡◌, ap}
use native.Mathlib.Nat.{pow-suc}
use native.Mathlib.Omega.{arith}
use i_mx6ull_water_qualit.Base.Bits.Digit.{or_digit, and_digit}
use i_mx6ull_water_qualit.Base.Bits.Fields.{and-zero, or-zero}

-- `x & ~0` at any width
pub and_ones : (k a : ℕ) → a < 2 ^ k → bit_and a (2 ^ k - 1) ≡ a
and_ones zero zero h = and-zero 0
and_ones zero (suc a) h = absurd (omega arith)
and_ones (suc k) a h = omega (
  arith,
  pow-suc 2 k,
  and_digit a (2 ^ suc k - 1),
  ap (bit_and (a / 2)) {x = (2 ^ suc k - 1) / 2} {y = 2 ^ k - 1} (omega (arith, pow-suc 2 k)),
  and_ones k (a / 2) (omega (arith, pow-suc 2 k)),
)

-- `x | (1 << 3)`
pub set_bit_three : (a : ℕ) → bit_or a 8 ≡ a / 16 * 16 + 8 + a % 8
set_bit_three a = omega (
  arith,
  or_digit a 8,
  or_digit (a / 2) 4,
  or_digit (a / 2 / 2) 2,
  or_digit (a / 2 / 2 / 2) 1,
  or-zero (a / 2 / 2 / 2 / 2),
)

-- `x & ~(1 << 3)` of 32 bits
pub clear_bit_three : (a : ℕ) → a < 2 ^ 32 → bit_and a 0xFFFFFFF7 ≡ a / 16 * 16 + a % 8
clear_bit_three a h = omega (
  arith,
  and_digit a 0xFFFFFFF7,
  and_digit (a / 2) 0x7FFFFFFB,
  and_digit (a / 2 / 2) 0x3FFFFFFD,
  and_digit (a / 2 / 2 / 2) 0x1FFFFFFE,
  and_ones 28 (a / 2 / 2 / 2 / 2) (omega arith),
)

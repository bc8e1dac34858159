-- ===== src/Base/Bits/Fields.antt =====
-- `|` of fields that do not overlap, and `&` with a single low digit, as arithmetic.
use Prim.Native.Nat.{ℕ, zero, suc, ◌+◌, ◌*◌, ◌/◌, ◌%◌, ◌^◌, ◌≤◌, ◌<◌, bit_and, bit_or, max}
use mathlib.Core.Path.{◌≡◌, refl, sym, ap, ◌∙◌}
use native.Mathlib.Nat.{pow-suc, div-one, div-div-eq-div-mul}
use native.Mathlib.Omega.{arith}
use i_mx6ull_water_qualit.Base.Bits.Digit.{or_digit, and_digit}

or-zero_below : (n a : ℕ) → a ≤ n → bit_or a 0 ≡ a
or-zero_below n zero h = refl
or-zero_below zero (suc a) h = absurd (omega arith)
or-zero_below (suc n) (suc a) h =
    omega (arith, or_digit (suc a) 0, or-zero_below n (suc a / 2) (omega arith))

pub or-zero : (a : ℕ) → bit_or a 0 ≡ a
or-zero a = or-zero_below a a (omega arith)

and-zero_below : (n a : ℕ) → a ≤ n → bit_and a 0 ≡ 0
and-zero_below n zero h = refl
and-zero_below zero (suc a) h = absurd (omega arith)
and-zero_below (suc n) (suc a) h =
    omega (arith, and_digit (suc a) 0, and-zero_below n (suc a / 2) (omega arith))

pub and-zero : (a : ℕ) → bit_and a 0 ≡ 0
and-zero a = and-zero_below a a (omega arith)

-- `x & 1`
pub and_one : (a : ℕ) → bit_and a 1 ≡ a % 2
and_one a = omega (arith, and_digit a 1, and-zero (a / 2))

-- `(q << k) | r`
pub or_fields : (k q r : ℕ) → r < 2 ^ k → bit_or (q * 2 ^ k) r ≡ q * 2 ^ k + r
or_fields zero q zero h = omega (arith, or-zero (q * 2 ^ 0))
or_fields zero q (suc r) h = absurd (omega arith)
or_fields (suc k) q r h = ground (
  arith,
  pow-suc 2 k,
  or_digit (q * 2 ^ suc k) r,
  ap (λ (t : ℕ). q * t) (pow-suc 2 k),
  or_fields k q (r / 2),
)

and_nibble : (a : ℕ) → bit_and a 0x0F ≡ a % 2 ^ 4
and_nibble a =
    omega
      (arith, and_digit a 15, and_digit (a / 2) 7, and_digit (a / 2 / 2) 3, and_one (a / 2 / 2 / 2))

-- `x & 0xFF`
pub and_byte : (a : ℕ) → bit_and a 0xFF ≡ a % 2 ^ 8
and_byte a = omega (
  arith,
  and_digit a 255,
  and_digit (a / 2) 127,
  and_digit (a / 2 / 2) 63,
  and_digit (a / 2 / 2 / 2) 31,
  and_nibble (a / 2 / 2 / 2 / 2),
)

or_half : (a b : ℕ) → bit_or a b / 2 ≡ bit_or (a / 2) (b / 2)
or_half a b = omega (arith, or_digit a b)

half_first : (a k : ℕ) → a / 2 ^ suc k ≡ a / 2 / 2 ^ k
half_first a k = ap (λ t. a / t) (omega (arith, pow-suc 2 k)) ∙ sym (div-div-eq-div-mul a 2 (2 ^ k))

-- digit `k` of `a | b`
pub or_shift_digit : (k a b : ℕ) → bit_or a b / 2 ^ k % 2 ≡ max (a / 2 ^ k % 2) (b / 2 ^ k % 2)
or_shift_digit zero a b = ground (arith, div-one (bit_or a b), div-one a, div-one b, or_digit a b)
or_shift_digit (suc k) a b = ground (
  arith,
  half_first (bit_or a b) k,
  half_first a k,
  half_first b k,
  or_half a b,
  or_shift_digit k (a / 2) (b / 2),
)

-- ===== src/Base/Bits/Digit.antt =====
-- The native operations count digits as fuel; here the fuel is dropped.
use Prim.Native.Nat.{
  ℕ, zero, suc, ◌+◌, ◌*◌, ◌/◌, ◌%◌, ◌≤◌, ◌<◌, min, max, bit_and, bit_or, bit_xor, digits, differ,
  bit_and-bitwise, bit_or-bitwise, bit_xor-bitwise,
}
use mathlib.Core.Path.{◌≡◌, refl}
use native.Mathlib.Omega.{arith}

-- More digits to go than the number has change nothing.
module _ (end : ℕ → ℕ) (join : ℕ → ℕ → ℕ) where
  digits_enough : (k l a b : ℕ) → a ≤ k → a ≤ l → digits end join k a b ≡ digits end join l a b
  digits_enough zero zero a b p q = refl
  digits_enough zero (suc l) zero b p q = refl
  digits_enough zero (suc l) (suc a) b p q = absurd (omega arith)
  digits_enough (suc k) zero zero b p q = refl
  digits_enough (suc k) zero (suc a) b p q = absurd (omega arith)
  digits_enough (suc k) (suc l) zero b p q = refl
  digits_enough (suc k) (suc l) (suc a) b p q =
      rw (digits_enough k l (suc a / 2) (b / 2) (omega arith) (omega arith))

differ-eq-mod : (x y : ℕ) → x < 2 → y < 2 → differ x y ≡ (x + y) % 2
differ-eq-mod zero y p q = omega arith
differ-eq-mod (suc zero) zero p q = refl
differ-eq-mod (suc zero) (suc zero) p q = refl
differ-eq-mod (suc zero) (suc (suc y)) p q = absurd (omega arith)
differ-eq-mod (suc (suc x)) y p q = absurd (omega arith)

pub xor_digit : (a b : ℕ) → bit_xor a b ≡ bit_xor (a / 2) (b / 2) * 2 + (a + b) % 2
xor_digit zero b = simp bit_xor-bitwise (omega arith)
xor_digit (suc a) b = simp bit_xor-bitwise (
    omega (
      arith,
      digits_enough (λ y. y) differ a (suc a / 2) (suc a / 2) (b / 2) (omega arith) (omega arith),
      differ-eq-mod (suc a % 2) (b % 2) (omega arith) (omega arith),
    ))

pub or_digit : (a b : ℕ) → bit_or a b ≡ bit_or (a / 2) (b / 2) * 2 + max (a % 2) (b % 2)
or_digit zero b = simp bit_or-bitwise (omega arith)
or_digit (suc a) b = simp bit_or-bitwise (
    omega (
      arith,
      digits_enough (λ y. y) max a (suc a / 2) (suc a / 2) (b / 2) (omega arith) (omega arith),
    ))

pub and_digit : (a b : ℕ) → bit_and a b ≡ bit_and (a / 2) (b / 2) * 2 + min (a % 2) (b % 2)
and_digit zero b = simp bit_and-bitwise (omega arith)
and_digit (suc a) b = simp bit_and-bitwise (
    omega (
      arith,
      digits_enough (λ _. 0) min a (suc a / 2) (suc a / 2) (b / 2) (omega arith) (omega arith),
    ))

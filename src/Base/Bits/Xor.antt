-- ===== src/Base/Bits/Xor.antt =====
-- `^` is a commutative group in which every element is its own inverse, and it keeps a width.
use Prim.Native.Nat.{ℕ, zero, suc, ◌+◌, ◌*◌, ◌/◌, ◌%◌, ◌^◌, ◌≤◌, ◌<◌, bit_xor, bit_xor-bitwise}
use mathlib.Core.Path.{◌≡◌, refl, ap, sym, ◌∙◌}
use native.Mathlib.Nat.{pow-suc, div-one, div-div-eq-div-mul}
use native.Mathlib.Omega.{arith}
use i_mx6ull_water_qualit.Base.Bits.Digit.{xor_digit}

pub xor_half : (a b : ℕ) → bit_xor a b / 2 ≡ bit_xor (a / 2) (b / 2)
xor_half a b = omega (arith, xor_digit a b)

xor_parity : (a b : ℕ) → bit_xor a b % 2 ≡ (a + b) % 2
xor_parity a b = omega (arith, xor_digit a b)

pub zero-xor : (b : ℕ) → bit_xor 0 b ≡ b
zero-xor b = bit_xor-bitwise 0 b

xor-zero_below : (n a : ℕ) → a ≤ n → bit_xor a 0 ≡ a
xor-zero_below n zero h = refl
xor-zero_below zero (suc a) h = absurd (omega arith)
xor-zero_below (suc n) (suc a) h =
    omega (arith, xor_digit (suc a) 0, xor-zero_below n (suc a / 2) (omega arith))

pub xor-zero : (a : ℕ) → bit_xor a 0 ≡ a
xor-zero a = xor-zero_below a a (omega arith)

xor_comm_below : (n a b : ℕ) → a ≤ n → bit_xor a b ≡ bit_xor b a
xor_comm_below n zero b h = zero-xor b ∙ sym (xor-zero b)
xor_comm_below zero (suc a) b h = absurd (omega arith)
xor_comm_below (suc n) (suc a) b h = omega (
  arith,
  xor_digit (suc a) b,
  xor_digit b (suc a),
  xor_comm_below n (suc a / 2) (b / 2) (omega arith),
)

pub xor_comm : (a b : ℕ) → bit_xor a b ≡ bit_xor b a
xor_comm a b = xor_comm_below a a b (omega arith)

xor_assoc_below : (n a b c : ℕ) → a ≤ n → bit_xor (bit_xor a b) c ≡ bit_xor a (bit_xor b c)
xor_assoc_below n zero b c h = simp zero-xor
xor_assoc_below zero (suc a) b c h = absurd (omega arith)
xor_assoc_below (suc n) (suc a) b c h = ground (
  arith,
  xor_digit (bit_xor (suc a) b) c,
  xor_digit (suc a) (bit_xor b c),
  xor_half (suc a) b,
  xor_half b c,
  xor_parity (suc a) b,
  xor_parity b c,
  xor_assoc_below n (suc a / 2) (b / 2) (c / 2) (omega arith),
)

pub xor_assoc : (a b c : ℕ) → bit_xor (bit_xor a b) c ≡ bit_xor a (bit_xor b c)
xor_assoc a b c = xor_assoc_below a a b c (omega arith)

xor-self_below : (n a : ℕ) → a ≤ n → bit_xor a a ≡ 0
xor-self_below n zero h = refl
xor-self_below zero (suc a) h = absurd (omega arith)
xor-self_below (suc n) (suc a) h =
    omega (arith, xor_digit (suc a) (suc a), xor-self_below n (suc a / 2) (omega arith))

pub xor_self : (a : ℕ) → bit_xor a a ≡ 0
xor_self a = xor-self_below a a (omega arith)

pub xor_undo : (a b : ℕ) → bit_xor (bit_xor a b) b ≡ a
xor_undo a b = simp (xor_assoc, xor_self, xor-zero)

pub xor_cancel : (a b c : ℕ) → bit_xor a c ≡ bit_xor b c → a ≡ b
xor_cancel a b c e = sym (xor_undo a c) ∙ ap (λ x. bit_xor x c) e ∙ xor_undo b c

pub xor_cancel_left : (a b c : ℕ) → bit_xor c a ≡ bit_xor c b → a ≡ b
xor_cancel_left a b c e = xor_cancel a b c (xor_comm a c ∙ e ∙ xor_comm c b)

-- The exclusive or of two words of `k` digits has `k` digits.
pub xor-lt_pow : (k a b : ℕ) → a < 2 ^ k → b < 2 ^ k → bit_xor a b < 2 ^ k
xor-lt_pow zero zero zero p q = omega arith
xor-lt_pow zero zero (suc b) p q = absurd (omega arith)
xor-lt_pow zero (suc a) b p q = absurd (omega arith)
xor-lt_pow (suc k) a b p q = omega (
  arith,
  pow-suc 2 k,
  xor_digit a b,
  xor-lt_pow k (a / 2) (b / 2) (omega (arith, pow-suc 2 k)) (omega (arith, pow-suc 2 k)),
)

-- Fields that do not overlap are added by `^`.
pub xor_fields : (k q r : ℕ) → r < 2 ^ k → bit_xor r (q * 2 ^ k) ≡ q * 2 ^ k + r
xor_fields zero q zero h = omega (arith, zero-xor (q * 2 ^ 0))
xor_fields zero q (suc r) h = absurd (omega arith)
xor_fields (suc k) q r h = ground (
  arith,
  pow-suc 2 k,
  xor_digit r (q * 2 ^ suc k),
  ap (λ (t : ℕ). q * t) (pow-suc 2 k),
  xor_fields k q (r / 2),
)

half_first : (a k : ℕ) → a / 2 ^ suc k ≡ a / 2 / 2 ^ k
half_first a k = ap (λ t. a / t) (omega (arith, pow-suc 2 k)) ∙ sym (div-div-eq-div-mul a 2 (2 ^ k))

pub xor_shift : (k a b : ℕ) → bit_xor a b / 2 ^ k ≡ bit_xor (a / 2 ^ k) (b / 2 ^ k)
xor_shift zero a b = ground (arith, div-one (bit_xor a b), div-one a, div-one b)
xor_shift (suc k) a b = ground (
  arith,
  half_first (bit_xor a b) k,
  half_first a k,
  half_first b k,
  xor_half a b,
  xor_shift k (a / 2) (b / 2),
)

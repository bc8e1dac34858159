-- ===== src/Modbus/Crc/Rounds.antt =====
-- Lemmas on one round of the checksum.
use i_mx6ull_water_qualit.Base.{
  ℕ, zero, suc, ◌*◌, ◌/◌, ◌%◌, ◌^◌, ◌<◌, ◌≡◌, refl, ap, ◌∙◌, arith, bit_xor,
}
use i_mx6ull_water_qualit.Base.Bits.{
  and_one, xor_half, xor_digit, xor_comm, xor_assoc, xor_cancel, xor-lt_pow, xor_shift, zero-xor,
}
use native.Mathlib.Nat.{pow-suc}
use i_mx6ull_water_qualit.Modbus.Crc.{crc_polynomial, crc_round, crc_rounds}

crc_round_even : (c : ℕ) → c % 2 ≡ 0 → crc_round c ≡ c / 2
unfolding crc_round
crc_round_even c e = ground (arith, and_one c)

crc_round_odd : (c : ℕ) → c < 2 ^ 16 → c % 2 ≡ 1 → crc_round c ≡ bit_xor (c / 2) crc_polynomial
unfolding crc_round
crc_round_odd c h e =
    ground (arith, and_one c, xor-lt_pow 16 (c / 2) crc_polynomial (omega arith) (omega arith))

-- A round keeps 16 bits.
crc_round-lt : (c : ℕ) → c < 2 ^ 16 → crc_round c < 2 ^ 16
unfolding crc_round
crc_round-lt c h = ground arith

-- `0xA001` sets the top bit, so the two branches of a round have disjoint results.
top_bit : (x : ℕ) → x < 2 ^ 15 → bit_xor x crc_polynomial / 2 ^ 15 ≡ 1
top_bit x h = ground (arith, xor_shift 15 x crc_polynomial, zero-xor 1)

crc_round_injective : (c d : ℕ) → c < 2 ^ 16 → d < 2 ^ 16 → crc_round c ≡ crc_round d → c ≡ d
crc_round_injective c d hc hd e = ground (
  arith,
  crc_round_even c,
  crc_round_even d,
  crc_round_odd c,
  crc_round_odd d,
  top_bit (c / 2),
  top_bit (d / 2),
  xor_cancel (c / 2) (d / 2) crc_polynomial,
)

-- What is added above the lowest bit comes out one place lower.
crc_round-xor :
    (a c : ℕ) → a < 2 ^ 16 → c < 2 ^ 15 → crc_round (bit_xor a (2 * c)) ≡ bit_xor (crc_round a) c
crc_round-xor a c ha hc = ground (
  arith,
  xor_digit a (2 * c),
  xor_half a (2 * c),
  xor-lt_pow 16 a (2 * c),
  crc_round_even a,
  crc_round_odd a,
  crc_round_even (bit_xor a (2 * c)),
  crc_round_odd (bit_xor a (2 * c)),
  xor_assoc (a / 2) c crc_polynomial,
  xor_assoc (a / 2) crc_polynomial c,
  xor_comm c crc_polynomial,
)

pub crc_rounds-lt : (n c : ℕ) → c < 2 ^ 16 → crc_rounds n c < 2 ^ 16
unfolding crc_rounds
crc_rounds-lt zero c h = h
crc_rounds-lt (suc n) c h = crc_rounds-lt n (crc_round c) (crc_round-lt c h)

pub crc_rounds_injective :
    (n c d : ℕ) → c < 2 ^ 16 → d < 2 ^ 16 → crc_rounds n c ≡ crc_rounds n d → c ≡ d
unfolding crc_rounds
crc_rounds_injective zero c d hc hd e = e
crc_rounds_injective (suc n) c d hc hd e =
    crc_round_injective c d hc hd
      (crc_rounds_injective n (crc_round c) (crc_round d) (crc_round-lt c hc) (crc_round-lt d hd) e)

pub crc_rounds-zero : (n : ℕ) → crc_rounds n 0 ≡ 0
unfolding crc_rounds crc_round
crc_rounds-zero zero = refl
crc_rounds-zero (suc n) = crc_rounds-zero n

-- A word added `n` places up comes out unchanged after `n` rounds.
pub crc_rounds-xor :
    (n a c : ℕ)
    → a < 2 ^ 16
    → c * 2 ^ n < 2 ^ 16
    → crc_rounds n (bit_xor a (c * 2 ^ n)) ≡ bit_xor (crc_rounds n a) c
unfolding crc_rounds
crc_rounds-xor zero a c ha hc = ap (bit_xor a) (omega arith)
crc_rounds-xor (suc n) a c ha hc =
    ap (λ x. crc_rounds n (crc_round (bit_xor a x))) split
    ∙ ap (crc_rounds n) (crc_round-xor a (c * 2 ^ n) ha (omega (arith, split)))
    ∙ crc_rounds-xor n (crc_round a) c (crc_round-lt a ha) (omega (arith, split))
  where
    split : c * 2 ^ suc n ≡ 2 * (c * 2 ^ n)
    split = omega (arith, ap (λ (t : ℕ). c * t) (pow-suc 2 n))

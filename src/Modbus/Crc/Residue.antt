-- ===== src/Modbus/Crc/Residue.antt =====
-- Lemmas on what the checksum detects: residues, and errors in two bytes.
use i_mx6ull_water_qualit.Base.{
  ℕ, ◌+◌, ◌*◌, ◌^◌, ◌<◌, ◌≡◌, sym, ap, ◌∙◌, ◌↔◌, arith, List, [], ◌∷◌, ◌++◌, IsBytes, bit_xor,
}
use i_mx6ull_water_qualit.Base.Bits.{xor_assoc, xor_self, xor_cancel_left, xor-lt_pow, xor_fields}
use i_mx6ull_water_qualit.Modbus.Crc.{crc_rounds}
use i_mx6ull_water_qualit.Modbus.Crc.Rounds.{
  crc_rounds-lt, crc_rounds_injective, crc_rounds-zero, crc_rounds-xor,
}
use i_mx6ull_water_qualit.Modbus.Crc.Fold.{
  crc_bytes, crc_bytes-append, crc_bytes-lt, crc_bytes_injective,
}

-- Two bytes enter the checksum as one little-endian word.
crc_bytes_two :
    (s x y : ℕ)
    → s < 2 ^ 16
    → x < 2 ^ 8
    → y < 2 ^ 8
    → crc_bytes s (x ∷ y ∷ []) ≡ crc_rounds 8 (crc_rounds 8 (bit_xor s (y * 2 ^ 8 + x)))
crc_bytes_two s x y hs hx hy = ap (crc_rounds 8) (
    sym (crc_rounds-xor 8 (bit_xor s x) y (xor-lt_pow 16 s x hs (omega arith)) (omega arith))
    ∙ ap (crc_rounds 8) (xor_assoc s x (y * 2 ^ 8) ∙ ap (bit_xor s) (xor_fields 8 y x hx)))

two_rounds_injective :
    (c d : ℕ)
    → c < 2 ^ 16
    → d < 2 ^ 16
    → crc_rounds 8 (crc_rounds 8 c) ≡ crc_rounds 8 (crc_rounds 8 d)
    → c ≡ d
two_rounds_injective c d hc hd e =
    crc_rounds_injective 8 c d hc hd
      (crc_rounds_injective 8 _ _ (crc_rounds-lt 8 c hc) (crc_rounds-lt 8 d hd) e)

-- A frame that ends in its own checksum, low byte first, has checksum 0, and no other end has.
pub crc_bytes_residue :
    (c : ℕ) (xs : List ℕ) (lo hi : ℕ)
    → c < 2 ^ 16
    → IsBytes xs
    → lo < 2 ^ 8
    → hi < 2 ^ 8
    → (crc_bytes c (xs ++ lo ∷ hi ∷ []) ≡ 0) ↔ (hi * 2 ^ 8 + lo ≡ crc_bytes c xs)
crc_bytes_residue c xs lo hi hc bs hlo hhi = (
  λ e. xor_cancel_left (hi * 2 ^ 8 + lo) s s (zero_word (sym whole ∙ e) ∙ sym (xor_self s)),
  λ e.
      whole
      ∙ ap (λ w. crc_rounds 8 (crc_rounds 8 (bit_xor s w))) e
      ∙ ap (λ w. crc_rounds 8 (crc_rounds 8 w)) (xor_self s)
      ∙ zeros,
)
  where
    s : ℕ
    s = crc_bytes c xs

    small : s < 2 ^ 16
    small = crc_bytes-lt c xs hc bs

    whole :
        crc_bytes c (xs ++ lo ∷ hi ∷ []) ≡ crc_rounds 8 (crc_rounds 8 (bit_xor s (hi * 2 ^ 8 + lo)))
    whole = crc_bytes-append c xs (lo ∷ hi ∷ []) ∙ crc_bytes_two s lo hi small hlo hhi

    zeros : crc_rounds 8 (crc_rounds 8 0) ≡ 0
    zeros = ap (crc_rounds 8) (crc_rounds-zero 8) ∙ crc_rounds-zero 8

    zero_word :
        crc_rounds 8 (crc_rounds 8 (bit_xor s (hi * 2 ^ 8 + lo))) ≡ 0
        → bit_xor s (hi * 2 ^ 8 + lo) ≡ 0
    zero_word e =
        two_rounds_injective _ 0 (xor-lt_pow 16 s (hi * 2 ^ 8 + lo) small (omega arith))
          (omega arith) (e ∙ sym zeros)

-- Frames that differ in two neighbouring bytes at most have different checksums.
pub crc_bytes_burst :
    (c : ℕ) (before after : List ℕ) (x y x' y' : ℕ)
    → c < 2 ^ 16
    → IsBytes before
    → IsBytes after
    → IsBytes (x ∷ y ∷ x' ∷ y' ∷ [])
    → crc_bytes c (before ++ x ∷ y ∷ after) ≡ crc_bytes c (before ++ x' ∷ y' ∷ after)
    → (x ≡ x') × (y ≡ y')
crc_bytes_burst c before after x y x' y' hc hb ha hs e = omega (
  arith,
  xor_cancel_left (y * 2 ^ 8 + x) (y' * 2 ^ 8 + x') s (
      two_rounds_injective _ _ (xor-lt_pow 16 s (y * 2 ^ 8 + x) small (omega arith))
        (xor-lt_pow 16 s (y' * 2 ^ 8 + x') small (omega arith))
        (sym (crc_bytes_two s x y small hs.0 hs.1.0)
          ∙ crc_bytes_injective _ _ after (short x y hs.0 hs.1.0) (short x' y' hs.1.1.0 hs.1.1.1.0)
              ha
              (sym (crc_bytes-append c before (x ∷ y ∷ after))
                ∙ e
                ∙ crc_bytes-append c before (x' ∷ y' ∷ after))
          ∙ crc_bytes_two s x' y' small hs.1.1.0 hs.1.1.1.0)),
)
  where
    s : ℕ
    s = crc_bytes c before

    small : s < 2 ^ 16
    small = crc_bytes-lt c before hc hb

    short : (a b : ℕ) → a < 2 ^ 8 → b < 2 ^ 8 → crc_bytes s (a ∷ b ∷ []) < 2 ^ 16
    short a b p q = crc_bytes-lt s (a ∷ b ∷ []) small (p, (q, tt))

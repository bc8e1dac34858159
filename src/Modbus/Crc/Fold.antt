-- ===== src/Modbus/Crc/Fold.antt =====
-- The loop of `modbus_crc16` as a fold over the bytes of the buffer.
use i_mx6ull_water_qualit.Base.{
  ℕ, zero, suc, ◌+◌, ◌^◌, ◌≤◌, ◌<◌, ◌≡◌, refl, ap, ◌∙◌, arith, List, [], ◌∷◌, ◌++◌, some, done,
  load-eq-done, length, take, drop, drop_step, get_or, IsBytes, bit_xor,
}
use i_mx6ull_water_qualit.Base.Int.{pos}
use i_mx6ull_water_qualit.Base.Bits.{xor-lt_pow, xor_cancel}
use i_mx6ull_water_qualit.Modbus.Crc.{crc_start, crc_rounds, crc_loop, crc16}
use i_mx6ull_water_qualit.Modbus.Crc.Rounds.{crc_rounds-lt, crc_rounds_injective}

abbrev pub crc_bytes : ℕ → List ℕ → ℕ
crc_bytes crc [] = crc
crc_bytes crc (b ∷ bs) = crc_bytes (crc_rounds 8 (bit_xor crc b)) bs

take-drop_step :
    (buf : List ℕ) (left i : ℕ)
    → i < length buf
    → take (suc left) (drop i buf) ≡ get_or buf i 0 ∷ take left (drop (i + 1) buf)
take-drop_step buf left i h =
    ap (take (suc left)) (drop_step buf i 0 h)
    ∙ ap (λ k. get_or buf i 0 ∷ take left (drop k buf)) {x = suc i} (omega arith)

crc_loop-eq-crc_bytes :
    (buf : List ℕ) (left i crc : ℕ)
    → i + left ≤ length buf
    → crc_loop buf left i crc ≡ done (crc_bytes crc (take left (drop i buf)))
unfolding crc_loop
crc_loop-eq-crc_bytes buf zero i crc h = refl
crc_loop-eq-crc_bytes buf (suc left) i crc h =
    rw (load-eq-done buf i 0 (omega arith), take-drop_step buf left i (omega arith))
      (crc_loop-eq-crc_bytes buf left (i + 1) (crc_rounds 8 (bit_xor crc (get_or buf i 0)))
        (omega arith))

pub crc16-eq-crc_bytes :
    (buf : List ℕ) (n : ℕ)
    → 0 < n
    → n ≤ length buf
    → crc16 (some buf) (pos n) ≡ done (crc_bytes crc_start (take n buf))
unfolding crc16
crc16-eq-crc_bytes buf zero h k = absurd (omega arith)
crc16-eq-crc_bytes buf (suc n) h k = crc_loop-eq-crc_bytes buf (suc n) 0 crc_start (omega arith)

pub crc_bytes-append :
    (crc : ℕ) (xs ys : List ℕ) → crc_bytes crc (xs ++ ys) ≡ crc_bytes (crc_bytes crc xs) ys
crc_bytes-append crc [] ys = refl
crc_bytes-append crc (x ∷ xs) ys = crc_bytes-append (crc_rounds 8 (bit_xor crc x)) xs ys

crc_byte-lt : (crc b : ℕ) → crc < 2 ^ 16 → b < 2 ^ 8 → crc_rounds 8 (bit_xor crc b) < 2 ^ 16
crc_byte-lt crc b hc hb = crc_rounds-lt 8 _ (xor-lt_pow 16 crc b hc (omega arith))

pub crc_bytes-lt : (crc : ℕ) (xs : List ℕ) → crc < 2 ^ 16 → IsBytes xs → crc_bytes crc xs < 2 ^ 16
crc_bytes-lt crc [] h bs = h
crc_bytes-lt crc (x ∷ xs) h bs =
    crc_bytes-lt (crc_rounds 8 (bit_xor crc x)) xs (crc_byte-lt crc x h bs.0) bs.1

-- Over the same bytes different words stay different.
pub crc_bytes_injective :
    (c d : ℕ) (xs : List ℕ)
    → c < 2 ^ 16
    → d < 2 ^ 16
    → IsBytes xs
    → crc_bytes c xs ≡ crc_bytes d xs
    → c ≡ d
crc_bytes_injective c d [] hc hd bs e = e
crc_bytes_injective c d (x ∷ xs) hc hd bs e = xor_cancel c d x (
    crc_rounds_injective 8 _ _ (xor-lt_pow 16 c x hc (omega arith))
      (xor-lt_pow 16 d x hd (omega arith))
      (crc_bytes_injective (crc_rounds 8 (bit_xor c x)) (crc_rounds 8 (bit_xor d x)) xs
        (crc_byte-lt c x hc bs.0) (crc_byte-lt d x hd bs.0) bs.1 e))

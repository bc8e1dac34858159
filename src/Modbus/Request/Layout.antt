-- ===== src/Modbus/Request/Layout.antt =====
-- The frame that `modbus_build_read_request` writes, and when it refuses to.
use i_mx6ull_water_qualit.Base.{
  ℕ, ◌/◌, ◌%◌, ◌^◌, ◌≤◌, ◌<◌, ◌≡◌, ◌⊎◌, arith, List, [], ◌∷◌, ◌++◌, some, done, length, drop,
  IsBytes, bit_and, u8, shr,
}
use i_mx6ull_water_qualit.Base.Int.{pos}
use i_mx6ull_water_qualit.Base.Bits.{and_byte}
use i_mx6ull_water_qualit.Modbus.{refused, func_read_holding, max_registers}
use i_mx6ull_water_qualit.Modbus.Crc.{crc_start}
use i_mx6ull_water_qualit.Modbus.Crc.Fold.{crc_bytes, crc_bytes-lt, crc16-eq-crc_bytes}
use i_mx6ull_water_qualit.Modbus.Crc.Residue.{crc_bytes_residue}
use i_mx6ull_water_qualit.Modbus.Request.{write_request, build_read_request}

-- slave, function, start address and quantity, the high bytes first
abbrev request_header : ℕ → ℕ → ℕ → List ℕ
request_header slave start quantity =
    slave
    ∷ func_read_holding
    ∷ start / 2 ^ 8
    ∷ start % 2 ^ 8
    ∷ quantity / 2 ^ 8
    ∷ quantity % 2 ^ 8
    ∷ []

-- the checksum of the header behind it, its low byte first
abbrev pub request_frame : ℕ → ℕ → ℕ → List ℕ
request_frame slave start quantity =
    let crc = crc_bytes crc_start (request_header slave start quantity) in
    request_header slave start quantity ++ crc % 2 ^ 8 ∷ crc / 2 ^ 8 ∷ []

high_byte : (w : ℕ) → w < 2 ^ 16 → u8 (shr w 8) ≡ w / 2 ^ 8
high_byte w h = omega arith

low_byte : (w : ℕ) → u8 (bit_and w 0xFF) ≡ w % 2 ^ 8
low_byte w = omega (arith, and_byte w)

module _ (slave start quantity : ℕ) (hs : slave < 2 ^ 8) (ha : start < 2 ^ 16)
    (hq : quantity < 2 ^ 16) where
  header-IsBytes : IsBytes (request_header slave start quantity)
  header-IsBytes = omega arith

  crc_small : crc_bytes crc_start (request_header slave start quantity) < 2 ^ 16
  crc_small =
      crc_bytes-lt crc_start (request_header slave start quantity) (omega arith) header-IsBytes

  write_request_lem :
      (buf : List ℕ)
      → 8 ≤ length buf
      → write_request slave start quantity buf
        ≡ done (pos 8, some (request_frame slave start quantity ++ drop 8 buf))
  unfolding write_request
  write_request_lem (b0 ∷ b1 ∷ b2 ∷ b3 ∷ b4 ∷ b5 ∷ b6 ∷ b7 ∷ rest) h = rw (
    high_byte start ha,
    low_byte start,
    high_byte quantity hq,
    low_byte quantity,
    crc16-eq-crc_bytes (request_header slave start quantity ++ b6 ∷ b7 ∷ rest) 6 (omega arith)
        (omega arith),
    low_byte crc,
    high_byte crc crc_small,
  )
    where
      crc : ℕ
      crc = crc_bytes crc_start (request_header slave start quantity)
  write_request_lem _ h = absurd (omega arith)

-- The request in the first 8 bytes of the buffer is the header with its checksum, big-endian in
-- the header, and the bytes behind it are kept. This happens exactly for 1 to 125 registers and
-- a buffer that is said to hold 8 bytes; in every other case the result is -1 and the buffer is
-- left alone. The whole request has checksum 0.
pub build_read_request_exact :
    (slave start quantity size : ℕ) (buf : List ℕ)
    → slave < 2 ^ 8
    → start < 2 ^ 16
    → size ≤ length buf
    → let result = build_read_request slave start quantity (some buf) (pos size) in
      let frame = request_frame slave start quantity in
      ((1 ≤ quantity)
        × (quantity ≤ max_registers)
        × (8 ≤ size)
        × (result ≡ done (pos 8, some (frame ++ drop 8 buf)))
        × (crc_bytes crc_start frame ≡ 0))
      ⊎ (((quantity ≡ 0) ⊎ ((max_registers < quantity) ⊎ (size < 8)))
          × (result ≡ done (refused (some buf))))
unfolding build_read_request
build_read_request_exact slave start quantity size buf hs ha fits = ground (
  arith,
  λ (hq : quantity < 2 ^ 16) (h : 8 ≤ length buf).
      write_request_lem slave start quantity hs ha hq buf h,
  residue,
)
  where
    residue : quantity < 2 ^ 16 → crc_bytes crc_start (request_frame slave start quantity) ≡ 0
    residue hq =
        (crc_bytes_residue crc_start (request_header slave start quantity) _ _ (omega arith)
            (header-IsBytes slave start quantity hs ha hq) (omega arith)
            (omega (arith, crc_small slave start quantity hs ha hq))).1
          (omega arith)

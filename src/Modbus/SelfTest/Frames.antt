-- ===== src/Modbus/SelfTest/Frames.antt =====
-- The sensor tests of answers that are wrong.
use i_mx6ull_water_qualit.Base.{
  ℕ, ◌≤◌, ◌<◌, ◌^◌, ◌≡◌, refl, ap, ◌∙◌, arith, inl, inr, List, some, done, get_or, set, take,
  length-set, get_or-set_self, get_or-set_ne, store-eq-done, All-set, u8, shr, bit_and,
}
use i_mx6ull_water_qualit.Base.Int.{pos}
use i_mx6ull_water_qualit.Modbus.{refused}
use i_mx6ull_water_qualit.Modbus.Crc.{crc_start}
use i_mx6ull_water_qualit.Modbus.Crc.Fold.{crc_bytes, crc16-eq-crc_bytes}
use i_mx6ull_water_qualit.Modbus.Response.{parse_response}
use i_mx6ull_water_qualit.Modbus.Response.Exact.{Accepts, parse_response_exact}
use i_mx6ull_water_qualit.Modbus.SelfTest.{check_refused, test_exception, test_short_frame}
use i_mx6ull_water_qualit.Modbus.SelfTest.Ready.{IsReady, Passes}

pub not_parsed :
    (buf values : List ℕ) (len : ℕ)
    → IsReady buf values
    → len ≤ 256
    → ¬ Accepts buf len
    → parse_response (some buf) (pos len) (some values) (pos 16) ≡ done (refused (some values))
not_parsed buf values len ready h wrong =
    elim (parse_response_exact buf values len 16 ready.bytes (omega (arith, ready.buf_size))
      (omega (arith, ready.values_size)) (omega arith)) [
        | inl (accepted, _) ↦ absurd (wrong accepted)
        | inr (_, e) ↦ e
      ]

-- one byte stored
pub stored :
    (buf values : List ℕ) (i v : ℕ) → IsReady buf values → v < 2 ^ 8 → IsReady (set buf i v) values
stored buf values i v ready h = record {
  buf_size = length-set buf i v ∙ ready.buf_size;
  bytes = All-set (λ b. b < 2 ^ 8) buf i v ready.bytes h;
  values_size = ready.values_size;
}

pub refused_pass :
    (buf values : List ℕ)
    → check_refused buf values (refused (some values))
      ≡ record { pass = 1; fail = 0; buf = buf; values = values }
unfolding check_refused
refused_pass buf values = refl

pub test_short_frame-Passes :
    (buf values : List ℕ) → IsReady buf values → Passes 1 (test_short_frame buf values)
unfolding test_short_frame
test_short_frame-Passes buf values ready = record {
  buf = b4;
  values = values;
  returns =
      rw
        (
          store-eq-done buf 0 0x01 (omega (arith, ready.buf_size)),
          store-eq-done b1 1 0x03 (omega (arith, r1.buf_size)),
          store-eq-done b2 2 0x0E (omega (arith, r2.buf_size)),
          store-eq-done b3 3 0x02 (omega (arith, r3.buf_size)),
          not_parsed b4 values 4 r4 (omega arith) (λ a. omega (arith, a.sized)),
        )
        (ap done (refused_pass b4 values));
  ready = r4;
}
  where
    b1 : List ℕ
    b1 = set buf 0 0x01

    b2 : List ℕ
    b2 = set b1 1 0x03

    b3 : List ℕ
    b3 = set b2 2 0x0E

    b4 : List ℕ
    b4 = set b3 3 0x02

    r1 : IsReady b1 values
    r1 = stored buf values 0 0x01 ready (omega arith)

    r2 : IsReady b2 values
    r2 = stored b1 values 1 0x03 r1 (omega arith)

    r3 : IsReady b3 values
    r3 = stored b2 values 2 0x0E r2 (omega arith)

    r4 : IsReady b4 values
    r4 = stored b3 values 3 0x02 r3 (omega arith)

pub test_exception-Passes :
    (buf values : List ℕ) → IsReady buf values → Passes 1 (test_exception buf values)
unfolding test_exception
test_exception-Passes buf values ready = record {
  buf = b5;
  values = values;
  returns =
      rw
        (
          store-eq-done buf 0 0x01 (omega (arith, ready.buf_size)),
          store-eq-done b1 1 0x83 (omega (arith, r1.buf_size)),
          store-eq-done b2 2 0x02 (omega (arith, r2.buf_size)),
          crc16-eq-crc_bytes b3 3 (omega arith) (omega (arith, r3.buf_size)),
          store-eq-done b3 3 (u8 (bit_and crc 0xFF)) (omega (arith, r3.buf_size)),
          store-eq-done b4 4 (u8 (shr crc 8)) (omega (arith, r4.buf_size)),
          not_parsed b5 values 5 r5 (omega arith) (λ a. omega (arith, a.function, function)),
        )
        (ap done (refused_pass b5 values));
  ready = r5;
}
  where
    b1 : List ℕ
    b1 = set buf 0 0x01

    b2 : List ℕ
    b2 = set b1 1 0x83

    b3 : List ℕ
    b3 = set b2 2 0x02

    crc : ℕ
    crc = crc_bytes crc_start (take 3 b3)

    b4 : List ℕ
    b4 = set b3 3 (u8 (bit_and crc 0xFF))

    b5 : List ℕ
    b5 = set b4 4 (u8 (shr crc 8))

    r1 : IsReady b1 values
    r1 = stored buf values 0 0x01 ready (omega arith)

    r2 : IsReady b2 values
    r2 = stored b1 values 1 0x83 r1 (omega arith)

    r3 : IsReady b3 values
    r3 = stored b2 values 2 0x02 r2 (omega arith)

    r4 : IsReady b4 values
    r4 = stored b3 values 3 (u8 (bit_and crc 0xFF)) r3 (omega arith)

    r5 : IsReady b5 values
    r5 = stored b4 values 4 (u8 (shr crc 8)) r4 (omega arith)

    function : get_or b5 1 0 ≡ 0x83
    function =
        get_or-set_ne b4 4 1 (u8 (shr crc 8)) 0 (omega arith)
        ∙ get_or-set_ne b3 3 1 (u8 (bit_and crc 0xFF)) 0 (omega arith)
        ∙ get_or-set_ne b2 2 1 0x02 0 (omega arith)
        ∙ get_or-set_self b1 1 0x83 0 (omega (arith, r1.buf_size))

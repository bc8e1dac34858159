-- ===== src/Modbus/Answer/RoundTrip.antt =====
-- `modbus_parse_response` after `build_test_response`.
use Prim.Native.Nat.{min}
use mathlib.Core.Path.{subst}
use i_mx6ull_water_qualit.Base.{
  ℕ, ◌+◌, ◌*◌, ◌/◌, ◌%◌, ◌^◌, ◌≤◌, ◌<◌, ◌≡◌, refl, ap, ◌∙◌, inl, inr, arith, List, some, Run, done,
  store-eq-done, length, length-set, get_or, get_or-set_self, get_or-set_ne, set, take, IsBytes,
  IsWords, All-set, bit_and, shr, u8,
}
use i_mx6ull_water_qualit.Base.Int.{pos}
use i_mx6ull_water_qualit.Base.Bits.{and_byte}
use i_mx6ull_water_qualit.Modbus.{func_read_holding}
use i_mx6ull_water_qualit.Modbus.Crc.{crc_start}
use i_mx6ull_water_qualit.Modbus.Crc.Fold.{crc_bytes, crc16-eq-crc_bytes}
use i_mx6ull_water_qualit.Modbus.Answer.{put_registers, build_test_response}
use i_mx6ull_water_qualit.Modbus.Answer.Seal.{
  seal, crc_small, seal-IsBytes, length-seal, seal_before, seal-Accepts,
}
use i_mx6ull_water_qualit.Modbus.Answer.Write.{Written, put_registers-Written}
use i_mx6ull_water_qualit.Modbus.Response.{parse_response}
use i_mx6ull_water_qualit.Modbus.Response.Copy.{register_at}
use i_mx6ull_water_qualit.Modbus.Response.Exact.{Accepts, parse_response_exact}

-- slave address, function and byte count in place
abbrev header : List ℕ → ℕ → List ℕ
header buf count = set (set (set buf 0 1) 1 func_read_holding) 2 (count * 2)

-- What the builder returns: a frame of bytes that the parser accepts and that holds the registers.
pub record Answers (buf regs : List ℕ) (count : ℕ) (result : Run (List ℕ × ℕ)) : Type 0 where
  pub frame : List ℕ
  pub returns : result ≡ done (frame, 5 + count * 2)
  pub fits : 5 + count * 2 ≤ length frame
  pub bytes : IsBytes frame
  pub same_length : length frame ≡ length buf
  pub slave : get_or frame 0 0 ≡ 1
  pub accepts : Accepts frame (5 + count * 2)
  pub counted : get_or frame 2 0 / 2 ≡ count
  pub registers : (j : ℕ) → j < count → register_at frame j ≡ get_or regs j 0

module _ (buf regs : List ℕ) (count : ℕ) (words : IsWords regs) (bytes : IsBytes buf)
    (there : count ≤ length regs) (small : count * 2 < 2 ^ 8)
    (room : 5 + count * 2 ≤ length buf) where
  length-header : length (header buf count) ≡ length buf
  length-header =
      length-set (set (set buf 0 1) 1 func_read_holding) 2 (count * 2)
      ∙ length-set (set buf 0 1) 1 func_read_holding
      ∙ length-set buf 0 1

  header-IsBytes : IsBytes (header buf count)
  header-IsBytes =
      All-set (λ b. b < 2 ^ 8) (set (set buf 0 1) 1 func_read_holding) 2 (count * 2)
        (All-set (λ b. b < 2 ^ 8) (set buf 0 1) 1 func_read_holding
          (All-set (λ b. b < 2 ^ 8) buf 0 1 bytes (omega arith)) (omega arith))
        small

  written : Written regs (header buf count) 0 count (put_registers regs count 0 (header buf count))
  written =
      put_registers-Written regs words (header buf count) count 0 count (omega arith) there
        (omega (arith, length-header)) header-IsBytes

  written_slave : get_or written.out 0 0 ≡ 1
  written_slave =
      written.kept 0 (omega arith)
      ∙ get_or-set_ne (set (set buf 0 1) 1 func_read_holding) 2 0 (count * 2) 0 (omega arith)
      ∙ get_or-set_ne (set buf 0 1) 1 0 func_read_holding 0 (omega arith)
      ∙ get_or-set_self buf 0 1 0 (omega arith)

  written_function : get_or written.out 1 0 ≡ func_read_holding
  written_function =
      written.kept 1 (omega arith)
      ∙ get_or-set_ne (set (set buf 0 1) 1 func_read_holding) 2 1 (count * 2) 0 (omega arith)
      ∙ get_or-set_self (set buf 0 1) 1 func_read_holding 0 (omega (arith, length-set buf 0 1))

  written_count : get_or written.out 2 0 ≡ count * 2
  written_count =
      written.kept 2 (omega arith)
      ∙ get_or-set_self (set (set buf 0 1) 1 func_read_holding) 2 (count * 2) 0
          (omega (arith, length-set (set buf 0 1) 1 func_read_holding, length-set buf 0 1))

  sealed : (k : ℕ) → k ≡ 3 + count * 2 → 2 + k ≤ length written.out
  sealed k e = omega (arith, written.same_length, length-header)

  build_returns :
      build_test_response buf regs count ≡ done (seal written.out (3 + count * 2), 5 + count * 2)
  unfolding build_test_response
  build_returns = rw (
    store-eq-done buf 0 1 (omega arith),
    store-eq-done (set buf 0 1) 1 func_read_holding (omega (arith, length-set buf 0 1)),
    cut_count,
    store-eq-done (set (set buf 0 1) 1 func_read_holding) 2 (count * 2)
        (omega (arith, length-set (set buf 0 1) 1 func_read_holding, length-set buf 0 1)),
    written.returns,
    crc16-eq-crc_bytes written.out k (omega arith) (omega (arith, sealed k refl)),
    cut_low,
    cut_high,
    store-eq-done written.out k (crc % 2 ^ 8) (omega (arith, sealed k refl)),
    behind,
    store-eq-done (set written.out k (crc % 2 ^ 8)) (k + 1) (crc / 2 ^ 8)
        (omega (arith, length-set written.out k (crc % 2 ^ 8), sealed k refl)),
  )
    where
      k : ℕ
      k = 3 + count * 2

      crc : ℕ
      crc = crc_bytes crc_start (take (3 + count * 2) written.out)

      cut_count : u8 (count * 2) ≡ count * 2
      cut_count = omega arith

      cut_low : u8 (bit_and crc 0xFF) ≡ crc % 2 ^ 8
      cut_low = omega (arith, and_byte crc)

      cut_high : u8 (shr crc 8) ≡ crc / 2 ^ 8
      cut_high = omega (arith, crc_small written.out k written.bytes (sealed k refl))

      behind : 4 + count * 2 ≡ 3 + count * 2 + 1
      behind = omega arith

  pub build-Answers : Answers buf regs count (build_test_response buf regs count)
  build-Answers = record {
    frame = seal written.out k;
    returns = build_returns;
    fits = omega (arith, length-seal written.out k written.bytes long, long);
    bytes = seal-IsBytes written.out k written.bytes long;
    same_length =
        length-seal written.out k written.bytes long ∙ written.same_length ∙ length-header;
    slave = seal_before written.out k written.bytes long 0 (omega arith) ∙ written_slave;
    accepts = subst (Accepts (seal written.out k)) {x = k + 2} (omega arith) (
        seal-Accepts written.out k written.bytes long written_function
          (omega (arith, written_count)));
    counted =
        omega (arith, seal_before written.out k written.bytes long 2 (omega arith), written_count);
    registers = λ j h. omega (
      arith,
      seal_before written.out k written.bytes long (3 + j * 2) (omega arith),
      seal_before written.out k written.bytes long (4 + j * 2) (omega arith),
      written.high j (omega arith) h,
      written.low j (omega arith) h,
    );
  }
    where
      k : ℕ
      k = 3 + count * 2

      long : 2 + (3 + count * 2) ≤ length written.out
      long = sealed k refl

-- A normal answer with up to 127 registers, built in a buffer with room for it, is parsed again:
-- the parser returns as many registers as the answer has, cut at `max_values`, and stores their
-- values, for every array with room for `max_values` registers, at least one.
pub parse_response-build_test_response :
    (buf regs values : List ℕ) (count max_values : ℕ)
    → IsBytes buf
    → IsWords regs
    → count ≤ length regs
    → count * 2 < 2 ^ 8
    → 5 + count * 2 ≤ length buf
    → max_values ≤ length values
    → 0 < max_values
    → (frame out : List ℕ) × (build_test_response buf regs count ≡ done (frame, 5 + count * 2))
      × (parse_response (some frame) (pos (5 + count * 2)) (some values) (pos max_values)
          ≡ done (pos (min count max_values), some out))
      × ((j : ℕ) → j < min count max_values → get_or out j 0 ≡ get_or regs j 0)
parse_response-build_test_response buf regs values count max_values bytes words there small room
      fits some_room =
    elim (parse_response_exact a.frame values (5 + count * 2) max_values a.bytes a.fits fits
      some_room) [
        | inl (_, p) ↦ (
          a.frame,
          p.out,
          a.returns,
          p.returns ∙ ap (λ n. done (pos (min n max_values), some p.out)) a.counted,
          λ j h. p.copied j (omega (arith, a.counted)) ∙ a.registers j (omega arith),
        )
        | inr (n, _) ↦ absurd (n a.accepts)
      ]
  where
    a : Answers buf regs count (build_test_response buf regs count)
    a = build-Answers buf regs count words bytes there small room

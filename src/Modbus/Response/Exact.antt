-- ===== src/Modbus/Response/Exact.antt =====
-- Which answers `modbus_parse_response` accepts.
use Prim.Native.Nat.{min}
use native.Mathlib.Decide.{ℕ_discrete}
use i_mx6ull_water_qualit.Base.{
  ℕ, ◌+◌, ◌-◌, ◌*◌, ◌/◌, ◌^◌, ◌≤◌, ◌<◌, ◌≡◌, refl, arith, List, some, Run, done, load-eq-done,
  length, get_or, take, IsBytes, All-get_or, ◌==◌, ◌&&◌, ltb, ◌⊎◌, inl, inr, bit_and, if◌then◌else◌,
}
use i_mx6ull_water_qualit.Base.Int.{pos}
use i_mx6ull_water_qualit.Modbus.{Output, refused, func_read_holding}
use i_mx6ull_water_qualit.Modbus.Crc.{crc_start}
use i_mx6ull_water_qualit.Modbus.Crc.Fold.{crc_bytes, crc16-eq-crc_bytes}
use i_mx6ull_water_qualit.Modbus.Response.{
  copy_registers, take_registers, check_crc, parse_frame, parse_response,
}
use i_mx6ull_water_qualit.Modbus.Response.Copy.{
  Copied, join_bytes_lem, register_at, copy_registers-Copied,
}

-- The first `len` bytes of `buf` are a normal answer: function 3, the byte count that the length
-- calls for, and the checksum of what stands before it, low byte first.
pub record Accepts (buf : List ℕ) (len : ℕ) : Type 0 where
  pub function : get_or buf 1 0 ≡ func_read_holding
  pub sized : len ≡ get_or buf 2 0 + 5
  pub checked :
      get_or buf (len - 1) 0 * 2 ^ 8 + get_or buf (len - 2) 0
      ≡ crc_bytes crc_start (take (len - 2) buf)

-- how many registers an answer of that size gives to an array of `max_values`
abbrev pub register_count : List ℕ → ℕ → ℕ
register_count buf max_values = min (get_or buf 2 0 / 2) max_values

-- `result` returns `n` and has written the first `n` registers of `buf` over `values`.
pub record Parsed (buf values : List ℕ) (n : ℕ) (result : Run Output) : Type 0 where
  pub out : List ℕ
  pub returns : result ≡ done (pos n, some out)
  pub same_length : length out ≡ length values
  pub copied : (j : ℕ) → j < n → get_or out j 0 ≡ register_at buf j
  pub kept : (j : ℕ) → n ≤ j → get_or out j 0 ≡ get_or values j 0

not_exception : (func : ℕ) → func ≡ func_read_holding → bit_and func 0x80 ≡ 0
not_exception func e = rw e refl

module _ (buf values : List ℕ) (len max_values : ℕ) (bytes : IsBytes buf) (fits : len ≤ length buf)
    (room : max_values ≤ length values) where
  byte_small : (i : ℕ) → i < len → get_or buf i 0 < 2 ^ 8
  byte_small i h = All-get_or (λ b. b < 2 ^ 8) buf i 0 bytes (omega arith)

  check_crc_lem :
      5 ≤ len
      → check_crc buf len (get_or buf 2 0) values max_values ≡ (
          if get_or buf (len - 1) 0 * 2 ^ 8 + get_or buf (len - 2) 0
            == crc_bytes crc_start (take (len - 2) buf)
          then take_registers buf (get_or buf 2 0) values max_values
          else done (refused (some values)))
  unfolding check_crc
  check_crc_lem long =
      rw
        (
          crc16-eq-crc_bytes buf (len - 2) (omega arith) (omega arith),
          load-eq-done buf (len - 1) 0 (omega arith),
          load-eq-done buf (len - 2) 0 (omega arith),
          join_bytes_lem (get_or buf (len - 1) 0) (get_or buf (len - 2) 0)
              (byte_small (len - 1) (omega arith)) (byte_small (len - 2) (omega arith)),
        )
        (ground arith)

  parse_frame_lem :
      5 ≤ len
      → parse_frame buf len values max_values ≡ (
          if get_or buf 1 0 == func_read_holding && len == get_or buf 2 0 + 5
          then check_crc buf len (get_or buf 2 0) values max_values
          else done (refused (some values)))
  unfolding parse_frame
  parse_frame_lem long =
      rw (load-eq-done buf 1 0 (omega arith), load-eq-done buf 2 0 (omega arith))
        (ground (arith, not_exception (get_or buf 1 0)))

  parse_response_lem :
      0 < max_values
      → 5 ≤ len
      → parse_response (some buf) (pos len) (some values) (pos max_values)
        ≡ parse_frame buf len values max_values
  unfolding parse_response
  parse_response_lem some_room long = ground arith

  parse_response_short :
      len < 5
      → parse_response (some buf) (pos len) (some values) (pos max_values)
        ≡ done (refused (some values))
  unfolding parse_response
  parse_response_short short = ground arith

  take_registers-Parsed :
      len ≡ get_or buf 2 0 + 5
      → Parsed buf values
          (register_count buf max_values)
          (take_registers buf (get_or buf 2 0) values max_values)
  unfolding take_registers
  take_registers-Parsed sized = record {
    out = copy.out;
    returns = rw (counted, copy.returns) refl;
    same_length = copy.same_length;
    copied = λ j h. copy.copied j (omega arith) h;
    kept = λ j h. copy.kept j (inr h);
  }
    where
      counted :
          (if ltb max_values (get_or buf 2 0 / 2) then max_values else get_or buf 2 0 / 2)
          ≡ register_count buf max_values
      counted = ground arith

      copy :
          Copied buf values 0
            (register_count buf max_values)
            (copy_registers buf (register_count buf max_values) 0 values)
      copy =
          copy_registers-Copied buf values (register_count buf max_values) 0
            (register_count buf max_values) bytes (omega arith) (omega arith) (omega arith)

  accepted :
      0 < max_values
      → Accepts buf len
      → parse_response (some buf) (pos len) (some values) (pos max_values)
        ≡ take_registers buf (get_or buf 2 0) values max_values
  accepted some_room a =
      ground (arith, parse_response_lem some_room, parse_frame_lem, check_crc_lem)

  pub not_accepted :
      0 < max_values
      → ¬ Accepts buf len
      → parse_response (some buf) (pos len) (some values) (pos max_values)
        ≡ done (refused (some values))
  not_accepted some_room n = ground (
    arith,
    parse_response_short,
    parse_response_lem some_room,
    parse_frame_lem,
    check_crc_lem,
    λ (f : get_or buf 1 0 ≡ func_read_holding) (s : len ≡ get_or buf 2 0 + 5)
          (c : get_or buf (len - 1) 0 * 2 ^ 8 + get_or buf (len - 2) 0
            ≡ crc_bytes crc_start (take (len - 2) buf)).
        n (record { function = f; sized = s; checked = c }),
  )

  Accepts-or_not : Accepts buf len ⊎ (¬ Accepts buf len)
  Accepts-or_not = elim (ℕ_discrete (get_or buf 1 0) func_read_holding) [
    | no n ↦ inr (λ a. n a.function)
    | yes f ↦ elim (ℕ_discrete len (get_or buf 2 0 + 5)) [
      | no n ↦ inr (λ a. n a.sized)
      | yes s ↦
          elim (ℕ_discrete (get_or buf (len - 1) 0 * 2 ^ 8 + get_or buf (len - 2) 0)
            (crc_bytes crc_start (take (len - 2) buf))) [
              | no n ↦ inr (λ a. n a.checked)
              | yes c ↦ inl (record { function = f; sized = s; checked = c })
            ]
    ]
  ]

-- For a buffer that holds `len` bytes and an array with room for `max_values` registers, at least
-- one, `modbus_parse_response` stays inside both. Either the frame is a normal answer, and it
-- returns the number of registers, cut at `max_values`, and stores exactly those, high byte
-- first; or the frame is none, and it returns -1 and stores nothing.
pub parse_response_exact :
    (buf values : List ℕ) (len max_values : ℕ)
    → IsBytes buf
    → len ≤ length buf
    → max_values ≤ length values
    → 0 < max_values
    → let result = parse_response (some buf) (pos len) (some values) (pos max_values) in
      (Accepts buf len × Parsed buf values (register_count buf max_values) result)
      ⊎ (¬ Accepts buf len × (result ≡ done (refused (some values))))
parse_response_exact buf values len max_values bytes fits room some_room =
    elim (Accepts-or_not buf values len max_values bytes fits room) [
      | inl a ↦ inl (
        a,
        rw (accepted buf values len max_values bytes fits room some_room a)
            (take_registers-Parsed buf values len max_values bytes fits room a.sized),
      )
      | inr n ↦ inr (n, not_accepted buf values len max_values bytes fits room some_room n)
    ]

-- ===== src/Modbus/Response/Copy.antt =====
-- The copying loop of `modbus_parse_response`: which registers it writes, and with what.
use i_mx6ull_water_qualit.Base.{
  ℕ, zero, suc, ◌+◌, ◌*◌, ◌^◌, ◌≤◌, ◌<◌, ◌≡◌, refl, ◌∙◌, ◌⊎◌, arith, List, Run, done, load-eq-done,
  store-eq-done, length, length-set, get_or, get_or-set_self, get_or-set_ne, set, IsBytes,
  All-get_or,
}
use i_mx6ull_water_qualit.Base.Bits.{or_fields}
use i_mx6ull_water_qualit.Modbus.Response.{join_bytes, copy_registers}

pub join_bytes_lem :
    (high low : ℕ) → high < 2 ^ 8 → low < 2 ^ 8 → join_bytes high low ≡ high * 2 ^ 8 + low
unfolding join_bytes
join_bytes_lem high low h l = omega (arith, or_fields 8 high low l)

-- register `j` of an answer: two bytes, the high one first
abbrev pub register_at : List ℕ → ℕ → ℕ
register_at buf j = get_or buf (3 + j * 2) 0 * 2 ^ 8 + get_or buf (4 + j * 2) 0

-- `result` is a normal return that wrote registers `lo` up to `hi` and kept the other values.
pub record Copied (buf values : List ℕ) (lo hi : ℕ) (result : Run (List ℕ)) : Type 0 where
  pub out : List ℕ
  pub returns : result ≡ done out
  pub same_length : length out ≡ length values
  pub copied : (j : ℕ) → lo ≤ j → j < hi → get_or out j 0 ≡ register_at buf j
  pub kept : (j : ℕ) → (j < lo) ⊎ (hi ≤ j) → get_or out j 0 ≡ get_or values j 0

copy_registers_step :
    (buf values : List ℕ) (left i : ℕ)
    → IsBytes buf
    → 4 + i * 2 < length buf
    → i < length values
    → copy_registers buf (suc left) i values
      ≡ copy_registers buf left (i + 1) (set values i (register_at buf i))
unfolding copy_registers
copy_registers_step buf values left i bytes fits room = rw (
  load-eq-done buf (3 + i * 2) 0 (omega arith),
  load-eq-done buf (4 + i * 2) 0 fits,
  join_bytes_lem (get_or buf (3 + i * 2) 0) (get_or buf (4 + i * 2) 0)
      (All-get_or (λ b. b < 2 ^ 8) buf (3 + i * 2) 0 bytes (omega arith))
      (All-get_or (λ b. b < 2 ^ 8) buf (4 + i * 2) 0 bytes fits),
  store-eq-done values i (register_at buf i) room,
)

Copied-set :
    {buf values : List ℕ} {i hi : ℕ} {result : Run (List ℕ)}
    → i < hi
    → i < length values
    → Copied buf (set values i (register_at buf i)) (i + 1) hi result
    → Copied buf values i hi result
Copied-set {buf} {values} {i} below room rest = record {
  out = rest.out;
  returns = rest.returns;
  same_length = rest.same_length ∙ length-set values i (register_at buf i);
  copied = λ j p q.
      ground (arith, rest.copied j, rest.kept j, get_or-set_self values i (register_at buf i) 0);
  kept = λ j p. ground (arith, rest.kept j, get_or-set_ne values i j (register_at buf i) 0);
}

pub copy_registers-Copied :
    (buf values : List ℕ) (left i hi : ℕ)
    → IsBytes buf
    → i + left ≡ hi
    → 3 + hi * 2 ≤ length buf
    → hi ≤ length values
    → Copied buf values i hi (copy_registers buf left i values)
copy_registers-Copied buf values zero i hi bytes e fits room = record {
  out = values;
  returns = unfold copy_registers in refl;
  same_length = refl;
  copied = λ j p q. absurd (omega arith);
  kept = λ j p. refl;
}
copy_registers-Copied buf values (suc left) i hi bytes e fits room =
    rw (copy_registers_step buf values left i bytes (omega arith) (omega arith)) (
      Copied-set (omega arith) (omega arith) (
        copy_registers-Copied buf (set values i (register_at buf i)) left (i + 1) hi bytes
          (omega arith) fits (rw length-set room)))

-- ===== src/Modbus/Answer/Write.antt =====
-- The loop of `build_test_response`: each register in two bytes, the high one first.
use i_mx6ull_water_qualit.Base.{
  ℕ, zero, suc, ◌+◌, ◌*◌, ◌/◌, ◌%◌, ◌^◌, ◌≤◌, ◌<◌, ◌≡◌, refl, ◌∙◌, arith, List, Run, done,
  load-eq-done, store-eq-done, length, length-set, get_or, get_or-set_self, get_or-set_ne, set,
  IsBytes, IsWords, All-get_or, All-set, bit_and, shr, u8,
}
use i_mx6ull_water_qualit.Base.Bits.{and_byte}
use i_mx6ull_water_qualit.Modbus.Answer.{put_registers}

-- `result` is a normal return with registers `lo` up to `hi` in place, and all before them kept.
pub record Written (regs buf : List ℕ) (lo hi : ℕ) (result : Run (List ℕ)) : Type 0 where
  pub out : List ℕ
  pub returns : result ≡ done out
  pub same_length : length out ≡ length buf
  pub bytes : IsBytes out
  pub high : (j : ℕ) → lo ≤ j → j < hi → get_or out (3 + j * 2) 0 ≡ get_or regs j 0 / 2 ^ 8
  pub low : (j : ℕ) → lo ≤ j → j < hi → get_or out (4 + j * 2) 0 ≡ get_or regs j 0 % 2 ^ 8
  pub kept : (k : ℕ) → k < 3 + lo * 2 → get_or out k 0 ≡ get_or buf k 0

-- the buffer after the two stores of register `i`
abbrev put : List ℕ → ℕ → ℕ → List ℕ
put buf i reg = set (set buf (3 + i * 2) (reg / 2 ^ 8)) (4 + i * 2) (reg % 2 ^ 8)

length-put : (buf : List ℕ) (i reg : ℕ) → length (put buf i reg) ≡ length buf
length-put buf i reg =
    length-set (set buf (3 + i * 2) (reg / 2 ^ 8)) (4 + i * 2) (reg % 2 ^ 8)
    ∙ length-set buf (3 + i * 2) (reg / 2 ^ 8)

module _ (regs : List ℕ) (words : IsWords regs) where
  word_small : (i : ℕ) → i < length regs → get_or regs i 0 < 2 ^ 16
  word_small i h = All-get_or (λ w. w < 2 ^ 16) regs i 0 words h

  put_registers_step :
      (buf : List ℕ) (left i : ℕ)
      → i < length regs
      → 4 + i * 2 < length buf
      → put_registers regs (suc left) i buf
        ≡ put_registers regs left (i + 1) (put buf i (get_or regs i 0))
  unfolding put_registers
  put_registers_step buf left i there fits = rw (
    load-eq-done regs i 0 there,
    cut,
    rest,
    store-eq-done buf (3 + i * 2) (get_or regs i 0 / 2 ^ 8) (omega arith),
    store-eq-done (set buf (3 + i * 2) (get_or regs i 0 / 2 ^ 8)) (4 + i * 2)
        (get_or regs i 0 % 2 ^ 8) (rw length-set fits),
  )
    where
      cut : u8 (shr (get_or regs i 0) 8) ≡ get_or regs i 0 / 2 ^ 8
      cut = omega (arith, word_small i there)

      rest : u8 (bit_and (get_or regs i 0) 0xFF) ≡ get_or regs i 0 % 2 ^ 8
      rest = omega (arith, and_byte (get_or regs i 0))

  put-IsBytes :
      (buf : List ℕ) (i : ℕ) → i < length regs → IsBytes buf → IsBytes (put buf i (get_or regs i 0))
  put-IsBytes buf i there bytes =
      All-set (λ b. b < 2 ^ 8) (set buf (3 + i * 2) (get_or regs i 0 / 2 ^ 8)) (4 + i * 2) _
        (All-set (λ b. b < 2 ^ 8) buf (3 + i * 2) _ bytes (omega (arith, word_small i there)))
        (omega arith)

  Written-put :
      {buf : List ℕ} {i hi : ℕ} {result : Run (List ℕ)}
      → 4 + i * 2 < length buf
      → Written regs (put buf i (get_or regs i 0)) (i + 1) hi result
      → Written regs buf i hi result
  Written-put {buf} {i} fits next = record {
    out = next.out;
    returns = next.returns;
    same_length = next.same_length ∙ length-put buf i reg;
    bytes = next.bytes;
    high = λ j p q. ground (
      arith,
      next.high j,
      next.kept (3 + j * 2),
      get_or-set_ne first (4 + i * 2) (3 + i * 2) (reg % 2 ^ 8) 0,
      get_or-set_self buf (3 + i * 2) (reg / 2 ^ 8) 0,
    );
    low = λ j p q. ground (
      arith,
      next.low j,
      next.kept (4 + j * 2),
      length-set buf (3 + i * 2) (reg / 2 ^ 8),
      get_or-set_self first (4 + i * 2) (reg % 2 ^ 8) 0,
    );
    kept = λ k h. ground (
      arith,
      next.kept k,
      get_or-set_ne first (4 + i * 2) k (reg % 2 ^ 8) 0,
      get_or-set_ne buf (3 + i * 2) k (reg / 2 ^ 8) 0,
    );
  }
    where
      reg : ℕ
      reg = get_or regs i 0

      first : List ℕ
      first = set buf (3 + i * 2) (get_or regs i 0 / 2 ^ 8)

  pub put_registers-Written :
      (buf : List ℕ) (left i hi : ℕ)
      → i + left ≡ hi
      → hi ≤ length regs
      → 3 + hi * 2 ≤ length buf
      → IsBytes buf
      → Written regs buf i hi (put_registers regs left i buf)
  put_registers-Written buf zero i hi e there fits bytes = record {
    out = buf;
    returns = unfold put_registers in refl;
    same_length = refl;
    bytes = bytes;
    high = λ j p q. absurd (omega arith);
    low = λ j p q. absurd (omega arith);
    kept = λ k h. refl;
  }
  put_registers-Written buf (suc left) i hi e there fits bytes =
      rw (put_registers_step buf left i (omega arith) (omega arith)) (
        Written-put (omega arith) (
          put_registers-Written (put buf i (get_or regs i 0)) left (i + 1) hi (omega arith) there
            (omega (arith, length-put buf i (get_or regs i 0)))
            (put-IsBytes buf i (omega arith) bytes)))

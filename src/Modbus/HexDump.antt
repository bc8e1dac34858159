-- ===== src/Modbus/HexDump.antt =====
-- `modbus_hex_dump` of app/src/modbus_rtu.c: bytes printed into an array of characters.
use i_mx6ull_water_qualit.Base.{
  ℕ, zero, suc, ◌+◌, ◌-◌, ◌/◌, ◌%◌, ◌≤◌, ◌<◌, ◌≡◌, refl, ◌∙◌, arith, ◌==◌, ltb, if◌then◌else◌, List,
  [], ◌∷◌, ◌++◌, Option, none, some, Run, done, ◌>>=◌, load, store, load-eq-done, store-eq-done,
  length, length-set, length-append, length-take, set, get_or, take, Bool-cases, inl, inr, ltb→lt,
}
use i_mx6ull_water_qualit.Base.Int.{ℤ, pos, negsuc}

-- a digit of `%X`
hex_digit : ℕ → ℕ
hex_digit d = if ltb d 10 then 48 + d else 55 + d

-- the text of `"%s%02X"` for byte `i`
unfoldable pub hex_text : ℕ → ℕ → List ℕ
unfolding hex_digit
hex_text i b =
    if i == 0
    then hex_digit (b / 16) ∷ hex_digit (b % 16) ∷ []
    else 32 ∷ hex_digit (b / 16) ∷ hex_digit (b % 16) ∷ []

-- the characters of a text, stored from index `at` on
unfoldable pub put_text : List ℕ → ℕ → List ℕ → Run (List ℕ)
put_text [] at out = done out
put_text (c ∷ text) at out = store out at c >>= (λ next. put_text text (at + 1) next)

-- `snprintf` into `size` characters, at least one: the text, cut to leave room for a NUL, and it
unfoldable pub print : ℕ → List ℕ → ℕ → List ℕ → Run (List ℕ)
print size text at out = put_text (take (size - 1) text ++ 0 ∷ []) at out

-- the loop at byte `i`, with `left` bytes to go
unfoldable pub dump_loop : ℕ → ℕ → ℕ → List ℕ → List ℕ → ℕ → Run (List ℕ × ℕ)
dump_loop zero i at buf out out_size = done (out, at)
dump_loop (suc left) i at buf out out_size =
    if ltb (at + 4) out_size
    then (do
      b ← load buf i
      out ← print (out_size - at) (hex_text i b) at out
      dump_loop left (i + 1) (at + length (hex_text i b)) buf out out_size)
    else done (out, at)

put_text-done :
    (text : List ℕ) (at : ℕ) (out : List ℕ)
    → at + length text ≤ length out
    → (after : List ℕ) × (put_text text at out ≡ done after) × (length after ≡ length out)
unfolding put_text
put_text-done [] at out h = (out, refl, refl)
put_text-done (c ∷ text) at out h =
    let (after, e, l) =
      put_text-done text (at + 1) (set out at c) (omega (arith, length-set out at c)) in
    (after, rw (store-eq-done out at c (omega arith)) e, l ∙ length-set out at c)

length-hex_text : (i b : ℕ) → length (hex_text i b) ≤ 3
unfolding hex_text
length-hex_text i b = ground arith

print-done :
    (size : ℕ) (text : List ℕ) (at : ℕ) (out : List ℕ)
    → at + length text + 1 ≤ length out
    → (after : List ℕ) × (print size text at out ≡ done after) × (length after ≡ length out)
unfolding print
print-done size text at out h =
    put_text-done (take (size - 1) text ++ 0 ∷ []) at out
      (omega (arith, length-append (take (size - 1) text) (0 ∷ []), length-take (size - 1) text))

dump_loop-done :
    (left i at : ℕ) (buf out : List ℕ) (out_size : ℕ)
    → i + left ≤ length buf
    → out_size ≤ length out
    → at < out_size
    → (after : List ℕ) × (last : ℕ) × (dump_loop left i at buf out out_size ≡ done (after, last))
      × (length after ≡ length out)
      × (last < out_size)
unfolding dump_loop
dump_loop-done zero i at buf out out_size hb ho ha = (out, at, refl, refl, ha)
dump_loop-done (suc left) i at buf out out_size hb ho ha =
    elim (Bool-cases (ltb (at + 4) out_size)) [
      | inr t ↦ (out, at, rw t refl, refl, ha)
      | inl t ↦
          let text = hex_text i (get_or buf i 0) in
          let short = length-hex_text i (get_or buf i 0) in
          let room = ltb→lt (at + 4) out_size t in
          let (next, e, l) = print-done (out_size - at) text at out (omega arith) in
          let (after, last, f, m, n) =
            dump_loop-done left (i + 1) (at + length text) buf next out_size (omega arith)
              (omega arith) (omega arith) in
          (after, last, rw (t, load-eq-done buf i 0 (omega arith), e) f, m ∙ l, n)
    ]

-- `modbus_hex_dump`; `none` is a null pointer. The result has the array and the
-- last `pos`. A negative `len` is 0 here: the loop has no round.
unfoldable pub modbus_hex_dump :
    Option (List ℕ) → ℕ → Option (List ℕ) → ℤ → Run (Option (List ℕ) × ℕ)
modbus_hex_dump none len out out_size = done (out, 0)
modbus_hex_dump (some buf) len none out_size = done (none, 0)
modbus_hex_dump (some buf) len (some out) (negsuc n) = done (some out, 0)
modbus_hex_dump (some buf) len (some out) (pos out_size) =
    if out_size == 0
    then done (some out, 0)
    else (store out 0 0
        >>= (λ cleared. dump_loop len 0 0 buf cleared out_size >>= (λ r. done (some r.0, r.1))))

-- For a buffer that holds the bytes and an array that has its size, at least 1, a dump of any
-- length stays inside both, `snprintf` included, and ends at an index inside the array.
pub modbus_hex_dump_bounds :
    (buf out : List ℕ) (len out_size : ℕ)
    → len ≤ length buf
    → out_size ≤ length out
    → 0 < out_size
    → (after : List ℕ) × (last : ℕ) × (modbus_hex_dump (some buf) len (some out) (pos out_size)
        ≡ done (some after, last))
      × (length after ≡ length out)
      × (last < out_size)
unfolding modbus_hex_dump
modbus_hex_dump_bounds buf out len out_size hb ho some_room =
    let cleared = set out 0 0 in
    let (after, last, e, l, n) =
      dump_loop-done len 0 0 buf cleared out_size (omega arith) (omega (arith, length-set out 0 0))
        some_room in
    (after, last, ground (arith, store-eq-done out 0 0 (omega arith), e), l ∙ length-set out 0 0, n)

-- ===== src/Serial/Transfer.antt =====
-- What `serial_write` of app/src/serial_port.c puts on the line.
use i_mx6ull_water_qualit.Base.{
  ℕ, ◌+◌, ◌-◌, ◌≤◌, ◌<◌, ◌≡◌, ◌⊎◌, inl, inr, ap, ◌∙◌, arith, Bool-cases, ltb, ltb→lt, lt→ltb, List,
  [], ◌∷◌, ◌++◌, some, take, drop, take-add,
}
use i_mx6ull_water_qualit.Base.Int.{pos}
use i_mx6ull_water_qualit.Serial.{WriteAnswer, wrote, write_interrupted, write_loop, serial_write}

-- POSIX: `write` takes at most as many bytes as it is asked to.
abbrev pub Honest : (ℕ → WriteAnswer) → Type 0
Honest write = (n k : ℕ) → write n ≡ wrote k → k ≤ n

abbrev pub Interrupts : (ℕ → WriteAnswer) → Type 0
Interrupts write = (n : ℕ) → write n ≡ write_interrupted

-- asked for something, the call takes at least one byte of it
abbrev pub Takes : (ℕ → WriteAnswer) → Type 0
Takes write = (n : ℕ) → 0 < n → (k : ℕ) × (0 < k) × (k ≤ n) × (write n ≡ wrote k)

-- Every call is interrupted or takes a byte, and at least `need` calls take one.
abbrev pub Works : ℕ → List (ℕ → WriteAnswer) → Type 0
Works need [] = need ≡ 0
Works need (write ∷ writes) =
    (Interrupts write × Works need writes) ⊎ (Takes write × Works (need - 1) writes)

module _ (buf : List ℕ) (len : ℕ) where
  write_loop_end :
      (writes : List (ℕ → WriteAnswer)) (sent : List ℕ)
      → write_loop writes buf len len sent ≡ some (record { result = pos len; bytes = sent })
  unfolding write_loop
  write_loop_end [] sent = ground arith
  write_loop_end (write ∷ writes) sent = ground arith

  ended :
      (writes : List (ℕ → WriteAnswer)) (total : ℕ)
      → total ≡ len
      → write_loop writes buf len total (take total buf)
        ≡ some (record { result = pos len; bytes = take len buf })
  ended writes total e =
      ap (λ n. write_loop writes buf len n (take n buf)) e ∙ write_loop_end writes (take len buf)

  write_loop_interrupted :
      (write : ℕ → WriteAnswer) (writes : List (ℕ → WriteAnswer)) (total : ℕ) (sent : List ℕ)
      → total < len
      → write (len - total) ≡ write_interrupted
      → write_loop (write ∷ writes) buf len total sent ≡ write_loop writes buf len total sent
  unfolding write_loop
  write_loop_interrupted write writes total sent h e = rw (lt→ltb total len h, e)

  write_loop_wrote :
      (write : ℕ → WriteAnswer) (writes : List (ℕ → WriteAnswer)) (total k : ℕ) (sent : List ℕ)
      → total < len
      → 0 < k
      → write (len - total) ≡ wrote k
      → write_loop (write ∷ writes) buf len total sent
        ≡ write_loop writes buf len (total + k) (sent ++ take k (drop total buf))
  unfolding write_loop
  write_loop_wrote write writes total k sent h more e = rw (lt→ltb total len h, e, lt→ltb 0 k more)

  write_loop_all :
      (writes : List (ℕ → WriteAnswer)) (need total : ℕ)
      → Works need writes
      → total ≤ len
      → len ≤ total + need
      → write_loop writes buf len total (take total buf)
        ≡ some (record { result = pos len; bytes = take len buf })
  write_loop_all [] need total works low high = ended [] total (omega arith)
  write_loop_all (write ∷ writes) need total (inl (stop, works)) low high =
      elim (Bool-cases (ltb total len)) [
        | inl h ↦
            write_loop_interrupted write writes total (take total buf) (ltb→lt total len h)
              (stop (len - total))
            ∙ write_loop_all writes need total works low high
        | inr h ↦ ended (write ∷ writes) total (ground arith)
      ]
  write_loop_all (write ∷ writes) need total (inr (more, works)) low high =
      elim (Bool-cases (ltb total len)) [
        | inl h ↦
            let lt = ltb→lt total len h in
            let (k, some_taken, at_most, e) = more (len - total) (omega arith) in
            write_loop_wrote write writes total k (take total buf) lt some_taken e
            ∙ ap (write_loop writes buf len (total + k)) (take-add total k buf)
            ∙ write_loop_all writes (need - 1) (total + k) works (omega arith) (omega arith)
        | inr h ↦ ended (write ∷ writes) total (ground arith)
      ]

-- If every call of `write` is interrupted or takes a byte, and at least `len` of them take one,
-- then `serial_write` to an open port returns `len` and has put the first `len` bytes on the line.
pub serial_write_all :
    (fd len : ℕ) (buf : List ℕ) (writes : List (ℕ → WriteAnswer))
    → 0 < len
    → Works len writes
    → serial_write (pos fd) (some buf) (pos len) writes
      ≡ some (record { result = pos len; bytes = take len buf })
unfolding serial_write
serial_write_all fd len buf writes h works =
    ground (arith, write_loop_all buf len writes len 0 works (omega arith) (omega arith))

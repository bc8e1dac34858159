-- ===== src/Serial/Tests.antt =====
-- The serial port at a scripted device.
use i_mx6ull_water_qualit.Base.{ℕ, ◌≡◌, ◌⊎◌, inl, inr, refl, arith, List, [], ◌∷◌, some, none, min}
use i_mx6ull_water_qualit.Base.Int.{pos, negsuc}
use i_mx6ull_water_qualit.Serial.{
  WriteAnswer, wrote, write_interrupted, write_failed, got, ready, timed_out, write_loop,
  serial_write, select_timeout, serial_read,
}
use i_mx6ull_water_qualit.Serial.Transfer.{Works, serial_write_all}
use i_mx6ull_water_qualit.Serial.Open.{
  Termios, IsSupported, set_options, serial_open, serial_open_owns,
}
use i_mx6ull_water_qualit.Serial.Fixture.{board}

-- a call that takes two bytes, or one where it is asked for one
abbrev two_bytes : ℕ → WriteAnswer
two_bytes n = wrote (min 2 n)

abbrev interrupted : ℕ → WriteAnswer
interrupted n = write_interrupted

abbrev calls : List (ℕ → WriteAnswer)
calls = two_bytes ∷ interrupted ∷ two_bytes ∷ two_bytes ∷ []

calls-Works : Works 3 calls
calls-Works = inr (
  λ n h. (min 2 n, omega arith, omega arith, refl),
  inl (
    λ n. refl,
    inr (
      λ n h. (min 2 n, omega arith, omega arith, refl),
      inr (λ n h. (min 2 n, omega arith, omega arith, refl), refl),
    ),
  ),
)

serial_write_all_example :
    serial_write (pos 3) (some (7 ∷ 8 ∷ 9 ∷ 10 ∷ [])) (pos 3) calls
    ≡ some (record { result = pos 3; bytes = 7 ∷ 8 ∷ 9 ∷ [] })
serial_write_all_example =
    serial_write_all 3 3 (7 ∷ 8 ∷ 9 ∷ 10 ∷ []) calls (omega arith) calls-Works

write_stops :
    serial_write (pos 3) (some (7 ∷ 8 ∷ 9 ∷ [])) (pos 3) (two_bytes ∷ (λ _. write_failed) ∷ [])
    ≡ some (record { result = negsuc 0; bytes = 7 ∷ 8 ∷ [] })
unfolding serial_write write_loop
write_stops = refl

read_short :
    serial_read
      (pos 3)
      (some (0 ∷ 0 ∷ 0 ∷ []))
      (pos 3)
      (pos 1500)
      (λ fd t. elim t [ none ↦ timed_out | some tv ↦ ready ])
      (λ n. got (5 ∷ 6 ∷ []))
    ≡ (pos 2, some (5 ∷ 6 ∷ 0 ∷ []))
unfolding serial_read select_timeout
read_short = refl

serial_open_owns_example :
    let opened = serial_open (board ℕ) 0 (some 1) (pos 9600) in
    (IsSupported (board ℕ) (pos 9600)
      × (options : Termios) × (opened ≡ record {
        result = pos 3;
        closed = [];
        installed = some (set_options (board ℕ) options);
      }))
    ⊎ ((opened.result ≡ negsuc 0) × (opened.closed ≡ pos 3 ∷ []))
serial_open_owns_example = serial_open_owns (board ℕ) 0 1 (pos 9600) 3 refl

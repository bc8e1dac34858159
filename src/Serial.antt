-- ===== src/Serial.antt =====
-- app/src/serial_port.c: the serial port. The kernel's calls are arguments: each call of `write`,
-- `select` and `read` is a function from what it is asked to what it answers.
-- `Open` sets the port up; `Transfer` and `Tests` are about the calls here.
pub mod Open
pub mod Transfer
pub mod Fixture
mod Tests
use i_mx6ull_water_qualit.Base.{
  ℕ, ◌+◌, ◌-◌, ◌*◌, ◌/◌, ◌%◌, ltb, if◌then◌else◌, List, [], ◌∷◌, ◌++◌, Option, none, some, length,
  take, drop,
}
use i_mx6ull_water_qualit.Base.Int.{ℤ, pos, negsuc, pos_part, ltb_ℤ, ◌+ℤ◌}
use i_mx6ull_water_qualit.Sample.{Timeval}

-- What `write` returns: a number of bytes, -1 with EINTR, or -1 with another error.
pub data WriteAnswer : Type 0 where
  wrote : ℕ → WriteAnswer
  write_interrupted : WriteAnswer
  write_failed : WriteAnswer

-- What `select` returns: positive, 0, -1 with EINTR, or -1 with another error.
pub data SelectAnswer : Type 0 where
  ready : SelectAnswer
  timed_out : SelectAnswer
  select_interrupted : SelectAnswer
  select_failed : SelectAnswer

-- What `read` returns: the bytes that it stores, -1 with EINTR or EAGAIN, or -1 with another error.
pub data ReadAnswer : Type 0 where
  got : List ℕ → ReadAnswer
  read_again : ReadAnswer
  read_failed : ReadAnswer

-- A return of `serial_write`, and the bytes that the device took.
pub record Sent : Type 0 where
  pub result : ℤ
  pub bytes : List ℕ

-- The loop of `serial_write` after `total` bytes, which are `sent`. Each element of `writes` is one
-- call, a function of the count that it is asked to write; `none` is a loop that outlasts them.
unfoldable pub write_loop : List (ℕ → WriteAnswer) → List ℕ → ℕ → ℕ → List ℕ → Option Sent
write_loop [] buf len total sent =
    if ltb total len then none else some (record { result = pos total; bytes = sent })
write_loop (write ∷ writes) buf len total sent =
    if ltb total len
    then elim (write (len - total)) [
      | wrote ret ↦
          (if ltb 0 ret
            then write_loop writes buf len (total + ret) (sent ++ take ret (drop total buf))
            else some (record { result = pos total; bytes = sent }))
      | write_interrupted ↦ write_loop writes buf len total sent
      | write_failed ↦ some (record { result = negsuc 0; bytes = sent })
    ]
    else some (record { result = pos total; bytes = sent })

unfoldable pub serial_write : ℤ → Option (List ℕ) → ℤ → List (ℕ → WriteAnswer) → Option Sent
serial_write fd none len writes = some (record { result = negsuc 0; bytes = [] })
serial_write fd (some buf) len writes =
    if ltb_ℤ fd (pos 0)
    then some (record { result = negsuc 0; bytes = [] })
    else (if ltb_ℤ (pos 0) len
        then write_loop writes buf (pos_part len) 0 []
        else some (record { result = negsuc 0; bytes = [] }))

-- The `timeout_ptr` of `select`, `none` for a null pointer.
unfoldable pub select_timeout : ℤ → Option Timeval
select_timeout (negsuc n) = none
select_timeout (pos n) = some (record { tv_sec = n / 1000; tv_usec = n % 1000 * 1000 })

-- `select` is a function of its first and its last argument, `read` of the count.
unfoldable pub serial_read :
    ℤ
    → Option (List ℕ)
    → ℤ
    → ℤ
    → (ℤ → Option Timeval → SelectAnswer)
    → (ℕ → ReadAnswer)
    → ℤ × Option (List ℕ)
serial_read fd none len timeout_ms select read = (negsuc 0, none)
serial_read fd (some buf) len timeout_ms select read =
    if ltb_ℤ fd (pos 0)
    then (negsuc 0, some buf)
    else (if ltb_ℤ (pos 0) len
        then elim (select (fd +ℤ pos 1) (select_timeout timeout_ms)) [
          | select_failed ↦ (negsuc 0, some buf)
          | select_interrupted ↦ (pos 0, some buf)
          | timed_out ↦ (pos 0, some buf)
          | ready ↦ elim (read (pos_part len)) [
            | read_failed ↦ (negsuc 0, some buf)
            | read_again ↦ (pos 0, some buf)
            | got bytes ↦ (pos (length bytes), some (bytes ++ drop (length bytes) buf))
          ]
        ]
        else (negsuc 0, some buf))

-- ===== src/Gateway/Collect.antt =====
-- `collect_thread`, `collect_thread_mock` and `sleep_ms` of app/src/main.c. A turn says what the
-- kernel answers to one round; a result `none` is a thread that still waits or writes.
use i_mx6ull_water_qualit.Base.{
  ℕ, ◌-◌, ◌%◌, ◌^◌, ◌*◌, if◌then◌else◌, Bool, true, false, List, [], ◌∷◌, Option, none, some, Run,
  done, ◌>>=◌, u32,
}
use i_mx6ull_water_qualit.Base.Int.{ℤ, pos, negsuc, ltb_ℤ, eqb_ℤ}
use i_mx6ull_water_qualit.Float.{Float}
use i_mx6ull_water_qualit.Modbus.{Output}
use i_mx6ull_water_qualit.Modbus.Master.{Line, modbus_read_registers}
use i_mx6ull_water_qualit.Sample.{Sample, Timeval, sample_generate_mock, sample_from_modbus_regs}
use i_mx6ull_water_qualit.SampleQueue.{SampleQueue, Wake}
use i_mx6ull_water_qualit.SampleQueue.Wait.{push}

-- what `usleep` is called with, if it is called: an `unsigned int`
unfoldable pub sleep_ms : ℤ → Option ℕ
sleep_ms (negsuc _) = none
sleep_ms (pos ms) = if ltb_ℤ (pos 0) (pos ms) then some (u32 (ms * 1000)) else none

-- an `int` as an `unsigned char`
abbrev pub to_uchar : ℤ → ℕ
to_uchar (pos n) = n % 2 ^ 8
to_uchar (negsuc n) = 2 ^ 8 - 1 - n % 2 ^ 8

-- One round: the line, the arrays and the sample on the stack as they happen to be, the clock, and
-- the waits of the push.
pub record Turn (F : Type 0) : Type 0 where
  pub line : Line
  pub request : List ℕ
  pub response : List ℕ
  pub values : List ℕ
  pub sample : Sample F
  pub clock : Timeval
  pub wakes : List (Wake (Sample F))

-- `g_mock_sequence`, the local `modbus_ok`, and the queue of the context
pub record Collecting (F : Type 0) : Type 0 where
  pub raw_queue : SampleQueue (Sample F)
  pub mock_sequence : ℕ
  pub modbus_ok : Bool

module _ {F : Type 0} (float : Float F) where
  -- sample_queue_push(ctx->raw_queue, &sample, 100), whose result is not read
  unfoldable pub hand_over :
      List (Wake (Sample F)) → Option (Sample F) → Collecting F → Run (Option (Collecting F))
  hand_over wakes sample s = push (some s.raw_queue) sample (pos 100) wakes >>= (λ result.
      elim result [
        | none ↦ done none
        | some r ↦ elim r.1 [
          | none ↦ done none
          | some queue ↦ done (some (record s { raw_queue = queue }))
        ]
      ])

  -- the count and the array after `modbus_read_registers`, if the port is open
  unfoldable pub read_port : ℤ → ℤ → Turn F → Run (Option Output)
  read_port serial_fd slave_addr t =
      if ltb_ℤ serial_fd (pos 0)
      then done (some (negsuc 0, some t.values))
      else modbus_read_registers serial_fd (to_uchar slave_addr) 0x0000 7 t.request t.response
          (some t.values) (pos 7) (pos 500) t.line
        >>= (λ result. elim result [ none ↦ done none | some r ↦ done (some r.0) ])

  -- the sample of a round, and the context
  unfoldable pub make_sample :
      Output → Turn F → Collecting F → Run (Option (Sample F) × Collecting F)
  make_sample (reg_count, values) t s =
      if eqb_ℤ reg_count (pos 7)
      then sample_from_modbus_regs float (some t.sample) values (pos 7) t.clock
        >>= (λ sample. done (sample, record s { modbus_ok = true }))
      else (let (mock_sequence, sample) =
            sample_generate_mock float s.mock_sequence t.clock (some t.sample) in
          done (sample, record s { mock_sequence = mock_sequence; modbus_ok = false }))

  unfoldable pub collect_round : ℤ → ℤ → Turn F → Collecting F → Run (Option (Collecting F))
  unfolding hand_over read_port make_sample
  collect_round serial_fd slave_addr t s = read_port serial_fd slave_addr t >>= (λ read. elim read [
    | none ↦ done none
    | some output ↦ make_sample output t s >>= (λ made. hand_over t.wakes made.0 made.1)
  ])

  -- The loop until `g_shutdown` is seen, at the end of the list.
  unfoldable pub collect_thread : ℤ → ℤ → List (Turn F) → Collecting F → Run (Option (Collecting F))
  unfolding collect_round
  collect_thread serial_fd slave_addr [] s = done (some s)
  collect_thread serial_fd slave_addr (t ∷ turns) s =
      collect_round serial_fd slave_addr t s >>= (λ result. elim result [
        | none ↦ done none
        | some next ↦ collect_thread serial_fd slave_addr turns next
      ])

  unfoldable pub mock_round : Turn F → Collecting F → Run (Option (Collecting F))
  unfolding hand_over
  mock_round t s =
      let (mock_sequence, sample) =
        sample_generate_mock float s.mock_sequence t.clock (some t.sample) in
      hand_over t.wakes sample (record s { mock_sequence = mock_sequence })

  unfoldable pub collect_thread_mock : List (Turn F) → Collecting F → Run (Option (Collecting F))
  unfolding mock_round
  collect_thread_mock [] s = done (some s)
  collect_thread_mock (t ∷ turns) s =
      mock_round t s
      >>= (λ result. elim result [ none ↦ done none | some next ↦ collect_thread_mock turns next ])

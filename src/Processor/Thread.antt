-- ===== src/Processor/Thread.antt =====
-- The loop of `processor_thread` of app/src/processor.c between its two queues. A round says how the
-- waits of its pop and its push went; a result `none` is a thread that still waits.
use i_mx6ull_water_qualit.Base.{
  ℕ, ◌+◌, if◌then◌else◌, not, true, List, [], ◌∷◌, Option, none, some, Run, done, ◌>>=◌,
}
use i_mx6ull_water_qualit.Base.Int.{ℤ, pos, eqb_ℤ}
use i_mx6ull_water_qualit.Float.{Float}
use i_mx6ull_water_qualit.Sample.{Sample}
use i_mx6ull_water_qualit.SampleQueue.{SampleQueue, Wake}
use i_mx6ull_water_qualit.SampleQueue.Wait.{push, pop}
use i_mx6ull_water_qualit.Processor.{
  Threshold, Led, led_start, compute_alarm, debounce, led_write_of, mark_alarm,
}

-- What a round changes: the context and the locals. `device` holds the bytes written to the LED
-- device, the newest first.
pub record Processing (F : Type 0) : Type 0 where
  pub raw_queue : Option (SampleQueue (Sample F))
  pub store_queue : Option (SampleQueue (Sample F))
  pub sample_counter : ℕ
  pub led : Led
  pub device : List ℕ

pub record Round (F : Type 0) : Type 0 where
  pub pop_wakes : List (Wake (Sample F))
  pub push_wakes : List (Wake (Sample F))

module _ {F : Type 0} (float : Float F) (thresholds : Threshold F) (alarm_fd : ℤ) where
  abbrev pub alarm_of : Sample F → ℕ
  alarm_of sample = compute_alarm float (some sample) (some thresholds)

  abbrev pub shown : Option ℕ → List ℕ → List ℕ
  shown none device = device
  shown (some byte) device = byte ∷ device

  -- the counter, the debouncing and the LED
  abbrev pub observe : ℕ → Processing F → Processing F
  observe alarm s = record s {
    sample_counter = s.sample_counter + 1;
    led = (debounce alarm s.led).0;
    device = shown (led_write_of alarm_fd (debounce alarm s.led).1) s.device;
  }

  -- if (ctx->store_queue != NULL) sample_queue_push(ctx->store_queue, &sample, 100);
  unfoldable pub pass_on :
      List (Wake (Sample F)) → Sample F → Processing F → Run (Option (Processing F))
  pass_on wakes sample s = elim s.store_queue [
    | none ↦ done (some s)
    | some queue ↦ push (some queue) (some sample) (pos 100) wakes >>= (λ result. elim result [
      | none ↦ done none
      | some r ↦ done (some (record s { store_queue = r.1 }))
    ])
  ]

  -- a sample that was popped
  unfoldable pub process :
      List (Wake (Sample F)) → Sample F → Processing F → Run (Option (Processing F))
  unfolding pass_on
  process wakes sample s =
      pass_on wakes (mark_alarm (alarm_of sample) sample) (observe (alarm_of sample) s)

  -- what follows the pop
  unfoldable pub process_popped :
      List (Wake (Sample F))
      → ℤ × Option (Sample F) × Option (SampleQueue (Sample F))
      → Processing F
      → Run (Option (Processing F))
  unfolding process
  process_popped wakes (result, sample, queue) s =
      if not (eqb_ℤ result (pos 0))
      then done (some (record s { raw_queue = queue }))
      else elim sample [
        | none ↦ done (some (record s { raw_queue = queue }))
        | some sample ↦ process wakes sample (record s { raw_queue = queue })
      ]

  unfoldable pub processor_round : Round F → Processing F → Run (Option (Processing F))
  unfolding process_popped
  processor_round round s = pop s.raw_queue true (pos 500) round.pop_wakes >>= (λ result.
      elim result [ none ↦ done none | some p ↦ process_popped round.push_wakes p s ])

  -- The loop until `shutdown` is seen, at the end of the list.
  unfoldable pub processor_loop : List (Round F) → Processing F → Run (Option (Processing F))
  unfolding processor_round
  processor_loop [] s = done (some s)
  processor_loop (round ∷ rounds) s =
      processor_round round s
      >>= (λ result. elim result [ none ↦ done none | some next ↦ processor_loop rounds next ])

  -- The thread on a context that is there.
  unfoldable pub processor_thread : List (Round F) → Processing F → Run (Option (Processing F))
  unfolding processor_loop
  processor_thread rounds s = elim s.raw_queue [
    | none ↦ done (some s)
    | some queue ↦ processor_loop rounds (record s { led = led_start })
  ]

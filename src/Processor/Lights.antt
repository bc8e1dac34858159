-- ===== src/Processor/Lights.antt =====
-- The LED of `processor_thread` over any number of rounds.
use i_mx6ull_water_qualit.Base.{
  ℕ, ◌≡◌, ◌⊎◌, inl, inr, refl, ap, ◌∙◌, true, List, [], ◌∷◌, Option, none, some, Run, done, ◌>>=◌,
  length, All,
}
use i_mx6ull_water_qualit.Base.Int.{ℤ, pos}
use i_mx6ull_water_qualit.Float.{Float}
use i_mx6ull_water_qualit.Sample.{Sample}
use i_mx6ull_water_qualit.SampleQueue.{SampleQueue, success, failure}
use i_mx6ull_water_qualit.SampleQueue.Wait.{pop}
use i_mx6ull_water_qualit.SampleQueue.Fifo.{Fifo}
use i_mx6ull_water_qualit.SampleQueue.Refine.{Represents}
use i_mx6ull_water_qualit.Processor.{Threshold, led_start}
use i_mx6ull_water_qualit.Processor.Debounce.{led_after, device_after, should_light, debounce_rule}
use i_mx6ull_water_qualit.Processor.Thread.{
  Processing, Round, alarm_of, observe, processor_round, processor_loop, processor_thread,
}
use i_mx6ull_water_qualit.Processor.Passing.{
  between, Passed, passes, idles, waits_on, processor_round-Passed,
}
use i_mx6ull_water_qualit.Processor.Sees.{
  IsTimely, not_waiting, lit, words, Follows, observe-Follows,
}

module _ {F : Type 0} (float : Float F) (thresholds : Threshold F) (alarm_fd : ℤ)
    (blank : Sample F) where
  -- The samples `ys` are those that the rounds pop, the newest first, before `xs`.
  abbrev pub Pops : List (Round F) → Processing F → List (Sample F) → List (Sample F) → Type 0
  Pops [] s xs ys = ys ≡ xs
  Pops (round ∷ rounds) s xs ys =
      (mid : Processing F) × (processor_round float thresholds alarm_fd round s ≡ done (some mid))
      × (((x : Sample F) × (queue : SampleQueue (Sample F)) × (pop s.raw_queue true (pos 500)
                round.pop_wakes
              ≡ done (some (success, some x, some queue)))
            × Pops rounds mid (x ∷ xs) ys)
          ⊎ ((queue : SampleQueue (Sample F)) × (pop s.raw_queue true (pos 500) round.pop_wakes
                ≡ done (some (failure, none, some queue)))
              × (mid.sample_counter ≡ s.sample_counter)
              × Pops rounds mid xs ys))

  -- how the loop ends: it has processed some samples
  abbrev pub Ends :
      List (Round F) → Processing F → List (Sample F) → Run (Option (Processing F)) → Type 0
  Ends rounds s before result =
      (xs : List (Sample F)) × (after : Processing F) × (result ≡ done (some after))
      × Follows float thresholds alarm_fd blank xs after
      × Pops rounds s before xs

  one_round :
      (round : Round F) (rounds : List (Round F)) (s : Processing F)
      (result : Run (Option (Processing F)))
      → processor_round float thresholds alarm_fd round s ≡ result
      → processor_loop float thresholds alarm_fd (round ∷ rounds) s ≡ (
          result >>= (λ next. elim next [
            | none ↦ done none
            | some t ↦ processor_loop float thresholds alarm_fd rounds t
          ]))
  unfolding processor_loop
  one_round round rounds s result e = rw e refl

  -- the context between two queues
  abbrev joined : SampleQueue (Sample F) → SampleQueue (Sample F) → Processing F → Processing F
  joined raw store s = between float thresholds alarm_fd blank raw store s

  abbrev seen : Sample F → Processing F → Processing F
  seen x s = observe float thresholds alarm_fd (alarm_of float thresholds alarm_fd x) s

  joined-Follows :
      (raw store : SampleQueue (Sample F)) (xs : List (Sample F)) (s : Processing F)
      → Follows float thresholds alarm_fd blank xs s
      → Follows float thresholds alarm_fd blank xs (joined raw store s)
  joined-Follows raw store xs s t = record {
    locals = t.locals;
    light = t.light;
    counter = t.counter;
  }

  joined-Follows_inv :
      (raw store : SampleQueue (Sample F)) (xs : List (Sample F)) (s : Processing F)
      → Follows float thresholds alarm_fd blank xs (joined raw store s)
      → Follows float thresholds alarm_fd blank xs s
  joined-Follows_inv raw store xs s t = record {
    locals = t.locals;
    light = t.light;
    counter = t.counter;
  }

  -- what the loop over `rounds` does from any context
  abbrev LoopEnds : List (Round F) → Type 0
  LoopEnds rounds =
      All IsTimely rounds
      → (raw store : SampleQueue (Sample F)) (f g : Fifo (Sample F)) (xs : List (Sample F))
        (s : Processing F)
      → Represents blank raw f
      → Represents blank store g
      → Follows float thresholds alarm_fd blank xs (joined raw store s)
      → Ends rounds (joined raw store s) xs
          (processor_loop float thresholds alarm_fd rounds (joined raw store s))

  after_round :
      (round : Round F) (rounds : List (Round F)) (raw store : SampleQueue (Sample F))
      (f g : Fifo (Sample F)) (xs : List (Sample F)) (s : Processing F)
      (result : Run (Option (Processing F)))
      → Represents blank store g
      → Follows float thresholds alarm_fd blank xs (joined raw store s)
      → IsTimely round
      → All IsTimely rounds
      → LoopEnds rounds
      → processor_round float thresholds alarm_fd round (joined raw store s) ≡ result
      → Passed float thresholds alarm_fd blank round raw store f g s result
      → Ends
          (round ∷ rounds)
          (joined raw store s)
          xs
          (processor_loop float thresholds alarm_fd (round ∷ rounds) (joined raw store s))
  after_round round rounds raw store f g xs s result t h timely all loop w
        (passes k j x rest raw_after store_after items popping e r2 t2) =
      let (ys, after, returns, follows, pops) =
        loop all raw_after store_after _ _ (x ∷ xs) (seen x s) r2 t2 (
          joined-Follows raw_after store_after (x ∷ xs) (seen x s) (
            observe-Follows float thresholds alarm_fd blank x xs s
              (joined-Follows_inv raw store xs s h))) in
      (
        ys,
        after,
        one_round round rounds _ _ (w ∙ e) ∙ returns,
        follows,
        (joined raw_after store_after (seen x s), w ∙ e, inl (x, raw_after, popping, pops)),
      )
  after_round round rounds raw store f g xs s result t h timely all loop w
        (idles k raw_after why failing e r2) =
      let (ys, after, returns, follows, pops) =
        loop all raw_after store _ g xs s r2 t
          (joined-Follows raw_after store xs s (joined-Follows_inv raw store xs s h)) in
      (
        ys,
        after,
        one_round round rounds _ _ (w ∙ e) ∙ returns,
        follows,
        (joined raw_after store s, w ∙ e, inr (raw_after, failing, refl, pops)),
      )
  after_round round rounds raw store f g xs s result t h timely all loop w (waits_on e why) =
      absurd (elim why [
        | inl long ↦ not_waiting (pos 500) round.pop_wakes timely.0 long
        | inr long ↦ not_waiting (pos 100) round.push_wakes timely.1 long
      ])

  processor_loop-Ends : (rounds : List (Round F)) → LoopEnds rounds
  unfolding processor_loop
  processor_loop-Ends [] timely raw store f g xs s r t h = (xs, joined raw store s, refl, h, refl)
  processor_loop-Ends (round ∷ rounds) timely raw store f g xs s r t h =
      after_round round rounds raw store f g xs s
        (processor_round float thresholds alarm_fd round (joined raw store s)) t h timely.0 timely.1
        (processor_loop-Ends rounds) refl
        (processor_round-Passed float thresholds alarm_fd blank round raw store f g s r t)

  -- the thread's context at its start
  abbrev pub starting : SampleQueue (Sample F) → SampleQueue (Sample F) → Processing F
  starting raw store = record {
    raw_queue = some raw;
    store_queue = some store;
    sample_counter = 0;
    led = led_start;
    device = [];
  }

  start-Follows :
      (raw store : SampleQueue (Sample F))
      → Follows float thresholds alarm_fd blank [] (starting raw store)
  unfolding led_after device_after
  start-Follows raw store = record { locals = refl; light = refl; counter = refl }

-- The thread on two queues that are valid and an open LED device that is off: whatever the other
-- threads do during its waits, if each call has a wait that times out, then the thread returns when
-- it is told to stop, nothing has been accessed out of bounds, and `led_on` and the device are what
-- the debouncing rule says of the alarm words of the samples that its rounds have popped: each round
-- pops one of them, or its pop returns -1.
pub processor_thread_lights :
    {F : Type 0} (float : Float F) (thresholds : Threshold F) (fd : ℕ) (blank : Sample F)
    (rounds : List (Round F)) (raw store : SampleQueue (Sample F)) (f g : Fifo (Sample F))
    → Represents blank raw f
    → Represents blank store g
    → All IsTimely rounds
    → (xs : List (Sample F)) × (after : Processing F) × (processor_thread float thresholds
          (pos fd)
          rounds
          (starting float thresholds (pos fd) blank raw store)
        ≡ done (some after))
      × Pops float thresholds
          (pos fd)
          blank
          rounds
          (starting float thresholds (pos fd) blank raw store)
          []
          xs
      × (after.sample_counter ≡ length xs)
      × (after.led.led_on ≡ should_light (words float thresholds (pos fd) blank xs))
      × (lit after.device ≡ should_light (words float thresholds (pos fd) blank xs))
unfolding processor_thread
processor_thread_lights float thresholds fd blank rounds raw store f g r t timely =
    let (xs, after, e, h, pops) =
      processor_loop-Ends float thresholds (pos fd) blank rounds timely raw store f g []
        (starting float thresholds (pos fd) blank raw store) r t
        (start-Follows float thresholds (pos fd) blank raw store) in
    let rule = debounce_rule fd 0 (words float thresholds (pos fd) blank xs) in
    (xs, after, e, pops, h.counter, ap (λ l. l.led_on) h.locals ∙ rule.0, h.light ∙ rule.1)

-- ===== src/Processor/Passing.antt =====
-- One round of `processor_thread`: what goes from one queue to the other.
use mathlib.Core.Path.{subst}
use i_mx6ull_water_qualit.Base.{
  ℕ, ◌≡◌, ◌⊎◌, inl, inr, refl, ap, ◌∙◌, true, List, [], ◌∷◌, Option, none, some, Run, done,
}
use i_mx6ull_water_qualit.Base.Int.{ℤ, pos}
use i_mx6ull_water_qualit.Float.{Float}
use i_mx6ull_water_qualit.Sample.{Sample}
use i_mx6ull_water_qualit.SampleQueue.{SampleQueue, Wake, success, failure}
use i_mx6ull_water_qualit.SampleQueue.Wait.{push, pop}
use i_mx6ull_water_qualit.SampleQueue.Fifo
use i_mx6ull_water_qualit.SampleQueue.Fifo.{Fifo}
use i_mx6ull_water_qualit.SampleQueue.Front.{without_first}
use i_mx6ull_water_qualit.SampleQueue.Refine.{Represents}
use i_mx6ull_water_qualit.SampleQueue.Blocking.{Waits, push_linearizes}
use i_mx6ull_water_qualit.SampleQueue.Taking.{
  Taken, takes, leaves, never_returns, left_by, pop_linearizes,
}
use i_mx6ull_water_qualit.SampleQueue.Waiting.{GivesUp}
use i_mx6ull_water_qualit.Processor.{Threshold, mark_alarm}
use i_mx6ull_water_qualit.Processor.Thread.{
  Processing, Round, alarm_of, observe, pass_on, process, process_popped, processor_round,
}

module _ {F : Type 0} (float : Float F) (thresholds : Threshold F) (alarm_fd : ℤ)
    (blank : Sample F) where
  -- the context with its two queues
  abbrev pub between : SampleQueue (Sample F) → SampleQueue (Sample F) → Processing F → Processing F
  between raw store s = record s { raw_queue = some raw; store_queue = some store }

  -- the sample that goes on
  abbrev pub marked : Sample F → Sample F
  marked x = mark_alarm (alarm_of float thresholds alarm_fd x) x

  -- how a round can end, with the two queues as `f` and `g`
  pub data Passed (round : Round F) (raw store : SampleQueue (Sample F)) (f g : Fifo (Sample F))
      (s : Processing F) : Run (Option (Processing F)) → Type 0 where
    passes :
        (k j : ℕ) (x : Sample F) (rest : List (Sample F))
        (raw_after store_after : SampleQueue (Sample F)) {result : Run (Option (Processing F))}
        → (left_by blank k round.pop_wakes raw f).items ≡ x ∷ rest
        → pop (some raw) true (pos 500) round.pop_wakes
          ≡ done (some (success, some x, some raw_after))
        → result
          ≡ done (
              some (
                between raw_after store_after
                  (observe float thresholds alarm_fd (alarm_of float thresholds alarm_fd x) s)))
        → Represents blank raw_after (without_first rest (left_by blank k round.pop_wakes raw f))
        → Represents blank store_after
            (Fifo.push store.capacity (marked x) (left_by blank j round.push_wakes store g)).1
        → Passed round raw store f g s result
    idles :
        (k : ℕ) (raw_after : SampleQueue (Sample F)) {result : Run (Option (Processing F))}
        → ((left_by blank k round.pop_wakes raw f).items ≡ [])
          ⊎ GivesUp (pos 500) k round.pop_wakes (left_by blank k round.pop_wakes raw f)
        → pop (some raw) true (pos 500) round.pop_wakes
          ≡ done (some (failure, none, some raw_after))
        → result ≡ done (some (between raw_after store s))
        → Represents blank raw_after (left_by blank k round.pop_wakes raw f)
        → Passed round raw store f g s result
    waits_on :
        {result : Run (Option (Processing F))}
        → result ≡ done none
        → Waits (pos 500) round.pop_wakes ⊎ Waits (pos 100) round.push_wakes
        → Passed round raw store f g s result

  pub popped_some :
      (round : Round F) (raw after store : SampleQueue (Sample F)) (s : Processing F) (x : Sample F)
      → pop (some raw) true (pos 500) round.pop_wakes ≡ done (some (success, some x, some after))
      → processor_round float thresholds alarm_fd round (between raw store s)
        ≡ process float thresholds alarm_fd round.push_wakes x (between after store s)
  unfolding processor_round process_popped
  popped_some round raw after store s x e = rw e refl

  popped_none :
      (round : Round F) (raw after store : SampleQueue (Sample F)) (s : Processing F)
      → pop (some raw) true (pos 500) round.pop_wakes ≡ done (some (failure, none, some after))
      → processor_round float thresholds alarm_fd round (between raw store s)
        ≡ done (some (between after store s))
  unfolding processor_round process_popped
  popped_none round raw after store s e = rw e refl

  popped_never :
      (round : Round F) (raw store : SampleQueue (Sample F)) (s : Processing F)
      → pop (some raw) true (pos 500) round.pop_wakes ≡ done none
      → processor_round float thresholds alarm_fd round (between raw store s) ≡ done none
  unfolding processor_round
  popped_never round raw store s e = rw e refl

  pub pushed :
      (wakes : List (Wake (Sample F))) (raw store after : SampleQueue (Sample F)) (s : Processing F)
      (x : Sample F) (result : ℤ)
      → push (some store) (some (marked x)) (pos 100) wakes ≡ done (some (result, some after))
      → process float thresholds alarm_fd wakes x (between raw store s)
        ≡ done (
            some (
              between raw after
                (observe float thresholds alarm_fd (alarm_of float thresholds alarm_fd x) s)))
  unfolding process pass_on
  pushed wakes raw store after s x result e = rw e refl

  still_pushing :
      (wakes : List (Wake (Sample F))) (raw store : SampleQueue (Sample F)) (s : Processing F)
      (x : Sample F)
      → push (some store) (some (marked x)) (pos 100) wakes ≡ done none
      → process float thresholds alarm_fd wakes x (between raw store s) ≡ done none
  unfolding process pass_on
  still_pushing wakes raw store s x e = rw e refl

  -- a round that has a sample
  with_sample :
      (round : Round F) (raw store : SampleQueue (Sample F)) (f g : Fifo (Sample F))
      (s : Processing F) (k : ℕ) (after : SampleQueue (Sample F)) (x : Sample F)
      (rest : List (Sample F))
      → Represents blank store g
      → (left_by blank k round.pop_wakes raw f).items ≡ x ∷ rest
      → pop (some raw) true (pos 500) round.pop_wakes ≡ done (some (success, some x, some after))
      → Represents blank after (without_first rest (left_by blank k round.pop_wakes raw f))
      → Passed round raw store f g s
          (processor_round float thresholds alarm_fd round (between raw store s))
  with_sample round raw store f g s k after x rest t items e r =
      let popping = popped_some round raw after store s x e in
      elim (push_linearizes blank (pos 100) round.push_wakes store g (marked x) t) [
        | inl (j, store_after, e2, r2) ↦
            passes k j x rest after store_after items e
              (popping ∙ pushed round.push_wakes after store store_after s x _ e2) r r2
        | inr (e2, waiting) ↦
            waits_on (popping ∙ still_pushing round.push_wakes after store s x e2) (inr waiting)
      ]

  taken_items :
      (round : Round F) (raw store : SampleQueue (Sample F)) (f g : Fifo (Sample F))
      (s : Processing F) (k : ℕ) (after : SampleQueue (Sample F)) (items : List (Sample F))
      → Represents blank store g
      → (left_by blank k round.pop_wakes raw f).items ≡ items
      → pop (some raw) true (pos 500) round.pop_wakes
        ≡ done (
            some (
              (Fifo.pop (left_by blank k round.pop_wakes raw f)).0,
              (Fifo.pop (left_by blank k round.pop_wakes raw f)).1,
              some after,
            ))
      → Represents blank after (Fifo.pop (left_by blank k round.pop_wakes raw f)).2
      → Passed round raw store f g s
          (processor_round float thresholds alarm_fd round (between raw store s))
  taken_items round raw store f g s k after [] t i e r =
      let nothing = Fifo.pop-nil (left_by blank k round.pop_wakes raw f) i in
      let failing = e ∙ ap (λ p. done (some (p.0, p.1, some after))) nothing in
      idles k after (inl i) failing (popped_none round raw after store s failing)
        (subst (λ p. Represents blank after p.2) nothing r)
  taken_items round raw store f g s k after (x ∷ rest) t i e r =
      let first = Fifo.pop-cons (left_by blank k round.pop_wakes raw f) x rest i in
      with_sample round raw store f g s k after x rest t i
        (e ∙ ap (λ p. done (some (p.0, p.1, some after))) first)
        (subst (λ p. Represents blank after p.2) first r)

  -- A round of the processor, however long its calls wait, takes the oldest sample of the raw queue
  -- as the other threads have left it, counts it, debounces the LED with its alarm word, and pushes
  -- it, marked with that word, onto the store queue as they have left that; or its pop returns -1,
  -- because the raw queue is then empty or the last of its waits has timed out, and nothing else
  -- changes; or one of its calls waits for ever, with no wait that times out.
  pub processor_round-Passed :
      (round : Round F) (raw store : SampleQueue (Sample F)) (f g : Fifo (Sample F))
      (s : Processing F)
      → Represents blank raw f
      → Represents blank store g
      → Passed round raw store f g s
          (processor_round float thresholds alarm_fd round (between raw store s))
  processor_round-Passed round raw store f g s r t =
      by_pop (pop (some raw) true (pos 500) round.pop_wakes) refl
        (pop_linearizes blank (pos 500) round.pop_wakes raw f r)
    where
      by_pop :
          (result : Run (Option (ℤ × Option (Sample F) × Option (SampleQueue (Sample F)))))
          → pop (some raw) true (pos 500) round.pop_wakes ≡ result
          → Taken blank (pos 500) round.pop_wakes raw f result
          → Passed round raw store f g s
              (processor_round float thresholds alarm_fd round (between raw store s))
      by_pop result w (takes k after e after-Represents _) =
          taken_items round raw store f g s k after _ t refl (w ∙ e) after-Represents
      by_pop result w (leaves k after e after-Represents _ why) =
          idles k after (inr why) (w ∙ e) (popped_none round raw after store s (w ∙ e))
            after-Represents
      by_pop result w (never_returns e waiting) =
          waits_on (popped_never round raw store s (w ∙ e)) (inl waiting)

-- ===== src/SampleQueue/Taking.antt =====
-- A pop that waits, and the queue as the other threads have left it.
use i_mx6ull_water_qualit.Base.{ℕ, ◌≡◌, refl, ◌∙◌, true, List, Option, none, some, Run, done}
use i_mx6ull_water_qualit.Base.Int.{ℤ}
use i_mx6ull_water_qualit.SampleQueue.{SampleQueue, Wake, failure}
use i_mx6ull_water_qualit.SampleQueue.Wait.{Waited, wait_not_empty, finish_pop, pop}
use i_mx6ull_water_qualit.SampleQueue.Fifo
use i_mx6ull_water_qualit.SampleQueue.Fifo.{Fifo}
use i_mx6ull_water_qualit.SampleQueue.Refine.{Represents}
use i_mx6ull_water_qualit.SampleQueue.Refine.Pop.{commit_pop-Popped}
use i_mx6ull_water_qualit.SampleQueue.Waiting.{
  GivesUp, Ended, ready, quits, still_waits, wait_not_empty-Ended,
}
use i_mx6ull_water_qualit.SampleQueue.Blocking.{meanwhile, Waits}

module _ {A : Type 0} (blank : A) where
  -- the bounded queue as the operations of the first `k` waits have left it
  abbrev pub left_by : ℕ → List (Wake A) → SampleQueue A → Fifo A → Fifo A
  left_by k wakes q f = Fifo.run q.capacity (meanwhile k wakes) f

  -- what a pop does
  pub data Taken (timeout : ℤ) (wakes : List (Wake A)) (q : SampleQueue A) (f : Fifo A)
      : Run (Option (ℤ × Option A × Option (SampleQueue A))) → Type 0 where
    takes :
        (k : ℕ) (after : SampleQueue A)
        {result : Run (Option (ℤ × Option A × Option (SampleQueue A)))}
        → result
          ≡ done (
              some (
                (Fifo.pop (left_by k wakes q f)).0,
                (Fifo.pop (left_by k wakes q f)).1,
                some after,
              ))
        → Represents blank after (Fifo.pop (left_by k wakes q f)).2
        → after.capacity ≡ q.capacity
        → Taken timeout wakes q f result
    leaves :
        (k : ℕ) (after : SampleQueue A)
        {result : Run (Option (ℤ × Option A × Option (SampleQueue A)))}
        → result ≡ done (some (failure, none, some after))
        → Represents blank after (left_by k wakes q f)
        → after.capacity ≡ q.capacity
        → GivesUp timeout k wakes (left_by k wakes q f)
        → Taken timeout wakes q f result
    never_returns :
        {result : Run (Option (ℤ × Option A × Option (SampleQueue A)))}
        → result ≡ done none
        → Waits timeout wakes
        → Taken timeout wakes q f result

  pop-Taken :
      (timeout : ℤ) (wakes : List (Wake A)) (q : SampleQueue A) (f : Fifo A)
      (result : Run (Waited A))
      → wait_not_empty timeout wakes q ≡ result
      → Ended blank timeout wakes q f result
      → Taken timeout wakes q f (pop (some q) true timeout wakes)
  unfolding pop finish_pop
  pop-Taken timeout wakes q f result w (ready k r e s c full) =
      let p = commit_pop-Popped blank r (Fifo.run q.capacity (meanwhile k wakes) f) s full in
      takes k p.after (rw (w, e, p.returns) refl) p.represents (p.same_capacity ∙ c)
  pop-Taken timeout wakes q f result w (quits k r e s c why) = leaves k r (rw (w, e) refl) s c why
  pop-Taken timeout wakes q f result w (still_waits e waiting) =
      never_returns (rw (w, e) refl) waiting

  -- A pop, however long it waits, either is one pop of the bounded queue as the operations of its
  -- first `k` waits have left it; or returns -1 and leaves it as it then is, because its timeout
  -- is not positive and the queue is empty or because the last of these waits has timed out. It
  -- waits for ever only if its timeout is positive and none of its waits times out.
  pub pop_linearizes :
      (timeout : ℤ) (wakes : List (Wake A)) (q : SampleQueue A) (f : Fifo A)
      → Represents blank q f
      → Taken timeout wakes q f (pop (some q) true timeout wakes)
  pop_linearizes timeout wakes q f s =
      pop-Taken timeout wakes q f (wait_not_empty timeout wakes q) refl
        (wait_not_empty-Ended blank timeout wakes q f s)

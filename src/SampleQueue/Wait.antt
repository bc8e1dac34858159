-- ===== src/SampleQueue/Wait.antt =====
-- `sample_queue_push`, `sample_queue_pop` and `sample_queue_shutdown` of app/src/sample_queue.c, with
-- their wait loops. A result `none` is a call that still waits when `wakes` ends.
use i_mx6ull_water_qualit.Base.{
  ◌==◌, leb, if◌then◌else◌, ◌&&◌, Bool, true, false, not, List, [], ◌∷◌, Option, none, some, Run,
  done, ◌>>=◌,
}
use i_mx6ull_water_qualit.Base.Int.{ℤ, pos, ltb_ℤ}
use i_mx6ull_water_qualit.SampleQueue.{SampleQueue, Wake, failure}
use i_mx6ull_water_qualit.SampleQueue.Commit.{commit_push, commit_pop, shut_down, run}

-- Where the wait loop of a pop leaves: it still waits, it has returned -1, or it goes on.
pub data Waited (A : Type 0) : Type 0 where
  waits : Waited A
  gives_up : SampleQueue A → Waited A
  goes_on : SampleQueue A → Waited A

module _ {A : Type 0} where
  -- The wait loop of `sample_queue_push`: the queue at its end, or `none` while it still waits.
  unfoldable pub wait_not_full : ℤ → List (Wake A) → SampleQueue A → Run (Option (SampleQueue A))
  wait_not_full timeout [] q =
      if leb q.capacity q.count && not q.shutdown
      then (if ltb_ℤ (pos 0) timeout then done none else done (some q))
      else done (some q)
  wait_not_full timeout (wake ∷ wakes) q =
      if leb q.capacity q.count && not q.shutdown
      then (if ltb_ℤ (pos 0) timeout
          then run wake.others q >>= (λ r. elim wake.timed_out [
            | true ↦ done (some r)
            | false ↦ wait_not_full timeout wakes r
          ])
          else done (some q))
      else done (some q)

  -- `none` is a null pointer, for the queue and for the sample.
  unfoldable pub push :
      Option (SampleQueue A)
      → Option A
      → ℤ
      → List (Wake A)
      → Run (Option (ℤ × Option (SampleQueue A)))
  push none sample timeout wakes = done (some (failure, none))
  push (some q) none timeout wakes = done (some (failure, some q))
  push (some q) (some sample) timeout wakes = wait_not_full timeout wakes q >>= (λ waited.
      elim waited [
        | none ↦ done none
        | some r ↦ commit_push r sample >>= (λ result. done (some (result.0, some result.1)))
      ])

  -- The wait loop of `sample_queue_pop`.
  unfoldable pub wait_not_empty : ℤ → List (Wake A) → SampleQueue A → Run (Waited A)
  wait_not_empty timeout [] q =
      if q.count == 0 && not q.shutdown
      then (if ltb_ℤ (pos 0) timeout then done waits else done (gives_up q))
      else done (goes_on q)
  wait_not_empty timeout (wake ∷ wakes) q =
      if q.count == 0 && not q.shutdown
      then (if ltb_ℤ (pos 0) timeout
          then run wake.others q >>= (λ r. elim wake.timed_out [
            | true ↦ done (gives_up r)
            | false ↦ wait_not_empty timeout wakes r
          ])
          else done (gives_up q))
      else done (goes_on q)

  -- from the test after the loop on
  unfoldable pub finish_pop : Waited A → Run (Option (ℤ × Option A × Option (SampleQueue A)))
  finish_pop waits = done none
  finish_pop (gives_up q) = done (some (failure, none, some q))
  finish_pop (goes_on q) =
      commit_pop q >>= (λ result. done (some (result.0, result.1, some result.2)))

  -- `to_sample` says whether the pointer for the result is there.
  unfoldable pub pop :
      Option (SampleQueue A)
      → Bool
      → ℤ
      → List (Wake A)
      → Run (Option (ℤ × Option A × Option (SampleQueue A)))
  pop none to_sample timeout wakes = done (some (failure, none, none))
  pop (some q) false timeout wakes = done (some (failure, none, some q))
  pop (some q) true timeout wakes = wait_not_empty timeout wakes q >>= finish_pop

  unfoldable pub queue_shutdown : Option (SampleQueue A) → Option (SampleQueue A)
  queue_shutdown none = none
  queue_shutdown (some q) = some (shut_down q)

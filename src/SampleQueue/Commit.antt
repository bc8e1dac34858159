-- ===== src/SampleQueue/Commit.antt =====
-- The critical sections of app/src/sample_queue.c, and what the other threads do one after the other.
use i_mx6ull_water_qualit.Base.{
  ◌+◌, ◌-◌, ◌%◌, ◌==◌, leb, if◌then◌else◌, ◌&&◌, true, List, [], ◌∷◌, Option, none, some, Run, done,
  ◌>>=◌, load, store, u32,
}
use i_mx6ull_water_qualit.Base.Int.{ℤ}
use i_mx6ull_water_qualit.SampleQueue.{SampleQueue, Op, pushes, pops, shuts_down, success, failure}

module _ {A : Type 0} where
  -- A full queue loses its oldest sample.
  unfoldable pub make_room : SampleQueue A → SampleQueue A
  make_room q =
      if leb q.capacity q.count
      then record q {
        tail = (q.tail + 1) % q.capacity;
        count = q.count - 1;
        overflow_count = u32 (q.overflow_count + 1);
      }
      else q

  -- `sample_queue_push` after its wait loop
  unfoldable pub commit_push : SampleQueue A → A → Run (ℤ × SampleQueue A)
  commit_push q sample = if q.shutdown then done (failure, q) else (do
    let r = make_room q
    samples ← store r.samples r.head sample
    done (
      success,
      record r {
        samples = samples;
        head = (r.head + 1) % r.capacity;
        count = r.count + 1;
        push_count = u32 (r.push_count + 1);
      },
    ))

  -- `sample_queue_pop` after its wait loop; the option is what goes through `sample`
  unfoldable pub commit_pop : SampleQueue A → Run (ℤ × Option A × SampleQueue A)
  commit_pop q = if q.shutdown && q.count == 0 then done (failure, none, q) else (do
    sample ← load q.samples q.tail
    done (
      success,
      some sample,
      record q {
        tail = (q.tail + 1) % q.capacity;
        count = q.count - 1;
        pop_count = u32 (q.pop_count + 1);
      },
    ))

  -- `sample_queue_shutdown` of a queue that is there
  unfoldable pub shut_down : SampleQueue A → SampleQueue A
  shut_down q = record q { shutdown = true }

  -- An operation that another thread completes. A pop that finds nothing changes nothing.
  unfoldable pub step : Op A → SampleQueue A → Run (SampleQueue A)
  step (pushes sample) q = commit_push q sample >>= (λ r. done r.1)
  step pops q = if q.count == 0 then done q else commit_pop q >>= (λ r. done r.2)
  step shuts_down q = done (shut_down q)

  unfoldable pub run : List (Op A) → SampleQueue A → Run (SampleQueue A)
  run [] q = done q
  run (op ∷ ops) q = step op q >>= run ops

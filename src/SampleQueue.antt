-- ===== src/SampleQueue.antt =====
-- app/src/sample_queue.c and app/include/sample_queue.h: the bounded queue between two threads.
-- A critical section is one step, since the code holds the mutex from the last test of its wait
-- loop to its return. `pthread_cond_timedwait` gives the mutex away: what the other threads do
-- meanwhile is a list of operations in the argument `wakes`.
-- The samples are only moved, so their type is a parameter.
-- `Commit` has the critical sections, `Wait` the wait loops round them; the other children prove.
pub mod Commit
pub mod Wait
pub mod Deadline
pub mod Segment
pub mod Fifo
pub mod Valid
pub mod Refine
pub mod Front
pub mod Blocking
pub mod Waiting
pub mod Taking
pub mod History
mod Tests
use i_mx6ull_water_qualit.Base.{
  ℕ, ◌==◌, if◌then◌else◌, ◌||◌, Bool, false, not, List, Option, none, some, replicate,
}
use i_mx6ull_water_qualit.Base.Int.{ℤ, pos, negsuc}

-- `sample_queue_t`. The mutex and the condition variables have no field.
pub record SampleQueue (A : Type 0) : Type 0 where
  pub samples : List A
  pub capacity : ℕ
  pub head : ℕ
  pub tail : ℕ
  pub count : ℕ
  pub shutdown : Bool
  pub overflow_count : ℕ
  pub push_count : ℕ
  pub pop_count : ℕ

-- What another thread can complete while one waits.
pub data Op (A : Type 0) : Type 0 where
  pushes : A → Op A
  pops : Op A
  shuts_down : Op A

-- A return of `pthread_cond_timedwait`: what happened before it, and whether it is ETIMEDOUT.
pub record Wake (A : Type 0) : Type 0 where
  pub others : List (Op A)
  pub timed_out : Bool

-- the results 0 and -1
abbrev pub success : ℤ
success = pos 0

abbrev pub failure : ℤ
failure = negsuc 0

-- `calloc_queue` and `calloc_samples` say whether the two allocations succeed; `blank` is the
-- sample of zero bytes.
unfoldable pub create : {A : Type 0} → ℤ → Bool → Bool → A → Option (SampleQueue A)
create (negsuc _) calloc_queue calloc_samples blank = none
create (pos capacity) calloc_queue calloc_samples blank =
    if capacity == 0 || not calloc_queue || not calloc_samples
    then none
    else some (record {
      samples = replicate capacity blank;
      capacity = capacity;
      head = 0;
      tail = 0;
      count = 0;
      shutdown = false;
      overflow_count = 0;
      push_count = 0;
      pop_count = 0;
    })

-- The four accessors; `none` is a null pointer.
module _ {A : Type 0} where
  unfoldable pub queue_count : Option (SampleQueue A) → ℕ
  queue_count none = 0
  queue_count (some q) = q.count

  unfoldable pub queue_overflow_count : Option (SampleQueue A) → ℕ
  queue_overflow_count none = 0
  queue_overflow_count (some q) = q.overflow_count

  unfoldable pub queue_push_count : Option (SampleQueue A) → ℕ
  queue_push_count none = 0
  queue_push_count (some q) = q.push_count

  unfoldable pub queue_pop_count : Option (SampleQueue A) → ℕ
  queue_pop_count none = 0
  queue_pop_count (some q) = q.pop_count

-- ===== src/SampleQueue/Tests.antt =====
-- Queues of numbers: runs of the operations, and the theorems at them.
use i_mx6ull_water_qualit.Base.{
  ℕ, ◌+◌, ◌-◌, ◌*◌, ◌^◌, ◌≤◌, ◌<◌, ◌≡◌, ◌⊎◌, inl, refl, arith, true, false, List, [], ◌∷◌, none,
  some, done, drop, map, u32,
}
use i_mx6ull_water_qualit.Base.Int.{pos}
use i_mx6ull_water_qualit.SampleQueue.{
  SampleQueue, Op, Wake, pushes, pops, shuts_down, create, success,
}
use i_mx6ull_water_qualit.SampleQueue.Commit.{make_room, commit_push, commit_pop, step, run}
use i_mx6ull_water_qualit.SampleQueue.Wait.{wait_not_full, push, wait_not_empty, finish_pop, pop}
use i_mx6ull_water_qualit.SampleQueue.Deadline.{nanoseconds, timespec_add_ms, timespec_add_ms_exact}
use i_mx6ull_water_qualit.SampleQueue.Fifo
use i_mx6ull_water_qualit.SampleQueue.Fifo.{Fifo}
use i_mx6ull_water_qualit.SampleQueue.Valid.{contents}
use i_mx6ull_water_qualit.SampleQueue.Refine.{Represents}
use i_mx6ull_water_qualit.SampleQueue.Refine.Pop.{Popped, commit_pop-Popped}
use i_mx6ull_water_qualit.SampleQueue.Blocking.{Waits, meanwhile, push_linearizes}
use i_mx6ull_water_qualit.SampleQueue.Taking.{Taken, pop_linearizes}
use i_mx6ull_water_qualit.SampleQueue.History.{run-create, run-create-pushes}

-- 7, then 8, round the end of the array
abbrev full : SampleQueue ℕ
full = record {
  samples = 8 ∷ 7 ∷ [];
  capacity = 2;
  head = 1;
  tail = 1;
  count = 2;
  shutdown = false;
  overflow_count = 1;
  push_count = 3;
  pop_count = 0;
}

abbrev full_fifo : Fifo ℕ
full_fifo = record { items = 7 ∷ 8 ∷ []; closed = false; pushed = 3; popped = 0; dropped = 1 }

full-Represents : Represents 0 full full_fifo
full-Represents = record {
  valid = omega arith;
  held = refl;
  closed = refl;
  pushed = refl;
  popped = refl;
  dropped = refl;
}

-- one wait that ends early and finds the queue full again, one that finds room
abbrev two_waits : List (Wake ℕ)
two_waits =
    record { others = pops ∷ pushes 9 ∷ []; timed_out = false }
    ∷ record { others = pops ∷ []; timed_out = false }
    ∷ []

push_waits_twice :
    push (some full) (some 5) (pos 100) two_waits
    ≡ done (
        some (
          success,
          some (record full {
            samples = 5 ∷ 9 ∷ [];
            head = 1;
            tail = 1;
            push_count = 5;
            pop_count = 2;
          }),
        ))
unfolding push wait_not_full run step commit_push make_room commit_pop
push_waits_twice = refl

push_still_waits : push (some full) (some 5) (pos 100) [] ≡ done none
unfolding push wait_not_full
push_still_waits = refl

push_without_timeout :
    push (some full) (some 5) (pos 0) []
    ≡ done (
        some (
          success,
          some (record full {
            samples = 8 ∷ 5 ∷ [];
            head = 0;
            tail = 0;
            overflow_count = 2;
            push_count = 4;
          }),
        ))
unfolding push wait_not_full commit_push make_room
push_without_timeout = refl

pop_oldest :
    pop (some full) true (pos 500) []
    ≡ done (some (success, some 7, some (record full { tail = 0; count = 1; pop_count = 1 })))
unfolding pop wait_not_empty finish_pop commit_pop
pop_oldest = refl

commit_pop-Popped_example : Popped 0 full full_fifo
commit_pop-Popped_example = commit_pop-Popped 0 full full_fifo full-Represents (inl (omega arith))

push_linearizes_example :
    ((k : ℕ) × (after : SampleQueue ℕ) × (push (some full) (some 5) (pos 100) two_waits
        ≡ done
            (some ((Fifo.push 2 5 (Fifo.run 2 (meanwhile k two_waits) full_fifo)).0, some after)))
      × Represents 0 after (Fifo.push 2 5 (Fifo.run 2 (meanwhile k two_waits) full_fifo)).1)
    ⊎ ((push (some full) (some 5) (pos 100) two_waits ≡ done none) × Waits (pos 100) two_waits)
push_linearizes_example = push_linearizes 0 (pos 100) two_waits full full_fifo 5 full-Represents

abbrev script : List (Op ℕ)
script = pushes 6 ∷ pushes 7 ∷ pushes 8 ∷ pops ∷ shuts_down ∷ pushes 9 ∷ []

run-create_example :
    (q r : SampleQueue ℕ) × (create (pos 2) true true 0 ≡ some q)
    × (run script q ≡ done r)
    × Represents 0 r (Fifo.run 2 script Fifo.empty)
    × (r.count ≤ 2)
    × (u32 (r.pop_count + r.overflow_count + r.count) ≡ r.push_count)
run-create_example = run-create 0 2 script (omega arith)

run-create-pushes_example :
    (q r : SampleQueue ℕ) × (create (pos 2) true true 0 ≡ some q)
    × (run (map pushes (6 ∷ 7 ∷ 8 ∷ [])) q ≡ done r)
    × (contents 0 r ≡ drop (3 - 2) (6 ∷ 7 ∷ 8 ∷ []))
run-create-pushes_example = run-create-pushes 0 2 (6 ∷ 7 ∷ 8 ∷ []) (omega arith)

timespec_add_ms_exact_example :
    let ts = timespec_add_ms (record { tv_sec = 7; tv_usec = 999999 }) 1500 in
    (ts.tv_sec * 1000000000 + ts.tv_nsec ≡ 7 * 1000000000 + 999999 * 1000 + 1500 * 1000000)
    × (ts.tv_nsec < 1000000000)
    × (nanoseconds 999999 1500 < 2 ^ 31)
timespec_add_ms_exact_example = timespec_add_ms_exact (record { tv_sec = 7; tv_usec = 999999 }) 1500

-- The queue was emptied; a sample comes with the second wait, and another thread takes it; the third
-- wait times out.
abbrev no_samples : SampleQueue ℕ
no_samples = record full { count = 0; head = 1; pop_count = 2 }

abbrev no_items : Fifo ℕ
no_items = record full_fifo { items = []; popped = 2 }

no_samples-Represents : Represents 0 no_samples no_items
no_samples-Represents = record {
  valid = omega arith;
  held = refl;
  closed = refl;
  pushed = refl;
  popped = refl;
  dropped = refl;
}

abbrev three_waits : List (Wake ℕ)
three_waits =
    record { others = []; timed_out = false }
    ∷ record { others = pushes 9 ∷ pops ∷ []; timed_out = false }
    ∷ record { others = []; timed_out = true }
    ∷ []

pop_linearizes_example :
    Taken 0
      (pos 500)
      three_waits
      no_samples
      no_items
      (pop (some no_samples) true (pos 500) three_waits)
pop_linearizes_example =
    pop_linearizes 0 (pos 500) three_waits no_samples no_items no_samples-Represents

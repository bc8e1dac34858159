-- ===== src/Store/Thread.antt =====
-- `sqlite_store_thread` of app/src/sqlite_store.c. The list of rounds says how the waits of each call
-- of `sample_queue_pop` went; a result `none` is a thread that still runs when the list ends.
use i_mx6ull_water_qualit.Base.{
  ℕ, ◌+◌, ◌%◌, ◌==◌, if◌then◌else◌, ◌&&◌, not, Bool, true, false, List, [], ◌∷◌, Option, none, some,
  Run, done, ◌>>=◌, u32,
}
use i_mx6ull_water_qualit.Base.Int.{ℤ, pos, ltb_ℤ, eqb_ℤ}
use i_mx6ull_water_qualit.Sample.{Sample}
use i_mx6ull_water_qualit.SampleQueue.{SampleQueue, Wake, queue_count}
use i_mx6ull_water_qualit.SampleQueue.Wait.{pop}
use i_mx6ull_water_qualit.Database.{Sqlite}
use i_mx6ull_water_qualit.Store.{sqlite_store_insert, sqlite_store_trim_cache}

-- `sqlite_store_ctx_t`; the constant fields `device_id` and `max_cache_count` are arguments.
-- `sample_counter` is an `int` that stays below the number of samples of a run.
pub record Storing (D F : Type 0) : Type 0 where
  pub store_queue : Option (SampleQueue (Sample F))
  pub db : Option D
  pub sample_counter : ℕ
  pub write_count : ℕ
  pub write_fail_count : ℕ

module _ {D F P : Type 0} (sqlite : Sqlite D F P) (device_id : Option (List ℕ)) where
  -- a sample that was after_pop
  unfoldable pub write_sample : Sample F → Storing D F → Storing D F
  write_sample sample s =
      let (result, db) = sqlite_store_insert sqlite s.db device_id (some sample) in
      if eqb_ℤ result (pos 0)
      then record s {
        db = db;
        sample_counter = s.sample_counter + 1;
        write_count = u32 (s.write_count + 1);
      }
      else record s {
        db = db;
        sample_counter = s.sample_counter + 1;
        write_fail_count = u32 (s.write_fail_count + 1);
      }

  -- The context after a pop and what is done with the sample, and whether there was one.
  unfoldable pub after_pop :
      ℤ × Option (Sample F) × Option (SampleQueue (Sample F)) → Storing D F → Bool × Storing D F
  unfolding write_sample
  after_pop (result, sample, queue) s =
      if not (eqb_ℤ result (pos 0))
      then (false, record s { store_queue = queue })
      else elim sample [
        | none ↦ (false, record s { store_queue = queue })
        | some sample ↦ (true, write_sample sample (record s { store_queue = queue }))
      ]

  -- `sample_queue_pop` with a timeout, and what follows it
  unfoldable pub take_sample :
      ℤ → List (Wake (Sample F)) → Storing D F → Run (Option (Bool × Storing D F))
  unfolding after_pop
  take_sample timeout wakes s =
      pop s.store_queue true timeout wakes
      >>= (λ result. elim result [ none ↦ done none | some p ↦ done (some (after_pop p s)) ])

  unfoldable pub trim_now : ℤ → Storing D F → Storing D F
  trim_now max_cache_count s =
      if ltb_ℤ (pos 0) max_cache_count && s.sample_counter % 100 == 0
      then record s { db = (sqlite_store_trim_cache sqlite s.db max_cache_count).1 }
      else s

  -- The loop until `shutdown` is seen, at the end of the list.
  unfoldable pub store_loop :
      ℤ → List (List (Wake (Sample F))) → Storing D F → Run (Option (Storing D F))
  unfolding take_sample trim_now
  store_loop max_cache_count [] s = done (some s)
  store_loop max_cache_count (wakes ∷ rounds) s = take_sample (pos 500) wakes s >>= (λ result.
      elim result [
        | none ↦ done none
        | some r ↦
            (if r.0
              then store_loop max_cache_count rounds (trim_now max_cache_count r.1)
              else store_loop max_cache_count rounds r.1)
      ])

  -- The loop that empties the queue.
  unfoldable pub store_drain :
      List (List (Wake (Sample F))) → Storing D F → Run (Option (Storing D F))
  unfolding take_sample
  store_drain [] s = if queue_count s.store_queue == 0 then done (some s) else done none
  store_drain (wakes ∷ rounds) s =
      if queue_count s.store_queue == 0
      then done (some s)
      else take_sample (pos 100) wakes s >>= (λ result. elim result [
        | none ↦ done none
        | some r ↦ (if r.0 then store_drain rounds r.1 else done (some r.1))
      ])

  -- The thread on a context that is there; `rounds` and `last` are the two loops.
  unfoldable pub sqlite_store_thread :
      ℤ
      → List (List (Wake (Sample F)))
      → List (List (Wake (Sample F)))
      → Storing D F
      → Run (Option (Storing D F))
  unfolding store_loop store_drain
  sqlite_store_thread max_cache_count rounds last s = elim s.store_queue [
    | none ↦ done (some s)
    | some queue ↦ elim s.db [
      | none ↦ done (some s)
      | some db ↦ store_loop max_cache_count rounds s >>= (λ looped. elim looped [
        | none ↦ done none
        | some s ↦ store_drain last s >>= (λ drained. elim drained [
          | none ↦ done none
          | some s ↦
              done
                (some (record s { db = (sqlite_store_trim_cache sqlite s.db max_cache_count).1 }))
        ])
      ])
    ]
  ]

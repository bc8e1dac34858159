-- ===== src/Store/Tests.antt =====
-- Four rows in memory, two of them uploaded, and the theorems at them.
use i_mx6ull_water_qualit.Base.{
  ℕ, ◌<◌, ◌≡◌, ◌⊎◌, refl, arith, Bool, true, false, List, [], ◌∷◌, ◌++◌, some, All, done,
}
use i_mx6ull_water_qualit.Base.Int.{ℤ, pos, negsuc, ◌-ℤ◌}
use i_mx6ull_water_qualit.Sample.{Sample}
use i_mx6ull_water_qualit.Database.{Row}
use i_mx6ull_water_qualit.Database.Laws.{new_row}
use i_mx6ull_water_qualit.Database.Memory.{memory, memory-Documented, memory-Works}
use i_mx6ull_water_qualit.SampleQueue.{SampleQueue, queue_count}
use i_mx6ull_water_qualit.SampleQueue.Commit.{commit_pop}
use i_mx6ull_water_qualit.SampleQueue.Wait.{wait_not_empty, finish_pop, pop}
use i_mx6ull_water_qualit.SampleQueue.Fifo.{Fifo}
use i_mx6ull_water_qualit.SampleQueue.Refine.{Represents}
use i_mx6ull_water_qualit.Store.Thread.{
  Storing, write_sample, after_pop, take_sample, store_loop, store_drain, sqlite_store_thread,
}
use i_mx6ull_water_qualit.Store.Drained.{Drained, drain-stores}
use i_mx6ull_water_qualit.Store.{
  write, bind_sample, sqlite_store_insert, sqlite_store_get_unuploaded_count,
  sqlite_store_get_total_count, sqlite_store_trim_cache,
}
use i_mx6ull_water_qualit.Store.Trim.{Kept, trim_cache_keeps}
use i_mx6ull_water_qualit.Store.Insert.{insert_exact}

abbrev sample : Sample ℕ
sample = record {
  timestamp_ms = pos 5;
  ph = 700;
  temperature = 2500;
  turbidity = 300;
  conductivity = 80000;
  sensor_status = 0;
  alarm_status = 0;
  sequence = 1;
}

abbrev row : ℕ → Bool → Row ℕ
row id uploaded = record {
  id = id;
  device_id = [];
  sample = sample;
  uploaded = uploaded;
  upload_retry = 0;
}

abbrev four_rows : List (Row ℕ)
four_rows = row 1 true ∷ row 2 false ∷ row 3 true ∷ row 4 false ∷ []

-- Room for three: the oldest uploaded row goes. Room for one: the newest that is not uploaded stays.
trim_three :
    sqlite_store_trim_cache memory (some four_rows) (pos 3)
    ≡ (pos 0, some (row 2 false ∷ row 3 true ∷ row 4 false ∷ []))
unfolding sqlite_store_trim_cache sqlite_store_get_total_count ◌-ℤ◌
trim_three = refl

trim_one :
    sqlite_store_trim_cache memory (some four_rows) (pos 1) ≡ (pos 0, some (row 4 false ∷ []))
unfolding sqlite_store_trim_cache sqlite_store_get_total_count ◌-ℤ◌
trim_one = refl

unuploaded : sqlite_store_get_unuploaded_count memory (some four_rows) ≡ pos 2
unfolding sqlite_store_get_unuploaded_count
unuploaded = refl

trim_cache_keeps_example :
    (after : List (Row ℕ)) × (sqlite_store_trim_cache memory (some four_rows) (pos 3)
      ≡ (pos 0, some after))
    × Kept memory (λ rows. rows) memory-Documented memory-Works 3 four_rows after
trim_cache_keeps_example =
    trim_cache_keeps memory (λ rows. rows) memory-Documented memory-Works 3 four_rows (omega arith)

insert_exact_example :
    (result : ℤ) × (after : List (Row ℕ)) × (sqlite_store_insert memory
        (some four_rows)
        (some (7 ∷ []))
        (some sample)
      ≡ (result, some after))
    × (((result ≡ pos 0)
          × ((id : ℕ) × All (λ r. r.id < id) four_rows
              × (after ≡ four_rows ++ new_row id (7 ∷ []) sample ∷ [])))
        ⊎ ((result ≡ negsuc 0) × (after ≡ four_rows)))
insert_exact_example =
    insert_exact memory (λ rows. rows) memory-Documented four_rows (7 ∷ []) sample

-- A queue of capacity 2 with two samples, the first at index 1, and the table of four rows.
abbrev two_samples : SampleQueue (Sample ℕ)
two_samples = record {
  samples = record sample { sequence = 2 } ∷ sample ∷ [];
  capacity = 2;
  head = 1;
  tail = 1;
  count = 2;
  shutdown = true;
  overflow_count = 0;
  push_count = 2;
  pop_count = 0;
}

abbrev two_items : Fifo (Sample ℕ)
two_items = record {
  items = sample ∷ record sample { sequence = 2 } ∷ [];
  closed = true;
  pushed = 2;
  popped = 0;
  dropped = 0;
}

two_samples-Represents : Represents sample two_samples two_items
two_samples-Represents = record {
  valid = omega arith;
  held = refl;
  closed = refl;
  pushed = refl;
  popped = refl;
  dropped = refl;
}

abbrev context : Storing (List (Row ℕ)) ℕ
context = record {
  store_queue = some two_samples;
  db = some four_rows;
  sample_counter = 7;
  write_count = 7;
  write_fail_count = 0;
}

drain-stores_example :
    Drained memory
      (λ rows. rows)
      memory-Documented
      (7 ∷ [])
      sample
      two_items.items
      context
      four_rows
      (store_drain memory (some (7 ∷ [])) ([] ∷ [] ∷ []) context)
drain-stores_example =
    drain-stores memory (λ rows. rows) memory-Documented (7 ∷ []) sample ([] ∷ [] ∷ []) two_samples
      two_items two_items.items four_rows context two_samples-Represents refl (omega arith)

-- A thread that is told to stop at once stores what is left in the queue.
stores_last :
    sqlite_store_thread memory (some (7 ∷ [])) (pos 100) [] ([] ∷ [] ∷ []) context
    ≡ done (
        some (record {
          store_queue = some (record two_samples { count = 0; pop_count = 2 });
          db = some (
              four_rows
              ++ new_row 5 (7 ∷ []) sample
                ∷ new_row 6 (7 ∷ []) (record sample { sequence = 2 })
                ∷ []);
          sample_counter = 9;
          write_count = 9;
          write_fail_count = 0;
        }))
unfolding sqlite_store_thread store_loop store_drain take_sample after_pop write_sample queue_count
    pop wait_not_empty finish_pop commit_pop sqlite_store_insert bind_sample write
    sqlite_store_trim_cache sqlite_store_get_total_count
stores_last = refl

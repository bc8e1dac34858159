-- ===== src/Gateway/PipelineTests.antt =====
-- Two mock samples through the three stages, into an empty table in memory.
use i_mx6ull_water_qualit.Base.{◌≡◌, refl, arith, List, [], ◌∷◌, some, done, map}
use i_mx6ull_water_qualit.Base.Int.{ℤ, pos}
use i_mx6ull_water_qualit.Sample.{Sample}
use i_mx6ull_water_qualit.SampleQueue.{SampleQueue}
use i_mx6ull_water_qualit.Database.{Row}
use i_mx6ull_water_qualit.Database.Memory.{memory, memory-Documented}
use i_mx6ull_water_qualit.Store.Thread.{Storing, store_drain}
use i_mx6ull_water_qualit.Store.Drained.{Drained, holding}
use i_mx6ull_water_qualit.Processor.{Threshold, led_start}
use i_mx6ull_water_qualit.Processor.Thread.{Processing, Round, processor_loop}
use i_mx6ull_water_qualit.Processor.Passing.{between}
use i_mx6ull_water_qualit.Gateway.Fixture.{
  counted, blank, turn, empty_queue, empty_queue-Represents, collecting,
}
use i_mx6ull_water_qualit.Gateway.Collect.{Turn, Collecting, collect_thread_mock}
use i_mx6ull_water_qualit.Gateway.Mocks.{numbers_after}
use i_mx6ull_water_qualit.Gateway.Pipeline.{processed, pipeline_in_order}

abbrev thresholds : Threshold ℤ
thresholds = record {
  ph_min = pos 650;
  ph_max = pos 850;
  temp_min = pos 0;
  temp_max = pos 4500;
  turb_max = pos 500;
  cond_max = pos 200000;
}

abbrev two_turns : List (Turn ℤ)
two_turns = turn ∷ turn ∷ []

abbrev two_rounds : List (Round ℤ)
two_rounds =
    record { pop_wakes = []; push_wakes = [] } ∷ record { pop_wakes = []; push_wakes = [] } ∷ []

abbrev processing : Processing ℤ
processing = record {
  raw_queue = some empty_queue;
  store_queue = some empty_queue;
  sample_counter = 0;
  led = led_start;
  device = [];
}

abbrev storing : Storing (List (Row ℤ)) ℤ
storing = record {
  store_queue = some empty_queue;
  db = some [];
  sample_counter = 0;
  write_count = 0;
  write_fail_count = 0;
}

pipeline_in_order_example :
    let xs =
      processed counted thresholds
        (pos 3)
        blank
        memory
        (λ rows. rows)
        memory-Documented
        (7 ∷ [])
        4
        two_turns in
    (collected : Collecting ℤ) × (raw_after store_after : SampleQueue (Sample ℤ))
    × (context : Processing ℤ) × (collect_thread_mock counted two_turns collecting
        ≡ done (some collected))
    × (processor_loop counted thresholds
          (pos 3)
          two_rounds
          (between counted thresholds (pos 3) blank collected.raw_queue empty_queue processing)
        ≡ done (some (between counted thresholds (pos 3) blank raw_after store_after context)))
    × Drained memory
        (λ rows. rows)
        memory-Documented
        (7 ∷ [])
        blank
        xs
        storing
        []
        (store_drain memory
          (some (7 ∷ []))
          ([] ∷ [] ∷ [])
          (holding memory (λ rows. rows) memory-Documented (7 ∷ []) blank store_after [] storing))
    × (map (λ x. x.sequence) xs ≡ numbers_after 4 2)
pipeline_in_order_example =
    pipeline_in_order counted thresholds (pos 3) blank memory (λ rows. rows) memory-Documented
      (7 ∷ []) two_turns two_rounds ([] ∷ [] ∷ []) collecting processing storing empty_queue []
      empty_queue-Represents empty_queue-Represents (omega arith) (omega arith) refl (omega arith)

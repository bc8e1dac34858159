-- ===== src/Gateway/Pipeline.antt =====
-- The three stages of the gateway, one after the other: mock samples collected, processed, stored.
use i_mx6ull_water_qualit.Base.{ℕ, ◌≤◌, ◌≡◌, refl, ◌∙◌, arith, List, some, done, map, length}
use i_mx6ull_water_qualit.Base.Int.{ℤ}
use i_mx6ull_water_qualit.Float.{Float}
use i_mx6ull_water_qualit.Sample.{Sample}
use i_mx6ull_water_qualit.SampleQueue.{SampleQueue, Wake}
use i_mx6ull_water_qualit.SampleQueue.Fifo.{empty}
use i_mx6ull_water_qualit.SampleQueue.Refine.{Represents}
use i_mx6ull_water_qualit.Database.{Row, Sqlite}
use i_mx6ull_water_qualit.Database.Laws.{Documented}
use i_mx6ull_water_qualit.Store.Thread.{Storing, store_drain}
use i_mx6ull_water_qualit.Store.Drained.{Drained, holding, drain-stores}
use i_mx6ull_water_qualit.Processor.{Threshold}
use i_mx6ull_water_qualit.Processor.Thread.{Processing, Round, processor_loop}
use i_mx6ull_water_qualit.Processor.Passing.{between}
use i_mx6ull_water_qualit.Processor.Straight.{marks, length-marks, sequence-marks, passes_all}
use i_mx6ull_water_qualit.Gateway.Collect.{Turn, Collecting, collect_thread_mock}
use i_mx6ull_water_qualit.Gateway.Mocks.{
  mocks, length-mocks, numbers_after, sequence-mocks, collects_mocks,
}

module _ {D F P : Type 0} (float : Float F) (thresholds : Threshold F) (alarm_fd : ℤ)
    (blank : Sample F) (sqlite : Sqlite D F P) (rows : D → List (Row F))
    (documented : Documented sqlite rows) (device_id : List ℕ) where
  -- the samples that the store gets: the mock samples, marked with their alarm words
  abbrev pub processed : ℕ → List (Turn F) → List (Sample F)
  processed n turns = marks float thresholds alarm_fd blank (mocks float n turns)

  -- Stage after stage, on two new queues: when `turns` mock samples are collected, no more than a
  -- queue holds, then processed, one a round, then stored by the last loop of the storing thread,
  -- each stage ends and each sample, marked with its alarm word, stands in the table in its order,
  -- but for those whose insertion failed, and their sequence numbers follow one after the other.
  pub pipeline_in_order :
      (turns : List (Turn F)) (rounds : List (Round F)) (last : List (List (Wake (Sample F))))
      (c : Collecting F) (p : Processing F) (s : Storing D F) (store : SampleQueue (Sample F))
      (d : D)
      → Represents blank c.raw_queue empty
      → Represents blank store empty
      → length turns ≤ c.raw_queue.capacity
      → length turns ≤ store.capacity
      → length rounds ≡ length turns
      → length turns ≤ length last
      → (collected : Collecting F) × (raw_after store_after : SampleQueue (Sample F))
        × (context : Processing F) × (collect_thread_mock float turns c ≡ done (some collected))
        × (processor_loop float thresholds alarm_fd rounds
              (between float thresholds alarm_fd blank collected.raw_queue store p)
            ≡ done (some (between float thresholds alarm_fd blank raw_after store_after context)))
        × Drained sqlite rows documented device_id blank (processed c.mock_sequence turns) s d (
            store_drain sqlite
              (some device_id)
              last
              (holding sqlite rows documented device_id blank store_after d s))
        × (map (λ x. x.sequence) (processed c.mock_sequence turns)
            ≡ numbers_after c.mock_sequence (length turns))
  pipeline_in_order turns rounds last c p s store d r t fits_raw fits_store same enough =
      let xs = mocks float c.mock_sequence turns in
      let n : length xs ≡ length turns = length-mocks float c.mock_sequence turns in
      let m = collects_mocks float blank turns c empty r refl (omega arith) in
      let q =
        passes_all float thresholds alarm_fd blank rounds xs m.after.raw_queue store m.filled empty
          p m.represents t m.items refl (omega arith) (omega arith) in
      (
        m.after,
        q.raw_after,
        q.store_after,
        q.context,
        m.returns,
        q.returns,
        drain-stores sqlite rows documented device_id blank last q.store_after q.filled
            (processed c.mock_sequence turns) d s q.store_represents q.store_filled
            (omega (arith, length-marks float thresholds alarm_fd blank xs)),
        sequence-marks float thresholds alarm_fd blank xs
            ∙ sequence-mocks float c.mock_sequence turns,
      )

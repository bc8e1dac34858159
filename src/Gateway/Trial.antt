-- ===== src/Gateway/Trial.antt =====
-- `run_test` of app/src/main.c: the pipeline with mock samples and a database in memory.
use mathlib.Core.Path.{subst}
use i_mx6ull_water_qualit.Base.{
  ◌≡◌, refl, sym, if◌then◌else◌, not, Bool, true, false, List, [], ◌∷◌, ◌++◌, none, some,
}
use i_mx6ull_water_qualit.Base.Int.{ℤ, pos}
use i_mx6ull_water_qualit.Gateway.Resources.{
  Event, opens, closes, shuts, starts, stops, joins, raw_queue, store_queue, database, collector,
  processor, storer, uploader, Held, nothing, replay,
}
use i_mx6ull_water_qualit.Gateway.Startup.{Outcomes, close_store}
use i_mx6ull_water_qualit.Gateway.Teardown.{is_quiet, outcomes}

abbrev test_opens : List Event
test_opens = opens raw_queue true ∷ opens store_queue true ∷ opens database true ∷ []

-- from the start of the upload thread on: a failure is only logged, and `upload_tid` joined
abbrev test_end : List Event
test_end =
    stops collector
    ∷ stops processor
    ∷ stops storer
    ∷ stops uploader
    ∷ shuts raw_queue
    ∷ shuts store_queue
    ∷ joins collector
    ∷ joins processor
    ∷ joins storer
    ∷ joins uploader
    ∷ close_store

-- from the start of the first thread on
unfoldable pub test_threads : Outcomes → List Event → ℤ × List Event
test_threads o events =
    if not o.collector_starts
    then (pos 1, events ++ close_store)
    else (if not o.processor_starts
        then (pos 1, events ++ starts collector ∷ stops collector ∷ joins collector ∷ close_store)
        else (if not o.storer_starts
            then (
              pos 1,
              events
                  ++ starts collector
                    ∷ starts processor
                    ∷ stops collector
                    ∷ stops processor
                    ∷ shuts raw_queue
                    ∷ shuts store_queue
                    ∷ joins collector
                    ∷ joins processor
                    ∷ close_store,
            )
            else (
              pos 0,
              events
                  ++ starts collector
                    ∷ starts processor
                    ∷ starts storer
                    ∷ ((if o.uploader_starts then starts uploader ∷ [] else []) ++ test_end),
            )))

unfoldable pub run_test : Outcomes → ℤ × List Event
unfolding test_threads
run_test o =
    if not o.raw_created
    then (pos 1, opens raw_queue false ∷ [])
    else (if not o.store_created
        then (pos 1, opens raw_queue true ∷ opens store_queue false ∷ closes raw_queue ∷ [])
        else (if not o.database_opens
            then (
              pos 1,
              opens raw_queue true
                  ∷ opens store_queue true
                  ∷ opens database false
                  ∷ closes raw_queue
                  ∷ closes store_queue
                  ∷ [],
            )
            else (if not o.table_created
                then (pos 1, test_opens ++ close_store)
                else test_threads o test_opens)))

-- all is in order and nothing is left
pub record IsClean (result : ℤ × List Event) : Type 0 where
  pub last : Held
  pub replayed : replay result.1 nothing ≡ some last
  pub quiet : is_quiet last ≡ true
  pub raw_left : last.raw_open ≡ false
  pub store_left : last.store_open ≡ false

clean :
    {result : ℤ × List Event} (last : Held)
    → replay result.1 nothing ≡ some last
    → is_quiet last ≡ true
    → last.raw_open ≡ false
    → last.store_open ≡ false
    → IsClean result
clean last replayed quiet raw_left store_left = record {
  last = last;
  replayed = replayed;
  quiet = quiet;
  raw_left = raw_left;
  store_left = store_left;
}

each_test :
    (log serial alarm raw store db table collect process storing enabled : Bool)
    → IsClean (
        run_test
          (outcomes log serial alarm raw store db table collect process storing enabled true))
unfolding run_test test_threads
each_test log serial alarm false store db table collect process storing enabled =
    clean _ refl refl refl refl
each_test log serial alarm true false db table collect process storing enabled =
    clean _ refl refl refl refl
each_test log serial alarm true true false table collect process storing enabled =
    clean _ refl refl refl refl
each_test log serial alarm true true true false collect process storing enabled =
    clean _ refl refl refl refl
each_test log serial alarm true true true true false process storing enabled =
    clean _ refl refl refl refl
each_test log serial alarm true true true true true false storing enabled =
    clean _ refl refl refl refl
each_test log serial alarm true true true true true true false enabled = clean _ refl refl refl refl
each_test log serial alarm true true true true true true true enabled = clean _ refl refl refl refl

-- If the upload thread starts, `run_test` uses, closes and joins in order, whatever else fails, and
-- leaves nothing open.
pub run_test-IsClean : (o : Outcomes) → o.uploader_starts ≡ true → IsClean (run_test o)
run_test-IsClean o e =
    subst
      (λ b. IsClean (
        run_test (
          outcomes o.log_opens o.serial_opens o.alarm_opens o.raw_created o.store_created
            o.database_opens o.table_created o.collector_starts o.processor_starts o.storer_starts
            o.upload_enabled b)))
      (sym e)
      (each_test o.log_opens o.serial_opens o.alarm_opens o.raw_created o.store_created
        o.database_opens o.table_created o.collector_starts o.processor_starts o.storer_starts
        o.upload_enabled)

-- If all else succeeds and the upload thread does not start, `run_test` joins a thread that does
-- not run: its calls are not in order.
pub run_test-stray_join :
    (log serial alarm enabled : Bool)
    → replay
        (run_test (outcomes log serial alarm true true true true true true true enabled false)).1
        nothing
      ≡ none
unfolding run_test test_threads
run_test-stray_join log serial alarm enabled = refl

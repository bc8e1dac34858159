-- ===== src/Gateway/Startup.antt =====
-- `main` and `run_test` of app/src/main.c, from the first resource on: the calls in their order, and
-- the exit code. The calls that may fail are asked in an `Outcomes`.
use i_mx6ull_water_qualit.Base.{if◌then◌else◌, ◌&&◌, not, Bool, true, false, List, [], ◌∷◌, ◌++◌}
use i_mx6ull_water_qualit.Base.Int.{ℤ, pos}
use i_mx6ull_water_qualit.Gateway.Resources.{
  Event, opens, closes, frees, shuts, starts, stops, joins, log_file, serial_port, alarm_device,
  raw_queue, store_queue, database, collector, processor, storer, uploader,
}

-- Whether each call succeeds, and whether `upload_enabled` is set.
pub record Outcomes : Type 0 where
  pub log_opens : Bool
  pub serial_opens : Bool
  pub alarm_opens : Bool
  pub raw_created : Bool
  pub store_created : Bool
  pub database_opens : Bool
  pub table_created : Bool
  pub collector_starts : Bool
  pub processor_starts : Bool
  pub storer_starts : Bool
  pub upload_enabled : Bool
  pub uploader_starts : Bool

-- if (fd >= 0) serial_close(fd); alarm_client_close(alarm_fd);
abbrev pub close_devices : Outcomes → List Event
close_devices o =
    (if o.serial_opens then closes serial_port ∷ [] else [])
    ++ (if o.alarm_opens then closes alarm_device ∷ [] else [])

-- sqlite_store_close(db); and the destruction of the two queues
abbrev pub close_store : List Event
close_store = closes database ∷ closes raw_queue ∷ closes store_queue ∷ []

abbrev pub open_devices : Outcomes → List Event
open_devices o =
    opens log_file o.log_opens
    ∷ opens serial_port o.serial_opens
    ∷ opens alarm_device o.alarm_opens
    ∷ []

abbrev pub failed : Outcomes → List Event → ℤ × List Event
failed o events = (pos 1, events ++ close_devices o)

abbrev pub open_all : Outcomes → List Event
open_all o =
    open_devices o ++ opens raw_queue true ∷ opens store_queue true ∷ opens database true ∷ []

-- the end of the program, once a signal has set `g_shutdown`
abbrev pub stop_all : Bool → List Event
stop_all upload_enabled =
    stops collector
      ∷ stops processor
      ∷ stops storer
      ∷ shuts raw_queue
      ∷ shuts store_queue
      ∷ joins collector
      ∷ joins processor
      ∷ joins storer
      ∷ stops uploader
      ∷ (if upload_enabled then joins uploader ∷ [] else [])
    ++ close_store

-- from the start of the upload thread on
unfoldable pub with_uploader : Outcomes → List Event → ℤ × List Event
with_uploader o events =
    if not o.upload_enabled
    then (pos 0, events ++ stop_all false ++ close_devices o ++ frees log_file ∷ [])
    else (if not o.uploader_starts
        then failed o (
            events
            ++ stops collector
              ∷ stops processor
              ∷ stops storer
              ∷ shuts raw_queue
              ∷ shuts store_queue
              ∷ joins collector
              ∷ joins processor
              ∷ joins storer
              ∷ close_store)
        else (
          pos 0,
          events ++ starts uploader ∷ stop_all true ++ close_devices o ++ frees log_file ∷ [],
        ))

-- from the start of the first thread on
unfoldable pub with_threads : Outcomes → List Event → ℤ × List Event
unfolding with_uploader
with_threads o events =
    if not o.collector_starts
    then failed o (events ++ close_store)
    else (if not o.processor_starts
        then failed o (
            events
            ++ starts collector ∷ stops collector ∷ shuts raw_queue ∷ joins collector ∷ close_store)
        else (if not o.storer_starts
            then failed o (
                events
                ++ starts collector
                  ∷ starts processor
                  ∷ stops collector
                  ∷ stops processor
                  ∷ shuts raw_queue
                  ∷ shuts store_queue
                  ∷ joins collector
                  ∷ joins processor
                  ∷ close_store)
            else with_uploader o
                (events ++ starts collector ∷ starts processor ∷ starts storer ∷ [])))

-- `main` from `logger_open_log_file` on
unfoldable pub run_gateway : Outcomes → ℤ × List Event
unfolding with_threads
run_gateway o =
    if not (o.raw_created && o.store_created)
    then failed o
        (open_devices o ++ opens raw_queue o.raw_created ∷ opens store_queue o.store_created ∷ [])
    else (if not o.database_opens
        then failed o (
            open_devices o
            ++ opens raw_queue true
              ∷ opens store_queue true
              ∷ opens database false
              ∷ closes raw_queue
              ∷ closes store_queue
              ∷ [])
        else (if not o.table_created
            then failed o (open_all o ++ close_store)
            else with_threads o (open_all o)))

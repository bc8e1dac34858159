-- ===== src/Gateway/Teardown.antt =====
-- Every way through the start and the end of the gateway: what is left open, and in which order.
use i_mx6ull_water_qualit.Base.{◌≡◌, refl, if◌then◌else◌, ◌&&◌, not, Bool, true, false, List, some}
use i_mx6ull_water_qualit.Base.Int.{ℤ, pos, eqb_ℤ}
use i_mx6ull_water_qualit.Gateway.Resources.{Event, Held, nothing, replay}
use i_mx6ull_water_qualit.Gateway.Startup.{Outcomes, with_uploader, with_threads, run_gateway}

-- No thread runs, and neither a device nor the database is open.
abbrev pub is_quiet : Held → Bool
is_quiet h =
    not h.collecting
    && not h.processing
    && not h.storing
    && not h.uploading
    && not h.serial_open
    && not h.alarm_open
    && not h.database_open

-- The calls are in order, and at their end all is closed but a queue that was created alone, and
-- the log file of a start that has failed.
pub record InOrder (o : Outcomes) (result : ℤ × List Event) : Type 0 where
  pub last : Held
  pub replayed : replay result.1 nothing ≡ some last
  pub quiet : is_quiet last ≡ true
  pub raw_left : last.raw_open ≡ (o.raw_created && not o.store_created)
  pub store_left : last.store_open ≡ (o.store_created && not o.raw_created)
  pub log_left : last.log_open ≡ (if eqb_ℤ result.0 (pos 0) then false else o.log_opens)

way :
    {o : Outcomes} {result : ℤ × List Event} (last : Held)
    → replay result.1 nothing ≡ some last
    → is_quiet last ≡ true
    → last.raw_open ≡ (o.raw_created && not o.store_created)
    → last.store_open ≡ (o.store_created && not o.raw_created)
    → last.log_open ≡ (if eqb_ℤ result.0 (pos 0) then false else o.log_opens)
    → InOrder o result
way last replayed quiet raw_left store_left log_left = record {
  last = last;
  replayed = replayed;
  quiet = quiet;
  raw_left = raw_left;
  store_left = store_left;
  log_left = log_left;
}

abbrev pub outcomes :
    Bool → Bool → Bool → Bool → Bool → Bool → Bool → Bool → Bool → Bool → Bool → Bool → Outcomes
outcomes log serial alarm raw store db table collect process storing enabled upload = record {
  log_opens = log;
  serial_opens = serial;
  alarm_opens = alarm;
  raw_created = raw;
  store_created = store;
  database_opens = db;
  table_created = table;
  collector_starts = collect;
  processor_starts = process;
  storer_starts = storing;
  upload_enabled = enabled;
  uploader_starts = upload;
}

each_way :
    (log serial alarm raw store db table collect process storing enabled upload : Bool)
    → let o = outcomes log serial alarm raw store db table collect process storing enabled upload in
      InOrder o (run_gateway o)
unfolding run_gateway with_threads with_uploader
each_way log true true false false db table collect process storing enabled upload =
    way _ refl refl refl refl refl
each_way log true true false true db table collect process storing enabled upload =
    way _ refl refl refl refl refl
each_way log true true true false db table collect process storing enabled upload =
    way _ refl refl refl refl refl
each_way log true true true true false table collect process storing enabled upload =
    way _ refl refl refl refl refl
each_way log true true true true true false collect process storing enabled upload =
    way _ refl refl refl refl refl
each_way log true true true true true true false process storing enabled upload =
    way _ refl refl refl refl refl
each_way log true true true true true true true false storing enabled upload =
    way _ refl refl refl refl refl
each_way log true true true true true true true true false enabled upload =
    way _ refl refl refl refl refl
each_way log true true true true true true true true true false upload =
    way _ refl refl refl refl refl
each_way log true true true true true true true true true true true = way _ refl refl refl refl refl
each_way log true true true true true true true true true true false =
    way _ refl refl refl refl refl
each_way log true false false false db table collect process storing enabled upload =
    way _ refl refl refl refl refl
each_way log true false false true db table collect process storing enabled upload =
    way _ refl refl refl refl refl
each_way log true false true false db table collect process storing enabled upload =
    way _ refl refl refl refl refl
each_way log true false true true false table collect process storing enabled upload =
    way _ refl refl refl refl refl
each_way log true false true true true false collect process storing enabled upload =
    way _ refl refl refl refl refl
each_way log true false true true true true false process storing enabled upload =
    way _ refl refl refl refl refl
each_way log true false true true true true true false storing enabled upload =
    way _ refl refl refl refl refl
each_way log true false true true true true true true false enabled upload =
    way _ refl refl refl refl refl
each_way log true false true true true true true true true false upload =
    way _ refl refl refl refl refl
each_way log true false true true true true true true true true true =
    way _ refl refl refl refl refl
each_way log true false true true true true true true true true false =
    way _ refl refl refl refl refl
each_way log false true false false db table collect process storing enabled upload =
    way _ refl refl refl refl refl
each_way log false true false true db table collect process storing enabled upload =
    way _ refl refl refl refl refl
each_way log false true true false db table collect process storing enabled upload =
    way _ refl refl refl refl refl
each_way log false true true true false table collect process storing enabled upload =
    way _ refl refl refl refl refl
each_way log false true true true true false collect process storing enabled upload =
    way _ refl refl refl refl refl
each_way log false true true true true true false process storing enabled upload =
    way _ refl refl refl refl refl
each_way log false true true true true true true false storing enabled upload =
    way _ refl refl refl refl refl
each_way log false true true true true true true true false enabled upload =
    way _ refl refl refl refl refl
each_way log false true true true true true true true true false upload =
    way _ refl refl refl refl refl
each_way log false true true true true true true true true true true =
    way _ refl refl refl refl refl
each_way log false true true true true true true true true true false =
    way _ refl refl refl refl refl
each_way log false false false false db table collect process storing enabled upload =
    way _ refl refl refl refl refl
each_way log false false false true db table collect process storing enabled upload =
    way _ refl refl refl refl refl
each_way log false false true false db table collect process storing enabled upload =
    way _ refl refl refl refl refl
each_way log false false true true false table collect process storing enabled upload =
    way _ refl refl refl refl refl
each_way log false false true true true false collect process storing enabled upload =
    way _ refl refl refl refl refl
each_way log false false true true true true false process storing enabled upload =
    way _ refl refl refl refl refl
each_way log false false true true true true true false storing enabled upload =
    way _ refl refl refl refl refl
each_way log false false true true true true true true false enabled upload =
    way _ refl refl refl refl refl
each_way log false false true true true true true true true false upload =
    way _ refl refl refl refl refl
each_way log false false true true true true true true true true true =
    way _ refl refl refl refl refl
each_way log false false true true true true true true true true false =
    way _ refl refl refl refl refl

-- Whatever calls fail, `main` uses nothing that is not open, closes nothing twice or that a running thread
-- has in its context, and joins only threads that run and have been told to stop. At its end no
-- thread runs and all is closed, but for a queue whose fellow could not be created,
-- and for the log file when the result is not 0.
pub run_gateway-InOrder : (o : Outcomes) → InOrder o (run_gateway o)
run_gateway-InOrder o =
    each_way o.log_opens o.serial_opens o.alarm_opens o.raw_created o.store_created o.database_opens
      o.table_created o.collector_starts o.processor_starts o.storer_starts o.upload_enabled
      o.uploader_starts

-- ===== src/Gateway/Resources.antt =====
-- What the program of app/src/main.c holds, and which uses of it are in order.
use i_mx6ull_water_qualit.Base.{◌&&◌, not, Bool, true, false, List, [], ◌∷◌, Option, none, some}

pub data Resource : Type 0 where
  log_file : Resource
  serial_port : Resource
  alarm_device : Resource
  raw_queue : Resource
  store_queue : Resource
  database : Resource

pub data Thread : Type 0 where
  collector : Thread
  processor : Thread
  storer : Thread
  uploader : Thread

-- One call of the program: an attempt to open with its outcome, a close, `logger_close_log_file`, which
-- closes what is there, the shutdown of a queue, the start of a thread, the flag that ends its
-- loop, and `pthread_join`.
pub data Event : Type 0 where
  opens : Resource → Bool → Event
  closes : Resource → Event
  frees : Resource → Event
  shuts : Resource → Event
  starts : Thread → Event
  stops : Thread → Event
  joins : Thread → Event

-- what is open, which threads run, and which of them have been told to stop
pub record Held : Type 0 where
  pub log_open : Bool
  pub serial_open : Bool
  pub alarm_open : Bool
  pub raw_open : Bool
  pub store_open : Bool
  pub database_open : Bool
  pub collecting : Bool
  pub processing : Bool
  pub storing : Bool
  pub uploading : Bool
  pub collect_told : Bool
  pub process_told : Bool
  pub store_told : Bool
  pub upload_told : Bool

abbrev pub nothing : Held
nothing = record {
  log_open = false;
  serial_open = false;
  alarm_open = false;
  raw_open = false;
  store_open = false;
  database_open = false;
  collecting = false;
  processing = false;
  storing = false;
  uploading = false;
  collect_told = false;
  process_told = false;
  store_told = false;
  upload_told = false;
}

abbrev is_open : Resource → Held → Bool
is_open log_file h = h.log_open
is_open serial_port h = h.serial_open
is_open alarm_device h = h.alarm_open
is_open raw_queue h = h.raw_open
is_open store_queue h = h.store_open
is_open database h = h.database_open

abbrev set_open : Resource → Bool → Held → Held
set_open log_file b h = record h { log_open = b }
set_open serial_port b h = record h { serial_open = b }
set_open alarm_device b h = record h { alarm_open = b }
set_open raw_queue b h = record h { raw_open = b }
set_open store_queue b h = record h { store_open = b }
set_open database b h = record h { database_open = b }

-- No running thread has the resource in its context.
abbrev is_unused : Resource → Held → Bool
is_unused log_file h = true
is_unused serial_port h = not h.collecting
is_unused alarm_device h = not h.processing
is_unused raw_queue h = not h.collecting && not h.processing
is_unused store_queue h = not h.processing && not h.storing
is_unused database h = not h.storing && not h.uploading

abbrev is_running : Thread → Held → Bool
is_running collector h = h.collecting
is_running processor h = h.processing
is_running storer h = h.storing
is_running uploader h = h.uploading

abbrev is_told : Thread → Held → Bool
is_told collector h = h.collect_told
is_told processor h = h.process_told
is_told storer h = h.store_told
is_told uploader h = h.upload_told

abbrev set_running : Thread → Bool → Held → Held
set_running collector b h = record h { collecting = b }
set_running processor b h = record h { processing = b }
set_running storer b h = record h { storing = b }
set_running uploader b h = record h { uploading = b }

abbrev tell : Thread → Held → Held
tell collector h = record h { collect_told = true }
tell processor h = record h { process_told = true }
tell storer h = record h { store_told = true }
tell uploader h = record h { upload_told = true }

-- what a thread needs that it dereferences without a test
abbrev can_start : Thread → Held → Bool
can_start collector h = h.raw_open
can_start processor h = h.raw_open && h.store_open
can_start storer h = h.store_open && h.database_open
can_start uploader h = h.database_open

abbrev guard : Bool → Held → Option Held
guard true h = some h
guard false h = none

-- `none` is a use that is not in order: of what is not open, or still in use; a second start, or
-- a join of a thread that does not run or has not been told to stop.
abbrev pub step : Event → Held → Option Held
step (opens r ok) h = guard (not (is_open r h)) (set_open r ok h)
step (closes r) h = guard (is_open r h && is_unused r h) (set_open r false h)
step (frees r) h = guard (is_unused r h) (set_open r false h)
step (shuts r) h = guard (is_open r h) h
step (starts t) h = guard (can_start t h && not (is_running t h)) (set_running t true h)
step (stops t) h = some (tell t h)
step (joins t) h = guard (is_running t h && is_told t h) (set_running t false h)

abbrev pub replay : List Event → Held → Option Held
replay [] h = some h
replay (e ∷ events) h = elim (step e h) [ none ↦ none | some next ↦ replay events next ]

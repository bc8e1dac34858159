-- ===== src/Store.antt =====
-- app/src/sqlite_store.c and app/include/sqlite_store.h: the samples in the database. A null `db` is
-- `none`. Messages and `sqlite3_finalize`, `sqlite3_free` are left out.
pub mod Trim
pub mod Insert
pub mod Thread
pub mod Drained
mod Tests
use i_mx6ull_water_qualit.Base.{
  ℕ, ◌+◌, if◌then◌else◌, ◌||◌, not, Bool, true, false, List, [], ◌∷◌, Option, none, some,
}
use i_mx6ull_water_qualit.Base.Int.{ℤ, pos, negsuc, pos_part, ltb_ℤ, ◌-ℤ◌}
use i_mx6ull_water_qualit.Sample.{Sample}
use i_mx6ull_water_qualit.Database.{
  Column, Bindings, column_device_id, column_timestamp_ms, column_ph, column_temperature,
  column_turbidity, column_conductivity, column_sensor_status, column_alarm_status, column_sequence,
  text, int64, double, int, Statement, Sqlite, journal_mode_wal, synchronous_normal, create_samples,
  create_idx_uploaded, create_idx_timestamp, insert_into, count_unuploaded, count_all, set_uploaded,
  add_retry, delete_uploaded, delete_oldest,
}

-- What `sqlite_store_open` returns, what it leaves behind `db`, and whether it has closed a
-- connection.
pub record Opened (D : Type 0) : Type 0 where
  pub result : ℤ
  pub db : Option D
  pub closed : Bool

-- the columns of the INSERT statement
abbrev pub insert_columns : List Column
insert_columns =
    column_device_id ∷ column_timestamp_ms ∷ column_ph ∷ column_temperature ∷ column_turbidity
    ∷ column_conductivity ∷ column_sensor_status ∷ column_alarm_status ∷ column_sequence ∷ []

-- the nine calls of `sqlite3_bind`
unfoldable pub bind_sample : {F : Type 0} → List ℕ → Sample F → Bindings F
bind_sample device_id sample =
    (1, text device_id)
    ∷ (2, int64 sample.timestamp_ms)
    ∷ (3, double sample.ph)
    ∷ (4, double sample.temperature)
    ∷ (5, double sample.turbidity)
    ∷ (6, double sample.conductivity)
    ∷ (7, int sample.sensor_status)
    ∷ (8, int sample.alarm_status)
    ∷ (9, int sample.sequence)
    ∷ []

module _ {D F P : Type 0} (sqlite : Sqlite D F P) where
  open sqlite use {sqlite3_open, exec, prepare, step_done, count}

  -- `there` says whether the pointer `db` is; `was` is what it points to.
  unfoldable pub sqlite_store_open : Option P → Bool → Option D → Opened D
  sqlite_store_open none there was = record { result = negsuc 0; db = was; closed = false }
  sqlite_store_open (some db_path) there was =
      if there
      then (let (ok, db) = sqlite3_open db_path in
          if ok
          then (let (_, db) = exec journal_mode_wal db in
              let (_, db) = exec synchronous_normal db in
              record { result = pos 0; db = some db; closed = false })
          else record { result = negsuc 0; db = none; closed = true })
      else record { result = negsuc 0; db = was; closed = false }

  unfoldable pub sqlite_store_create_table : Option D → ℤ × Option D
  sqlite_store_create_table none = (negsuc 0, none)
  sqlite_store_create_table (some db) =
      let (ok, db) = exec create_samples db in
      if not ok
      then (negsuc 0, some db)
      else (let (ok, db) = exec create_idx_uploaded db in
          if not ok
          then (negsuc 0, some db)
          else (let (_, db) = exec create_idx_timestamp db in (pos 0, some db)))

  -- prepare, bind, step and finalize, as the three functions below do it
  unfoldable pub write : Statement F → D → ℤ × D
  write statement db =
      if not (prepare statement db)
      then (negsuc 0, db)
      else (let (ok, db) = step_done statement db in if ok then (pos 0, db) else (negsuc 0, db))

  unfoldable pub sqlite_store_insert : Option D → Option (List ℕ) → Option (Sample F) → ℤ × Option D
  unfolding write
  sqlite_store_insert none device_id sample = (negsuc 0, none)
  sqlite_store_insert (some db) none sample = (negsuc 0, some db)
  sqlite_store_insert (some db) (some device_id) none = (negsuc 0, some db)
  sqlite_store_insert (some db) (some device_id) (some sample) =
      let (result, db) = write (insert_into insert_columns (bind_sample device_id sample)) db in
      (result, some db)

  unfoldable pub sqlite_store_mark_uploaded : Option D → ℕ → ℤ × Option D
  unfolding write
  sqlite_store_mark_uploaded none sample_id = (negsuc 0, none)
  sqlite_store_mark_uploaded (some db) sample_id =
      let (result, db) = write (set_uploaded sample_id) db in (result, some db)

  unfoldable pub sqlite_store_inc_retry : Option D → ℕ → ℤ × Option D
  unfolding write
  sqlite_store_inc_retry none sample_id = (negsuc 0, none)
  sqlite_store_inc_retry (some db) sample_id =
      let (result, db) = write (add_retry sample_id) db in (result, some db)

  -- the two counting functions
  unfoldable pub count_of : Statement F → D → ℤ
  count_of statement db =
      if not (prepare statement db)
      then negsuc 0
      else elim (count statement db) [ none ↦ pos 0 | some n ↦ n ]

  unfoldable pub sqlite_store_get_unuploaded_count : Option D → ℤ
  unfolding count_of
  sqlite_store_get_unuploaded_count none = negsuc 0
  sqlite_store_get_unuploaded_count (some db) = count_of count_unuploaded db

  unfoldable pub sqlite_store_get_total_count : Option D → ℤ
  unfolding count_of
  sqlite_store_get_total_count none = negsuc 0
  sqlite_store_get_total_count (some db) = count_of count_all db

  -- from the second count on
  unfoldable pub trim_rest : ℤ → D → D
  trim_rest max_count db =
      let total = sqlite_store_get_total_count (some db) in
      if ltb_ℤ max_count total
      then (exec (delete_oldest (pos_part (total -ℤ max_count))) db).1
      else db

  unfoldable pub sqlite_store_trim_cache : Option D → ℤ → ℤ × Option D
  unfolding trim_rest
  sqlite_store_trim_cache none max_count = (negsuc 0, none)
  sqlite_store_trim_cache (some db) max_count =
      let total = sqlite_store_get_total_count (some db) in
      if not (ltb_ℤ (pos 0) max_count)
      then (negsuc 0, some db)
      else (if ltb_ℤ total (pos 0) || not (ltb_ℤ max_count total)
          then (pos 0, some db)
          else (let (ok, db) = exec (delete_uploaded (pos_part (total -ℤ max_count))) db in
              if not ok then (negsuc 0, some db) else (pos 0, some (trim_rest max_count db))))

  -- The connection that is closed, if any.
  abbrev pub sqlite_store_close : Option D → Option D
  sqlite_store_close db = db

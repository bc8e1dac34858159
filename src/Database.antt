-- ===== src/Database.antt =====
-- The table `samples` of app/src/sqlite_store.c, and the calls of SQLite as an interface: what a
-- connection is, and what its calls answer, are arguments. `Laws` states what SQLite documents of
-- the statements that the program sends, `Binding` which row an INSERT makes of its bound values.
pub mod Binding
pub mod Memory
pub mod Laws
use i_mx6ull_water_qualit.Base.{ℕ, Bool, List, Option}
use i_mx6ull_water_qualit.Base.Int.{ℤ}
use i_mx6ull_water_qualit.Sample.{Sample}

-- A row of `samples`; `created_at` is never read. A sample is stored as it is: a `float` is exact
-- as a `double`, and the casts between `unsigned int` and `int` give the same 32 bits back.
pub record Row (F : Type 0) : Type 0 where
  pub id : ℕ
  pub device_id : List ℕ
  pub sample : Sample F
  pub uploaded : Bool
  pub upload_retry : ℕ

-- the columns that the INSERT statement of the program names
pub data Column : Type 0 where
  column_device_id : Column
  column_timestamp_ms : Column
  column_ph : Column
  column_temperature : Column
  column_turbidity : Column
  column_conductivity : Column
  column_sensor_status : Column
  column_alarm_status : Column
  column_sequence : Column

-- What the four `sqlite3_bind` functions bind; an `int` is the number of its 32 bits.
pub data Value (F : Type 0) : Type 0 where
  text : List ℕ → Value F
  int64 : ℤ → Value F
  double : F → Value F
  int : ℕ → Value F

-- The index of a parameter, from 1 on, and its value, in the order of the calls.
abbrev pub Bindings : Type 0 → Type 0
Bindings F = List (ℕ × Value F)

-- The statements of the program, with their bindings.
pub data Statement (F : Type 0) : Type 0 where
  journal_mode_wal : Statement F
  synchronous_normal : Statement F
  create_samples : Statement F
  create_idx_uploaded : Statement F
  create_idx_timestamp : Statement F
  insert_into : List Column → Bindings F → Statement F
  count_unuploaded : Statement F
  count_all : Statement F
  set_uploaded : ℕ → Statement F
  add_retry : ℕ → Statement F
  delete_uploaded : ℕ → Statement F
  delete_oldest : ℕ → Statement F

-- The calls on a connection of type `D`, where `P` is the type of paths. A `true` is SQLITE_OK, or
-- SQLITE_DONE for a step; a column that `count` reads is there if the step gives SQLITE_ROW.
pub record Sqlite (D F P : Type 0) : Type 0 where
  pub sqlite3_open : P → Bool × D
  pub exec : Statement F → D → Bool × D
  pub prepare : Statement F → D → Bool
  pub step_done : Statement F → D → Bool × D
  pub count : Statement F → D → Option ℤ
  -- The query of `uploader_query_unuploaded` with its two bindings, `none` if it cannot be
  -- prepared: the rows that its steps give, and whether the last one gives SQLITE_DONE.
  pub select : ℤ → ℤ → D → Option (List (Row F) × Bool)

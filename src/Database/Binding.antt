-- ===== src/Database/Binding.antt =====
-- What SQLite documents of `INSERT INTO samples (columns) VALUES (?, ..., ?)`: a column has the value
-- that was bound last to the parameter at its place in the list.
use i_mx6ull_water_qualit.Base.{
  ℕ, suc, ◌==◌, if◌then◌else◌, false, List, [], ◌∷◌, Option, none, some,
}
use i_mx6ull_water_qualit.Base.Int.{ℤ}
use i_mx6ull_water_qualit.Database.{
  Row, Column, Value, Bindings, column_device_id, column_timestamp_ms, column_ph,
  column_temperature, column_turbidity, column_conductivity, column_sensor_status,
  column_alarm_status, column_sequence, text, int64, double, int,
}

abbrev column_number : Column → ℕ
column_number column_device_id = 1
column_number column_timestamp_ms = 2
column_number column_ph = 3
column_number column_temperature = 4
column_number column_turbidity = 5
column_number column_conductivity = 6
column_number column_sensor_status = 7
column_number column_alarm_status = 8
column_number column_sequence = 9

infixl 5 ◌>>=◌
abbrev ◌>>=◌ : {A B : Type 0} → Option A → (A → Option B) → Option B
none >>= f = none
some a >>= f = f a

module _ {F : Type 0} where
  abbrev bound : ℕ → Bindings F → Option (Value F)
  bound i [] = none
  bound i (b ∷ bindings) = elim (bound i bindings) [
    | some value ↦ some value
    | none ↦ if b.0 == i then some b.1 else none
  ]

  -- the value of a column among those from parameter `i` on
  abbrev value_of : Column → ℕ → List Column → Bindings F → Option (Value F)
  value_of wanted i [] bindings = none
  value_of wanted i (c ∷ columns) bindings =
      let rest = value_of wanted (suc i) columns bindings in
      if column_number c == column_number wanted then bound i bindings else rest

  abbrev as_text : Value F → Option (List ℕ)
  as_text (text s) = some s
  as_text _ = none

  abbrev as_int64 : Value F → Option ℤ
  as_int64 (int64 n) = some n
  as_int64 _ = none

  abbrev as_double : Value F → Option F
  as_double (double x) = some x
  as_double _ = none

  abbrev as_int : Value F → Option ℕ
  as_int (int n) = some n
  as_int _ = none

  -- The row of an insertion, not uploaded and never tried by the defaults of the table; `none` if a
  -- column has no value, or one of another type than the table's, of which nothing is said.
  abbrev pub row_of : ℕ → List Column → Bindings F → Option (Row F)
  row_of id columns bindings = do
    device_id ← value_of column_device_id 1 columns bindings >>= as_text
    timestamp_ms ← value_of column_timestamp_ms 1 columns bindings >>= as_int64
    ph ← value_of column_ph 1 columns bindings >>= as_double
    temperature ← value_of column_temperature 1 columns bindings >>= as_double
    turbidity ← value_of column_turbidity 1 columns bindings >>= as_double
    conductivity ← value_of column_conductivity 1 columns bindings >>= as_double
    sensor_status ← value_of column_sensor_status 1 columns bindings >>= as_int
    alarm_status ← value_of column_alarm_status 1 columns bindings >>= as_int
    sequence ← value_of column_sequence 1 columns bindings >>= as_int
    some (record {
      id = id;
      device_id = device_id;
      sample = record {
        timestamp_ms = timestamp_ms;
        ph = ph;
        temperature = temperature;
        turbidity = turbidity;
        conductivity = conductivity;
        sensor_status = sensor_status;
        alarm_status = alarm_status;
        sequence = sequence;
      };
      uploaded = false;
      upload_retry = 0;
    })

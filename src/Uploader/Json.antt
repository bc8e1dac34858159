-- ===== src/Uploader/Json.antt =====
-- The line that `uploader_build_json` of app/src/uploader.c prints. What "%.2f" prints of a `float` and
-- its cast to `int` are arguments.
use i_mx6ull_water_qualit.Base.{ℕ, List, [], ◌∷◌, ◌++◌}
use i_mx6ull_water_qualit.Base.Int.{ℤ}
use i_mx6ull_water_qualit.Base.Decimal.{unsigned_text, signed_text}
use i_mx6ull_water_qualit.Sample.{Sample}

-- the pieces of the format string, each up to the conversion that follows
-- {"device_id":"
abbrev to_device_id : List ℕ
to_device_id = 123 ∷ 34 ∷ 100 ∷ 101 ∷ 118 ∷ 105 ∷ 99 ∷ 101 ∷ 95 ∷ 105 ∷ 100 ∷ 34 ∷ 58 ∷ 34 ∷ []

-- ","timestamp_ms":
abbrev to_timestamp_ms : List ℕ
to_timestamp_ms =
    34 ∷ 44 ∷ 34 ∷ 116 ∷ 105 ∷ 109 ∷ 101 ∷ 115 ∷ 116 ∷ 97 ∷ 109 ∷ 112 ∷ 95 ∷ 109 ∷ 115 ∷ 34 ∷ 58
    ∷ []

-- ,"ph":
abbrev to_ph : List ℕ
to_ph = 44 ∷ 34 ∷ 112 ∷ 104 ∷ 34 ∷ 58 ∷ []

-- ,"temperature":
abbrev to_temperature : List ℕ
to_temperature =
    44 ∷ 34 ∷ 116 ∷ 101 ∷ 109 ∷ 112 ∷ 101 ∷ 114 ∷ 97 ∷ 116 ∷ 117 ∷ 114 ∷ 101 ∷ 34 ∷ 58 ∷ []

-- ,"turbidity":
abbrev to_turbidity : List ℕ
to_turbidity = 44 ∷ 34 ∷ 116 ∷ 117 ∷ 114 ∷ 98 ∷ 105 ∷ 100 ∷ 105 ∷ 116 ∷ 121 ∷ 34 ∷ 58 ∷ []

-- ,"conductivity":
abbrev to_conductivity : List ℕ
to_conductivity =
    44 ∷ 34 ∷ 99 ∷ 111 ∷ 110 ∷ 100 ∷ 117 ∷ 99 ∷ 116 ∷ 105 ∷ 118 ∷ 105 ∷ 116 ∷ 121 ∷ 34 ∷ 58 ∷ []

-- ,"sensor_status":
abbrev to_sensor_status : List ℕ
to_sensor_status =
    44 ∷ 34 ∷ 115 ∷ 101 ∷ 110 ∷ 115 ∷ 111 ∷ 114 ∷ 95 ∷ 115 ∷ 116 ∷ 97 ∷ 116 ∷ 117 ∷ 115 ∷ 34 ∷ 58
    ∷ []

-- ,"alarm_status":
abbrev to_alarm_status : List ℕ
to_alarm_status =
    44 ∷ 34 ∷ 97 ∷ 108 ∷ 97 ∷ 114 ∷ 109 ∷ 95 ∷ 115 ∷ 116 ∷ 97 ∷ 116 ∷ 117 ∷ 115 ∷ 34 ∷ 58 ∷ []

-- ,"sequence":
abbrev to_sequence : List ℕ
to_sequence = 44 ∷ 34 ∷ 115 ∷ 101 ∷ 113 ∷ 117 ∷ 101 ∷ 110 ∷ 99 ∷ 101 ∷ 34 ∷ 58 ∷ []

-- }\n
abbrev to_end : List ℕ
to_end = 125 ∷ 10 ∷ []

abbrev pub join : List (List ℕ) → List ℕ
join [] = []
join (piece ∷ pieces) = piece ++ join pieces

module _ {F : Type 0} (print_fixed : F → List ℕ) (truncate : F → ℤ) where
  abbrev pub json_pieces : List ℕ → Sample F → List (List ℕ)
  json_pieces device_id sample =
      to_device_id
      ∷ device_id
      ∷ to_timestamp_ms
      ∷ signed_text sample.timestamp_ms
      ∷ to_ph
      ∷ print_fixed sample.ph
      ∷ to_temperature
      ∷ print_fixed sample.temperature
      ∷ to_turbidity
      ∷ print_fixed sample.turbidity
      ∷ to_conductivity
      ∷ signed_text (truncate sample.conductivity)
      ∷ to_sensor_status
      ∷ unsigned_text sample.sensor_status
      ∷ to_alarm_status
      ∷ unsigned_text sample.alarm_status
      ∷ to_sequence
      ∷ unsigned_text sample.sequence
      ∷ to_end
      ∷ []

  unfoldable pub json_line : List ℕ → Sample F → List ℕ
  json_line device_id sample = join (json_pieces device_id sample)

-- ===== src/Config/Names.antt =====
-- What the string functions do with the name of a key in front.
use i_mx6ull_water_qualit.Base.{
  ℕ, ◌<◌, ◌≡◌, ◌≢◌, refl, arith, false, List, [], ◌∷◌, ◌++◌, some, All,
}
use i_mx6ull_water_qualit.Config.{
  Key, key_name, key_device_id, key_sample_period_ms, key_log_level, key_serial_device,
  key_baudrate, key_modbus_slave_addr, key_db_path, key_max_cache_count, key_upload_enabled,
  key_upload_protocol, key_upload_server_host, key_upload_server_port, key_upload_period_ms,
  key_upload_batch_max, key_upload_retry_max, key_log_file, key_alarm_device,
}
use i_mx6ull_water_qualit.Config.Text.{trim_front, trim_end, trim, split_equal}
use i_mx6ull_water_qualit.Config.Load.{is_skipped, key_of}

-- a byte that ends neither a string nor a line
abbrev pub IsPlain : ℕ → Type 0
IsPlain b = (0 < b) × (b ≢ 10)

pub record Named (k : Key) : Type 0 where
  pub plain : All IsPlain (key_name k)
  pub starts : (s : List ℕ) → trim_front (key_name k ++ s) ≡ key_name k ++ s
  pub kept : (s : List ℕ) → is_skipped (key_name k ++ s) ≡ false
  pub splits :
      (s : List ℕ) → split_equal (key_name k ++ 32 ∷ 61 ∷ s) ≡ some (key_name k ++ 32 ∷ [], s)
  pub trims : trim (key_name k ++ 32 ∷ []) ≡ key_name k
  pub found : key_of (key_name k) ≡ some k

pub name-Named : (k : Key) → Named k
unfolding trim_front is_skipped split_equal trim trim_end key_of
name-Named key_device_id = record {
  plain = omega arith;
  starts = λ s. refl;
  kept = λ s. refl;
  splits = λ s. refl;
  trims = refl;
  found = refl;
}
name-Named key_sample_period_ms = record {
  plain = omega arith;
  starts = λ s. refl;
  kept = λ s. refl;
  splits = λ s. refl;
  trims = refl;
  found = refl;
}
name-Named key_log_level = record {
  plain = omega arith;
  starts = λ s. refl;
  kept = λ s. refl;
  splits = λ s. refl;
  trims = refl;
  found = refl;
}
name-Named key_serial_device = record {
  plain = omega arith;
  starts = λ s. refl;
  kept = λ s. refl;
  splits = λ s. refl;
  trims = refl;
  found = refl;
}
name-Named key_baudrate = record {
  plain = omega arith;
  starts = λ s. refl;
  kept = λ s. refl;
  splits = λ s. refl;
  trims = refl;
  found = refl;
}
name-Named key_modbus_slave_addr = record {
  plain = omega arith;
  starts = λ s. refl;
  kept = λ s. refl;
  splits = λ s. refl;
  trims = refl;
  found = refl;
}
name-Named key_db_path = record {
  plain = omega arith;
  starts = λ s. refl;
  kept = λ s. refl;
  splits = λ s. refl;
  trims = refl;
  found = refl;
}
name-Named key_max_cache_count = record {
  plain = omega arith;
  starts = λ s. refl;
  kept = λ s. refl;
  splits = λ s. refl;
  trims = refl;
  found = refl;
}
name-Named key_upload_enabled = record {
  plain = omega arith;
  starts = λ s. refl;
  kept = λ s. refl;
  splits = λ s. refl;
  trims = refl;
  found = refl;
}
name-Named key_upload_protocol = record {
  plain = omega arith;
  starts = λ s. refl;
  kept = λ s. refl;
  splits = λ s. refl;
  trims = refl;
  found = refl;
}
name-Named key_upload_server_host = record {
  plain = omega arith;
  starts = λ s. refl;
  kept = λ s. refl;
  splits = λ s. refl;
  trims = refl;
  found = refl;
}
name-Named key_upload_server_port = record {
  plain = omega arith;
  starts = λ s. refl;
  kept = λ s. refl;
  splits = λ s. refl;
  trims = refl;
  found = refl;
}
name-Named key_upload_period_ms = record {
  plain = omega arith;
  starts = λ s. refl;
  kept = λ s. refl;
  splits = λ s. refl;
  trims = refl;
  found = refl;
}
name-Named key_upload_batch_max = record {
  plain = omega arith;
  starts = λ s. refl;
  kept = λ s. refl;
  splits = λ s. refl;
  trims = refl;
  found = refl;
}
name-Named key_upload_retry_max = record {
  plain = omega arith;
  starts = λ s. refl;
  kept = λ s. refl;
  splits = λ s. refl;
  trims = refl;
  found = refl;
}
name-Named key_log_file = record {
  plain = omega arith;
  starts = λ s. refl;
  kept = λ s. refl;
  splits = λ s. refl;
  trims = refl;
  found = refl;
}
name-Named key_alarm_device = record {
  plain = omega arith;
  starts = λ s. refl;
  kept = λ s. refl;
  splits = λ s. refl;
  trims = refl;
  found = refl;
}

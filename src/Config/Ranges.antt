-- ===== src/Config/Ranges.antt =====
-- What every loaded configuration satisfies.
use mathlib.Core.Path.{subst}
use i_mx6ull_water_qualit.Base.{
  ℕ, ◌-◌, ◌<◌, ◌≡◌, ◌⊎◌, inl, inr, refl, sym, Bool-cases, Option-cases, arith, List, [], ◌∷◌,
  Option, none, some, length, length-take,
}
use i_mx6ull_water_qualit.Base.Int.{pos, negsuc, ◌≤ℤ◌}
use i_mx6ull_water_qualit.Config.{
  GatewayConfig, Key, key_device_id, key_sample_period_ms, key_log_level, key_serial_device,
  key_baudrate, key_modbus_slave_addr, key_db_path, key_max_cache_count, key_upload_enabled,
  key_upload_protocol, key_upload_server_host, key_upload_server_port, key_upload_period_ms,
  key_upload_batch_max, key_upload_retry_max, key_log_file, key_alarm_device, size_device_id,
  size_log_level, size_serial_device, size_db_path, size_upload_protocol, size_upload_server_host,
  size_log_file, size_alarm_device,
}
use i_mx6ull_water_qualit.Config.Text.{trim, c_string, split_equal, copy_string, fgets_all}
use i_mx6ull_water_qualit.Config.Load.{
  config_set_default, is_skipped, key_of, assign, config_line, config_lines, config_check,
  config_load,
}

-- every string stands in its array with its final NUL
abbrev pub Fits : GatewayConfig → Type 0
Fits cfg =
    (length cfg.device_id < size_device_id)
    × (length cfg.log_level < size_log_level)
    × (length cfg.serial_device < size_serial_device)
    × (length cfg.db_path < size_db_path)
    × (length cfg.upload_protocol < size_upload_protocol)
    × (length cfg.upload_server_host < size_upload_server_host)
    × (length cfg.log_file < size_log_file)
    × (length cfg.alarm_device < size_alarm_device)

-- the numbers that the code checks
abbrev pub InRange : GatewayConfig → Type 0
InRange cfg =
    (pos 1 ≤ℤ cfg.sample_period_ms)
    × (pos 1 ≤ℤ cfg.baudrate)
    × (pos 1 ≤ℤ cfg.modbus_slave_addr)
    × (cfg.modbus_slave_addr ≤ℤ pos 247)
    × (pos 1 ≤ℤ cfg.max_cache_count)

length-copy_string :
    (dst src : List ℕ) (size : ℕ) → 0 < size → length (copy_string dst size src) < size
unfolding copy_string
length-copy_string dst src size h = ground (arith, length-take (size - 1) src)

default-Fits :
    (cfg : GatewayConfig)
    → (set : GatewayConfig) × (config_set_default (some cfg) ≡ some set) × Fits set
unfolding config_set_default copy_string
default-Fits cfg = (_, refl, omega arith)

assign-Fits :
    (k : Key) (value : List ℕ) (cfg : GatewayConfig) → Fits cfg → Fits (assign k value cfg)
unfolding assign
assign-Fits key_device_id value cfg f =
    omega (arith, length-copy_string cfg.device_id value size_device_id (omega arith))
assign-Fits key_sample_period_ms value cfg f = f
assign-Fits key_log_level value cfg f =
    omega (arith, length-copy_string cfg.log_level value size_log_level (omega arith))
assign-Fits key_serial_device value cfg f =
    omega (arith, length-copy_string cfg.serial_device value size_serial_device (omega arith))
assign-Fits key_baudrate value cfg f = f
assign-Fits key_modbus_slave_addr value cfg f = f
assign-Fits key_db_path value cfg f =
    omega (arith, length-copy_string cfg.db_path value size_db_path (omega arith))
assign-Fits key_max_cache_count value cfg f = f
assign-Fits key_upload_enabled value cfg f = f
assign-Fits key_upload_protocol value cfg f =
    omega (arith, length-copy_string cfg.upload_protocol value size_upload_protocol (omega arith))
assign-Fits key_upload_server_host value cfg f =
    omega
      (arith, length-copy_string cfg.upload_server_host value size_upload_server_host (omega arith))
assign-Fits key_upload_server_port value cfg f = f
assign-Fits key_upload_period_ms value cfg f = f
assign-Fits key_upload_batch_max value cfg f = f
assign-Fits key_upload_retry_max value cfg f = f
assign-Fits key_log_file value cfg f =
    omega (arith, length-copy_string cfg.log_file value size_log_file (omega arith))
assign-Fits key_alarm_device value cfg f =
    omega (arith, length-copy_string cfg.alarm_device value size_alarm_device (omega arith))

-- A line of the file does nothing or is one assignment.
config_line_cases :
    (line : List ℕ) (cfg : GatewayConfig)
    → (config_line line cfg ≡ cfg)
      ⊎ ((k : Key) × (value : List ℕ) × (config_line line cfg ≡ assign k value cfg))
unfolding config_line
config_line_cases line cfg = elim (Bool-cases (is_skipped (trim (c_string line)))) [
  | inl s ↦ inl (rw s refl)
  | inr s ↦ elim (Option-cases (split_equal (trim (c_string line)))) [
    | inl p ↦ inl (rw (s, p) refl)
    | inr (parts, p) ↦ elim (Option-cases (key_of (trim parts.0))) [
      | inl k ↦ inl (rw (s, p, k) refl)
      | inr (found, k) ↦ inr (found, trim parts.1, rw (s, p, k) refl)
    ]
  ]
]

config_line-Fits : (line : List ℕ) (cfg : GatewayConfig) → Fits cfg → Fits (config_line line cfg)
config_line-Fits line cfg f = elim (config_line_cases line cfg) [
  | inl e ↦ subst Fits (sym e) f
  | inr (k, value, e) ↦ subst Fits (sym e) (assign-Fits k value cfg f)
]

config_lines-Fits :
    (lines : List (List ℕ)) (cfg : GatewayConfig) → Fits cfg → Fits (config_lines lines cfg)
unfolding config_lines
config_lines-Fits [] cfg f = f
config_lines-Fits (line ∷ lines) cfg f =
    config_lines-Fits lines (config_line line cfg) (config_line-Fits line cfg f)

config_check-InRange : (cfg : GatewayConfig) → InRange (config_check cfg)
unfolding config_check
config_check-InRange cfg = ground arith

config_check-Fits : (cfg : GatewayConfig) → Fits cfg → Fits (config_check cfg)
unfolding config_check
config_check-Fits cfg f = f

pub config_load_opened :
    {P : Type 0} (path : P) (cfg set : GatewayConfig) (file : List ℕ) (opened : P → Option (List ℕ))
    → config_set_default (some cfg) ≡ some set
    → opened path ≡ some file
    → config_load (some path) (some cfg) opened
      ≡ (pos 0, some (config_check (config_lines (fgets_all 255 [] file) set)))
unfolding config_load
config_load_opened path cfg set file opened e o = rw (config_load, e, o) refl

config_load_unopened :
    {P : Type 0} (path : P) (cfg set : GatewayConfig) (opened : P → Option (List ℕ))
    → config_set_default (some cfg) ≡ some set
    → opened path ≡ none
    → config_load (some path) (some cfg) opened ≡ (negsuc 0, some set)
unfolding config_load
config_load_unopened path cfg set opened e o = rw (config_load, e, o) refl

-- Whatever the file holds, loading it returns 0 and a configuration whose strings stand in their
-- arrays with their final NUL and whose checked numbers are in range; if the file cannot be
-- opened the result is -1 and the strings of the configuration still fit.
pub config_load_valid :
    {P : Type 0} (path : P) (cfg : GatewayConfig) (opened : P → Option (List ℕ))
    → let result = config_load (some path) (some cfg) opened in
      ((file : List ℕ) × (set : GatewayConfig) × (opened path ≡ some file)
        × (result ≡ (pos 0, some set))
        × Fits set
        × InRange set)
      ⊎ ((set : GatewayConfig) × (opened path ≡ none) × (result ≡ (negsuc 0, some set)) × Fits set)
config_load_valid path cfg opened =
    let (set, e, f) = default-Fits cfg in
    elim (Option-cases (opened path)) [
      | inl o ↦ inr (set, o, config_load_unopened path cfg set opened e o, f)
      | inr (file, o) ↦ inl (
        file,
        config_check (config_lines (fgets_all 255 [] file) set),
        o,
        config_load_opened path cfg set file opened e o,
        config_check-Fits (config_lines (fgets_all 255 [] file) set)
            (config_lines-Fits (fgets_all 255 [] file) set f),
        config_check-InRange (config_lines (fgets_all 255 [] file) set),
      )
    ]

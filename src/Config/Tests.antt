-- ===== src/Config/Tests.antt =====
-- Settings in a file, and the theorems at them.
use i_mx6ull_water_qualit.Base.{ℕ, ◌≡◌, ◌⊎◌, refl, arith, List, [], ◌∷◌, Option, none, some}
use i_mx6ull_water_qualit.Base.Int.{pos, negsuc}
use i_mx6ull_water_qualit.Config.Fixture.{blank}
use i_mx6ull_water_qualit.Config.{GatewayConfig, Key, key_baudrate, key_log_level}
use i_mx6ull_water_qualit.Config.Text.{trim_front, trim_end, trim, atoi, copy_string, fgets_all}
use i_mx6ull_water_qualit.Config.Load.{config_set_default, assign, config_check, config_load}
use i_mx6ull_water_qualit.Config.Ranges.{Fits, InRange, config_load_valid}
use i_mx6ull_water_qualit.Config.Settings.{Clean, render, apply, config_load-render}

abbrev baud_text : List ℕ
baud_text = 49 ∷ 49 ∷ 53 ∷ 50 ∷ 48 ∷ 48 ∷ []

abbrev level_text : List ℕ
level_text = 100 ∷ 101 ∷ 98 ∷ 117 ∷ 103 ∷ []

abbrev two_settings : List (Key × List ℕ)
two_settings = (key_baudrate, baud_text) ∷ (key_log_level, level_text) ∷ []

abbrev conf_file : ℕ → Option (List ℕ)
conf_file path = some (render two_settings)

atoi_baud : atoi baud_text ≡ pos 115200
unfolding atoi trim_front
atoi_baud = refl

atoi_negative : atoi (32 ∷ 45 ∷ 49 ∷ 50 ∷ 120 ∷ []) ≡ negsuc 11
unfolding atoi trim_front
atoi_negative = refl

trim_text : trim (32 ∷ 97 ∷ 32 ∷ 98 ∷ 32 ∷ 10 ∷ []) ≡ 97 ∷ 32 ∷ 98 ∷ []
unfolding trim trim_front trim_end
trim_text = refl

-- Two short lines, the last without a newline.
fgets_two : fgets_all 255 [] (35 ∷ 10 ∷ 97 ∷ []) ≡ (35 ∷ 10 ∷ []) ∷ (97 ∷ []) ∷ []
unfolding fgets_all
fgets_two = refl

baud-Clean : Clean baud_text
unfolding trim_front trim_end
baud-Clean = record {
  first = 49;
  rest = 49 ∷ 53 ∷ 50 ∷ 48 ∷ 48 ∷ [];
  shape = refl;
  trimmed_front = refl;
  trimmed_end = refl;
  plain = omega arith;
}

level-Clean : Clean level_text
unfolding trim_front trim_end
level-Clean = record {
  first = 100;
  rest = 101 ∷ 98 ∷ 117 ∷ 103 ∷ [];
  shape = refl;
  trimmed_front = refl;
  trimmed_end = refl;
  plain = omega arith;
}

abbrev defaults : GatewayConfig
defaults = record {
  serial_device = 47 ∷ 100 ∷ 101 ∷ 118 ∷ 47 ∷ 116 ∷ 116 ∷ 121 ∷ 85 ∷ 83 ∷ 66 ∷ 48 ∷ [];
  alarm_device =
      47 ∷ 100 ∷ 101 ∷ 118 ∷ 47 ∷ 110 ∷ 101 ∷ 119 ∷ 99 ∷ 104 ∷ 114 ∷ 108 ∷ 101 ∷ 100 ∷ [];
  upload_server_host = 49 ∷ 57 ∷ 50 ∷ 46 ∷ 49 ∷ 54 ∷ 56 ∷ 46 ∷ 50 ∷ 46 ∷ 49 ∷ 53 ∷ 48 ∷ [];
  device_id =
      119 ∷ 97 ∷ 116 ∷ 101 ∷ 114 ∷ 95 ∷ 103 ∷ 97 ∷ 116 ∷ 101 ∷ 119 ∷ 97 ∷ 121 ∷ 95 ∷ 48 ∷ 48 ∷ 49
      ∷ [];
  sample_period_ms = pos 1000;
  log_level = 105 ∷ 110 ∷ 102 ∷ 111 ∷ [];
  baudrate = pos 9600;
  modbus_slave_addr = pos 1;
  db_path =
      119 ∷ 97 ∷ 116 ∷ 101 ∷ 114 ∷ 95 ∷ 103 ∷ 97 ∷ 116 ∷ 101 ∷ 119 ∷ 97 ∷ 121 ∷ 46 ∷ 100 ∷ 98 ∷ [];
  max_cache_count = pos 100000;
  upload_enabled = pos 1;
  upload_protocol = 116 ∷ 99 ∷ 112 ∷ [];
  log_file = 115 ∷ 116 ∷ 100 ∷ 111 ∷ 117 ∷ 116 ∷ [];
  upload_server_port = pos 18800;
  upload_period_ms = pos 5000;
  upload_batch_max = pos 20;
  upload_retry_max = pos 3;
}

config_set_default-blank : config_set_default (some blank) ≡ some defaults
unfolding config_set_default copy_string
config_set_default-blank = refl

config_load_valid_example :
    ((file : List ℕ) × (set : GatewayConfig) × (conf_file 0 ≡ some file)
      × (config_load (some 0) (some blank) conf_file ≡ (pos 0, some set))
      × Fits set
      × InRange set)
    ⊎ ((set : GatewayConfig) × (conf_file 0 ≡ none)
        × (config_load (some 0) (some blank) conf_file ≡ (negsuc 0, some set))
        × Fits set)
config_load_valid_example = config_load_valid 0 blank conf_file

config_load-render_example :
    config_load (some 0) (some blank) conf_file
    ≡ (pos 0, some (config_check (apply two_settings defaults)))
config_load-render_example =
    config_load-render 0 blank defaults conf_file two_settings config_set_default-blank refl
      (baud-Clean, omega arith, (level-Clean, omega arith, tt))

loaded_file :
    config_check (apply two_settings defaults)
    ≡ record defaults { baudrate = pos 115200; log_level = level_text }
unfolding config_check apply assign atoi trim_front copy_string
loaded_file = refl

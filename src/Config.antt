-- ===== src/Config.antt =====
-- app/src/config.c and app/include/config.h: the settings of the gateway and their file.
-- `Text` has the string functions, `Load` the operations, `Ranges` what a loaded configuration satisfies, `Settings` what
-- a line of the file does. The messages and `config_print` are left out.
pub mod Text
pub mod Load
pub mod Ranges
pub mod Names
pub mod Settings
pub mod Fixture
mod Tests
use i_mx6ull_water_qualit.Base.{ℕ, List, [], ◌∷◌}
use i_mx6ull_water_qualit.Base.Int.{ℤ}

-- `gateway_config_t`
pub record GatewayConfig : Type 0 where
  pub device_id : List ℕ
  pub sample_period_ms : ℤ
  pub log_level : List ℕ
  pub serial_device : List ℕ
  pub baudrate : ℤ
  pub modbus_slave_addr : ℤ
  pub db_path : List ℕ
  pub max_cache_count : ℤ
  pub upload_enabled : ℤ
  pub upload_protocol : List ℕ
  pub alarm_device : List ℕ
  pub log_file : List ℕ
  pub upload_server_host : List ℕ
  pub upload_server_port : ℤ
  pub upload_period_ms : ℤ
  pub upload_batch_max : ℤ
  pub upload_retry_max : ℤ

-- the keys of the file, in the order of their tests
pub data Key : Type 0 where
  key_device_id : Key
  key_sample_period_ms : Key
  key_log_level : Key
  key_serial_device : Key
  key_baudrate : Key
  key_modbus_slave_addr : Key
  key_db_path : Key
  key_max_cache_count : Key
  key_upload_enabled : Key
  key_upload_protocol : Key
  key_upload_server_host : Key
  key_upload_server_port : Key
  key_upload_period_ms : Key
  key_upload_batch_max : Key
  key_upload_retry_max : Key
  key_log_file : Key
  key_alarm_device : Key

-- what a key is called in the file
abbrev pub key_name : Key → List ℕ
key_name key_device_id = 100 ∷ 101 ∷ 118 ∷ 105 ∷ 99 ∷ 101 ∷ 95 ∷ 105 ∷ 100 ∷ []
key_name key_sample_period_ms =
    115 ∷ 97 ∷ 109 ∷ 112 ∷ 108 ∷ 101 ∷ 95 ∷ 112 ∷ 101 ∷ 114 ∷ 105 ∷ 111 ∷ 100 ∷ 95 ∷ 109 ∷ 115 ∷ []
key_name key_log_level = 108 ∷ 111 ∷ 103 ∷ 95 ∷ 108 ∷ 101 ∷ 118 ∷ 101 ∷ 108 ∷ []
key_name key_serial_device =
    115 ∷ 101 ∷ 114 ∷ 105 ∷ 97 ∷ 108 ∷ 95 ∷ 100 ∷ 101 ∷ 118 ∷ 105 ∷ 99 ∷ 101 ∷ []
key_name key_baudrate = 98 ∷ 97 ∷ 117 ∷ 100 ∷ 114 ∷ 97 ∷ 116 ∷ 101 ∷ []
key_name key_modbus_slave_addr =
    109 ∷ 111 ∷ 100 ∷ 98 ∷ 117 ∷ 115 ∷ 95 ∷ 115 ∷ 108 ∷ 97 ∷ 118 ∷ 101 ∷ 95 ∷ 97 ∷ 100 ∷ 100 ∷ 114
    ∷ []
key_name key_db_path = 100 ∷ 98 ∷ 95 ∷ 112 ∷ 97 ∷ 116 ∷ 104 ∷ []
key_name key_max_cache_count =
    109 ∷ 97 ∷ 120 ∷ 95 ∷ 99 ∷ 97 ∷ 99 ∷ 104 ∷ 101 ∷ 95 ∷ 99 ∷ 111 ∷ 117 ∷ 110 ∷ 116 ∷ []
key_name key_upload_enabled =
    117 ∷ 112 ∷ 108 ∷ 111 ∷ 97 ∷ 100 ∷ 95 ∷ 101 ∷ 110 ∷ 97 ∷ 98 ∷ 108 ∷ 101 ∷ 100 ∷ []
key_name key_upload_protocol =
    117 ∷ 112 ∷ 108 ∷ 111 ∷ 97 ∷ 100 ∷ 95 ∷ 112 ∷ 114 ∷ 111 ∷ 116 ∷ 111 ∷ 99 ∷ 111 ∷ 108 ∷ []
key_name key_upload_server_host =
    117 ∷ 112 ∷ 108 ∷ 111 ∷ 97 ∷ 100 ∷ 95 ∷ 115 ∷ 101 ∷ 114 ∷ 118 ∷ 101 ∷ 114 ∷ 95 ∷ 104 ∷ 111 ∷ 115
    ∷ 116 ∷ []
key_name key_upload_server_port =
    117 ∷ 112 ∷ 108 ∷ 111 ∷ 97 ∷ 100 ∷ 95 ∷ 115 ∷ 101 ∷ 114 ∷ 118 ∷ 101 ∷ 114 ∷ 95 ∷ 112 ∷ 111 ∷ 114
    ∷ 116 ∷ []
key_name key_upload_period_ms =
    117 ∷ 112 ∷ 108 ∷ 111 ∷ 97 ∷ 100 ∷ 95 ∷ 112 ∷ 101 ∷ 114 ∷ 105 ∷ 111 ∷ 100 ∷ 95 ∷ 109 ∷ 115 ∷ []
key_name key_upload_batch_max =
    117 ∷ 112 ∷ 108 ∷ 111 ∷ 97 ∷ 100 ∷ 95 ∷ 98 ∷ 97 ∷ 116 ∷ 99 ∷ 104 ∷ 95 ∷ 109 ∷ 97 ∷ 120 ∷ []
key_name key_upload_retry_max =
    117 ∷ 112 ∷ 108 ∷ 111 ∷ 97 ∷ 100 ∷ 95 ∷ 114 ∷ 101 ∷ 116 ∷ 114 ∷ 121 ∷ 95 ∷ 109 ∷ 97 ∷ 120 ∷ []
key_name key_log_file = 108 ∷ 111 ∷ 103 ∷ 95 ∷ 102 ∷ 105 ∷ 108 ∷ 101 ∷ []
key_name key_alarm_device = 97 ∷ 108 ∷ 97 ∷ 114 ∷ 109 ∷ 95 ∷ 100 ∷ 101 ∷ 118 ∷ 105 ∷ 99 ∷ 101 ∷ []

-- the sizes of the arrays
abbrev pub size_device_id : ℕ
size_device_id = 64

abbrev pub size_log_level : ℕ
size_log_level = 16

abbrev pub size_serial_device : ℕ
size_serial_device = 128

abbrev pub size_db_path : ℕ
size_db_path = 256

abbrev pub size_upload_protocol : ℕ
size_upload_protocol = 16

abbrev pub size_upload_server_host : ℕ
size_upload_server_host = 128

abbrev pub size_log_file : ℕ
size_log_file = 256

abbrev pub size_alarm_device : ℕ
size_alarm_device = 128

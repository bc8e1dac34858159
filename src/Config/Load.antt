-- ===== src/Config/Load.antt =====
-- The operations of app/src/config.c.
use i_mx6ull_water_qualit.Base.{
  ℕ, ◌==◌, if◌then◌else◌, ◌||◌, Bool, true, List, [], ◌∷◌, Option, none, some,
}
use i_mx6ull_water_qualit.Base.Int.{ℤ, pos, negsuc, ltb_ℤ}
use i_mx6ull_water_qualit.Config.{
  GatewayConfig, Key, key_name, key_device_id, key_sample_period_ms, key_log_level,
  key_serial_device, key_baudrate, key_modbus_slave_addr, key_db_path, key_max_cache_count,
  key_upload_enabled, key_upload_protocol, key_upload_server_host, key_upload_server_port,
  key_upload_period_ms, key_upload_batch_max, key_upload_retry_max, key_log_file, key_alarm_device,
  size_device_id, size_log_level, size_serial_device, size_db_path, size_upload_protocol,
  size_upload_server_host, size_log_file, size_alarm_device,
}
use i_mx6ull_water_qualit.Config.Text.{
  trim, copy_string, str_eq, atoi, split_equal, c_string, fgets_all,
}

unfoldable pub config_set_default : Option GatewayConfig → Option GatewayConfig
config_set_default none = none
config_set_default (some cfg) = some (record {
  device_id = copy_string cfg.device_id size_device_id (
      119 ∷ 97 ∷ 116 ∷ 101 ∷ 114 ∷ 95 ∷ 103 ∷ 97 ∷ 116 ∷ 101 ∷ 119 ∷ 97 ∷ 121 ∷ 95 ∷ 48 ∷ 48 ∷ 49
      ∷ []);
  sample_period_ms = pos 1000;
  log_level = copy_string cfg.log_level size_log_level (105 ∷ 110 ∷ 102 ∷ 111 ∷ []);
  serial_device =
      copy_string cfg.serial_device size_serial_device
        (47 ∷ 100 ∷ 101 ∷ 118 ∷ 47 ∷ 116 ∷ 116 ∷ 121 ∷ 85 ∷ 83 ∷ 66 ∷ 48 ∷ []);
  baudrate = pos 9600;
  modbus_slave_addr = pos 1;
  db_path = copy_string cfg.db_path size_db_path (
      119 ∷ 97 ∷ 116 ∷ 101 ∷ 114 ∷ 95 ∷ 103 ∷ 97 ∷ 116 ∷ 101 ∷ 119 ∷ 97 ∷ 121 ∷ 46 ∷ 100 ∷ 98 ∷ []);
  max_cache_count = pos 100000;
  upload_enabled = pos 1;
  upload_protocol = copy_string cfg.upload_protocol size_upload_protocol (116 ∷ 99 ∷ 112 ∷ []);
  alarm_device =
      copy_string cfg.alarm_device size_alarm_device
        (47 ∷ 100 ∷ 101 ∷ 118 ∷ 47 ∷ 110 ∷ 101 ∷ 119 ∷ 99 ∷ 104 ∷ 114 ∷ 108 ∷ 101 ∷ 100 ∷ []);
  log_file = copy_string cfg.log_file size_log_file (115 ∷ 116 ∷ 100 ∷ 111 ∷ 117 ∷ 116 ∷ []);
  upload_server_host =
      copy_string cfg.upload_server_host size_upload_server_host
        (49 ∷ 57 ∷ 50 ∷ 46 ∷ 49 ∷ 54 ∷ 56 ∷ 46 ∷ 50 ∷ 46 ∷ 49 ∷ 53 ∷ 48 ∷ []);
  upload_server_port = pos 18800;
  upload_period_ms = pos 5000;
  upload_batch_max = pos 20;
  upload_retry_max = pos 3;
})

-- Which key a name is, by the tests in their order.
unfoldable pub key_of : List ℕ → Option Key
key_of name =
    if str_eq name (key_name key_device_id)
    then some key_device_id
    else (if str_eq name (key_name key_sample_period_ms)
        then some key_sample_period_ms
        else (if str_eq name (key_name key_log_level)
            then some key_log_level
            else (if str_eq name (key_name key_serial_device)
                then some key_serial_device
                else (if str_eq name (key_name key_baudrate)
                    then some key_baudrate
                    else (if str_eq name (key_name key_modbus_slave_addr)
                        then some key_modbus_slave_addr
                        else (if str_eq name (key_name key_db_path)
                            then some key_db_path
                            else (if str_eq name (key_name key_max_cache_count)
                                then some key_max_cache_count
                                else (if str_eq name (key_name key_upload_enabled)
                                    then some key_upload_enabled
                                    else (if str_eq name (key_name key_upload_protocol)
                                        then some key_upload_protocol
                                        else (if str_eq name (key_name key_upload_server_host)
                                            then some key_upload_server_host
                                            else (if str_eq name (key_name key_upload_server_port)
                                                then some key_upload_server_port
                                                else (if str_eq name (key_name key_upload_period_ms)
                                                    then some key_upload_period_ms
                                                    else (if str_eq name
                                                          (key_name key_upload_batch_max)
                                                        then some key_upload_batch_max
                                                        else (if str_eq name
                                                            (key_name key_upload_retry_max)
                                                            then some key_upload_retry_max
                                                            else (if str_eq name
                                                            (key_name key_log_file)
                                                            then some key_log_file
                                                            else (if str_eq name
                                                            (key_name key_alarm_device)
                                                            then some key_alarm_device
                                                            else (none)))))))))))))))))

-- The assignment that belongs to a key.
unfoldable pub assign : Key → List ℕ → GatewayConfig → GatewayConfig
assign key_device_id value cfg = record cfg {
  device_id = copy_string cfg.device_id size_device_id value;
}
assign key_sample_period_ms value cfg = record cfg { sample_period_ms = atoi value }
assign key_log_level value cfg = record cfg {
  log_level = copy_string cfg.log_level size_log_level value;
}
assign key_serial_device value cfg = record cfg {
  serial_device = copy_string cfg.serial_device size_serial_device value;
}
assign key_baudrate value cfg = record cfg { baudrate = atoi value }
assign key_modbus_slave_addr value cfg = record cfg { modbus_slave_addr = atoi value }
assign key_db_path value cfg = record cfg { db_path = copy_string cfg.db_path size_db_path value }
assign key_max_cache_count value cfg = record cfg { max_cache_count = atoi value }
assign key_upload_enabled value cfg = record cfg { upload_enabled = atoi value }
assign key_upload_protocol value cfg = record cfg {
  upload_protocol = copy_string cfg.upload_protocol size_upload_protocol value;
}
assign key_upload_server_host value cfg = record cfg {
  upload_server_host = copy_string cfg.upload_server_host size_upload_server_host value;
}
assign key_upload_server_port value cfg = record cfg { upload_server_port = atoi value }
assign key_upload_period_ms value cfg = record cfg { upload_period_ms = atoi value }
assign key_upload_batch_max value cfg = record cfg { upload_batch_max = atoi value }
assign key_upload_retry_max value cfg = record cfg { upload_retry_max = atoi value }
assign key_log_file value cfg = record cfg {
  log_file = copy_string cfg.log_file size_log_file value;
}
assign key_alarm_device value cfg = record cfg {
  alarm_device = copy_string cfg.alarm_device size_alarm_device value;
}

-- `key[0] == '\0' || key[0] == '#' || key[0] == ';'`
unfoldable pub is_skipped : List ℕ → Bool
is_skipped [] = true
is_skipped (b ∷ key) = b == 35 || b == 59

-- the body of the loop of `config_load`
unfoldable pub config_line : List ℕ → GatewayConfig → GatewayConfig
config_line line cfg =
    let key = trim (c_string line) in
    if is_skipped key then cfg else elim (split_equal key) [
      | none ↦ cfg
      | some parts ↦ elim (key_of (trim parts.0)) [
        | none ↦ cfg
        | some found ↦ assign found (trim parts.1) cfg
      ]
    ]

unfoldable pub config_lines : List (List ℕ) → GatewayConfig → GatewayConfig
config_lines [] cfg = cfg
config_lines (line ∷ lines) cfg = config_lines lines (config_line line cfg)

-- The checks after the loop.
unfoldable pub config_check : GatewayConfig → GatewayConfig
config_check cfg = record cfg {
  sample_period_ms = if ltb_ℤ (pos 0) cfg.sample_period_ms then cfg.sample_period_ms else pos 1000;
  baudrate = if ltb_ℤ (pos 0) cfg.baudrate then cfg.baudrate else pos 9600;
  modbus_slave_addr =
      if ltb_ℤ cfg.modbus_slave_addr (pos 1) || ltb_ℤ (pos 247) cfg.modbus_slave_addr
      then pos 1
      else cfg.modbus_slave_addr;
  max_cache_count = if ltb_ℤ (pos 0) cfg.max_cache_count then cfg.max_cache_count else pos 100000;
}

-- `opened` is what `fopen` makes of the path: the bytes of the file, or `none`.
unfoldable pub config_load {ℓ} :
    {P : Type ℓ}
    → Option P
    → Option GatewayConfig
    → (P → Option (List ℕ))
    → ℤ × Option GatewayConfig
config_load none cfg opened = (negsuc 0, cfg)
config_load (some path) none opened = (negsuc 0, none)
config_load (some path) (some cfg) opened = elim (config_set_default (some cfg)) [
  | none ↦ (negsuc 0, none)
  | some set ↦ elim (opened path) [
    | none ↦ (negsuc 0, some set)
    | some file ↦ (pos 0, some (config_check (config_lines (fgets_all 255 [] file) set)))
  ]
]

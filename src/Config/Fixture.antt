-- ===== src/Config/Fixture.antt =====
-- A configuration before app/src/config.c has set anything.
use i_mx6ull_water_qualit.Base.{[]}
use i_mx6ull_water_qualit.Base.Int.{pos}
use i_mx6ull_water_qualit.Config.{GatewayConfig}

abbrev pub blank : GatewayConfig
blank = record {
  device_id = [];
  sample_period_ms = pos 0;
  log_level = [];
  serial_device = [];
  baudrate = pos 0;
  modbus_slave_addr = pos 0;
  db_path = [];
  max_cache_count = pos 0;
  upload_enabled = pos 0;
  upload_protocol = [];
  alarm_device = [];
  log_file = [];
  upload_server_host = [];
  upload_server_port = pos 0;
  upload_period_ms = pos 0;
  upload_batch_max = pos 0;
  upload_retry_max = pos 0;
}

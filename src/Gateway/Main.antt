-- ===== src/Gateway/Main.antt =====
-- `main` of app/src/main.c as a whole: the command line, the configuration, the logger, and then the
-- test or the gateway. The calls of `signal` and the logged text are left out.
pub mod Whole
mod Tests
use i_mx6ull_water_qualit.Base.{
  ℕ, if◌then◌else◌, not, Bool, true, false, List, [], Option, none, some,
}
use i_mx6ull_water_qualit.Base.Int.{ℤ, pos, ltb_ℤ, eqb_ℤ}
use i_mx6ull_water_qualit.Config.{GatewayConfig}
use i_mx6ull_water_qualit.Config.Load.{config_load}
use i_mx6ull_water_qualit.Logger.{
  LogLevel, level_info, lower_name, Logger, logger_init, logger_open_log_file,
  logger_close_log_file,
}
use i_mx6ull_water_qualit.Serial.Open.{Tty, serial_open}
use i_mx6ull_water_qualit.Alarm.{alarm_client_open}
use i_mx6ull_water_qualit.Gateway.Args.{exits, goes_on, default_config_path, parse_args}
use i_mx6ull_water_qualit.Gateway.Resources.{Event}
use i_mx6ull_water_qualit.Gateway.Startup.{Outcomes, run_gateway}
use i_mx6ull_water_qualit.Gateway.Trial.{run_test}

-- What the program finds: the files, the terminal and the alarm device, what its variables hold
-- before they are set, and in `calls` whether the calls after `alarm_client_open` succeed.
pub record Machine (H S : Type 0) : Type 0 where
  pub config_files : List ℕ → Option (List ℕ)
  pub log_files : List ℕ → Option H
  pub tty : Tty (List ℕ) S
  pub open_alarm : List ℕ → ℤ
  pub blank_config : GatewayConfig
  pub blank_level : LogLevel
  pub blank_speed : S
  pub calls : Outcomes

-- the exit status, the calls that open, close, start and join, and the logger at the end
pub record Ended (H : Type 0) : Type 0 where
  pub status : ℤ
  pub events : List Event
  pub logger : Logger H

abbrev pub is_some : {H : Type 0} → Option H → Bool
is_some none = false
is_some (some h) = true

module _ {H S : Type 0} (machine : Machine H S) where
  open machine use {
    config_files, log_files, tty, open_alarm, blank_config, blank_level, blank_speed,
  }

  -- `g` is the logger after `logger_open_log_file`.
  abbrev pub outcomes_of : GatewayConfig → Logger H → Outcomes
  outcomes_of cfg g = record machine.calls {
    log_opens = is_some g.log_file;
    serial_opens =
        not (
          ltb_ℤ (serial_open tty blank_speed (some cfg.serial_device) cfg.baudrate).result (pos 0));
    alarm_opens = not (ltb_ℤ (alarm_client_open (some cfg.alarm_device) open_alarm) (pos 0));
    upload_enabled = not (eqb_ℤ cfg.upload_enabled (pos 0));
  }

  -- from `logger_open_log_file` on; only the last statements close the log file
  unfoldable pub gateway_part : GatewayConfig → Logger H → Ended H
  unfolding run_gateway logger_close_log_file
  gateway_part cfg g =
      let opened = logger_open_log_file log_files (some cfg.log_file) g in
      let (status, events) = run_gateway (outcomes_of cfg opened) in
      record {
        status = status;
        events = events;
        logger = if eqb_ℤ status (pos 0) then logger_close_log_file opened else opened;
      }

  -- once `config_load` has returned 0
  unfoldable pub configured : ℤ → GatewayConfig → Logger H → Ended H
  unfolding gateway_part run_test
  configured test_iterations cfg g =
      let g = logger_init blank_level (some cfg.log_level) g in
      if ltb_ℤ (pos 0) test_iterations
      then record {
        status = (run_test machine.calls).0;
        events = (run_test machine.calls).1;
        logger = g;
      }
      else gateway_part cfg g

  unfoldable pub after_load : ℤ → ℤ × Option GatewayConfig → Logger H → Ended H
  unfolding configured
  after_load test_iterations (result, none) g = record { status = pos 1; events = []; logger = g }
  after_load test_iterations (result, some cfg) g =
      if not (eqb_ℤ result (pos 0))
      then record { status = pos 1; events = []; logger = g }
      else configured test_iterations cfg g

  unfoldable pub main : List (List ℕ) → Logger H → Ended H
  unfolding after_load
  main args g = elim (parse_args args default_config_path (pos 0)) [
    | exits code ↦ record { status = pos code; events = []; logger = g }
    | goes_on config_path test_iterations ↦
        after_load test_iterations (config_load (some config_path) (some blank_config) config_files)
          (logger_init blank_level (some (lower_name level_info)) g)
  ]

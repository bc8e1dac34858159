-- ===== src/Gateway/Main/Tests.antt =====
-- Whole runs of app/src/main.c on a machine where every call succeeds.
use i_mx6ull_water_qualit.Base.{ℕ, ◌≡◌, refl, true, List, [], ◌∷◌, none, some}
use i_mx6ull_water_qualit.Base.Int.{pos}
use i_mx6ull_water_qualit.Config.Fixture.{blank}
use i_mx6ull_water_qualit.Config.Text.{copy_string, fgets_all}
use i_mx6ull_water_qualit.Config.Load.{config_set_default, config_lines, config_check, config_load}
use i_mx6ull_water_qualit.Logger.{
  Logger, level_info, logger_init, logger_level_from_string, logger_open_log_file,
  logger_close_log_file,
}
use i_mx6ull_water_qualit.Alarm.{alarm_client_open}
use i_mx6ull_water_qualit.Serial.Fixture.{board}
use i_mx6ull_water_qualit.Serial.Open.{
  serial_open, serial_configure, serial_baudrate_to_flag, install, set_options,
}
use i_mx6ull_water_qualit.Gateway.Startup.{run_gateway, with_threads, with_uploader}
use i_mx6ull_water_qualit.Gateway.Args.{flag_h, flag_config, parse_args}
use i_mx6ull_water_qualit.Gateway.Teardown.{outcomes}
use i_mx6ull_water_qualit.Gateway.Main.{Machine, main}
use i_mx6ull_water_qualit.Gateway.Main.Whole.{EndsLoaded, main-Ends}

-- An empty configuration file, so that all settings are the defaults.
abbrev machine : Machine ℕ ℕ
machine = record {
  config_files = λ path. some [];
  log_files = λ path. some 1;
  tty = board (List ℕ);
  open_alarm = λ path. pos 4;
  blank_config = blank;
  blank_level = level_info;
  blank_speed = 0;
  calls = outcomes true true true true true true true true true true true true;
}

abbrev quiet : Logger ℕ
quiet = record { log_level = level_info; log_file = none; closed = [] }

help_status : (main machine (flag_h ∷ []) quiet).status ≡ pos 0
unfolding main parse_args
help_status = refl

main-Ends_example :
    EndsLoaded machine (97 ∷ []) (pos 0) (main machine (flag_config ∷ (97 ∷ []) ∷ []) quiet)
unfolding parse_args
main-Ends_example = main-Ends machine (flag_config ∷ (97 ∷ []) ∷ []) quiet

gateway_status : (main machine [] quiet).status ≡ pos 0
unfolding main parse_args config_load config_set_default fgets_all config_lines config_check
    copy_string logger_init logger_level_from_string run_gateway with_threads with_uploader
    logger_open_log_file logger_close_log_file serial_open serial_configure serial_baudrate_to_flag
    install set_options alarm_client_open
gateway_status = refl

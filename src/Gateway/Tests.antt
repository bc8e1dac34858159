-- ===== src/Gateway/Tests.antt =====
-- Command lines and starts of the gateway, and the theorems at them.
use i_mx6ull_water_qualit.Base.{
  arith, ◌++◌, ◌/◌, ◌^◌, ◌≤◌, ◌<◌, ◌⊎◌, drop, replicate, get_or, All-replicate, IsBytes, ◌≡◌, refl,
  true, false, List, [], ◌∷◌, none, some,
}
use i_mx6ull_water_qualit.Base.Int.{pos, negsuc}
use i_mx6ull_water_qualit.Config.Text.{trim_front}
use i_mx6ull_water_qualit.SampleQueue.Fifo.{empty}
use i_mx6ull_water_qualit.Modbus.Response.Exact.{Accepts}
use i_mx6ull_water_qualit.Modbus.Master.Script.{sensor_line-Answers}
use i_mx6ull_water_qualit.Gateway.Collect.{collect_round}
use i_mx6ull_water_qualit.Gateway.Readings.{from_frame, read_state}
use i_mx6ull_water_qualit.Gateway.Collected.{HandedOver, MockedOver, collect_round_exact}
use i_mx6ull_water_qualit.Gateway.Fixture.{
  counted, blank, seven_registers, turn, empty_queue-Represents, collecting,
}
use i_mx6ull_water_qualit.Gateway.Args.{
  exits, goes_on, default_config_path, flag_c, flag_help, strtol, str_to_int, parse_args,
}
use i_mx6ull_water_qualit.Gateway.Options.{
  Choice, config, test_number, test_default, written, parse_args-written,
}
use i_mx6ull_water_qualit.Gateway.Resources.{nothing, replay}
use i_mx6ull_water_qualit.Gateway.Startup.{run_gateway}
use i_mx6ull_water_qualit.Gateway.Teardown.{InOrder, outcomes, run_gateway-InOrder}
use i_mx6ull_water_qualit.Gateway.Trial.{IsClean, run_test, run_test-IsClean, run_test-stray_join}

-- "-12", "12x"
reads_number : str_to_int (some (45 ∷ 49 ∷ 50 ∷ [])) (pos 10) ≡ negsuc 11
unfolding str_to_int strtol trim_front
reads_number = refl

reads_default : str_to_int (some (49 ∷ 50 ∷ 120 ∷ [])) (pos 10) ≡ pos 10
unfolding str_to_int strtol trim_front
reads_default = refl

shows_help : parse_args (flag_help ∷ []) default_config_path (pos 0) ≡ exits 0
unfolding parse_args
shows_help = refl

misses_path : parse_args (flag_c ∷ []) default_config_path (pos 0) ≡ exits 1
unfolding parse_args
misses_path = refl

abbrev choices : List Choice
choices = test_default ∷ config (97 ∷ []) ∷ test_number (53 ∷ []) ∷ config (45 ∷ 99 ∷ []) ∷ []

parse_args-written_example :
    parse_args (written choices) default_config_path (pos 0) ≡ goes_on (45 ∷ 99 ∷ []) (pos 5)
unfolding str_to_int strtol trim_front
parse_args-written_example = parse_args-written choices default_config_path (pos 0) (refl, tt)

-- The storing thread cannot be created.
run_gateway-InOrder_example :
    let o = outcomes true true false true true true true true true false true true in
    InOrder o (run_gateway o)
run_gateway-InOrder_example =
    run_gateway-InOrder (outcomes true true false true true true true true true false true true)

run_test-IsClean_example :
    IsClean (run_test (outcomes false false false true true true true true true true false true))
run_test-IsClean_example =
    run_test-IsClean (outcomes false false false true true true true true true true false true) refl

run_test-stray_join_example :
    replay
      (run_test (outcomes false true true true true true true true true true true false)).1
      nothing
    ≡ none
run_test-stray_join_example = run_test-stray_join false true true true

zero-IsBytes : IsBytes (replicate 256 0)
zero-IsBytes = All-replicate (λ b. b < 2 ^ 8) 256 0 (omega arith)

collect_round_exact_example :
    let received = seven_registers ++ drop 19 (replicate 256 0) in
    let normal = Accepts received 19 × (7 ≤ get_or received 2 0 / 2) in
    MockedOver counted blank turn collecting empty
      (collect_round counted (negsuc 0) (pos 1) turn collecting)
    × ((normal
          × HandedOver counted blank turn
              (read_state counted collecting)
              empty
              (from_frame counted received turn.clock)
              (collect_round counted (pos 3) (pos 1) turn collecting))
        ⊎ (¬ normal
            × MockedOver counted blank turn collecting empty
                (collect_round counted (pos 3) (pos 1) turn collecting)))
collect_round_exact_example =
    collect_round_exact counted blank 3 0 (pos 1) turn collecting empty seven_registers
      empty_queue-Represents refl refl refl zero-IsBytes (omega arith) (omega arith) (omega arith)
      (sensor_line-Answers seven_registers)

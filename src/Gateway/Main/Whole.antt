-- ===== src/Gateway/Main/Whole.antt =====
-- Every way through the whole of `main`.
use i_mx6ull_water_qualit.Base.{
  ◌≡◌, ◌⊎◌, inl, inr, refl, sym, ◌∙◌, ℕ, if◌then◌else◌, true, false, List, [], none, some,
  Bool-cases, Option-cases,
}
use i_mx6ull_water_qualit.Base.Int.{ℤ, pos, ltb_ℤ, eqb_ℤ}
use i_mx6ull_water_qualit.Config.{GatewayConfig}
use i_mx6ull_water_qualit.Config.Load.{config_load}
use i_mx6ull_water_qualit.Config.Ranges.{Fits, InRange, config_load_valid}
use i_mx6ull_water_qualit.Logger.{
  Logger, logger_init, lower_name, level_info, logger_open_log_file, logger_close_log_file,
}
use i_mx6ull_water_qualit.Gateway.Args.{Parsed, exits, goes_on, default_config_path, parse_args}
use i_mx6ull_water_qualit.Gateway.Startup.{run_gateway}
use i_mx6ull_water_qualit.Gateway.Teardown.{InOrder, run_gateway-InOrder}
use i_mx6ull_water_qualit.Gateway.Trial.{IsClean, run_test-IsClean}
use i_mx6ull_water_qualit.Gateway.Main.{
  Machine, Ended, is_some, outcomes_of, gateway_part, configured, after_load, main,
}

module _ {H S : Type 0} (machine : Machine H S) where
  -- The calls are in order, and the log file is open at the end exactly if their replay says so.
  pub record RunsInOrder (cfg : GatewayConfig) (ended : Ended H) : Type 0 where
    pub opened : Logger H
    pub in_order : InOrder (outcomes_of machine cfg opened) (ended.status, ended.events)
    pub log_file : is_some ended.logger.log_file ≡ in_order.last.log_open

  -- what a loaded configuration leads to
  abbrev pub EndsConfigured : ℤ → GatewayConfig → Ended H → Type 0
  EndsConfigured test_iterations cfg ended =
      ((ltb_ℤ (pos 0) test_iterations ≡ true)
        × ((machine.calls.uploader_starts ≡ false) ⊎ IsClean (ended.status, ended.events)))
      ⊎ ((ltb_ℤ (pos 0) test_iterations ≡ false) × RunsInOrder cfg ended)

  abbrev pub EndsLoaded : List ℕ → ℤ → Ended H → Type 0
  EndsLoaded path test_iterations ended =
      ((machine.config_files path ≡ none) × (ended.status ≡ pos 1) × (ended.events ≡ []))
      ⊎ ((cfg : GatewayConfig) × (config_load (some path) (some machine.blank_config)
              machine.config_files
            ≡ (pos 0, some cfg))
          × Fits cfg
          × InRange cfg
          × EndsConfigured test_iterations cfg ended)

  abbrev pub Ends : Parsed → Logger H → Ended H → Type 0
  Ends (exits code) g ended = ended ≡ record { status = pos code; events = []; logger = g }
  Ends (goes_on path test_iterations) g ended = EndsLoaded path test_iterations ended

  no_file_left : (opened : Logger H) → is_some (logger_close_log_file opened).log_file ≡ false
  unfolding logger_close_log_file
  no_file_left opened = elim (Option-cases opened.log_file) [
    | inl e ↦ rw e refl
    | inr (file, e) ↦ rw e refl
  ]

  log_left :
      (status : ℤ) (opened : Logger H)
      → is_some (if eqb_ℤ status (pos 0) then logger_close_log_file opened else opened).log_file
        ≡ (if eqb_ℤ status (pos 0) then false else is_some opened.log_file)
  log_left status opened = elim (Bool-cases (eqb_ℤ status (pos 0))) [
    | inl e ↦ rw e (no_file_left opened)
    | inr e ↦ rw e refl
  ]

  gateway_part-RunsInOrder :
      (cfg : GatewayConfig) (g : Logger H) → RunsInOrder cfg (gateway_part machine cfg g)
  unfolding gateway_part
  gateway_part-RunsInOrder cfg g = record {
    opened = opened;
    in_order = in_order;
    log_file =
        log_left (run_gateway (outcomes_of machine cfg opened)).0 opened ∙ sym in_order.log_left;
  }
    where
      opened : Logger H
      opened = logger_open_log_file machine.log_files (some cfg.log_file) g

      in_order :
          InOrder (outcomes_of machine cfg opened) (run_gateway (outcomes_of machine cfg opened))
      in_order = run_gateway-InOrder (outcomes_of machine cfg opened)

  configured-Ends :
      (test_iterations : ℤ) (cfg : GatewayConfig) (g : Logger H)
      → EndsConfigured test_iterations cfg (configured machine test_iterations cfg g)
  unfolding configured
  configured-Ends test_iterations cfg g = elim (Bool-cases (ltb_ℤ (pos 0) test_iterations)) [
    | inl e ↦ rw e (
        inl (
          refl,
          elim (Bool-cases machine.calls.uploader_starts) [
            | inl starts ↦ inr (run_test-IsClean machine.calls starts)
            | inr fails ↦ inl fails
          ],
        ))
    | inr e ↦ rw e (
        inr (
          refl,
          gateway_part-RunsInOrder cfg (logger_init machine.blank_level (some cfg.log_level) g),
        ))
  ]

  after_load-Ends :
      (path : List ℕ) (test_iterations : ℤ) (g : Logger H)
      → EndsLoaded path test_iterations (
          after_load machine test_iterations
            (config_load (some path) (some machine.blank_config) machine.config_files)
            g)
  unfolding after_load
  after_load-Ends path test_iterations g =
      elim (config_load_valid path machine.blank_config machine.config_files) [
        | inl (file, cfg, opened, e, fits, in_range) ↦
            inr (cfg, e, fits, in_range, rw e (configured-Ends test_iterations cfg g))
        | inr (cfg, closed, e, fits) ↦ inl (closed, rw e refl, rw e refl)
      ]

  parsed-Ends :
      (parsed : Parsed) (args : List (List ℕ)) (g : Logger H)
      → parse_args args default_config_path (pos 0) ≡ parsed
      → Ends parsed g (main machine args g)
  unfolding main
  parsed-Ends (exits code) args g e = rw (main, e) refl
  parsed-Ends (goes_on path test_iterations) args g e =
      rw (main, e)
        (after_load-Ends path test_iterations
          (logger_init machine.blank_level (some (lower_name level_info)) g))

  -- Whatever the command line, the files, the terminal and the devices, `main` exits with the code
  -- of its options and calls nothing, or returns 1 and calls nothing when the configuration cannot be
  -- opened, or has a configuration whose strings fit and whose numbers are in range. Then, with
  -- iterations to test, the test is in order and leaves nothing open unless its upload thread cannot be
  -- created; without, the gateway runs and ends in order, and the logger has a log file at the
  -- end exactly if the calls have left one open.
  pub main-Ends :
      (args : List (List ℕ)) (g : Logger H)
      → Ends (parse_args args default_config_path (pos 0)) g (main machine args g)
  main-Ends args g = parsed-Ends (parse_args args default_config_path (pos 0)) args g refl

-- ===== src/Logger/Lines.antt =====
-- Which messages are printed, and what the level of a configuration is.
use mathlib.Core.Path.{subst}
use i_mx6ull_water_qualit.Base.{
  ℕ, ◌≤◌, ◌<◌, ◌≡◌, ◌∙◌, sym, ◌⊎◌, inl, inr, refl, arith, ltb, true, false, Bool-cases, List, [],
  Option, none, some,
}
use i_mx6ull_water_qualit.Logger.{
  LogLevel, level_debug, level_info, level_warn, level_error, rank, logger_level_name, lower_name,
  logger_level_from_string, Logger, logger_init, logger_log, line,
}

init_lower :
    {H : Type 0} (garbage level : LogLevel) (g : Logger H)
    → logger_init garbage (some (lower_name level)) g ≡ record g { log_level = level }
unfolding logger_init logger_level_from_string
init_lower garbage level_debug g = refl
init_lower garbage level_info g = refl
init_lower garbage level_warn g = refl
init_lower garbage level_error g = refl

init_upper :
    {H : Type 0} (garbage level : LogLevel) (g : Logger H)
    → logger_init garbage (some (logger_level_name level)) g ≡ record g { log_level = level }
unfolding logger_init logger_level_from_string
init_upper garbage level_debug g = refl
init_upper garbage level_info g = refl
init_upper garbage level_warn g = refl
init_upper garbage level_error g = refl

module _ {H : Type 0} (level : LogLevel) (time_buf message : List ℕ) where
  -- what a logger that is set to a level does
  abbrev pub IsPrinted : LogLevel → Logger H → Type 0
  IsPrinted set g =
      ((rank set ≤ rank level)
        × ((logger_log level time_buf message g).0 ≡ line time_buf level message))
      ⊎ ((rank level < rank set) × (logger_log level time_buf message g ≡ ([], none)))

  to_stdout :
      (set : LogLevel) (file : Option H) (closed : List H)
      → ltb (rank level) (rank set) ≡ false
      → (logger_log level time_buf message
          (record { log_level = set; log_file = file; closed = closed })).0
        ≡ line time_buf level message
  unfolding logger_log
  to_stdout set none closed e = rw e refl
  to_stdout set (some file) closed e = rw e refl

  to_nothing :
      (g : Logger H)
      → ltb (rank level) (rank g.log_level) ≡ true
      → logger_log level time_buf message g ≡ ([], none)
  unfolding logger_log
  to_nothing g e = rw e refl

  log_cases :
      (set : LogLevel) (file : Option H) (closed : List H)
      → IsPrinted set (record { log_level = set; log_file = file; closed = closed })
  log_cases set file closed = elim (Bool-cases (ltb (rank level) (rank set))) [
    | inl e ↦ inr (ground arith, to_nothing _ e)
    | inr e ↦ inl (ground arith, to_stdout set file closed e)
  ]

  -- Once the logger is set to the name of a level, in small or in capital letters, a message of
  -- that level or above is printed on stdout, and a message below it is printed nowhere.
  pub init-log :
      (garbage set : LogLevel) (g : Logger H)
      → (logger_init garbage (some (lower_name set)) g
          ≡ logger_init garbage (some (logger_level_name set)) g)
        × IsPrinted set (logger_init garbage (some (lower_name set)) g)
  init-log garbage set g = (
    init_lower garbage set g ∙ sym (init_upper garbage set g),
    subst (IsPrinted set) (sym (init_lower garbage set g)) (log_cases set g.log_file g.closed),
  )

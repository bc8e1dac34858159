-- ===== src/Logger/Tests.antt =====
-- A logger whose file is a number, and the theorems at it.
use i_mx6ull_water_qualit.Base.{ℕ, ◌≡◌, List, [], ◌∷◌, none, some}
use i_mx6ull_water_qualit.Logger.{
  Logger, level_debug, level_info, level_warn, level_error, lower_name, logger_level_name,
  logger_init,
}
use i_mx6ull_water_qualit.Logger.Handles.{
  Call, init, open_file, close_file, calls, all_files, calls-opened,
}
use i_mx6ull_water_qualit.Logger.Lines.{IsPrinted, init-log}

abbrev quiet : Logger ℕ
quiet = record { log_level = level_info; log_file = none; closed = [] }

-- A file, the same path again, a path that cannot be opened, a last file.
abbrev reopened : List (Call ℕ)
reopened =
    open_file (λ path. some 1) (some (97 ∷ []))
    ∷ init level_debug none
    ∷ open_file (λ path. some 2) (some (97 ∷ []))
    ∷ close_file
    ∷ open_file (λ path. none) (some (98 ∷ []))
    ∷ open_file (λ path. some 3) (some (115 ∷ 116 ∷ 100 ∷ 111 ∷ 117 ∷ 116 ∷ []))
    ∷ open_file (λ path. some 4) (some (99 ∷ []))
    ∷ []

calls-opened_example : all_files (calls reopened quiet) ≡ 4 ∷ 2 ∷ 1 ∷ []
calls-opened_example = calls-opened reopened quiet

init-log_example :
    (logger_init level_debug (some (lower_name level_warn)) quiet
      ≡ logger_init level_debug (some (logger_level_name level_warn)) quiet)
    × IsPrinted level_error
        (49 ∷ [])
        (65 ∷ [])
        level_warn
        (logger_init level_debug (some (lower_name level_warn)) quiet)
init-log_example = init-log level_error (49 ∷ []) (65 ∷ []) level_debug level_warn quiet

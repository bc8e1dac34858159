-- ===== src/Logger.antt =====
-- app/src/logger.c and app/include/logger.h: the level and the log file. The time and the text of a
-- message are arguments; what is printed is the line that goes to stdout and the file.
pub mod Handles
pub mod Lines
mod Tests
use i_mx6ull_water_qualit.Base.{
  ℕ, ltb, if◌then◌else◌, ◌||◌, Bool, true, false, List, [], ◌∷◌, ◌++◌, Option, none, some,
}
use i_mx6ull_water_qualit.Base.Int.{ℤ, pos, negsuc, eqb_ℤ}
use i_mx6ull_water_qualit.Config.Text.{str_eq}

-- `log_level_t`, with the numbers of the enumeration
pub data LogLevel : Type 0 where
  level_debug : LogLevel
  level_info : LogLevel
  level_warn : LogLevel
  level_error : LogLevel

abbrev pub rank : LogLevel → ℕ
rank level_debug = 0
rank level_info = 1
rank level_warn = 2
rank level_error = 3

abbrev pub logger_level_name : LogLevel → List ℕ
logger_level_name level_debug = 68 ∷ 69 ∷ 66 ∷ 85 ∷ 71 ∷ []
logger_level_name level_info = 73 ∷ 78 ∷ 70 ∷ 79 ∷ []
logger_level_name level_warn = 87 ∷ 65 ∷ 82 ∷ 78 ∷ []
logger_level_name level_error = 69 ∷ 82 ∷ 82 ∷ 79 ∷ 82 ∷ []

-- the names as the configuration writes them
abbrev pub lower_name : LogLevel → List ℕ
lower_name level_debug = 100 ∷ 101 ∷ 98 ∷ 117 ∷ 103 ∷ []
lower_name level_info = 105 ∷ 110 ∷ 102 ∷ 111 ∷ []
lower_name level_warn = 119 ∷ 97 ∷ 114 ∷ 110 ∷ []
lower_name level_error = 101 ∷ 114 ∷ 114 ∷ 111 ∷ 114 ∷ []

abbrev names : LogLevel → List ℕ → Bool
names level text = str_eq text (lower_name level) || str_eq text (logger_level_name level)

-- `level` and `out_level` may be null; the second component is what `out_level` points to.
unfoldable pub logger_level_from_string : Option (List ℕ) → Option LogLevel → ℤ × Option LogLevel
logger_level_from_string none out_level = (negsuc 0, out_level)
logger_level_from_string (some level) none = (negsuc 0, none)
logger_level_from_string (some level) (some out_level) =
    if names level_debug level
    then (pos 0, some level_debug)
    else (if names level_info level
        then (pos 0, some level_info)
        else (if names level_warn level
            then (pos 0, some level_warn)
            else (if names level_error level
                then (pos 0, some level_error)
                else (negsuc 0, some out_level))))

-- `g_log_level` and `g_log_file`; the file is a handle of type `H`, never `stdout`. `closed` are the
-- handles that were closed.
pub record Logger (H : Type 0) : Type 0 where
  pub log_level : LogLevel
  pub log_file : Option H
  pub closed : List H

abbrev text_stdout : List ℕ
text_stdout = 115 ∷ 116 ∷ 100 ∷ 111 ∷ 117 ∷ 116 ∷ []

abbrev text_upper_stdout : List ℕ
text_upper_stdout = 83 ∷ 84 ∷ 68 ∷ 79 ∷ 85 ∷ 84 ∷ []

-- an empty path, or a name of the standard output
abbrev pub is_stdout : List ℕ → Bool
is_stdout [] = true
is_stdout (b ∷ path) = str_eq (b ∷ path) text_stdout || str_eq (b ∷ path) text_upper_stdout

-- "[time] [LEVEL] message" and a newline
abbrev pub line : List ℕ → LogLevel → List ℕ → List ℕ
line time_buf level message =
    91 ∷ time_buf ++ 93 ∷ 32 ∷ 91 ∷ logger_level_name level ++ 93 ∷ 32 ∷ message ++ 10 ∷ []

module _ {H : Type 0} where
  -- `garbage` is what `parsed_level` happens to hold.
  unfoldable pub logger_init : LogLevel → Option (List ℕ) → Logger H → Logger H
  logger_init garbage level g =
      let (result, parsed) = logger_level_from_string level (some garbage) in
      record g {
        log_level =
            if eqb_ℤ result (pos 0)
            then elim parsed [ none ↦ g.log_level | some parsed_level ↦ parsed_level ]
            else level_info;
      }

  unfoldable pub logger_set_level : LogLevel → Logger H → Logger H
  logger_set_level level g = record g { log_level = level }

  unfoldable pub logger_close_log_file : Logger H → Logger H
  logger_close_log_file g = elim g.log_file [
    | none ↦ g
    | some file ↦ record g { log_file = none; closed = file ∷ g.closed }
  ]

  -- `opened` is what `fopen` makes of a path. Its first statement is that of `logger_close_log_file`.
  unfoldable pub logger_open_log_file : (List ℕ → Option H) → Option (List ℕ) → Logger H → Logger H
  unfolding logger_close_log_file
  logger_open_log_file opened none g = record (logger_close_log_file g) { log_file = none }
  logger_open_log_file opened (some path) g =
      if is_stdout path
      then record (logger_close_log_file g) { log_file = none }
      else record (logger_close_log_file g) { log_file = opened path }

  -- What goes to stdout, and what goes to which file.
  unfoldable pub logger_log : LogLevel → List ℕ → List ℕ → Logger H → List ℕ × Option (H × List ℕ)
  logger_log level time_buf message g =
      if ltb (rank level) (rank g.log_level) then ([], none) else elim g.log_file [
        | none ↦ (line time_buf level message, none)
        | some file ↦ (line time_buf level message, some (file, line time_buf level message))
      ]

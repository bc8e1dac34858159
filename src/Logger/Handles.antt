-- ===== src/Logger/Handles.antt =====
-- The log file over any sequence of openings and closings.
use i_mx6ull_water_qualit.Base.{
  ◌≡◌, ◌∙◌, refl, ℕ, Bool, true, false, List, [], ◌∷◌, ◌++◌, Option, none, some, if◌then◌else◌,
}
use i_mx6ull_water_qualit.Logger.{
  LogLevel, Logger, is_stdout, logger_init, logger_set_level, logger_open_log_file,
  logger_close_log_file,
}

-- A call of the logger; an opening carries what `fopen` makes of a path at that moment.
pub data Call (H : Type 0) : Type 0 where
  init : LogLevel → Option (List ℕ) → Call H
  set_level : LogLevel → Call H
  open_file : (List ℕ → Option H) → Option (List ℕ) → Call H
  close_file : Call H

module _ {H : Type 0} where
  abbrev pub call : Call H → Logger H → Logger H
  call (init garbage level) g = logger_init garbage level g
  call (set_level level) g = logger_set_level level g
  call (open_file opened path) g = logger_open_log_file opened path g
  call close_file g = logger_close_log_file g

  abbrev pub calls : List (Call H) → Logger H → Logger H
  calls [] g = g
  calls (c ∷ cs) g = calls cs (call c g)

  -- the handles that `fopen` gives out, the newest first
  abbrev pub handle : Option H → List H
  handle none = []
  handle (some file) = file ∷ []

  abbrev pub given : Option (List ℕ) → (List ℕ → Option H) → List H
  given none opened = []
  given (some path) opened = if is_stdout path then [] else handle (opened path)

  abbrev pub opened_by : List (Call H) → List H → List H
  opened_by [] files = files
  opened_by (init garbage level ∷ cs) files = opened_by cs files
  opened_by (set_level level ∷ cs) files = opened_by cs files
  opened_by (open_file opened path ∷ cs) files = opened_by cs (given path opened ++ files)
  opened_by (close_file ∷ cs) files = opened_by cs files

  abbrev pub all_files : Logger H → List H
  all_files g = handle g.log_file ++ g.closed

  init_files :
      (garbage : LogLevel) (level : Option (List ℕ)) (g : Logger H)
      → all_files (logger_init garbage level g) ≡ all_files g
  unfolding logger_init
  init_files garbage level g = refl

  level_files :
      (level : LogLevel) (g : Logger H) → all_files (logger_set_level level g) ≡ all_files g
  unfolding logger_set_level
  level_files level g = refl

  files_closed :
      (level : LogLevel) (file : Option H) (closed : List H)
      → all_files
          (logger_close_log_file (record { log_level = level; log_file = file; closed = closed }))
        ≡ handle file ++ closed
  unfolding logger_close_log_file
  files_closed level none closed = refl
  files_closed level (some file) closed = refl

  from_path :
      (to_stdout : Bool) (file : Option H) (level : LogLevel) (closed : List H)
      → all_files (
          if to_stdout
          then record { log_level = level; log_file = none; closed = closed }
          else record { log_level = level; log_file = file; closed = closed })
        ≡ (if to_stdout then [] else handle file) ++ closed
  from_path true file level closed = refl
  from_path false file level closed = refl

  files_opened :
      (opened : List ℕ → Option H) (path : Option (List ℕ)) (level : LogLevel) (file : Option H)
      (closed : List H)
      → all_files (
          logger_open_log_file opened path
            (record { log_level = level; log_file = file; closed = closed }))
        ≡ given path opened ++ (handle file ++ closed)
  unfolding logger_open_log_file logger_close_log_file
  files_opened opened none level none closed = refl
  files_opened opened none level (some file) closed = refl
  files_opened opened (some path) level none closed =
      from_path (is_stdout path) (opened path) level closed
  files_opened opened (some path) level (some file) closed =
      from_path (is_stdout path) (opened path) level (file ∷ closed)

  close_files : (g : Logger H) → all_files (logger_close_log_file g) ≡ all_files g
  close_files g = files_closed g.log_level g.log_file g.closed

  open_files :
      (opened : List ℕ → Option H) (path : Option (List ℕ)) (g : Logger H)
      → all_files (logger_open_log_file opened path g) ≡ given path opened ++ all_files g
  unfolding logger_open_log_file logger_close_log_file
  open_files opened path g = files_opened opened path g.log_level g.log_file g.closed

  opened_by_step :
      (c : Call H) (cs : List (Call H)) (files : List H)
      → opened_by cs (opened_by (c ∷ []) files) ≡ opened_by (c ∷ cs) files
  opened_by_step (init garbage level) cs files = refl
  opened_by_step (set_level level) cs files = refl
  opened_by_step (open_file opened path) cs files = refl
  opened_by_step close_file cs files = refl

  call-opened :
      (c : Call H) (g : Logger H) → all_files (call c g) ≡ opened_by (c ∷ []) (all_files g)
  call-opened (init garbage level) g = init_files garbage level g
  call-opened (set_level level) g = level_files level g
  call-opened (open_file opened path) g = open_files opened path g
  call-opened close_file g = close_files g

  -- Over any sequence of calls, the handles that were closed, and the current one if there is one,
  -- are exactly those that `fopen` gave out, each once and in their order.
  pub calls-opened :
      (cs : List (Call H)) (g : Logger H) → all_files (calls cs g) ≡ opened_by cs (all_files g)
  calls-opened [] g = refl
  calls-opened (c ∷ cs) g =
      calls-opened cs (call c g) ∙ rw (call-opened c g) (opened_by_step c cs (all_files g))

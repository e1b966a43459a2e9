-- ===== src/Process/Log.antt =====
-- What reaches which end of the log, once both programs have set it up.
use logline.Base.{
  ◌≡◌, refl, Bool, true, false, Option, none, some, List, [], ◌∷◌, ◌++◌, leb, if◌then◌else◌,
}
use logline.Config.{ConfPath, LogLevel}
use logline.Process.{
  Level, debug, info, error, severity, of_log_level, Sink, stderr, log_file, Handler, Logging,
  unset, setup_logging, decrease, decrease_at, decreased, setup_log_file,
}

-- `logging` passes a record to each handler whose level it has, if it has that of the logger.
unfoldable pub passed : Level → List Handler → List Sink
passed l [] = []
passed l (h ∷ hs) =
    let rest = passed l hs in if leb (severity h.level) (severity l) then h.sink ∷ rest else rest

unfoldable pub sinks : Logging → Level → List Sink
unfolding passed
sinks lg l = if leb (severity lg.root_level) (severity l) then passed l lg.handlers else []

-- The least level on the standard error stream: all where it is asked for, else what is worth knowing,
-- and errors alone where a log file takes the rest.
abbrev pub stderr_level : Bool → Option ConfPath → Level
stderr_level true path = debug
stderr_level false none = info
stderr_level false (some path) = error

abbrev pub on_stderr : Bool → Option ConfPath → Level → List Sink
on_stderr verbose path l =
    if leb (severity (stderr_level verbose path)) (severity l) then stderr ∷ [] else []

abbrev pub in_file : Option ConfPath → LogLevel → Level → List Sink
in_file none level l = []
in_file (some path) level l =
    if leb (severity (of_log_level level)) (severity l) then log_file path ∷ [] else []

-- A record goes to the standard error stream where its level is at least `debug` under `--verbose`, and
-- else `info` without a log file and `error` with one; and to the log file, if there is one, where it is
-- at least the configured level.
pub sinks-setup :
    (verbose : Bool) (path : Option ConfPath) (level : LogLevel) (l : Level)
    → sinks (setup_log_file path (of_log_level level) (setup_logging verbose unset)) l
      ≡ on_stderr verbose path l ++ in_file path level l
unfolding sinks setup_log_file setup_logging unset of_log_level severity decrease decrease_at
    decreased
sinks-setup true none level debug = refl
sinks-setup true none level l = refl
sinks-setup false none level debug = refl
sinks-setup false none level l = refl
sinks-setup true (some path) LogLevel.debug debug = refl
sinks-setup true (some path) LogLevel.debug l = refl
sinks-setup true (some path) LogLevel.info debug = refl
sinks-setup true (some path) LogLevel.info l = refl
sinks-setup false (some path) LogLevel.debug debug = refl
sinks-setup false (some path) LogLevel.debug l = refl
sinks-setup false (some path) LogLevel.info debug = refl
sinks-setup false (some path) LogLevel.info l = refl

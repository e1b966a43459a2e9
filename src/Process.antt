-- ===== src/Process.antt =====
-- What server/logline_server/main.py and agent/logline_agent/main.py share: the handlers of the log,
-- and the end of the metrics (`shutdown_metrics` of both telemetry.py).
pub mod Log
mod Tests
use logline.Base.{
  ℕ, zero, suc, Bool, Option, none, some, List, [], ◌∷◌, ◌++◌, if◌then◌else◌, length,
}
use logline.Config.{ConfPath, LogLevel}

-- The levels of `logging` that the programs use.
pub data Level : Type 0 where
  debug info warning error : Level

unfoldable pub severity : Level → ℕ
severity debug = 10
severity info = 20
severity warning = 30
severity error = 40

unfoldable pub of_log_level : LogLevel → Level
of_log_level LogLevel.debug = debug
of_log_level LogLevel.info = info

pub data Sink : Type 0 where
  stderr : Sink
  log_file : ConfPath → Sink

pub record Handler : Type 0 where
  pub sink : Sink
  pub level : Level

-- The root logger, and `stderr_log_handler` as the place of a handler in it.
pub record Logging : Type 0 where
  pub handlers : List Handler
  pub root_level : Level
  pub stderr_log_handler : Option ℕ

-- As Python starts: no handler, and warnings at least.
unfoldable pub unset : Logging
unset = record { handlers = []; root_level = warning; stderr_log_handler = none }

-- `setup_logging` of both programs.
unfoldable pub setup_logging : Bool → Logging → Logging
setup_logging verbose lg = record {
  handlers = lg.handlers ++ record { sink = stderr; level = if verbose then debug else info } ∷ [];
  root_level = debug;
  stderr_log_handler = some (length lg.handlers);
}

-- `if handler.level == INFO: handler.setLevel(ERROR)`
unfoldable pub decreased : Handler → Handler
decreased h = elim h.level [ info ↦ record h { level = error } | _ ↦ h ]

unfoldable pub decrease_at : ℕ → List Handler → List Handler
unfolding decreased
decrease_at n [] = []
decrease_at zero (h ∷ hs) = decreased h ∷ hs
decrease_at (suc n) (h ∷ hs) = h ∷ decrease_at n hs

unfoldable pub decrease : Option ℕ → List Handler → List Handler
unfolding decrease_at
decrease none hs = hs
decrease (some n) hs = decrease_at n hs

-- `setup_log_file` of the server, for a file that can be opened.
unfoldable pub setup_log_file : Option ConfPath → Level → Logging → Logging
unfolding decrease
setup_log_file none level lg = lg
setup_log_file (some path) level lg = record lg {
  handlers =
      decrease lg.stderr_log_handler
        (lg.handlers ++ record { sink = log_file path; level = level } ∷ []);
}

-- The calls of the provider of the metrics.
pub data ProviderCall : Type 0 where
  force_flush shutdown : ProviderCall

-- `shutdown_metrics`, which lets no exception out: `flushes` says that `force_flush` returns. An
-- exception of it skips the call of `shutdown`.
unfoldable pub shutdown_metrics {ℓ} : {P : Type ℓ} → Option P → Bool → List ProviderCall
shutdown_metrics none flushes = []
shutdown_metrics (some provider) flushes =
    if flushes then force_flush ∷ shutdown ∷ [] else force_flush ∷ []

-- ===== src/Agent/Main.antt =====
-- `agent_main`, `async_main` and `watch_path` of agent/logline_agent/main.py: the start of the process,
-- its rounds, and the coordinator of a path.
use logline.Base.{
  ℕ, Bool, true, false, ◌||◌, Option, none, some, List, [], ◌∷◌, ◌==◌, if◌then◌else◌, length, Text,
  is_empty,
}
use logline.Json.{Value, as_str}
use logline.Config.{Outcome, ok, err, ConfPath, Environment}
use logline.Config.Agent.{Args, Configuration, configure}
use logline.Fs.{FilePath, path_eq}
use logline.Process
use logline.Process.{
  Level, Logging, unset, setup_logging, of_log_level, ProviderCall, shutdown_metrics,
}
use logline.Agent.Telemetry.{Telemetry, off, init_metrics, set_files_watched_source}
use logline.Agent.Files.{Machine, Globs, has, add, iter_files, Watching, watch_all}
use logline.Agent.Coordinator.{PathCoordinator, start, classify_ephemeral}

-- What the process asks of its surroundings.
pub record System : Type 0 where
  -- can the log file be opened?
  pub opens : ConfPath → Bool
  -- `Path(path).resolve()`
  pub resolve_log : ConfPath → FilePath
  -- is the SDK of OpenTelemetry installed?
  pub has_sdk : Bool
  -- does `force_flush` return?
  pub flushes : Bool

-- A round of the loop: what it finds on the machine, and which tasks are done by then.
pub record Round : Type 0 where
  pub machine : Machine
  pub done : ℕ → Bool

-- The log's handlers, and `own_log_files`.
pub record Own : Type 0 where
  pub logging : Logging
  pub own_log_files : List FilePath

-- `setup_log_file` of the agent, for a file that can be opened.
unfoldable pub setup_log_file : System → Option ConfPath → Level → Own → Own
unfolding add
setup_log_file sys none level own = own
setup_log_file sys (some path) level own = record {
  logging = Process.setup_log_file (some path) level own.logging;
  own_log_files = add (sys.resolve_log path) own.own_log_files;
}

-- The patterns of the configuration, none where one of them is no text: then the first round raises.
unfoldable pub all_texts : List Value → Option (List Text)
all_texts [] = some []
all_texts (v ∷ vs) = elim (as_str v) [
  | none ↦ none
  | some s ↦ elim (all_texts vs) [ none ↦ none | some ts ↦ some (s ∷ ts) ]
]

unfoldable pub globs_of : Configuration → Option Globs
unfolding all_texts
globs_of conf = elim (all_texts conf.scan_globs) [
  | none ↦ none
  | some scan ↦ elim (all_texts conf.exclude_globs) [
    | none ↦ none
    | some exclude ↦ elim (all_texts conf.exclude_if_file_present) [
      | none ↦ none
      | some names ↦
          some
            (record { scan_globs = scan; exclude_globs = exclude; exclude_if_file_present = names })
    ]
  ]
]

-- The keys of `watched_paths`.
unfoldable pub watched_paths : List (FilePath × ℕ) → List FilePath
unfolding add
watched_paths [] = []
watched_paths ((p, t) ∷ ts) = add p (watched_paths ts)

-- The loop of `async_main`, for as many rounds as there are before it is cancelled.
unfoldable pub watch_rounds : Globs → List Round → Watching → Watching
watch_rounds globs [] w = w
watch_rounds globs (r ∷ rs) w =
    watch_rounds globs rs (watch_all r.done (iter_files r.machine globs) w)

unfoldable pub watch_found : Option Globs → List Round → Watching → Watching
unfolding watch_rounds
watch_found none rounds w = w
watch_found (some globs) rounds w = watch_rounds globs rounds w

-- What a run of the process leaves: `calls` are those of the provider of the metrics.
pub record Run : Type 0 where
  pub own : Own
  pub watching : Watching
  pub telemetry : Telemetry
  pub calls : List ProviderCall
  pub returned : Bool

-- `async_main`, once its assertions hold: the metrics are shut down when the loop is cancelled.
unfoldable pub watched : System → Configuration → List Round → Own → Run
unfolding watch_found globs_of watched_paths
watched sys conf rounds own =
    let (provider, t) = init_metrics conf.metrics sys.has_sdk off in
    let w = watch_found (globs_of conf) rounds (record { tasks = []; next_task = 0 }) in
    record {
      own = own;
      watching = w;
      telemetry = set_files_watched_source (length (watched_paths w.tasks)) t;
      calls = shutdown_metrics provider sys.flushes;
      returned = true;
    }

-- `agent_main` after the log file was set up: it logs every exception of `async_main`, and returns.
unfoldable pub run_agent : System → Configuration → List Round → Own → Run
unfolding watched
run_agent sys conf rounds own =
    if is_empty conf.server_host || conf.server_port == 0
    then record {
      own = own;
      watching = record { tasks = []; next_task = 0 };
      telemetry = off;
      calls = [];
      returned = true;
    }
    else watched sys conf rounds own

-- An exception that leaves `agent_main`.
unfoldable pub refused : Own → Run
refused own = record {
  own = own;
  watching = record { tasks = []; next_task = 0 };
  telemetry = off;
  calls = [];
  returned = false;
}

unfoldable pub open_log : System → Configuration → List Round → Own → Option ConfPath → Run
unfolding run_agent refused setup_log_file
open_log sys conf rounds own none = run_agent sys conf rounds own
open_log sys conf rounds own (some path) =
    if sys.opens path
    then run_agent sys conf rounds
        (setup_log_file sys (some path) (of_log_level conf.log_file_level) own)
    else refused own

unfoldable pub run_outcome : System → List Round → Own → Outcome Configuration → Run
unfolding open_log refused
run_outcome sys rounds own (err e) = refused own
run_outcome sys rounds own (ok conf) = open_log sys conf rounds own conf.log_file

-- `agent_main` with the options that were parsed; `verbose` is one of them.
unfoldable pub agent_main : System → Environment → Args → Bool → List Round → Run
unfolding run_outcome
agent_main sys env args verbose rounds =
    run_outcome sys rounds (record { logging = setup_logging verbose unset; own_log_files = [] })
      (configure env args)

-- `path.name`
unfoldable pub name_of : FilePath → Text
name_of [] = []
name_of (c ∷ []) = c
name_of (c ∷ d ∷ p) = name_of (d ∷ p)

-- `watch_path`, up to the coordinator that runs; none where its assertion fails.
unfoldable pub watch_path :
    (FilePath → FilePath)
    → Machine
    → ℕ
    → List Text
    → List FilePath
    → FilePath
    → Option PathCoordinator
unfolding name_of
watch_path resolve m time ephemeral_globs own_log_files file_path =
    if path_eq file_path (resolve file_path)
    then some (
        start (name_of file_path) (has file_path own_log_files)
          (classify_ephemeral m time ephemeral_globs file_path))
    else none

-- ===== src/Agent/Started.antt =====
-- Examples of the agent as it runs: an attempt to connect, and the coordinator of a path.
use logline.Base.{
  ◌≡◌, ◌↔◌, refl, true, false, none, some, List, [], ◌∷◌, ◌++◌, ltb, codes, text_eq, inl,
}
use logline.Base.Decimal.{is_digit, int_of}
use logline.Json.{get, truthy}
use logline.Config.{
  given, ok, ◌>>=◌, load_fields, section, pick_path, pick_entry, as_list, texts,
  parse_log_file_level, or_env, sdk_disabled, metrics_settings,
}
use logline.Config.Address.{parse_address}
use logline.Config.Agent
use logline.Config.Agent.{token_from_env}
use logline.Config.Samples.{environment, agent_args, agent_conf}
use logline.Fs
use logline.Fs.{FilePath}
use logline.Host.{Host}
use logline.Agent.Files.{Machine, has}
use logline.Agent.Telemetry.{Telemetry}
use logline.Agent.Connect.{expired, Endpoint, Opening, opened, endpoint, connect_to_server}
use logline.Agent.Attempts.{connects, outcomes, connect_to_server-counts}
use logline.Agent.Tracking.{IsAmong}
use logline.Agent.Lifetime.{Look, run}
use logline.Agent.Lifetime.Cancelled.{Became, run-cancels}
use logline.Agent.Coordinator.{Running, make_segment, PathCoordinator, start, classify_ephemeral}
use logline.Agent.Main.{
  System, Round, run_agent, watched, open_log, run_outcome, agent_main, watch_path,
}
use logline.Agent.OwnLog.{IsLog, watch_path-own}

abbrev host : Host
host = record {
  sha1 = λ b. b;
  loads = λ b. none;
  dumps = λ v. [];
  gzip_compress = λ b. b;
  gzip_decompress = λ b. none;
  lzma_decompress = λ b. none;
  zstandard_decompress = none;
  zstd_decompress = none;
  is_decimal = λ c. ltb 47 c;
  resolve = λ p. p;
}

abbrev telemetry : Telemetry
telemetry = record { enabled = true; files_watched = none; lag_sources = []; events = [] }

-- A server that opens the connection and does not answer in time.
abbrev open_connection : Endpoint → Opening
open_connection e = opened (λ frame. expired)

connect_to_server-counts_example :
    let c =
      connect_to_server host open_connection agent_conf
        (codes "h")
        (codes "/d")
        (codes "t")
        (codes "abc")
        telemetry in
    connects c.telemetry.events
    ≡ connects telemetry.events ++ outcomes (open_connection (endpoint agent_conf)) c.header_reply
connect_to_server-counts_example =
    connect_to_server-counts host open_connection agent_conf (codes "h") (codes "/d") (codes "t")
      (codes "abc") (codes "topsecret") telemetry refl refl

abbrev system : System
system = record {
  opens = λ path. true;
  resolve_log = λ path. codes "var" ∷ codes "agent.log" ∷ [];
  has_sdk = false;
  flushes = true;
}

-- An agent that logs to a file among those that it ships.
abbrev log_path : FilePath
log_path = codes "var" ∷ codes "agent.log" ∷ []

abbrev machine : Machine
machine = record {
  glob = λ time pattern. (codes "var" ∷ [], log_path) ∷ [];
  exists_in = λ parent filename. false;
}

abbrev rounds : List Round
rounds = record { machine = machine; done = λ t. false } ∷ []

abbrev coordinator : PathCoordinator
coordinator = start (codes "agent.log") true false

abbrev logging_args : Agent.Args
logging_args = record agent_args { log = some (codes "agent.log") }

abbrev logging_conf : Agent.Configuration
logging_conf = record agent_conf { log_file = some (given (codes "agent.log")) }

logging_configured : Agent.configure environment logging_args ≡ ok logging_conf
unfolding Agent.configure ◌>>=◌ load_fields section pick_path pick_entry as_list texts
    parse_log_file_level or_env sdk_disabled metrics_settings get truthy text_eq parse_address
    is_digit int_of token_from_env
logging_configured = refl

agent_returned : (agent_main system environment logging_args true rounds).returned ≡ true
unfolding agent_main run_outcome open_log run_agent watched
agent_returned = rw logging_configured refl

watches :
    watch_path
      (λ p. p)
      machine
      0
      []
      (agent_main system environment logging_args true rounds).own.own_log_files
      log_path
    ≡ some coordinator
unfolding agent_main run_outcome open_log run_agent watched watch_path has start Fs.path_eq text_eq
    classify_ephemeral
watches = rw logging_configured refl

watch_path-own_example :
    (coordinator.is_own_log ≡ true) ↔ IsLog system logging_conf.log_file log_path
watch_path-own_example =
    watch_path-own system environment logging_args true rounds logging_conf (λ p. p) machine 0 []
      log_path coordinator logging_configured agent_returned watches

-- A coordinator with a segment, and a round in which a new file cannot be opened.
abbrev running : Running
running = make_segment coordinator 1

abbrev with_segment : PathCoordinator
with_segment = record coordinator { live = some running; last_inode = some 1 }

abbrev look : Look
look = record {
  now = codes "20260101T000000Z";
  listings = [];
  inode = some 2;
  opened = none;
  sealed = λ r. r;
  is_done = λ r. false;
}

run-cancels_example :
    (x : Running) × Became (look ∷ []) running x × IsAmong x (run host (look ∷ []) with_segment)
run-cancels_example =
    run-cancels host (look ∷ []) with_segment running (inl refl) (refl, tt, λ seal. tt)

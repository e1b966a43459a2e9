-- ===== src/Server/Main.antt =====
-- `server_main`, `async_main` and `create_server` of server/logline_server/main.py: from the command
-- line to the listening socket, and the end of the process.
use logline.Base.{
  ℕ, Bool, true, false, ◌&&◌, not, Option, none, some, List, [], ◌∷◌, ◌++◌, if◌then◌else◌, map,
  Text,
}
use logline.Json.{Value}
use logline.Config.{Outcome, ok, err, ConfPath, Environment}
use logline.Config.Server.{Args, Configuration, configure}
use logline.Process.{
  Logging, unset, setup_logging, of_log_level, setup_log_file, ProviderCall, shutdown_metrics,
}
use logline.Server.World.{World}
use logline.Server.Telemetry.{Provider, init_metrics}

-- The arguments of `load_cert_chain`.
pub record Certificate : Type 0 where
  pub certfile : Option ConfPath
  pub keyfile : Option ConfPath
  pub password : Value

-- The arguments of `start_server`.
pub record Listen : Type 0 where
  pub bind_host : Text
  pub bind_port : ℕ
  pub tls : Option Certificate
  pub reuse_port : Bool

-- What the process asks of its surroundings.
pub record System : Type 0 where
  -- can `load_cert_chain` load the certificate with its key?
  pub loads_cert : Certificate → Bool
  -- does `socket` have `SO_REUSEPORT`?
  pub has_reuse_port : Bool
  -- does `start_server` return?
  pub starts : Listen → Bool
  -- is the SDK of OpenTelemetry installed?
  pub has_sdk : Bool
  -- can the log file be opened?
  pub opens : ConfPath → Bool
  -- does `serve_forever` return? It raises where the server is stopped.
  pub serves : Bool
  -- does `force_flush` return?
  pub flushes : Bool

unfoldable pub certificate : Configuration → Option Certificate
certificate conf =
    if conf.use_tls
    then some (record {
      certfile = conf.tls_cert_file;
      keyfile = conf.tls_key_file;
      password = conf.tls_password;
    })
    else none

unfoldable pub is_loaded : System → Option Certificate → Bool
is_loaded sys none = true
is_loaded sys (some cert) = sys.loads_cert cert

-- `create_server`: what it listens on, none where it raises.
unfoldable pub create_server : System → Configuration → Option Listen
unfolding certificate is_loaded
create_server sys conf =
    let tls = certificate conf in
    let listen : Listen = record {
      bind_host = conf.bind_host;
      bind_port = conf.bind_port;
      tls = tls;
      reuse_port = conf.reuse_port;
    } in
    if not (is_loaded sys tls)
    then none
    else if conf.reuse_port && not sys.has_reuse_port
    then none
    else if sys.starts listen
    then some listen
    else none

-- What a run of the process does for others to see, in its order.
pub data Call : Type 0 where
  log_opened : ConfPath → Call
  metrics_started : Provider → Call
  listening : Listen → Call
  provider_call : ProviderCall → Call

-- A run: the log's handlers at its end, the calls, the world that its connections begin in, and
-- whether it returned.
pub record Run : Type 0 where
  pub logging : Logging
  pub calls : List Call
  pub world : World
  pub returned : Bool

unfoldable pub started_metrics : Option Provider → List Call
started_metrics none = []
started_metrics (some provider) = metrics_started provider ∷ []

unfoldable pub listened : Option Listen → List Call
listened none = []
listened (some listen) = listening listen ∷ []

unfoldable pub is_served : System → Option Listen → Bool
is_served sys none = false
is_served sys (some listen) = sys.serves

-- `async_main`: the metrics are shut down however the server ends.
unfoldable pub async_main : System → Configuration → Logging → World → Run
unfolding create_server started_metrics listened is_served
async_main sys conf logging w =
    let (provider, w') = init_metrics conf.metrics sys.has_sdk w in
    let server = create_server sys conf in
    record {
      logging = logging;
      calls =
          started_metrics provider
          ++ (listened server ++ map provider_call (shutdown_metrics provider sys.flushes));
      world = w';
      returned = is_served sys server;
    }

-- The rest of `server_main`, after the configuration was accepted.
unfoldable pub run_configured : System → Configuration → Logging → World → Option ConfPath → Run
unfolding async_main
run_configured sys conf logging w none =
    async_main sys conf (setup_log_file none (of_log_level conf.log_file_level) logging) w
run_configured sys conf logging w (some path) =
    if sys.opens path
    then (let r =
          async_main sys conf
            (setup_log_file (some path) (of_log_level conf.log_file_level) logging) w in
        record r { calls = log_opened path ∷ r.calls })
    else record { logging = logging; calls = []; world = w; returned = false }

unfoldable pub run_outcome : System → Logging → World → Outcome Configuration → Run
unfolding run_configured
run_outcome sys logging w (err e) = record {
  logging = logging;
  calls = [];
  world = w;
  returned = false;
}
run_outcome sys logging w (ok conf) = run_configured sys conf logging w conf.log_file

-- `server_main` with the options that were parsed; `verbose` is one of them.
unfoldable pub server_main : System → Environment → Args → Bool → World → Run
unfolding run_outcome
server_main sys env args verbose w =
    run_outcome sys (setup_logging verbose unset) w (configure env args)

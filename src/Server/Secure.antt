-- ===== src/Server/Secure.antt =====
-- What a run of the server's process comes to: the socket that it listens on, and the end of its
-- metrics.
use logline.Base.{
  ◌≡◌, refl, ap, Bool, true, false, Bool-cases, inl, inr, Option, none, some, List, [], ◌∷◌, ◌++◌,
  map, arith, All,
}
use logline.Config.{Outcome, ok, err, ConfPath, Environment}
use logline.Config.Agent.{is_nil, is_some}
use logline.Config.Server.{Args, Configuration, configure}
use logline.Config.Usable.{configure-IsUsable}
use logline.Process.{
  force_flush, shutdown, Logging, unset, setup_logging, of_log_level, setup_log_file,
  shutdown_metrics,
}
use logline.Server.World.{World}
use logline.Server.Telemetry.{Provider, init_metrics}
use logline.Server.Main.{
  Certificate, Listen, System, certificate, is_loaded, create_server, Call, log_opened,
  metrics_started, listening, provider_call, Run, started_metrics, listened, async_main,
  run_configured, run_outcome, server_main,
}

-- A socket that the server listens on.
pub record IsSecure (sys : System) (env : Environment) (args : Args) (l : Listen) : Type 0 where
  pub conf : Configuration
  pub accepted : configure env args ≡ ok conf
  pub authenticating : is_nil conf.client_token_hashes ≡ false
  pub bind_host : l.bind_host ≡ conf.bind_host
  pub bind_port : l.bind_port ≡ conf.bind_port
  pub encrypted : is_some l.tls ≡ is_some conf.tls_cert_file
  pub certified :
      (c : Certificate)
      → l.tls ≡ some c
      → (c.certfile ≡ conf.tls_cert_file)
        × (c.keyfile ≡ conf.tls_key_file)
        × (sys.loads_cert c ≡ true)
  pub supported : l.reuse_port ≡ true → sys.has_reuse_port ≡ true
  pub started : sys.starts l ≡ true

created :
    (sys : System) (env : Environment) (args : Args) (conf : Configuration) (l : Listen)
    → configure env args ≡ ok conf
    → create_server sys conf ≡ some l
    → IsSecure sys env args l
unfolding create_server certificate is_loaded
created sys env args conf l e h =
    let u = configure-IsUsable env args conf e in
    record {
      conf = conf;
      accepted = e;
      authenticating = u.authenticating;
      bind_host = ground arith;
      bind_port = ground arith;
      encrypted = ground (arith, u.secured);
      certified = λ c t. ground (arith);
      supported = λ r. ground arith;
      started = ground arith;
    }

-- The provider that a run started, and its calls that are not the provider's.
abbrev pub provider_of : List Call → Option Provider
provider_of [] = none
provider_of (metrics_started provider ∷ cs) = some provider
provider_of (log_opened path ∷ cs) = provider_of cs
provider_of (listening l ∷ cs) = provider_of cs
provider_of (provider_call c ∷ cs) = provider_of cs

abbrev pub own_calls : List Call → List Call
own_calls [] = []
own_calls (metrics_started provider ∷ cs) = metrics_started provider ∷ own_calls cs
own_calls (log_opened path ∷ cs) = log_opened path ∷ own_calls cs
own_calls (listening l ∷ cs) = listening l ∷ own_calls cs
own_calls (provider_call c ∷ cs) = own_calls cs

-- What the end of the metrics comes to: a flush, and a shutdown where the flush returns; nothing
-- where none were started.
abbrev pub Ending : Option Provider → Bool → List Call → Type 0
Ending none flushes cs = cs ≡ []
Ending (some provider) true cs = cs ≡ provider_call force_flush ∷ provider_call shutdown ∷ []
Ending (some provider) false cs = cs ≡ provider_call force_flush ∷ []

shutdown-Ending :
    (p : Option Provider) (flushes : Bool)
    → Ending p flushes (map provider_call (shutdown_metrics p flushes))
unfolding shutdown_metrics
shutdown-Ending none flushes = refl
shutdown-Ending (some p) true = refl
shutdown-Ending (some p) false = refl

module _ (sys : System) (env : Environment) (args : Args) where
  abbrev pub Secured : Call → Type 0
  Secured (listening l) = IsSecure sys env args l
  Secured (log_opened path) = Unit {0}
  Secured (metrics_started provider) = Unit {0}
  Secured (provider_call c) = Unit {0}

  -- Every socket is secure, and the calls of the provider that was started come last.
  pub record IsRun (r : Run) : Type 0 where
    pub secure : All Secured r.calls
    pub last : List Call
    pub ending : Ending (provider_of r.calls) sys.flushes last
    pub ended : r.calls ≡ own_calls r.calls ++ last

  -- The calls of `async_main`, by what it started.
  calls-ended :
      (p : Option Provider) (l : Option Listen)
      → let cs =
          started_metrics p ++ (listened l ++ map provider_call (shutdown_metrics p sys.flushes)) in
        (provider_of cs ≡ p)
        × (cs ≡ own_calls cs ++ map provider_call (shutdown_metrics p sys.flushes))
  unfolding started_metrics listened shutdown_metrics
  calls-ended none none = (refl, refl)
  calls-ended none (some l) = (refl, refl)
  calls-ended (some p) none = (refl, ground arith)
  calls-ended (some p) (some l) = (refl, ground arith)

  -- The calls of the provider are none of the sockets'.
  ended-Secured :
      (p : Option Provider) (flushes : Bool)
      → All Secured (map provider_call (shutdown_metrics p flushes))
  unfolding shutdown_metrics
  ended-Secured none flushes = tt
  ended-Secured (some p) true = (tt, (tt, tt))
  ended-Secured (some p) false = (tt, tt)

  calls-Secured :
      (p : Option Provider) (l : Option Listen) (rest : List Call)
      → ((s : Listen) → l ≡ some s → IsSecure sys env args s)
      → All Secured rest
      → All Secured (started_metrics p ++ (listened l ++ rest))
  unfolding started_metrics listened
  calls-Secured none none rest h r = r
  calls-Secured none (some s) rest h r = (h s refl, r)
  calls-Secured (some p) none rest h r = (tt, r)
  calls-Secured (some p) (some s) rest h r = (tt, (h s refl, r))

  async_main-IsRun :
      (conf : Configuration) (lg : Logging) (w : World)
      → configure env args ≡ ok conf
      → IsRun (async_main sys conf lg w)
  unfolding async_main
  async_main-IsRun conf lg w e =
      let p = (init_metrics conf.metrics sys.has_sdk w).0 in
      let (started, ended) = calls-ended p (create_server sys conf) in
      record {
        secure =
            calls-Secured p (create_server sys conf) _ (λ s h. created sys env args conf s e h)
              (ended-Secured p sys.flushes);
        last = map provider_call (shutdown_metrics p sys.flushes);
        ending = rw started (shutdown-Ending p sys.flushes);
        ended = ended;
      }

  nothing-IsRun :
      (lg : Logging) (w : World)
      → IsRun (record { logging = lg; calls = []; world = w; returned = false })
  unfolding shutdown_metrics
  nothing-IsRun lg w = record { secure = tt; last = []; ending = refl; ended = refl }

  configured-IsRun :
      (conf : Configuration) (lg : Logging) (w : World) (path : Option ConfPath)
      → configure env args ≡ ok conf
      → IsRun (run_configured sys conf lg w path)
  unfolding run_configured
  configured-IsRun conf lg w none e = async_main-IsRun conf _ w e
  configured-IsRun conf lg w (some path) e = elim (Bool-cases (sys.opens path)) [
    | inl opens ↦
        let r =
          async_main-IsRun conf (setup_log_file (some path) (of_log_level conf.log_file_level) lg) w
            e in
        rw opens (record {
          secure = (tt, r.secure);
          last = r.last;
          ending = r.ending;
          ended = ap (λ cs. log_opened path ∷ cs) r.ended;
        })
    | inr closed ↦ rw closed (nothing-IsRun lg w)
  ]

  run_outcome-IsRun :
      (lg : Logging) (w : World) (o : Outcome Configuration)
      → configure env args ≡ o
      → IsRun (run_outcome sys lg w o)
  unfolding run_outcome
  run_outcome-IsRun lg w (err x) e = nothing-IsRun lg w
  run_outcome-IsRun lg w (ok conf) e = configured-IsRun conf lg w conf.log_file e

  -- However the server's process runs, it listens only with a configuration that was accepted, on the
  -- configured address, with a token hash, encrypted exactly where a certificate is configured and then
  -- with that certificate, loaded with its key, and shares its port only where the platform can; and the
  -- metrics that it started are flushed last and, where the flush returns, shut down.
  pub server_main-IsRun : (verbose : Bool) (w : World) → IsRun (server_main sys env args verbose w)
  unfolding server_main
  server_main-IsRun verbose w =
      run_outcome-IsRun (setup_logging verbose unset) w (configure env args) refl

-- ===== src/Agent/OwnLog.antt =====
-- Which paths the agent treats as its own log.
use logline.Base.{
  ℕ, ◌≡◌, refl, ◌↔◌, ◌||◌, Bool, true, false, Bool-cases, inl, inr, Option, none, some, List, [],
  ◌∷◌, ◌==◌, if◌then◌else◌, Text, is_empty, arith,
}
use logline.Config.{Outcome, ok, err, ConfPath, Environment}
use logline.Config.Agent.{Args, Configuration, configure}
use logline.Fs.{FilePath}
use logline.Fs.Laws.{path_eq_iff}
use logline.Process.{Logging, unset, setup_logging}
use logline.Agent.Files.{Machine, has, add}
use logline.Agent.Coordinator.{PathCoordinator, start}
use logline.Agent.Main.{
  System, Round, Own, setup_log_file, watched, run_agent, refused, open_log, run_outcome,
  agent_main, watch_path,
}

-- The path is that of the log file.
abbrev pub IsLog : System → Option ConfPath → FilePath → Type 0
IsLog sys none p = ⊥
IsLog sys (some path) p = sys.resolve_log path ≡ p

module _ (sys : System) (rounds : List Round) where
  run_agent-own : (conf : Configuration) (own : Own) → (run_agent sys conf rounds own).own ≡ own
  unfolding run_agent watched
  run_agent-own conf own = elim (Bool-cases (is_empty conf.server_host || conf.server_port == 0)) [
    | inl bad ↦ rw bad refl
    | inr good ↦ rw good refl
  ]

  opened-own :
      (conf : Configuration) (own before : Own) (path : ConfPath) (p : FilePath) (opens : Bool)
      → own.own_log_files ≡ sys.resolve_log path ∷ []
      → let r = if opens then run_agent sys conf rounds own else refused before in
        r.returned ≡ true → (has p r.own.own_log_files ≡ true) ↔ (sys.resolve_log path ≡ p)
  unfolding refused has
  opened-own conf own before path p true e r =
      rw (run_agent-own conf own, e) (ground (arith, path_eq_iff (sys.resolve_log path) p))
  opened-own conf own before path p false e r = absurd (cc)

  open_log-own :
      (conf : Configuration) (lg : Logging) (o : Option ConfPath) (p : FilePath)
      → let r = open_log sys conf rounds (record { logging = lg; own_log_files = [] }) o in
        r.returned ≡ true → (has p r.own.own_log_files ≡ true) ↔ IsLog sys o p
  unfolding open_log refused setup_log_file add has
  open_log-own conf lg none p r = rw (run_agent-own conf _) (λ h. cc, λ h. absurd h)
  open_log-own conf lg (some path) p r = opened-own conf _ _ path p (sys.opens path) refl r

  outcome-own :
      (lg : Logging) (o : Outcome Configuration) (conf : Configuration) (p : FilePath)
      → o ≡ ok conf
      → let r = run_outcome sys rounds (record { logging = lg; own_log_files = [] }) o in
        r.returned ≡ true → (has p r.own.own_log_files ≡ true) ↔ IsLog sys conf.log_file p
  unfolding run_outcome
  outcome-own lg (err x) conf p e r = absurd (cc)
  outcome-own lg (ok c) conf p e r =
      let same : c ≡ conf = cc in rw (← same) (open_log-own c lg c.log_file p r)

watched-own :
    (resolve : FilePath → FilePath) (m : Machine) (time : ℕ) (ephemeral_globs : List Text)
    (files : List FilePath) (p : FilePath) (c : PathCoordinator)
    → watch_path resolve m time ephemeral_globs files p ≡ some c
    → c.is_own_log ≡ has p files
unfolding watch_path start
watched-own resolve m time ephemeral_globs files p c e = ground arith

-- Where the agent runs with an accepted configuration, the coordinator of a path treats it as the
-- agent's own log exactly when the configured log file resolves to that path.
pub watch_path-own :
    (sys : System) (env : Environment) (args : Args) (verbose : Bool) (rounds : List Round)
    (conf : Configuration) (resolve : FilePath → FilePath) (m : Machine) (time : ℕ)
    (ephemeral_globs : List Text) (p : FilePath) (c : PathCoordinator)
    → configure env args ≡ ok conf
    → let r = agent_main sys env args verbose rounds in
      r.returned ≡ true
      → watch_path resolve m time ephemeral_globs r.own.own_log_files p ≡ some c
      → (c.is_own_log ≡ true) ↔ IsLog sys conf.log_file p
unfolding agent_main
watch_path-own sys env args verbose rounds conf resolve m time ephemeral_globs p c e r w =
    let own =
      outcome-own sys rounds (setup_logging verbose unset) (configure env args) conf p e r in
    rw (watched-own resolve m time ephemeral_globs _ p c w) own

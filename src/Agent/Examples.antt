-- ===== src/Agent/Examples.antt =====
-- Examples of the agent's process: the files that it finds, their tasks, its gauges and what it logs.
use logline.Base.{
  ℕ, ◌≡◌, refl, Bool, true, false, ◌&&◌, ◌||◌, not, none, some, [], ◌∷◌, ◌++◌, ltb, arith, Text,
  contains, codes,
}
use logline.Fs.{FilePath}
use logline.Agent.Files.{Machine, Globs, Watching, has, iter_files, watch_all}
use logline.Agent.Found.{is_match, is_free_match, has-iter_files}
use logline.Agent.Watched.{IsWatched, watch_all-IsWatched}
use logline.Agent.Telemetry.{Telemetry, observe_shipping_lag}
use logline.Agent.Lags.{Observes, observe_shipping_lag-Observes}
use logline.Agent.Markers.{after}
use logline.Agent.Secrets.{match_secret, obfuscate_secrets}
use logline.Agent.Masked.{secret, mask, Skips, obfuscate_secrets-secret}

abbrev log_path : FilePath
log_path = codes "var" ∷ codes "foo.log" ∷ []

-- Every pattern matches one file.
abbrev machine : Machine
machine = record {
  glob = λ time pattern. (codes "var" ∷ [], log_path) ∷ [];
  exists_in = λ parent filename. false;
}

abbrev globs : Globs
globs = record {
  scan_globs = codes "/var/*.log" ∷ [];
  exclude_globs = [];
  exclude_if_file_present = codes ".nologline" ∷ [];
}

has-iter_files_example : has log_path (iter_files machine globs) ≡ (
    is_free_match machine (codes ".nologline" ∷ []) (codes "/var/*.log" ∷ []) log_path
    && not (is_match machine 0 [] log_path || is_match machine 2 [] log_path))
has-iter_files_example = has-iter_files machine globs log_path

-- The first task is done, and the second was not started yet.
abbrev watching : Watching
watching = record { tasks = (log_path, 0) ∷ []; next_task = 1 }

abbrev is_done : ℕ → Bool
is_done t = ltb t 1

watch_all-IsWatched_example :
    IsWatched is_done (log_path ∷ []) watching (watch_all is_done (log_path ∷ []) watching)
watch_all-IsWatched_example =
    watch_all-IsWatched is_done (log_path ∷ []) watching (λ t h. ground arith)

abbrev telemetry : Telemetry
telemetry = record {
  enabled = true;
  files_watched = none;
  lag_sources = (1, some 5) ∷ (2, none) ∷ (3, some 8) ∷ [];
  events = [];
}

observe_shipping_lag-Observes_example :
    Observes telemetry.lag_sources (observe_shipping_lag telemetry)
observe_shipping_lag-Observes_example = observe_shipping_lag-Observes telemetry

abbrev before : Text
before = codes "{\"auth\": {"

skipped : Skips (secret (codes "topsecret") (codes "}}")) before
unfolding match_secret after
skipped = (refl, (refl, (refl, (refl, (refl, (refl, (refl, (refl, (refl, (refl, tt))))))))))

obfuscate_secrets-secret_example :
    obfuscate_secrets (before ++ secret (codes "topsecret") (codes "}}"))
    ≡ before ++ secret (mask (codes "topsecret")) (obfuscate_secrets (codes "}}"))
obfuscate_secrets-secret_example =
    obfuscate_secrets-secret before (codes "topsecret") (codes "}}") skipped
      (unfold contains in refl) (omega arith)

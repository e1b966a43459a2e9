-- ===== src/Config/Agent.antt =====
-- `Configuration` of agent/logline_agent/configuration.py.
use logline.Base.{
  ℕ, Bool, true, false, ◌||◌, not, Option, none, some, List, [], ◌∷◌, ◌++◌, if◌then◌else◌, Text,
  is_empty, codes,
}
use logline.Json.{Value, str, Fields, get, truthy}
use logline.Config.{
  configuration_error, other_error, Outcome, ok, err, ◌>>=◌, ◌>>◌, require, ConfPath, given,
  Environment, load_fields, section, entry, beside_conf, pick_path, pick_entry, as_list, texts,
  strip_space, LogLevel, parse_log_file_level, Metrics, metrics_settings,
}
use logline.Config.Address.{parse_address}

-- `get_argument_parser`
pub record Args : Type 0 where
  pub conf : Option Text
  pub log : Option Text
  pub scan : Option (List Text)
  pub server : Option Text
  pub tls : Bool
  pub tls_cert : Option Text
  pub token_file : Option Text

pub record Configuration : Type 0 where
  pub log_file : Option ConfPath
  pub log_file_level : LogLevel
  pub scan_globs : List Value
  pub exclude_globs : List Value
  pub ephemeral_globs : List Value
  pub exclude_if_file_present : List Value
  pub server_host : Text
  pub server_port : ℕ
  pub tls_cert_file : Option ConfPath
  pub use_tls : Bool
  pub client_token : Value
  pub prefix_length_bytes : ℕ
  pub min_prefix_length_bytes : ℕ
  pub tail_read_interval_seconds : ℕ
  pub scan_new_files_interval_seconds : ℕ
  pub rotated_files_inactivity_threshold_seconds : ℕ
  pub seal_marker_grace_seconds : ℕ
  pub seal_idle_seconds : ℕ
  pub metrics : Metrics

abbrev pub is_nil : {A : Type 0} → List A → Bool
is_nil [] = true
is_nil (x ∷ xs) = false

unfoldable pub address_of : Value → Outcome (Text × ℕ)
address_of (str s) = parse_address s
address_of v = err other_error

-- The option, or the key of the file.
unfoldable pub server_address : Option Text → Value → Outcome (Text × ℕ)
unfolding address_of
server_address option value =
    let from_file = if truthy value then address_of value else err configuration_error in
    elim option [ some s ↦ if is_empty s then from_file else parse_address s | none ↦ from_file ]

unfoldable pub is_present : Environment → Option ConfPath → Bool
is_present env none = true
is_present env (some path) = env.is_file path

abbrev pub is_some : {A : Type 0} → Option A → Bool
is_some none = false
is_some (some a) = true

-- `path.read_text().strip()`
unfoldable pub read_stripped : Environment → ConfPath → Outcome Text
read_stripped env path = elim (env.read_text path) [
  | none ↦ err other_error
  | some s ↦ ok (strip_space env s)
]

unfoldable pub token_from_conf : Environment → Fields → Outcome Value
unfolding read_stripped
token_from_conf env cfg =
    if truthy (get (codes "client_token") cfg)
    then ok (get (codes "client_token") cfg)
    else if truthy (get (codes "client_token_file") cfg)
    then (do
      path ← beside_conf (get (codes "client_token_file") cfg)
      s ← read_stripped env path
      ok (str s))
    else err configuration_error

unfoldable pub token_from_env : Environment → Fields → Outcome Value
unfolding token_from_conf
token_from_env env cfg = elim (env.getenv (codes "CLIENT_TOKEN")) [
  | none ↦ token_from_conf env cfg
  | some s ↦ if is_empty s then token_from_conf env cfg else ok (str s)
]

-- The token: the file of the option, the variable, the key, the file of the key.
unfoldable pub client_token : Environment → Option Text → Fields → Outcome Value
unfolding token_from_env read_stripped
client_token env none cfg = token_from_env env cfg
client_token env (some path) cfg =
    if is_empty path
    then token_from_env env cfg
    else (do s ← read_stripped env (given path); ok (str s))

-- `… or tls_cfg.get('enable') or tls_cfg.get('enabled')`
unfoldable pub wants_tls : Bool → Value → Outcome Bool
wants_tls true tls = ok true
wants_tls false tls = do
  enable ← entry (codes "enable") tls
  enabled ← entry (codes "enabled") tls
  ok (truthy enable || truthy enabled)

unfoldable pub configure : Environment → Args → Outcome Configuration
unfolding server_address is_present wants_tls client_token
configure env args = do
  cfg ← load_fields env args.conf
  log_cfg ← section (codes "log") cfg
  log_file ← pick_path args.log (get (codes "file") log_cfg)
  level ← parse_log_file_level env (get (codes "level") log_cfg)
  scan ← as_list (get (codes "scan") cfg)
  let globs = texts args.scan ++ scan
  require (not (is_nil globs)) configuration_error
  exclude ← as_list (get (codes "exclude") cfg)
  ephemeral ← as_list (get (codes "ephemeral") cfg)
  present ← as_list (get (codes "exclude_if_file_present") cfg)
  address ← server_address args.server (get (codes "server") cfg)
  let tls = get (codes "tls") cfg
  cert ← pick_entry args.tls_cert (codes "cert") tls
  require (is_present env cert) configuration_error
  use_tls ← wants_tls (args.tls || is_some cert) tls
  token ← client_token env args.token_file cfg
  metrics_cfg ← section (codes "metrics") cfg
  ok (record {
    log_file = log_file;
    log_file_level = level;
    scan_globs = globs;
    exclude_globs = exclude;
    ephemeral_globs = ephemeral;
    exclude_if_file_present = present;
    server_host = address.0;
    server_port = address.1;
    tls_cert_file = cert;
    use_tls = use_tls;
    client_token = token;
    prefix_length_bytes = 50;
    min_prefix_length_bytes = 20;
    tail_read_interval_seconds = 1;
    scan_new_files_interval_seconds = 1;
    rotated_files_inactivity_threshold_seconds = 600;
    seal_marker_grace_seconds = 10;
    seal_idle_seconds = 600;
    metrics = metrics_settings env metrics_cfg;
  })

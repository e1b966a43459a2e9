-- ===== src/Config/Server.antt =====
-- `Configuration` of server/logline_server/configuration.py.
use logline.Base.{
  ℕ, Bool, true, false, ◌&&◌, ◌||◌, not, Option, none, some, List, [], ◌∷◌, ◌++◌, if◌then◌else◌,
  Text, is_empty, codes,
}
use logline.Json.{Value, null, str, arr, obj, Fields, get, truthy}
use logline.Config.{
  configuration_error, other_error, Outcome, ok, err, ◌>>=◌, ◌>>◌, require, ConfPath, given,
  Environment, given_text, load_fields, section, sub_fields, beside_conf, pick_path, pick_entry,
  as_list, texts, LogLevel, parse_log_file_level, Metrics, metrics_settings,
}
use logline.Config.Address.{parse_address}
use logline.Config.Agent.{is_nil, is_some, read_stripped}

-- The options of `server_main`.
pub record Args : Type 0 where
  pub conf : Option Text
  pub log : Option Text
  pub bind : Option Text
  pub reuse_port : Bool
  pub dest : Option Text
  pub tls_cert : Option Text
  pub tls_key : Option Text
  pub tls_key_password_file : Option Text
  pub client_token_hash : Option (List Text)

pub record Configuration : Type 0 where
  pub log_file : Option ConfPath
  pub log_file_level : LogLevel
  pub bind_host : Text
  pub bind_port : ℕ
  pub reuse_port : Bool
  pub destination_directory : ConfPath
  pub tls_cert_file : Option ConfPath
  pub tls_key_file : Option ConfPath
  pub tls_password : Value
  pub use_tls : Bool
  pub client_token_hashes : List Value
  pub metrics : Metrics

abbrev pub default_port : ℕ
default_port = 5645

-- `args.conf`, or the variable `CONF_FILE`.
unfoldable pub conf_path : Environment → Option Text → Option Text
conf_path env option = if given_text option then option else env.getenv (codes "CONF_FILE")

address_of : Value → Outcome (Text × ℕ)
address_of (str s) = parse_address s
address_of v = err other_error

unfoldable pub bind_address : Option Text → Value → Outcome (Text × ℕ)
unfolding address_of
bind_address option value =
    let from_file = if truthy value then address_of value else ok ([], default_port) in
    elim option [ some s ↦ if is_empty s then from_file else parse_address s | none ↦ from_file ]

-- A directory for the received files must be configured.
unfoldable pub required_path : Option ConfPath → Outcome ConfPath
required_path none = err configuration_error
required_path (some path) = ok path

password_from_conf : Environment → Fields → Outcome Value
unfolding read_stripped
password_from_conf env tls_cfg =
    if truthy (get (codes "key_password_file") tls_cfg)
    then (do
      path ← beside_conf (get (codes "key_password_file") tls_cfg)
      s ← read_stripped env path
      ok (str s))
    else if truthy (get (codes "key_password") tls_cfg)
    then ok (get (codes "key_password") tls_cfg)
    else elim (env.getenv (codes "TLS_KEY_PASSWORD")) [
      | none ↦ ok null
      | some s ↦ ok (if is_empty s then null else str s)
    ]

-- The password: the file of the option, the file of the key, the key, the variable, or none.
unfoldable pub tls_password : Environment → Option Text → Value → Outcome Value
unfolding password_from_conf read_stripped
tls_password env none tls = sub_fields tls >>= password_from_conf env
tls_password env (some path) tls =
    if is_empty path
    then sub_fields tls >>= password_from_conf env
    else (do s ← read_stripped env (given path); ok (str s))

is_hashable : Value → Bool
is_hashable (arr vs) = false
is_hashable (obj fs) = false
is_hashable v = true

all_hashable : List Value → Bool
all_hashable [] = true
all_hashable (v ∷ vs) = is_hashable v && all_hashable vs

-- `set.update`
unfoldable pub checked_hashes : List Value → Outcome (List Value)
unfolding is_hashable all_hashable
checked_hashes vs = if all_hashable vs then ok vs else err other_error

unfoldable pub configure : Environment → Args → Outcome Configuration
unfolding conf_path bind_address required_path tls_password checked_hashes
configure env args = do
  cfg ← load_fields env (conf_path env args.conf)
  log_cfg ← section (codes "log") cfg
  log_file ← pick_path args.log (get (codes "file") log_cfg)
  level ← parse_log_file_level env (get (codes "level") log_cfg)
  address ← bind_address args.bind (get (codes "bind") cfg)
  let reuse_port = args.reuse_port || truthy (get (codes "reuse_port") cfg)
  dest ← pick_path args.dest (get (codes "dest") cfg)
  directory ← required_path dest
  let tls = get (codes "tls") cfg
  cert ← pick_entry args.tls_cert (codes "cert") tls
  key ← pick_entry args.tls_key (codes "key") tls
  password ← tls_password env args.tls_key_password_file tls
  listed ← as_list (get (codes "client_token_hashes") cfg)
  hashes ← checked_hashes listed
  let all_hashes = texts args.client_token_hash ++ hashes
  require (not (is_nil all_hashes)) configuration_error
  metrics_cfg ← section (codes "metrics") cfg
  ok (record {
    log_file = log_file;
    log_file_level = level;
    bind_host = address.0;
    bind_port = address.1;
    reuse_port = reuse_port;
    destination_directory = directory;
    tls_cert_file = cert;
    tls_key_file = key;
    tls_password = password;
    use_tls = is_some cert;
    client_token_hashes = all_hashes;
    metrics = metrics_settings env metrics_cfg;
  })

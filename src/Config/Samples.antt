-- ===== src/Config/Samples.antt =====
-- A server and an agent that are configured by options.
use logline.Base.{true, ◌≡◌, refl, false, none, some, [], ◌∷◌, if◌then◌else◌, text_eq, codes}
use logline.Base.Decimal.{is_digit, int_of}
use logline.Json.{bool, obj, field, end, null, str, get, truthy}
use logline.Config.{
  given, Environment, ok, ◌>>=◌, info, load_fields, section, pick_path, pick_entry, as_list, texts,
  strip_space, parse_log_file_level, or_env, sdk_disabled, metrics_settings,
}
use logline.Config.Address.{parse_address}
use logline.Config.Agent
use logline.Config.Agent.{token_from_conf, token_from_env, wants_tls}
use logline.Config.Server

-- The only variable is the token.
abbrev pub environment : Environment
environment = record {
  load = λ path. none;
  getenv = λ name. if text_eq name (codes "CLIENT_TOKEN") then some (codes "topsecret") else none;
  read_text = λ path. none;
  is_file = λ path. false;
  is_space = λ c. false;
}

abbrev pub server_args : Server.Args
server_args = record {
  conf = none;
  log = none;
  bind = none;
  reuse_port = false;
  dest = some (codes "/srv/logs");
  tls_cert = none;
  tls_key = none;
  tls_key_password_file = none;
  client_token_hash = some (codes "abc" ∷ []);
}

abbrev pub server_conf : Server.Configuration
server_conf = record {
  log_file = none;
  log_file_level = info;
  bind_host = [];
  bind_port = 5645;
  reuse_port = false;
  destination_directory = given (codes "/srv/logs");
  tls_cert_file = none;
  tls_key_file = none;
  tls_password = null;
  use_tls = false;
  client_token_hashes = str (codes "abc") ∷ [];
  metrics = record { enabled = false; endpoint = null; host_name = null };
}

pub configured : Server.configure environment server_args ≡ ok server_conf
unfolding Server.configure ◌>>=◌ load_fields section pick_path pick_entry as_list texts
    parse_log_file_level or_env sdk_disabled metrics_settings get truthy text_eq
configured = refl

abbrev pub agent_args : Agent.Args
agent_args = record {
  conf = none;
  log = none;
  scan = some (codes "/var/log/*.log" ∷ []);
  server = some (codes "127.0.0.1:5645");
  tls = false;
  tls_cert = none;
  token_file = none;
}

abbrev pub agent_conf : Agent.Configuration
agent_conf = record {
  log_file = none;
  log_file_level = info;
  scan_globs = str (codes "/var/log/*.log") ∷ [];
  exclude_globs = [];
  ephemeral_globs = [];
  exclude_if_file_present = [];
  server_host = codes "127.0.0.1";
  server_port = 5645;
  tls_cert_file = none;
  use_tls = false;
  client_token = str (codes "topsecret");
  prefix_length_bytes = 50;
  min_prefix_length_bytes = 20;
  tail_read_interval_seconds = 1;
  scan_new_files_interval_seconds = 1;
  rotated_files_inactivity_threshold_seconds = 600;
  seal_marker_grace_seconds = 10;
  seal_idle_seconds = 600;
  metrics = record { enabled = false; endpoint = null; host_name = null };
}

pub agent_configured : Agent.configure environment agent_args ≡ ok agent_conf
unfolding Agent.configure ◌>>=◌ load_fields section pick_path pick_entry as_list texts
    parse_log_file_level or_env sdk_disabled metrics_settings get truthy text_eq parse_address
    is_digit int_of token_from_env wants_tls
agent_configured = refl

-- A file of `tls: true` and metrics, beside the options of a certificate.
abbrev pub secured_environment : Environment
secured_environment = record environment {
  load = λ path. some (
      obj (
        field (codes "tls") (bool true)
          (field (codes "metrics") (obj (field (codes "enabled") (bool true) end)) end)));
  is_file = λ path. true;
  read_text = λ path. some (codes "pw");
}

abbrev pub secured_server_args : Server.Args
secured_server_args = record server_args {
  conf = some (codes "server.yml");
  tls_cert = some (codes "cert.pem");
  tls_key = some (codes "key.pem");
  tls_key_password_file = some (codes "password");
}

abbrev pub secured_server_conf : Server.Configuration
secured_server_conf = record server_conf {
  tls_cert_file = some (given (codes "cert.pem"));
  tls_key_file = some (given (codes "key.pem"));
  tls_password = str (codes "pw");
  use_tls = true;
  metrics = record { enabled = true; endpoint = null; host_name = null };
}

pub secured_configured :
    Server.configure secured_environment secured_server_args ≡ ok secured_server_conf
unfolding Server.configure ◌>>=◌ load_fields section pick_path pick_entry as_list texts
    parse_log_file_level or_env sdk_disabled metrics_settings strip_space get truthy text_eq
secured_configured = refl

abbrev pub secured_agent_args : Agent.Args
secured_agent_args = record agent_args {
  conf = some (codes "agent.yml");
  tls_cert = some (codes "ca.pem");
}

abbrev pub secured_agent_conf : Agent.Configuration
secured_agent_conf = record agent_conf {
  tls_cert_file = some (given (codes "ca.pem"));
  use_tls = true;
  metrics = record { enabled = true; endpoint = null; host_name = null };
}

pub secured_agent_configured :
    Agent.configure secured_environment secured_agent_args ≡ ok secured_agent_conf
unfolding Agent.configure ◌>>=◌ load_fields section pick_path pick_entry as_list texts
    parse_log_file_level or_env sdk_disabled metrics_settings get truthy text_eq parse_address
    is_digit int_of token_from_env wants_tls
secured_agent_configured = refl

-- ===== src/Server/Started.antt =====
-- Examples of the server's process, and of two source directories.
use logline.Base.{some, ◌≡◌, ◌↔◌, refl, false, true, none, [], ◌∷◌, contains, codes, text_eq}
use logline.Base.Parts.{strip}
use logline.Config.Samples.{secured_environment, secured_server_args, secured_configured}
use logline.Fs
use logline.Fs.{FilePath}
use logline.Fs.Join.{path_join}
use logline.Host.{Host}
use logline.Server.World.{ok, World}
use logline.Server.Paths.{destination_dir, is_safe_path_segment}
use logline.Server.Mangled.{destination_dir-shared}
use logline.Config.{given}
use logline.Json.{str, truthy}
use logline.Process.{force_flush, shutdown, shutdown_metrics}
use logline.Server.Telemetry.{init_metrics}
use logline.Server.Main.{
  System, metrics_started, listening, provider_call, async_main, run_configured, run_outcome,
  server_main,
}
use logline.Server.Secure.{IsRun, server_main-IsRun}

abbrev system : System
system = record {
  loads_cert = λ c. true;
  has_reuse_port = true;
  starts = λ l. true;
  has_sdk = true;
  opens = λ path. true;
  serves = false;
  flushes = true;
}

abbrev world : World
world = record {
  fs = record { entries = []; content = λ n. []; next = 0 };
  syncs = [];
  input = [];
  output = [];
  closed = false;
  metrics_enabled = false;
  metrics = [];
}

-- The metrics and the socket of a run, whose server is stopped.
run_calls :
    (server_main system secured_environment secured_server_args true world).calls
    ≡ metrics_started
        (record { service_name = codes "logline-server"; host_name = none; endpoint = none })
      ∷ listening (record {
        bind_host = [];
        bind_port = 5645;
        tls = some (record {
          certfile = some (given (codes "cert.pem"));
          keyfile = some (given (codes "key.pem"));
          password = str (codes "pw");
        });
        reuse_port = false;
      })
      ∷ provider_call force_flush
      ∷ provider_call shutdown
      ∷ []
unfolding server_main run_outcome run_configured async_main init_metrics shutdown_metrics truthy
run_calls = rw secured_configured refl

server_main-IsRun_example :
    IsRun system secured_environment secured_server_args
      (server_main system secured_environment secured_server_args true world)
server_main-IsRun_example =
    server_main-IsRun system secured_environment secured_server_args true world

abbrev host : Host
host = record {
  sha1 = λ b. b;
  loads = λ b. none;
  dumps = λ v. [];
  gzip_compress = λ b. b;
  gzip_decompress = λ b. none;
  lzma_decompress = λ b. none;
  zstandard_decompress = none;
  zstd_decompress = none;
  is_decimal = λ c. false;
  resolve = λ p. p;
}

abbrev dest : FilePath
dest = codes "dst" ∷ []

abbrev var_log : FilePath
var_log = codes "dst" ∷ codes "h" ∷ codes "var~log" ∷ []

mapped : destination_dir host dest (codes "h") (codes "/var/log") ≡ ok var_log
unfolding destination_dir text_eq is_safe_path_segment contains Fs.path_eq path_join
mapped = refl

mapped_too : destination_dir host dest (codes "h") (codes "/var/log/") ≡ ok var_log
unfolding destination_dir text_eq is_safe_path_segment contains Fs.path_eq path_join
mapped_too = refl

destination_dir-shared_example :
    (var_log ≡ var_log)
    ↔ ((codes "h" ≡ codes "h") × (strip b'/' (codes "/var/log") ≡ strip b'/' (codes "/var/log/")))
destination_dir-shared_example =
    destination_dir-shared host dest (codes "h") (codes "h") (codes "/var/log") (codes "/var/log/")
      var_log var_log mapped mapped_too (unfold contains in refl) (unfold contains in refl)

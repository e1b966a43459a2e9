-- ===== src/Link/Greeting/Tests.antt =====
-- An example of a connection that the agent opens to the server, and of its header.
use logline.Base.{
  inl, sym, ◌∙◌, ◌≡◌, ◌≢◌, refl, true, false, Option, none, some, [], ◌∷◌, ◌++◌, ◌+◌, length,
  if◌then◌else◌, Bytes, Text, text_eq, contains, codes, arith,
}
use logline.Json.{Value, null, str, obj, field}
use logline.Fs
use logline.Fs.{FilePath, Fs, dir, file, lookup, is_dir}
use logline.Fs.Join.{path_join}
use logline.Host.{Host, sha1_hex, sha1_b64}
use logline.Base.Encoding.{utf8, hex}
use logline.Server.Paths.{destination_dir, mangle, destination, is_safe_path_segment}
use logline.Wire.Replies.{Arrives}
use logline.Config.{info}
use logline.Config.Agent
use logline.Server.World.{World}
use logline.Server.Auth.{Configuration}
use logline.Server.Handle.{try_client, handle_client}
use logline.Wire.{received}
use logline.Agent.Client.{command_frame, header}
use logline.Agent.Connect.{Endpoint, Opening, opened, connect_to_server}
use logline.Agent.Telemetry.{off}
use logline.Link.Hello.{IsWelcome, Served, try_client-header}
use logline.Link.Greeting.{server, greeting, target_bytes}
use logline.Link.Greeting.Connects.{IsGreeted, connect_to_server-IsGreeted}

-- `json` writes a header and a reply apart, and reads two such values back.
dumps : Value → Text
dumps (obj (field key v fields)) = if text_eq key (codes "hostname") then codes "H" else codes "R"
dumps v = []

abbrev host_of : Option Value → Option Value → Host
host_of greeted told = record {
  sha1 = λ b. b;
  loads = λ b.
      if text_eq b (codes "H\n") then greeted else if text_eq b (codes "R") then told else none;
  dumps = dumps;
  gzip_compress = λ b. b;
  gzip_decompress = λ b. some b;
  lzma_decompress = λ b. some b;
  zstandard_decompress = none;
  zstd_decompress = none;
  is_decimal = λ c. false;
  resolve = λ p. p;
}

abbrev greeted : Value
greeted = header (host_of none none) (codes "h") (codes "/d") (codes "t") (codes "abc") (codes "ab")

abbrev told : Value
told = greeting (host_of none none) 3 (some (codes "abcd"))

abbrev host : Host
host = host_of (some greeted) (some told)

abbrev conf : Configuration
conf = record { destination_directory = codes "dst" ∷ []; client_token_hashes = codes "6162" ∷ [] }

abbrev dst_dir : FilePath
dst_dir = codes "dst" ∷ codes "h" ∷ codes "d" ∷ []

-- The server has four bytes of the file.
abbrev world : World
world = record {
  fs = record {
    entries =
        (codes "dst" ∷ codes "h" ∷ codes "d" ∷ codes "t" ∷ [], file 0)
        ∷ (dst_dir, dir)
        ∷ (codes "dst" ∷ codes "h" ∷ [], dir)
        ∷ (codes "dst" ∷ [], dir)
        ∷ [];
    content = λ n. codes "abcd";
    next = 1;
  };
  syncs = [];
  input = [];
  output = [];
  closed = false;
  metrics_enabled = true;
  metrics = [];
}

welcome :
    IsWelcome host conf (codes "h") (codes "/d") (codes "t") (codes "abc") (codes "ab") dst_dir
unfolding dumps text_eq header sha1_hex utf8 destination_dir mangle destination is_safe_path_segment
    contains sha1_b64 hex Fs.path_eq path_join
welcome = record {
  faithful = refl;
  small = omega arith;
  bytes = codes "ab";
  encoded = refl;
  present = λ e. cc;
  listed = inl refl;
  destination = refl;
  safe = refl;
}

abbrev input : Bytes
input = command_frame host (codes "logline-agent-v1") greeted none ++ codes "data 2 3\n"

try_client-header_example :
    try_client host conf false (record world { input = input })
    ≡ Served host conf (codes "h") (codes "/d") (codes "t") (codes "abc") (codes "ab") dst_dir (
        received
          (length (host.dumps greeted ++ codes "\n") + 0)
          (codes "data 2 3\n")
          (record world { input = input }))
unfolding text_eq header sha1_b64
try_client-header_example =
    try_client-header host conf (codes "h") (codes "/d") (codes "t") (codes "abc") (codes "ab")
      dst_dir (codes "data 2 3\n") (record world { input = input }) welcome refl

abbrev agent : Agent.Configuration
agent = record {
  log_file = none;
  log_file_level = info;
  scan_globs = str (codes "/var/log/*.log") ∷ [];
  exclude_globs = [];
  ephemeral_globs = [];
  exclude_if_file_present = [];
  server_host = codes "127.0.0.1";
  server_port = 5645;
  tls_cert_file = none;
  use_tls = false;
  client_token = str (codes "ab");
  prefix_length_bytes = 50;
  min_prefix_length_bytes = 20;
  tail_read_interval_seconds = 1;
  scan_new_files_interval_seconds = 1;
  rotated_files_inactivity_threshold_seconds = 600;
  seal_marker_grace_seconds = 10;
  seal_idle_seconds = 600;
  metrics = record { enabled = false; endpoint = null; host_name = null };
}

abbrev open_connection : Endpoint → Opening
open_connection e = opened (server host conf world)

is_there : is_dir dst_dir world.fs ≡ true
unfolding text_eq Fs.find Fs.path_eq
is_there = refl

found : lookup (path_join dst_dir (codes "t")) world.fs ≡ some (file 0)
unfolding path_join text_eq Fs.find Fs.path_eq
found = refl

no_directory : lookup (path_join dst_dir (codes "t")) world.fs ≢ some dir
no_directory e = let both : some dir ≡ some (file 0) = sym e ∙ found in absurd (cc)

arrives : Arrives host (
    some (
      greeting host
        (length (codes "abc"))
        (target_bytes (lookup (path_join dst_dir (codes "t")) world.fs) world.fs)))
unfolding greeting dumps path_join text_eq sha1_b64 Fs.find Fs.path_eq
arrives =
    let one : length (
          host.dumps (
            greeting host (length (codes "abc"))
              (target_bytes (lookup (path_join dst_dir (codes "t")) world.fs) world.fs)))
        ≡ 1 =
      refl in
    (refl, omega (arith, one), omega (arith, one))

connect_to_server-IsGreeted_example :
    let c =
      connect_to_server host open_connection agent
        (codes "h")
        (codes "/d")
        (codes "t")
        (codes "abc")
        off in
    IsGreeted
      (greeting host
        (length (codes "abc"))
        (target_bytes (lookup (path_join dst_dir (codes "t")) world.fs) world.fs))
      world.fs
      c
      (handle_client host conf false (record world { input = c.written; output = [] })).1
connect_to_server-IsGreeted_example =
    connect_to_server-IsGreeted host conf agent open_connection world (codes "h") (codes "/d")
      (codes "t") (codes "abc") (codes "ab") dst_dir off refl refl welcome is_there no_directory
      arrives

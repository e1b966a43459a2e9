-- ===== src/Server/Tests.antt =====
-- Examples of the server: one client that ships three bytes to a new file.
use logline.Base.{
  ◌≡◌, ◌≢◌, ◌↔◌, ◌⊎◌, refl, true, false, if◌then◌else◌, none, some, [], ◌∷◌, Bytes, text_eq, codes,
}
use logline.Base.Int.{pos}
use logline.Json.{Value, null, int, str, obj, Fields, field, end}
use logline.Fs
use logline.Fs.{FilePath, Fs, Handle, dir, file, find, lookup, path_eq, relative_to, rename_node}
use logline.Host.{Host}
use logline.Server.World.{ok, World, active_connection_inc, ◌>>=◌, gets, update_fs, commit}
use logline.Server.Telemetry.{active_connections, record_event, record_rename}
use logline.Server.Auth.{Configuration, check_client_auth}
use logline.Server.Append.{apply_data}
use logline.Server.Serve.{serve_client}
use logline.Server.Silent.{handle_client-silent}
use logline.Server.Handle.{handle_client}
use logline.Server.SameDisk.{IsSameDisk}
use logline.Server.Appending.{Applied, apply_data-Applied}
use logline.Server.Accounting.{IsAccounted, handle_client-IsAccounted}
use logline.Server.Admission.{IsKnown, check_client_auth_iff}
use logline.Server.Admission.Disk.{IsAdmitted, handle_client-disk}
use logline.Server.Confinement.{handle_client-confined}
use logline.Server.Rename.{apply_rename}
use logline.Server.Renaming.{apply_rename-replay}
use logline.Server.Termination.{serve_client-raises}

abbrev auth : Fields
auth = field (codes "client_token") (str (codes "ab")) end

abbrev prefix : Fields
prefix = field (codes "length") (int (pos 3)) (field (codes "sha1") (str (codes "x")) end)

abbrev header : Value
header = obj (
    field (codes "hostname") (str (codes "h")) (
      field (codes "directory") (str (codes "/d")) (
        field (codes "target") (str (codes "t"))
          (field (codes "prefix") (obj prefix) (field (codes "auth") (obj auth) end)))))

abbrev metadata : Value
metadata = obj (field (codes "offset") (int (pos 0)) (field (codes "compression") null end))

abbrev host : Host
host = record {
  sha1 = λ b. b;
  loads = λ b.
      if text_eq b (codes "H\n")
      then some header
      else if text_eq b (codes "D\n")
      then some metadata
      else none;
  dumps = λ v. codes "D";
  gzip_compress = λ b. b;
  gzip_decompress = λ b. some b;
  lzma_decompress = λ b. some b;
  zstandard_decompress = none;
  zstd_decompress = none;
  is_decimal = λ c. false;
  resolve = λ p. p;
}

abbrev conf : Configuration
conf = record { destination_directory = codes "dst" ∷ []; client_token_hashes = codes "6162" ∷ [] }

abbrev input : Bytes
input = codes "logline-agent-v1 2\nH\ndata 2 3\nD\nabc"

abbrev world : World
world = record {
  fs = record { entries = (codes "dst" ∷ [], dir) ∷ []; content = λ n. []; next = 0 };
  syncs = [];
  input = input;
  output = [];
  closed = false;
  metrics_enabled = true;
  metrics = [];
}

abbrev handle : Handle
handle = record { inode = 0; position = 0 }

handle_client-disk_example :
    IsSameDisk world (handle_client host conf false world).1
    ⊎ IsAdmitted host conf false (active_connections active_connection_inc world).1
handle_client-disk_example = handle_client-disk host conf false world

check_client_auth_iff_example : (check_client_auth host conf auth ≡ ok tt) ↔ IsKnown host conf auth
check_client_auth_iff_example = check_client_auth_iff host conf auth

outside : relative_to (host.resolve conf.destination_directory) (codes "etc" ∷ []) ≡ none
unfolding relative_to text_eq
outside = refl

handle_client-confined_example :
    lookup (codes "etc" ∷ []) (handle_client host conf false world).1.fs
    ≡ lookup (codes "etc" ∷ []) world.fs
handle_client-confined_example =
    handle_client-confined host conf false world (codes "etc" ∷ []) outside

handle_client-IsAccounted_example :
    IsAccounted world (handle_client host conf false world).1
    × ((handle_client host conf false world).1.closed ≡ true)
    × ((handle_client host conf false world).0 ≡ ok tt)
handle_client-IsAccounted_example = handle_client-IsAccounted host conf false world refl

handle_client-silent_example :
    (handle_client host conf false (record world { metrics_enabled = false })).1.metrics ≡ []
handle_client-silent_example =
    handle_client-silent host conf false (record world { metrics_enabled = false }) refl

serve_client-raises_example :
    (serve_client host
      (codes "dst" ∷ [])
      (codes "t")
      3
      (record world { input = codes "data 2 3\nD\nabc" })).0
    ≢ ok tt
serve_client-raises_example =
    serve_client-raises host (codes "dst" ∷ []) (codes "t") 3
      (record world { input = codes "data 2 3\nD\nabc" })

apply_data-Applied_example :
    let (r, v) = apply_data host handle metadata (some (codes "abc")) world in
    Applied host handle metadata (some (codes "abc")) world r v
apply_data-Applied_example = apply_data-Applied host handle metadata (some (codes "abc")) world refl

abbrev src_path : FilePath
src_path = codes "dst" ∷ codes "t" ∷ []

abbrev dst_path : FilePath
dst_path = codes "dst" ∷ codes "u" ∷ []

-- The served directory with one file.
abbrev filled : World
filled = record world {
  fs = record {
    entries = (src_path, file 0) ∷ (codes "dst" ∷ [], dir) ∷ [];
    content = λ n. codes "abc";
    next = 1;
  };
}

other_name : path_eq src_path dst_path ≡ false
unfolding path_eq text_eq
other_name = refl

is_there : lookup src_path filled.fs ≡ some (file 0)
unfolding find path_eq text_eq
is_there = refl

renamed : (apply_rename src_path dst_path true (some handle) filled).0 ≡ ok tt
unfolding apply_rename ◌>>=◌ gets update_fs commit Fs.rename rename_node find path_eq text_eq
    record_rename record_event
renamed = refl

apply_rename-replay_example :
    let v = (apply_rename src_path dst_path true (some handle) filled).1 in
    ((lookup dst_path v.fs ≡ some (file 0)) × (lookup src_path v.fs ≡ none))
    × ((apply_rename src_path dst_path true (some handle) v).0 ≡ ok tt)
    × ((apply_rename src_path dst_path true (some handle) v).1.fs ≡ v.fs)
apply_rename-replay_example =
    apply_rename-replay src_path dst_path 0 true (some handle) filled other_name is_there renamed

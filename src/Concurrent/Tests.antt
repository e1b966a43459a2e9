-- ===== src/Concurrent/Tests.antt =====
-- Examples of connections at once: two of them, each with its own file.
use logline.Fs
use logline.Base.{
  Bytes, sym, ap, ◌∙◌, ℕ, zero, suc, ◌≡◌, refl, arith, true, false, none, some, List, [], ◌∷◌, ◌==◌,
  Text, text_eq, codes, contains,
}
use logline.Base.Int.{pos}
use logline.Json.{Value, null, int, obj, field, end, get, str, truthy}
use logline.Fs.{Node, Fs, FilePath, Handle, dir, file, lookup, relative_to}
use logline.Host.{Host}
use logline.Server.World.{World, modify, pure, ◌>>=◌}
use logline.Server.Command.{Command}
use logline.Server.Append.{apply_data, accept_data, decompress, check_offset, write_file}
use logline.Server.Telemetry.{record_event, record_bytes_written, record_write_duration}
use logline.Server.Stream.{send, send_reply}
use logline.Server.Auth.{Configuration, check_client_auth}
use logline.Server.Serve.{target_file, open_target, report_target, create_target}
use logline.Fs.Join.{path_join}
use logline.Server.Handle.{Header, make_destination, checked_target}
use logline.Base.Encoding.{utf8, hex}
use logline.Server.Paths.{build_destination_dir, is_safe_path_segment}
use logline.Concurrent.Schedule.{
  welcome, header, leave, idle, Connection, Process, Turn, command, resume, begin_data,
  begin_command, finish_at, finish_data, kept, assign, settle, turn_of, turn_at, turn, run,
}
use logline.Concurrent.Frames.{IsShipped, run-IsShipped}
use logline.Concurrent.Confined.{run-confined}
use logline.Concurrent.Own.{IsAlone, StandsAtEnd, IsGrown}
use logline.Concurrent.Grown.{Throughout, run-IsGrown}

abbrev metadata : Value
metadata = obj (field (codes "offset") (int (pos 0)) (field (codes "compression") null end))

abbrev host : Host
host = record {
  sha1 = λ b. b;
  loads = λ b. none;
  dumps = λ v. codes "D";
  gzip_compress = λ b. b;
  gzip_decompress = λ b. some b;
  lzma_decompress = λ b. some b;
  zstandard_decompress = none;
  zstd_decompress = none;
  is_decimal = λ c. false;
  resolve = λ p. p;
}

abbrev conf : Configuration
conf = record { destination_directory = codes "dst" ∷ []; client_token_hashes = codes "6162" ∷ [] }

abbrev world : World
world = record {
  fs = record {
    entries =
        (codes "dst" ∷ codes "b" ∷ [], file 1)
        ∷ (codes "dst" ∷ codes "a" ∷ [], file 0)
        ∷ (codes "dst" ∷ [], dir)
        ∷ [];
    content = λ n. [];
    next = 2;
  };
  syncs = [];
  input = [];
  output = [];
  closed = false;
  metrics_enabled = true;
  metrics = [];
}

abbrev connection : Text → ℕ → Connection
connection name inode = record {
  dst_dir = codes "dst" ∷ [];
  session = record {
    f = some (record { inode = inode; position = 0 });
    dst_path = codes "dst" ∷ name ∷ [];
  };
  phase = idle;
}

abbrev process : Process
process = record {
  world = world;
  connections =
      assign 0 (some (connection (codes "a") 0))
        (assign 1 (some (connection (codes "b") 1)) (λ k. none));
}

abbrev shipped : Bytes → Command
shipped payload = record { name = codes "data"; metadata = metadata; payload = some payload }

-- The two frames are decompressed at once.
abbrev turns : List (ℕ × Turn)
turns =
    (0, command (shipped (codes "abc")))
    ∷ (1, command (shipped (codes "xy")))
    ∷ (1, resume)
    ∷ (0, resume)
    ∷ []

-- By the files of the connections, whatever the two are.
only_here :
    (s : Process) (d : Connection) (h : Handle)
    → s.connections 1 ≡ some d
    → d.session.f ≡ some h
    → h.inode ≡ 1
    → ((n : ℕ) → s.connections (suc (suc n)) ≡ none)
    → (j : ℕ) (c : Connection) (g : Handle) → (0 == j) ≡ false
    → s.connections j ≡ some c
    → c.session.f ≡ some g
    → (g.inode == 0) ≡ false
only_here s d h open_d open_h at_1 rest zero c g e x y = absurd (cc)
only_here s d h open_d open_h at_1 rest (suc zero) c g e x y =
    let same : c ≡ d = cc in
    let both : some g ≡ some h = sym y ∙ (ap (λ (o : Connection). o.session.f) same ∙ open_h) in
    let same_handle : g ≡ h = cc in rw (same_handle, at_1) refl
only_here s d h open_d open_h at_1 rest (suc (suc n)) c g e x y =
    let none_there = rest n in absurd (cc)

abbrev empty_file : ℕ → Handle
empty_file inode = record { inode = inode; position = 0 }

-- Two files stay with the two connections, whatever they have written.
two_files :
    (s : Process) (c d : Connection) (g h : Handle)
    → s.connections 0 ≡ some c
    → c.session.f ≡ some g
    → g.inode ≡ 0
    → s.connections 1 ≡ some d
    → d.session.f ≡ some h
    → h.inode ≡ 1
    → ((n : ℕ) → s.connections (suc (suc n)) ≡ none)
    → IsAlone 0 0 s
two_files s c d g h open_c open_g at_0 open_d open_h at_1 rest = record {
  connection = c;
  handle = g;
  open_connection = open_c;
  open_file = open_g;
  inode = at_0;
  others = only_here s d h open_d open_h at_1 rest;
}

alone : Throughout host conf 0 0 turns process
unfolding turn turn_at turn_of settle kept begin_command begin_data target_file finish_data
    finish_at apply_data accept_data decompress check_offset write_file Fs.write send_reply send
    record_event record_bytes_written record_write_duration modify pure get text_eq ◌>>=◌
alone = (
  two_files _ _ _ _ _ refl refl refl refl refl refl (λ n. ground arith),
  (
    two_files _ _ _ _ _ refl refl refl refl refl refl (λ n. ground arith),
    (
      two_files _ _ _ _ _ refl refl refl refl refl refl (λ n. ground arith),
      (
        two_files _ _ _ _ _ refl refl refl refl refl refl (λ n. ground arith),
        two_files _ _ _ _ _ refl refl refl refl refl refl (λ n. ground arith),
      ),
    ),
  ),
)

at_end : StandsAtEnd 0 process
at_end c h e f = ground arith

run-IsGrown_example : IsGrown 0 0 process (run host conf turns process)
run-IsGrown_example = run-IsGrown host conf 0 0 turns process alone at_end

outside : relative_to (host.resolve conf.destination_directory) (codes "etc" ∷ []) ≡ none
unfolding relative_to text_eq
outside = refl

-- Two clients begin and ship to the same directory; the first one ends.
abbrev client : Text → Header
client target = record {
  fields =
      field (codes "hostname") (str (codes "h"))
        (field (codes "directory") (str (codes "/d")) (field (codes "target") (str target) end));
  prefix_length = 0;
  auth = field (codes "client_token") (str (codes "ab")) end;
}

abbrev served : List (ℕ × Turn)
served =
    (0, header (client (codes "t")))
    ∷ (0, command (shipped (codes "abc")))
    ∷ (1, header (client (codes "u")))
    ∷ (1, command (shipped (codes "xy")))
    ∷ (0, resume)
    ∷ (0, leave)
    ∷ (1, resume)
    ∷ []

abbrev fresh : Process
fresh = record { world = world; connections = λ k. none }

abbrev dst_dir : FilePath
dst_dir = codes "dst" ∷ codes "h" ∷ codes "d" ∷ []

-- Both files are there in the end, with what was shipped.
abbrev after_run : Fs
after_run = (run host conf served fresh).world.fs

both_shipped :
    (lookup (path_join dst_dir (codes "t")) after_run ≡ some (file 2))
    × (lookup (path_join dst_dir (codes "u")) after_run ≡ some (file 3))
    × (after_run.content 2 ≡ codes "abc")
    × (after_run.content 3 ≡ codes "xy")
unfolding run turn turn_at welcome text_eq Fs.find check_client_auth truthy get utf8 hex
    build_destination_dir is_safe_path_segment contains Fs.path_eq path_join make_destination
    Fs.mkdir Fs.remove checked_target turn_of settle kept begin_command begin_data target_file
    finish_data finish_at apply_data accept_data decompress check_offset write_file Fs.write
    send_reply send record_event record_bytes_written record_write_duration modify pure ◌>>=◌
    open_target report_target create_target Fs.open_existing Fs.open_truncate Fs.overwrite
both_shipped = (refl, refl, refl, refl)

run-confined_example :
    lookup (codes "etc" ∷ []) (run host conf served fresh).world.fs
    ≡ lookup (codes "etc" ∷ []) world.fs
run-confined_example = run-confined host conf served world (codes "etc" ∷ []) outside

-- The turns before the last one.
alone_before :
    Throughout host conf 0 0
      ((0, command (shipped (codes "abc")))
        ∷ (1, command (shipped (codes "xy")))
        ∷ (1, resume)
        ∷ [])
      process
alone_before = (alone.0, (alone.1.0, (alone.1.1.0, alone.1.1.1.0)))

is_data : text_eq (codes "data") (codes "data") ≡ true
unfolding text_eq
is_data = refl

run-IsShipped_example :
    IsShipped host conf 0 0
      (codes "dst" ∷ [])
      (codes "dst" ∷ codes "a" ∷ [])
      (record { inode = 0; position = 0 })
      (shipped (codes "abc"))
      process
      (run host conf turns process)
run-IsShipped_example =
    run-IsShipped host conf 0 0 (codes "dst" ∷ []) (codes "dst" ∷ codes "a" ∷ [])
      (record { inode = 0; position = 0 }) refl (shipped (codes "abc"))
      ((1, command (shipped (codes "xy"))) ∷ (1, resume) ∷ []) process is_data refl refl
      (refl, (refl, tt)) alone_before

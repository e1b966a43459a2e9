-- ===== src/Concurrent/Schedule.antt =====
-- The connections of one server over its one file system: each runs from one `await` of
-- server/logline_server/main.py to the next, in any order. `handle_client` awaits the initial command,
-- `serve_client` each further one, and `apply_data` the decompression of a payload.
-- Headers and commands come here as they were received, so the bytes received and the opening and closing
-- of a connection are not measured, and the replies of all connections go to one output.
use logline.Base.{ℕ, Option, none, some, List, [], ◌∷◌, ◌==◌, if◌then◌else◌, text_eq, codes}
use logline.Json.{get, as_str}
use logline.Json.{Value}
use logline.Fs.{FilePath, Handle}
use logline.Fs.Join.{path_join}
use logline.Host.{Host}
use logline.Server.World.{
  protocol_error, Result, ok, err, World, Action, pure, raise, or_raise, ◌>>=◌, ◌>>◌,
}
use logline.Server.Stream.{send_reply}
use logline.Server.Command.{Command}
use logline.Server.Paths.{build_destination_dir}
use logline.Server.Auth.{Configuration}
use logline.Server.Append.{apply_data}
use logline.Server.Serve.{Session, open_target, report_target, target_file, serve_command}
use logline.Server.Handle.{lift, authenticate, Header, make_destination, checked_target}

-- What a connection waits for: its next command, or the decompression of a `data` frame.
pub data Phase : Type 0 where
  idle : Phase
  busy : Command → Phase

pub record Connection : Type 0 where
  pub dst_dir : FilePath
  pub session : Session
  pub phase : Phase

-- The one process: its file system and metrics, and the connections by their numbers.
pub record Process : Type 0 where
  pub world : World
  pub connections : ℕ → Option Connection

-- What happens next on a connection.
pub data Turn : Type 0 where
  -- the header of a new connection has arrived and is well-formed
  header : Header → Turn
  -- a command has arrived
  command : Command → Turn
  -- the payload of the `data` frame is decompressed
  resume : Turn
  -- the client is gone
  leave : Turn

-- From the header to the loop of `serve_client`.
unfoldable pub welcome : Host → Configuration → Header → Action Connection
unfolding authenticate
welcome host conf h = do
  authenticate host conf h.auth
  directory ← or_raise protocol_error (as_str (get (codes "directory") h.fields))
  dst_dir ← lift (
      build_destination_dir host conf.destination_directory (get (codes "hostname") h.fields)
        (Value.str directory))
  make_destination dst_dir
  target ← lift (checked_target (as_str (get (codes "target") h.fields)))
  f ← open_target (path_join dst_dir target)
  f' ← report_target host h.prefix_length f
  pure (record {
    dst_dir = dst_dir;
    session = record { f = f'; dst_path = path_join dst_dir target };
    phase = idle;
  })

-- A `data` frame up to its decompression: the target is created where it has to be.
unfoldable pub begin_data : Connection → Command → Action Connection
begin_data conn c = do
  h ← target_file conn.session.dst_path conn.session.f c.metadata
  pure (record conn { session = record conn.session { f = some h }; phase = busy c })

-- Any other command, which holds no await before its reply.
unfoldable pub other_command : Host → Connection → Command → Action Connection
other_command host conn c = do
  s ← serve_command host conn.dst_dir conn.session c
  pure (record conn { session = s })

unfoldable pub begin_command : Host → Connection → Command → Action Connection
unfolding begin_data other_command
begin_command host conn c =
    if text_eq c.name (codes "data") then begin_data conn c else other_command host conn c

-- The rest of a `data` frame.
unfoldable pub finish_at : Host → Connection → Command → Handle → Action Connection
finish_at host conn c h = do
  h' ← apply_data host h c.metadata c.payload
  send_reply host (codes "ok") none
  pure (record conn { session = record conn.session { f = some h' }; phase = idle })

-- A connection that decompresses has its file open.
unfoldable pub finish_data : Host → Connection → Command → Option Handle → Action Connection
unfolding finish_at
finish_data host conn c none = raise protocol_error
finish_data host conn c (some h) = finish_at host conn c h

unfoldable pub kept : Result Connection → Option Connection
kept (ok conn) = some conn
kept (err e) = none

abbrev pub assign : ℕ → Option Connection → (ℕ → Option Connection) → ℕ → Option Connection
assign k conn connections j = if k == j then conn else connections j

-- What an action of a connection leaves: an exception ends the connection.
unfoldable pub settle : ℕ → Result Connection × World → Process → Process
unfolding kept
settle k (r, w) s = record { world = w; connections = assign k (kept r) s.connections }

-- A turn of an open connection.
unfoldable pub turn_of : Host → ℕ → Connection → Phase → Turn → Process → Process
unfolding settle begin_command finish_data
turn_of host k conn idle (command c) s = settle k (begin_command host conn c s.world) s
turn_of host k conn (busy c) resume s = settle k (finish_data host conn c conn.session.f s.world) s
turn_of host k conn p leave s = record s { connections = assign k none s.connections }
turn_of host k conn p t s = s

-- A turn of a connection that may not be open yet.
unfoldable pub turn_at : Host → Configuration → ℕ → Option Connection → Turn → Process → Process
unfolding turn_of settle welcome
turn_at host conf k none (header h) s = settle k (welcome host conf h s.world) s
turn_at host conf k none t s = s
turn_at host conf k (some conn) t s = turn_of host k conn conn.phase t s

unfoldable pub turn : Host → Configuration → ℕ → Turn → Process → Process
unfolding turn_at
turn host conf k t s = turn_at host conf k (s.connections k) t s

-- The turns in the order in which they come.
unfoldable pub run : Host → Configuration → List (ℕ × Turn) → Process → Process
unfolding turn
run host conf [] s = s
run host conf ((k, t) ∷ ts) s = run host conf ts (turn host conf k t s)

-- ===== src/Link/Line.antt =====
-- The connection between a segment of the agent and the server's code: what the agent writes is the
-- input of `recv_command`, and what `send_reply` writes is what the agent's client reads. The server
-- is the code after the handshake of a connection whose directory exists.
use logline.Base.{
  ℕ, Bool, true, false, Option, none, some, List, [], ◌∷◌, ◌++◌, ltb, if◌then◌else◌, length, Bytes,
  Text, codes,
}
use logline.Json.{Fields, get, as_str, as_dict, as_nat}
use logline.Fs.{FilePath}
use logline.Fs.Join.{path_join}
use logline.Host.{Host}
use logline.Server.World.{Result, ok, err, World, Action, pure, ◌>>=◌}
use logline.Server.Command.{recv_command}
use logline.Server.Handle.{lift, checked_target}
use logline.Server.Serve.{Session, open_target, report_target, serve_command}
use logline.Agent.Client.{Reply, replied, data_frame, rename_frame, read_reply}
use logline.Agent.Network.{HeaderReply, Network}
use logline.Link.Frames.{max_bytes}

-- What happens to a frame and its reply: both arrive, the frame does not, or the reply does not.
pub data Fault : Type 0 where
  delivered lost unanswered : Fault

-- What happens around one call: the fault of the connection, the bytes that the log file grows by,
-- and the hash that the marker has by then.
pub record Turn : Type 0 where
  pub fault : Fault
  pub grown : Bytes
  pub sha13 : Option Text

-- `session` is the open connection, none where it broke.
pub record State : Type 0 where
  pub source : Bytes
  pub server : World
  pub session : Option Session
  pub turns : List Turn

-- Where nothing is said of a call, the connection is down.
unfoldable pub next_turn : List Turn → Turn × List Turn
next_turn [] = (record { fault = lost; grown = []; sha13 = none }, [])
next_turn (t ∷ ts) = (t, ts)

unfoldable pub took : State → State
unfolding next_turn
took st =
    let (t, ts) = next_turn st.turns in record st { source = st.source ++ t.grown; turns = ts }

-- One round of the server's loop.
unfoldable pub serve_frame : Host → FilePath → Session → Action Session
serve_frame host dst_dir s = do c ← recv_command host false; serve_command host dst_dir s c

-- The start of `serve_client`, before its loop.
unfoldable pub open_session : Host → FilePath → Text → ℕ → Action Session
open_session host dst_dir target prefix_length = do
  name ← lift (checked_target (some target))
  let dst_path = path_join dst_dir name
  f ← open_target dst_path
  f' ← report_target host prefix_length f
  pure (record { f = f'; dst_path = dst_path })

unfoldable pub is_reply : Reply → Bool
is_reply (replied v rest) = true
is_reply _ = false

-- The server's world with the bytes that reach it.
unfoldable pub reached : Bytes → World → World
reached frame w = record w { input = frame; output = [] }

-- After the server's code ran: an exception closes the connection.
unfoldable pub settled : Bool → Result Session → World → State → State
settled true (ok s) w st = record st { server = w; session = some s }
settled true (err e) w st = record st { server = w; session = none }
settled false r w st = record st { server = w; session = none }

-- The agent's call for one frame; it raises where no reply `ok` arrives, and an error of the
-- connection breaks it.
unfoldable pub exchange : Host → FilePath → Option Session → Fault → Bytes → State → Bool × State
unfolding serve_frame is_reply reached settled
exchange host dst_dir none fault frame st = (false, st)
exchange host dst_dir (some s) lost frame st = (false, record st { session = none })
exchange host dst_dir (some s) unanswered frame st =
    let (r, w) = serve_frame host dst_dir s (reached frame st.server) in
    (false, settled false r w st)
exchange host dst_dir (some s) delivered frame st =
    let (r, w) = serve_frame host dst_dir s (reached frame st.server) in
    (is_reply (read_reply host w.output), settled true r w st)

-- A frame that no `bytes` object can hold is not sent.
unfoldable pub sent : Host → FilePath → Bytes → State → Bool × State
unfolding exchange next_turn took
sent host dst_dir frame st =
    let (answer, st') =
      if ltb (length frame) max_bytes
      then exchange host dst_dir st.session (next_turn st.turns).0.fault frame st
      else (false, st) in
    (answer, took st')

-- The reply to the header, as `Segment` reads it.
reply_fields : Option Fields → Option HeaderReply
reply_fields none = none
reply_fields (some fields) = elim (as_nat (get (codes "length") fields)) [
  | none ↦ none
  | some n ↦ some (record { length = n; prefix_sha1 = as_str (get (codes "prefix_sha1") fields) })
]

unfoldable pub header_reply : Reply → Option HeaderReply
unfolding reply_fields
header_reply (replied v rest) = reply_fields (as_dict v)
header_reply _ = none

unfoldable pub connecting :
    Host → FilePath → Fault → Text → Bytes → State → Option HeaderReply × State
unfolding open_session header_reply reached settled
connecting host dst_dir lost target prefix st = (none, record st { session = none })
connecting host dst_dir unanswered target prefix st =
    let (r, w) = open_session host dst_dir target (length prefix) (reached [] st.server) in
    (none, settled false r w st)
connecting host dst_dir delivered target prefix st =
    let (r, w) = open_session host dst_dir target (length prefix) (reached [] st.server) in
    (header_reply (read_reply host w.output), settled true r w st)

unfoldable pub connected : Host → FilePath → Text → Bytes → State → Option HeaderReply × State
unfolding connecting next_turn took
connected host dst_dir target prefix st =
    let (reply, st') = connecting host dst_dir (next_turn st.turns).0.fault target prefix st in
    (reply, took st')

-- The surroundings of a segment whose calls run the server's code.
abbrev pub line : Host → FilePath → Text → Network
line host dst_dir now = record {
  State = State;
  source = λ st. st.source;
  connect = connected host dst_dir;
  send_data = λ pos chunk. sent host dst_dir (data_frame host pos chunk);
  send_rename = λ src dst. sent host dst_dir (rename_frame host src dst);
  utc_iso_dt = λ st. now;
  sha13_for = λ iso_dt st. ((next_turn st.turns).0.sha13, took st);
  sleep = took;
}

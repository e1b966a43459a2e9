-- ===== src/Agent/Connect.antt =====
-- agent/logline_agent/client.py: a call of the server with its timeouts and measurements, and
-- `connect_to_server`.
use logline.Base.{ℕ, Option, none, some, [], ltb, if◌then◌else◌, length, Bytes, Text, codes}
use logline.Json.{Value, str, truthy, as_str}
use logline.Config.{ConfPath}
use logline.Config.Agent.{Configuration}
use logline.Host.{Host}
use logline.Agent.Client.{
  Reply, replied, connection_error, malformed, error_reply, protocol_error, unreadable,
  command_frame, data_metadata, rename_metadata, header, read_reply,
}
use logline.Agent.Telemetry.{
  Telemetry, record_bytes_sent, record_connect, record_frame, record_send_duration,
}

-- What comes back for a frame: bytes up to the end of the reply or of the stream; or a `wait_for`
-- expires before that; or the connection breaks while the frame is written or the reply is read.
pub data Answer : Type 0 where
  answered : Bytes → Answer
  expired broken : Answer

-- How a call ends: with the reply, or by an exception.
pub data Sent : Type 0 where
  returned : Value → Sent
  raised : Sent

-- A call: the bytes that were written, how it ended, and what was measured.
pub record Call : Type 0 where
  pub written : Bytes
  pub sent : Sent
  pub telemetry : Telemetry

-- The end of `_send_command`: only a reply that was read is measured.
unfoldable pub ended : Reply → Telemetry → Sent × Telemetry
ended (replied v rest) t = (returned v, record_frame (codes "ok") (record_send_duration t))
ended error_reply t = (raised, record_frame (codes "error") (record_send_duration t))
ended protocol_error t = (raised, record_frame (codes "error") (record_send_duration t))
ended connection_error t = (raised, t)
ended malformed t = (raised, t)
ended unreadable t = (raised, t)

unfoldable pub after_answer : Host → Answer → Telemetry → Sent × Telemetry
unfolding ended
after_answer host (answered bytes) t = ended (read_reply host bytes) t
after_answer host expired t = (raised, t)
after_answer host broken t = (raised, t)

-- `_send_command`; `server` is what the other side makes of the frame.
unfoldable pub send_command :
    Host → (Bytes → Answer) → Text → Value → Option Bytes → Telemetry → Call
unfolding after_answer
send_command host server command metadata payload t =
    let frame = command_frame host command metadata payload in
    let (sent, t') = after_answer host (server frame) t in
    record { written = frame; sent = sent; telemetry = t' }

-- `send_data`: what goes over the wire is counted before it is sent.
unfoldable pub send_data : Host → (Bytes → Answer) → ℕ → Bytes → Telemetry → Call
unfolding send_command
send_data host server offset content t =
    let content_gz = host.gzip_compress content in
    if ltb (length content_gz) (length content)
    then send_command host server (codes "data") (data_metadata offset (str (codes "gzip")))
        (some content_gz) (record_bytes_sent (length content_gz) t)
    else send_command host server (codes "data") (data_metadata offset Value.null) (some content)
        (record_bytes_sent (length content) t)

unfoldable pub send_rename : Host → (Bytes → Answer) → Text → Text → Telemetry → Call
unfolding send_command
send_rename host server src dst t =
    send_command host server (codes "rename") (rename_metadata src dst) none t

-- What `open_connection` is called with: the context of TLS holds the file of the certificates.
pub record Endpoint : Type 0 where
  pub host : Text
  pub port : ℕ
  pub tls : Option (Option ConfPath)

-- What comes of it: the context cannot be made of the file, which is outside of any `try`; the
-- connection does not open in time, or not at all; or it does, and answers each frame.
pub data Opening : Type 0 where
  no_context not_opened : Opening
  opened : (Bytes → Answer) → Opening

unfoldable pub endpoint : Configuration → Endpoint
endpoint conf = record {
  host = conf.server_host;
  port = conf.server_port;
  tls = if conf.use_tls then some conf.tls_cert_file else none;
}

-- How `connect_to_server` ends: with the reply to the header, or by an exception; what was written
-- and measured.
pub record Connected : Type 0 where
  pub header_reply : Option Value
  pub written : Bytes
  pub telemetry : Telemetry

-- `assert cc.header_reply`
unfoldable pub greeted : Call → Connected
greeted c = elim c.sent [
  | raised ↦ record { header_reply = none; written = c.written; telemetry = c.telemetry }
  | returned reply ↦
      if truthy reply
      then record {
        header_reply = some reply;
        written = c.written;
        telemetry = record_connect (codes "ok") c.telemetry;
      }
      else record { header_reply = none; written = c.written; telemetry = c.telemetry }
]

unfoldable pub send_header :
    Host → (Bytes → Answer) → Text → Text → Text → Bytes → Text → Telemetry → Call
unfolding send_command
send_header host server hostname directory target log_prefix client_token t =
    send_command host server (codes "logline-agent-v1")
      (header host hostname directory target log_prefix client_token) none t

unfoldable pub connect_with :
    Host → Text → Text → Text → Bytes → Text → Opening → Telemetry → Connected
unfolding greeted send_header
connect_with host hostname directory target log_prefix client_token no_context t = record {
  header_reply = none;
  written = [];
  telemetry = t;
}
connect_with host hostname directory target log_prefix client_token not_opened t = record {
  header_reply = none;
  written = [];
  telemetry = record_connect (codes "error") t;
}
connect_with host hostname directory target log_prefix client_token (opened server) t =
    greeted (send_header host server hostname directory target log_prefix client_token t)

-- After `isinstance(conf.client_token, str)`: a token that is no text is refused at once.
unfoldable pub connect_as :
    Host
    → (Endpoint → Opening)
    → Configuration
    → Text
    → Text
    → Text
    → Bytes
    → Option Text
    → Telemetry
    → Connected
unfolding connect_with endpoint
connect_as host open_connection conf hostname directory target log_prefix none t = record {
  header_reply = none;
  written = [];
  telemetry = t;
}
connect_as host open_connection conf hostname directory target log_prefix (some client_token) t =
    connect_with host hostname directory target log_prefix client_token
      (open_connection (endpoint conf)) t

-- `connect_to_server` for a log file in a directory; `hostname` is what `getfqdn()` gives, and
-- `open_connection` what comes of the opening.
unfoldable pub connect_to_server :
    Host → (Endpoint → Opening) → Configuration → Text → Text → Text → Bytes → Telemetry → Connected
unfolding connect_as
connect_to_server host open_connection conf hostname directory target log_prefix t =
    connect_as host open_connection conf hostname directory target log_prefix
      (as_str conf.client_token) t

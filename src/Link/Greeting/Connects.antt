-- ===== src/Link/Greeting/Connects.antt =====
-- `connect_to_server` of agent/logline_agent/client.py, with `handle_client` of the server at the
-- other end of its connection.
use logline.Base.{
  ℕ, ◌≡◌, ◌≢◌, refl, ap, sym, ◌∙◌, true, false, Option, none, some, [], append-nil, length, Bytes,
  Text, codes,
}
use logline.Json.{Value, str, truthy, as_str}
use logline.Fs.{FilePath, Fs, dir, lookup, is_dir}
use logline.Fs.Join.{path_join}
use logline.Host.{Host}
use logline.Config.Agent
use logline.Server.World.{World}
use logline.Server.Auth.{Configuration}
use logline.Server.Handle.{handle_client}
use logline.Agent.Client.{replied, command_frame, header, read_reply}
use logline.Agent.Connect.{
  Answer, answered, Endpoint, endpoint, Opening, opened, Connected, after_answer, ended, greeted,
  send_command, send_header, connect_with, connect_as, connect_to_server,
}
use logline.Agent.Telemetry.{Telemetry}
use logline.Wire.Replies.{Arrives, read_reply-reply_frame}
use logline.Link.Hello.{IsWelcome}
use logline.Link.Greeting.{target_bytes, greeting, server, handle_client-told}

-- The agent's side, of a server that answers with a reply.
connect_with-greeted :
    (host : Host) (hostname directory target : Text) (log_prefix : Bytes) (client_token : Text)
    (other : Bytes → Answer) (out : Bytes) (reply : Value) (t : Telemetry)
    → other (
        command_frame host
          (codes "logline-agent-v1")
          (header host hostname directory target log_prefix client_token)
          none)
      ≡ answered out
    → read_reply host out ≡ replied reply []
    → truthy reply ≡ true
    → (c : Connected) × (connect_with host hostname directory target log_prefix client_token
          (opened other)
          t
        ≡ c)
      × (c.header_reply ≡ some reply)
      × (c.written
          ≡ command_frame host
              (codes "logline-agent-v1")
              (header host hostname directory target log_prefix client_token)
              none)
unfolding connect_with send_header send_command after_answer ended greeted
connect_with-greeted host hostname directory target log_prefix client_token other out reply t e r
      b =
    (_, refl, rw (e, r, b) refl, rw (e, r, b) refl)

connect_to_server-opened :
    (host : Host) (open_connection : Endpoint → Opening) (agent : Agent.Configuration)
    (hostname directory target : Text) (log_prefix : Bytes) (client_token : Text)
    (other : Bytes → Answer) (t : Telemetry)
    → open_connection (endpoint agent) ≡ opened other
    → agent.client_token ≡ str client_token
    → connect_to_server host open_connection agent hostname directory target log_prefix t
      ≡ connect_with host hostname directory target log_prefix client_token (opened other) t
unfolding connect_to_server connect_as
connect_to_server-opened host open_connection agent hostname directory target log_prefix
      client_token other t o a =
    ap
      (λ v. connect_as host open_connection agent hostname directory target log_prefix (as_str v) t)
      a
    ∙ ap (λ s. connect_with host hostname directory target log_prefix client_token s t) o

truthy-greeting : (host : Host) (n : ℕ) (o : Option Bytes) → truthy (greeting host n o) ≡ true
unfolding greeting truthy
truthy-greeting host n none = refl
truthy-greeting host n (some bytes) = refl

-- The agent has a reply, and the server's files are as they were.
pub record IsGreeted (reply : Value) (fs : Fs) (c : Connected) (v : World) : Type 0 where
  pub replies : c.header_reply ≡ some reply
  pub disk : v.fs ≡ fs

module _ (host : Host) (conf : Configuration) (agent : Agent.Configuration)
    (open_connection : Endpoint → Opening) (w : World) where
  -- A connection of the agent's `connect_to_server` to the server's `handle_client`, where `json` reads
  -- the header and the reply back, the token is configured, the names are safe, the destination is a
  -- directory and the target none: it opens, the reply tells the agent the length of the target and the
  -- hash of its beginning, and the server's files stay as they were.
  pub connect_to_server-IsGreeted :
      (hostname directory target : Text) (log_prefix : Bytes) (client_token : Text)
      (dst_dir : FilePath) (t : Telemetry)
      → open_connection (endpoint agent) ≡ opened (server host conf w)
      → agent.client_token ≡ str client_token
      → IsWelcome host conf hostname directory target log_prefix client_token dst_dir
      → is_dir dst_dir w.fs ≡ true
      → lookup (path_join dst_dir target) w.fs ≢ some dir
      → let reply =
          greeting host
            (length log_prefix)
            (target_bytes (lookup (path_join dst_dir target) w.fs) w.fs) in
        let c =
          connect_to_server host open_connection agent hostname directory target log_prefix t in
        Arrives host (some reply)
        → IsGreeted reply w.fs c
            (handle_client host conf false (record w { input = c.written; output = [] })).1
  connect_to_server-IsGreeted hostname directory target log_prefix client_token dst_dir t o a h d n
        r =
      let (disk, told) =
        handle_client-told host conf hostname directory target log_prefix client_token dst_dir w h d
          n in
      let reply : Value =
        greeting host (length log_prefix)
          (target_bytes (lookup (path_join dst_dir target) w.fs) w.fs) in
      let (c, e, some_reply, frame) =
        connect_with-greeted host hostname directory target log_prefix client_token
          (server host conf w) _ reply t (ap answered told)
          (ap (read_reply host) (sym (append-nil _))
            ∙ read_reply-reply_frame host (some reply) [] r)
          (truthy-greeting host (length log_prefix) _) in
      rw
        (
          connect_to_server-opened host open_connection agent hostname directory target log_prefix
              client_token (server host conf w) t o a,
          e,
        )
        (record {
          replies = some_reply;
          disk =
              ap (λ b. (handle_client host conf false (record w { input = b; output = [] })).1.fs)
                frame
              ∙ disk;
        })

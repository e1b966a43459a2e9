-- ===== src/Link/Greeting.antt =====
-- A connection of the agent to the server from both sides: what `connect_to_server` is told of the
-- target by `handle_client`.
pub mod Connects
mod Tests
use logline.Base.{
  ℕ, ◌+◌, ◌≡◌, ◌≢◌, refl, ap, sym, ◌∙◌, true, false, Option, none, some, [], ◌++◌, append-nil,
  length, take, Bytes, Text, codes, Bool-cases, inl, inr, is_empty, if◌then◌else◌,
}
use logline.Json.{Value, null, str, truthy, as_str}
use logline.Fs
use logline.Fs.{FilePath, Fs, Node, dir, file, lookup, is_dir, open_node}
use logline.Fs.Join.{path_join}
use logline.Host.{Host, sha1_b64}
use logline.Config.Agent
use logline.Server.World.{connection_closed, err, Event, World, modify, ◌>>=◌}
use logline.Server.Telemetry.{
  record_event, record_bytes_received, record_connection, active_connections,
}
use logline.Server.Stream.{line_length, send, reply_frame, send_reply, readline, split_line}
use logline.Server.Command.{recv_command}
use logline.Server.Auth.{Configuration}
use logline.Server.Serve
use logline.Server.Serve.{
  report, prefix_hash, opened_target, open_target, report_target, serve_loop, serve_client,
}
use logline.Server.Handle.{make_destination, try_client, outcome, finish, handle_client}
use logline.Agent.Client.{replied, command_frame, header, read_reply}
use logline.Agent.Connect.{
  Answer, answered, Endpoint, endpoint, Connected, after_answer, ended, greeted, send_command,
  send_header, connect_with, connect_as, connect_to_server,
}
use logline.Agent.Telemetry.{Telemetry}
use logline.Wire.Replies.{Arrives, read_reply-reply_frame}
use logline.Wire.{received}
use logline.Link.Hello.{IsWelcome, Served, try_client-header}

-- The bytes of a target, none where it is missing.
abbrev pub target_bytes : Option Node → Fs → Option Bytes
target_bytes (some (file i)) fs = some (fs.content i)
target_bytes _ fs = none

-- What the server tells of a target: its length and, where there is a byte of it, the hash of its
-- beginning.
unfoldable pub greeting : Host → ℕ → Option Bytes → Value
unfolding report
greeting host prefix_length none = report 0 null
greeting host prefix_length (some bytes) =
    let f_prefix = take prefix_length bytes in
    report (length bytes) (if is_empty f_prefix then null else str (sha1_b64 host f_prefix))

-- The server as the other end of the agent's connection.
abbrev pub server : Host → Configuration → World → Bytes → Answer
server host conf w frame =
    answered (handle_client host conf false (record w { input = frame; output = [] })).1.output

-- No more input: the loop is left as the connection was closed.
serve_loop-end :
    (n : ℕ) (host : Host) (dst_dir : FilePath) (s : Serve.Session) (w : World)
    → w.input ≡ []
    → serve_loop (ℕ.suc n) host dst_dir s w ≡ (err connection_closed, w)
unfolding serve_loop recv_command readline split_line line_length ◌>>=◌
serve_loop-end n host dst_dir s w e = rw e refl

serve_client-greets :
    (host : Host) (dst_dir : FilePath) (target : Text) (n : ℕ) (w : World) (node : Option Node)
    → lookup (path_join dst_dir target) w.fs ≡ node
    → node ≢ some dir
    → w.input ≡ []
    → serve_client host dst_dir target n w ≡ (
      err connection_closed,
      record w {
        output =
            w.output
            ++ reply_frame host (codes "ok") (some (greeting host n (target_bytes node w.fs)));
      },
    )
unfolding serve_client open_target opened_target Fs.open_existing open_node report_target
    prefix_hash send_reply send greeting ◌>>=◌
serve_client-greets host dst_dir target n w none e d i = simp (
  e,
  serve_loop-end (length w.input) host dst_dir
      (record { f = none; dst_path = path_join dst_dir target })
      (record w { output = w.output ++ reply_frame host (codes "ok") (some (report 0 null)) }) i,
)
serve_client-greets host dst_dir target n w (some dir) e d i = absurd (d refl)
serve_client-greets host dst_dir target n w (some (file k)) e d i = simp (
  e,
  serve_loop-end (length w.input) host dst_dir
      (record {
        f = some (record { inode = k; position = length (w.fs.content k) });
        dst_path = path_join dst_dir target;
      })
      (record w {
        output =
            w.output
            ++ reply_frame host (codes "ok") (some (greeting host n (some (w.fs.content k))));
      })
      i,
)

-- What two worlds have in common: the disk, the input and the output.
record IsLike (u v : World) : Type 0 where
  disk : v.fs ≡ u.fs
  input : v.input ≡ u.input
  output : v.output ≡ u.output

IsLike-event : (e : Event) (w : World) → IsLike w (record_event e w).1
unfolding record_event modify
IsLike-event e w = elim (Bool-cases w.metrics_enabled) [
  | inl on ↦ rw on (record { disk = refl; input = refl; output = refl })
  | inr off ↦ rw off (record { disk = refl; input = refl; output = refl })
]

IsLike-received :
    (n : ℕ) (rest : Bytes) (w : World) → IsLike (record w { input = rest }) (received n rest w)
unfolding record_bytes_received modify
IsLike-received ℕ.zero rest w = record { disk = refl; input = refl; output = refl }
IsLike-received (ℕ.suc n) rest w =
    IsLike-event (Event.bytes_received (ℕ.suc n)) (record w { input = rest })

-- The end of a connection leaves its disk and its output alone.
like-finish :
    (result : Text) (w : World)
    → ((finish result w).1.fs ≡ w.fs) × ((finish result w).1.output ≡ w.output)
unfolding finish record_connection active_connections modify ◌>>=◌ record_event
like-finish result w = elim (Bool-cases w.metrics_enabled) [
  | inl on ↦ rw on (refl, refl)
  | inr off ↦ rw off (refl, refl)
]

module _ (host : Host) (conf : Configuration) (hostname directory target : Text)
    (log_prefix : Bytes) (client_token : Text) (dst_dir : FilePath) where
  abbrev told : Fs → Value
  told fs =
      greeting host (length log_prefix) (target_bytes (lookup (path_join dst_dir target) fs) fs)

  served-greets :
      (w : World)
      → is_dir dst_dir w.fs ≡ true
      → lookup (path_join dst_dir target) w.fs ≢ some dir
      → w.input ≡ []
      → Served host conf hostname directory target log_prefix client_token dst_dir w ≡ (
        err connection_closed,
        record w { output = w.output ++ reply_frame host (codes "ok") (some (told w.fs)) },
      )
  unfolding make_destination ◌>>=◌
  served-greets w d t e =
      simp (d, serve_client-greets host dst_dir target (length log_prefix) w _ refl t e)

  abbrev written : Bytes
  written =
      command_frame host (codes "logline-agent-v1")
        (header host hostname directory target log_prefix client_token) none

  -- The whole connection, once it has begun.
  begun :
      (u : World)
      → IsWelcome host conf hostname directory target log_prefix client_token dst_dir
      → is_dir dst_dir u.fs ≡ true
      → lookup (path_join dst_dir target) u.fs ≢ some dir
      → u.input ≡ written
      → u.output ≡ []
      → (v : World) × (try_client host conf false u ≡ (err connection_closed, v))
        × (v.fs ≡ u.fs)
        × (v.output ≡ reply_frame host (codes "ok") (some (told u.fs)))
  begun u h d t i o =
      let n : ℕ =
        length
          (host.dumps (header host hostname directory target log_prefix client_token) ++ codes "\n")
        + 0 in
      let l : IsLike (record u { input = [] }) (received n [] u) = IsLike-received n [] u in
      let greeted =
        served-greets (received n [] u) (ap (is_dir dst_dir) l.disk ∙ d)
          (λ e. t (sym (ap (lookup (path_join dst_dir target)) l.disk) ∙ e)) l.input in
      (
        record (received n [] u) {
          output =
              (received n [] u).output
              ++ reply_frame host (codes "ok") (some (told (received n [] u).fs));
        },
        try_client-header host conf hostname directory target log_prefix client_token dst_dir [] u h
              (i ∙ sym (append-nil _))
            ∙ greeted,
        l.disk,
        ap (λ b. b ++ reply_frame host (codes "ok") (some (told (received n [] u).fs)))
              (l.output ∙ o)
            ∙ ap (λ fs. reply_frame host (codes "ok") (some (told fs))) l.disk,
      )

  -- What the server answers to the agent's header and nothing behind it, and its files.
  pub handle_client-told :
      (w : World)
      → IsWelcome host conf hostname directory target log_prefix client_token dst_dir
      → is_dir dst_dir w.fs ≡ true
      → lookup (path_join dst_dir target) w.fs ≢ some dir
      → let v = (handle_client host conf false (record w { input = written; output = [] })).1 in
        (v.fs ≡ w.fs) × (v.output ≡ reply_frame host (codes "ok") (some (told w.fs)))
  unfolding handle_client active_connections
  handle_client-told w h d t =
      let w₀ : World = record w { input = written; output = [] } in
      let l = IsLike-event Event.active_connection_inc w₀ in
      let u : World = (record_event Event.active_connection_inc w₀).1 in
      let (v, e, f, o) =
        begun u h (ap (is_dir dst_dir) l.disk ∙ d)
          (λ e. t (sym (ap (lookup (path_join dst_dir target)) l.disk) ∙ e)) l.input l.output in
      let (f', o') = like-finish (outcome (err connection_closed)) v in
      (
        ap (λ r. (finish (outcome r.0) r.1).1.fs) e ∙ (f' ∙ (f ∙ l.disk)),
        ap (λ r. (finish (outcome r.0) r.1).1.output) e
            ∙ (o' ∙ (o ∙ ap (λ fs. reply_frame host (codes "ok") (some (told fs))) l.disk)),
      )

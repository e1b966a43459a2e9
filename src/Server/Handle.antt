-- ===== src/Server/Handle.antt =====
-- `handle_client` of server/logline_server/main.py: the handshake and the end of a connection.
use logline.Base.{
  ℕ, Bool, true, false, ◌&&◌, ◌||◌, not, Option, none, some, if◌then◌else◌, Text, text_eq, is_empty,
  codes,
}
use logline.Json.{Value, Fields, get, truthy, as_str, as_dict, as_nat}
use logline.Fs
use logline.Fs.{FilePath, Fs, parent, is_dir}
use logline.Host.{Host}
use logline.Server.World.{
  connection_closed, received_http_request, protocol_error, unexpected_hello, timeout, Result, ok,
  err, active_connection_inc, active_connection_dec, Action, pure, raise, or_raise, gets, modify,
  update_fs, unless, ◌>>=◌, ◌>>◌,
}
use logline.Server.Telemetry.{
  record_connection, active_connections, record_protocol_error, record_auth_failure,
}
use logline.Server.Stream.{send_http_response}
use logline.Server.Command.{Command, recv_command}
use logline.Server.Paths.{is_safe_path_segment, build_destination_dir}
use logline.Server.Auth.{Configuration, check_client_auth}
use logline.Server.Serve.{serve_client}

abbrev pub lift : {A : Type 0} → Result A → Action A
lift r w = (r, w)

-- `except Exception: record_auth_failure(); raise`
unfoldable pub authenticated : Result Unit → Action Unit
authenticated (ok u) = pure tt
authenticated (err e) = do record_auth_failure; raise e

unfoldable pub authenticate : Host → Configuration → Fields → Action Unit
unfolding authenticated
authenticate host conf auth = authenticated (check_client_auth host conf auth)

-- What the handshake needs of a header that is well-formed.
pub record Header : Type 0 where
  pub fields : Fields
  pub prefix_length : ℕ
  pub auth : Fields

-- The checks of the header, from its type to the type of `auth`.
unfoldable pub check_header : Value → Result Header
check_header metadata = elim (as_dict metadata) [
  | none ↦ err protocol_error
  | some header ↦
      if not (truthy (get (codes "hostname") header))
        || (not (truthy (get (codes "prefix") header)) || not (truthy (get (codes "auth") header)))
      then err protocol_error
      else elim (as_dict (get (codes "prefix") header)) [
        | none ↦ err protocol_error
        | some prefix ↦ elim (as_nat (get (codes "length") prefix)) [
          | none ↦ err protocol_error
          | some n ↦ elim (as_str (get (codes "sha1") prefix)) [
            | none ↦ err protocol_error
            | some sha1 ↦ elim (as_dict (get (codes "auth") header)) [
              | none ↦ err protocol_error
              | some auth ↦ ok (record { fields = header; prefix_length = n; auth = auth })
            ]
          ]
        ]
      ]
]

unfoldable pub make_dir : FilePath → Action Unit
make_dir path = update_fs (Fs.mkdir path)

-- The destination directory and its parent are created where they are missing.
unfoldable pub make_destination : FilePath → Action Unit
unfolding make_dir
make_destination dst_dir = do
  fs ← gets (λ w. w.fs)
  if is_dir dst_dir fs
      then pure tt
      else if is_dir (parent dst_dir) fs
      then make_dir dst_dir
      else make_dir (parent dst_dir) >> make_dir dst_dir

-- `isinstance(target, str) and _is_safe_path_segment(target)`
unfoldable pub checked_target : Option Text → Result Text
checked_target none = err protocol_error
checked_target (some s) = if is_safe_path_segment s then ok s else err protocol_error

-- After the initial command was received.
unfoldable pub serve_header : Host → Configuration → Header → Action Unit
unfolding make_destination checked_target authenticate
serve_header host conf h = do
  authenticate host conf h.auth
  directory ← or_raise protocol_error (as_str (get (codes "directory") h.fields))
  dst_dir ← lift (
      build_destination_dir host conf.destination_directory (get (codes "hostname") h.fields)
        (Value.str directory))
  make_destination dst_dir
  target ← lift (checked_target (as_str (get (codes "target") h.fields)))
  serve_client host dst_dir target h.prefix_length

-- `command != 'logline-agent-v1' or data`
unfoldable pub is_hello : Command → Bool
is_hello c =
    text_eq c.name (codes "logline-agent-v1")
    && elim c.payload [ none ↦ true | some payload ↦ is_empty payload ]

unfoldable pub serve_hello : Host → Configuration → Command → Action Unit
unfolding is_hello
serve_hello host conf c = do
  unless (is_hello c) unexpected_hello
  h ← lift (check_header c.metadata)
  serve_header host conf h

-- The initial command, or the expiry of the handshake's timeout.
unfoldable pub recv_hello : Host → Bool → Action Command
recv_hello host true = raise timeout
recv_hello host false = recv_command host true

-- The body of the outer `try`: the result is the outcome, where it returns.
unfoldable pub after_hello : Host → Configuration → Result Command → Action Text
after_hello host conf (ok c) = do serve_hello host conf c; pure (codes "ok")
after_hello host conf (err received_http_request) = do
  record_protocol_error (codes "http_request")
  send_http_response
  pure (codes "ok")
after_hello host conf (err timeout) = pure (codes "error")
after_hello host conf (err e) = raise e

unfoldable pub try_client : Host → Configuration → Bool → Action Text
unfolding after_hello
try_client host conf late w = let (r, w') = recv_hello host late w in after_hello host conf r w'

-- The outer `except` clauses: the outcome of the connection.
unfoldable pub outcome : Result Text → Text
outcome (ok result) = result
outcome (err connection_closed) = codes "ok"
outcome (err e) = codes "error"

unfoldable pub finish : Text → Action Unit
finish result = do
  record_connection result
  active_connections active_connection_dec
  modify (λ w. record w { closed = true })

-- `late` says that the handshake's timeout expires before the initial command is complete.
unfoldable pub handle_client : Host → Configuration → Bool → Action Unit
unfolding outcome finish try_client
handle_client host conf late w =
    let (_, w₁) = active_connections active_connection_inc w in
    let (r, w₂) = try_client host conf late w₁ in finish (outcome r) w₂

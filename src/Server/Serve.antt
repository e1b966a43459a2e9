-- ===== src/Server/Serve.antt =====
-- `serve_client` of server/logline_server/main.py: the handshake's reply and the command loop.
use logline.Base.{
  ℕ, zero, suc, false, Option, none, some, if◌then◌else◌, length, take, Bytes, Text, text_eq,
  is_empty, codes,
}
use logline.Base.Int.{pos}
use logline.Json.{Value, null, int, str, obj, field, end, get, as_dict, as_int}
use logline.Fs
use logline.Fs.{FilePath, Fs, Handle, Opened, opened, not_found, failed}
use logline.Fs.Join.{path_join}
use logline.Host.{Host, sha1_b64}
use logline.Server.World.{
  protocol_error, file_not_found, os_error, ok, err, Action, pure, raise, or_raise, gets, unless,
  ◌>>=◌, ◌>>◌,
}
use logline.Server.Stream.{send_reply}
use logline.Server.Command.{Command, recv_command}
use logline.Server.Rename.{handle_rename}
use logline.Server.Append.{is_at, apply_data}

-- The variables of the loop: the open file, if there is one, and its path.
pub record Session : Type 0 where
  pub f : Option Handle
  pub dst_path : FilePath

-- Opening the target: `FileNotFoundError` is no failure.
unfoldable pub opened_target : Opened → Action (Option Handle)
opened_target (Opened.opened h fs) w = (ok (some h), record w { fs = fs })
opened_target Opened.not_found w = (ok none, w)
opened_target Opened.failed w = (err os_error, w)

unfoldable pub open_target : FilePath → Action (Option Handle)
unfolding opened_target
open_target dst_path w = opened_target (Fs.open_existing dst_path w.fs) w

unfoldable pub created_target : Opened → Action Handle
created_target (Opened.opened h fs) w = (ok h, record w { fs = fs })
created_target Opened.not_found w = (err file_not_found, w)
created_target Opened.failed w = (err os_error, w)

unfoldable pub create_target : FilePath → Action Handle
unfolding created_target
create_target dst_path w = created_target (Fs.open_truncate dst_path w.fs) w

-- `{'length': length, 'prefix_sha1': prefix_sha1}`
unfoldable pub report : ℕ → Value → Value
report n prefix_sha1 =
    obj (field (codes "length") (int (pos n)) (field (codes "prefix_sha1") prefix_sha1 end))

-- `sha1_b64(f_prefix) if f_prefix else None`
unfoldable pub prefix_hash : Host → Bytes → Value
prefix_hash host f_prefix = if is_empty f_prefix then null else str (sha1_b64 host f_prefix)

-- The reply to the handshake; an open file is left at its end.
unfoldable pub report_target : Host → ℕ → Option Handle → Action (Option Handle)
unfolding prefix_hash report
report_target host prefix_length none = do
  send_reply host (codes "ok") (some (report 0 null))
  pure none
report_target host prefix_length (some h) = do
  bytes ← gets (λ w. w.fs.content h.inode)
  send_reply host (codes "ok")
      (some (report (length bytes) (prefix_hash host (take prefix_length bytes))))
  pure (some (record h { position = length bytes }))

-- The open file for a `data` frame: the target is created by a first frame at offset 0.
unfoldable pub target_file : FilePath → Option Handle → Value → Action Handle
target_file dst_path (some h) metadata = pure h
target_file dst_path none metadata = do
  fields ← or_raise protocol_error (as_dict metadata)
  offset ← or_raise protocol_error (as_int (get (codes "offset") fields))
  unless (is_at offset 0) protocol_error
  create_target dst_path

-- One round of the loop, after the command was received.
unfoldable pub serve_command : Host → FilePath → Session → Command → Action Session
serve_command host dst_dir s c =
    if text_eq c.name (codes "data")
    then (do
      h ← target_file s.dst_path s.f c.metadata
      h' ← apply_data host h c.metadata c.payload
      send_reply host (codes "ok") none
      pure (record s { f = some h' }))
    else if text_eq c.name (codes "rename")
    then (do
      dst_path ← handle_rename dst_dir s.dst_path s.f c.metadata
      send_reply host (codes "ok") none
      pure (record s { dst_path = dst_path }))
    else raise protocol_error

-- `while True`: the loop ends only by an exception. Each round takes at least a byte of the input,
-- and the model falls out of the loop where the bound on the rounds is too small.
unfoldable pub serve_loop : ℕ → Host → FilePath → Session → Action Unit
serve_loop zero host dst_dir s = pure tt
serve_loop (suc fuel) host dst_dir s = do
  c ← recv_command host false
  s' ← serve_command host dst_dir s c
  serve_loop fuel host dst_dir s'

unfoldable pub serve_client : Host → FilePath → Text → ℕ → Action Unit
serve_client host dst_dir target prefix_length = do
  let dst_path = path_join dst_dir target
  f ← open_target dst_path
  f' ← report_target host prefix_length f
  left ← gets (λ w. length w.input)
  serve_loop (suc left) host dst_dir (record { f = f'; dst_path = dst_path })

-- ===== src/Server/Rename.antt =====
-- `handle_rename` and `fsync_dir` of server/logline_server/main.py.
use logline.Base.{Bool, true, false, Option, none, some, [], ◌∷◌, ◌++◌, if◌then◌else◌, Text, codes}
use logline.Json.{Value, get, as_str, as_dict}
use logline.Fs
use logline.Fs.{FilePath, path_eq, Fs, Handle, exists, is_dir}
use logline.Fs.Join.{path_join}
use logline.Server.World.{
  protocol_error, attribute_error, os_error, Sync, synced_file, synced_dir, Action, pure, raise,
  or_raise, gets, modify, update_fs, unless, ◌>>=◌, ◌>>◌,
}
use logline.Server.Telemetry.{record_rename}
use logline.Server.Paths.{is_safe_path_segment}

-- A call of `os.fsync`: a failure is only logged.
unfoldable pub record_sync : Sync → Action Unit
record_sync s = modify (λ w. record w { syncs = w.syncs ++ s ∷ [] })

-- The present bytes of the open file become durable.
unfoldable pub fsync_file : Handle → Action Unit
unfolding record_sync
fsync_file f = do bytes ← gets (λ w. w.fs.content f.inode); record_sync (synced_file f.inode bytes)

unfoldable pub fsync_dir : FilePath → Action Unit
unfolding record_sync
fsync_dir path = do
  fs ← gets (λ w. w.fs)
  unless (is_dir path fs) os_error
  record_sync (synced_dir path)

unfoldable pub invalid_name : Action Text
invalid_name = do record_rename (codes "error"); raise protocol_error

-- A name of the frame: a text that is a safe segment.
unfoldable pub checked_name : Option Text → Action Text
unfolding invalid_name
checked_name none = invalid_name
checked_name (some s) = if is_safe_path_segment s then pure s else invalid_name

unfoldable pub sync_followed : Bool → Option Handle → Action Unit
sync_followed true (some f) = fsync_file f
sync_followed _ _ = pure tt

unfoldable pub follows : Option Handle → Bool → Bool
follows none same = false
follows (some f) same = same

-- The rename itself: done, already applied, or impossible.
unfoldable pub apply_rename : FilePath → FilePath → Bool → Option Handle → Action Unit
unfolding sync_followed fsync_file
apply_rename src_path new_path fd_follows f = do
  fs ← gets (λ w. w.fs)
  if exists src_path fs
      then (do
        update_fs (Fs.rename src_path new_path)
        record_rename (codes "ok")
        sync_followed fd_follows f)
      else if exists new_path fs
      then record_rename (codes "noop")
      else do record_rename (codes "error"); raise protocol_error

-- The result is the path of the open file after the rename.
unfoldable pub handle_rename : FilePath → FilePath → Option Handle → Value → Action FilePath
unfolding follows apply_rename fsync_dir checked_name
handle_rename dst_dir current_path f metadata = do
  fields ← or_raise attribute_error (as_dict metadata)
  src ← checked_name (as_str (get (codes "from") fields))
  dst ← checked_name (as_str (get (codes "to") fields))
  let src_path = path_join dst_dir src
  let new_path = path_join dst_dir dst
  let fd_follows = follows f (path_eq src_path current_path)
  apply_rename src_path new_path fd_follows f
  fsync_dir dst_dir
  pure (if fd_follows then new_path else current_path)

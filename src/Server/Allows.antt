-- ===== src/Server/Allows.antt =====
-- Relations between worlds that allow changes of the file system below a directory: every action of
-- a connection that serves that directory keeps them.
pub mod Loop
pub mod Client
use logline.Base.{
  ℕ, zero, suc, ◌≡◌, refl, Bool, true, false, Option, none, some, Option-cases, inl, inr, List, [],
  ◌∷◌, ◌++◌, if◌then◌else◌, Bytes, Text, arith, take, length,
}
use logline.Base.Int.{ℤ, pos, negsuc}
use logline.Json.{Value, null, bool, int, float, str, arr, obj, Fields}
use logline.Fs
use logline.Fs.{FilePath, Fs, Handle, Opened, opened, not_found, failed, exists, relative_to}
use logline.Host.{Host}
use logline.Server.World.{
  Error, Sync, World, Action, Result, ok, err, pure, raise, or_raise, gets, modify, update_fs,
  unless, ◌>>=◌,
}
use logline.Server.World.Keeps.{IsStable, Keeps, Keeps-update_fs, keeps_rules}
use logline.Server.Quiet
use logline.Server.Quiet.{IsQuiet}
use logline.Server.World.Gives.{Gives, Gives-pure, Gives-raise, Gives-then}
use logline.Server.Paths.{is_safe_path_segment}
use logline.Server.Segments.{IsSafe}
use logline.Server.Command.{Command}
use logline.Server.Rename.{
  record_sync, fsync_file, fsync_dir, invalid_name, checked_name, sync_followed, apply_rename,
  handle_rename,
}
use logline.Server.Append.{write_file, apply_data}
use logline.Server.Accept.{Keeps-accept_data}
use logline.Server.Serve.{
  Session, opened_target, created_target, open_target, create_target, report_target, target_file,
  serve_command, serve_loop, serve_client,
}

pub record Allows (R : World → World → Type 0) (Below : FilePath → Type 0) : Type 0 where
  pub quiet : IsQuiet R
  pub syncing : (w : World) (s : Sync) → R w (record w { syncs = w.syncs ++ s ∷ [] })
  pub creating :
      (w : World) (p : FilePath)
      → Below p
      → (h : Handle) (fs : Fs) → Fs.open_truncate p w.fs ≡ opened h fs
      → R w (record w { fs = fs })
  pub renaming :
      (w : World) (p q : FilePath)
      → Below p
      → Below q
      → (fs : Fs) → Fs.rename p q w.fs ≡ some fs
      → R w (record w { fs = fs })
  pub making :
      (w : World) (p : FilePath)
      → Below p
      → (fs : Fs) → Fs.mkdir p w.fs ≡ some fs
      → R w (record w { fs = fs })
  pub writing : (w : World) (h : Handle) (b : Bytes) → R w (record w { fs = (Fs.write h b w.fs).1 })

ruleset rules = (
  keeps_rules, Quiet.Keeps-record_event, Quiet.Keeps-record_bytes_written,
  Quiet.Keeps-record_write_duration, Quiet.Keeps-record_decompress_duration,
  Quiet.Keeps-record_protocol_error, Quiet.Keeps-record_rename, Quiet.Keeps-send_reply,
  Quiet.Keeps-recv_command,
)

module _ {R : World → World → Type 0} {Below : FilePath → Type 0} (allows : Allows R Below) where
  abbrev pub stable : IsStable R
  stable = allows.quiet.stable

  Keeps-record_sync : (s : Sync) → Keeps R (record_sync s)
  unfolding record_sync modify
  Keeps-record_sync s = record { at = λ w. allows.syncing w s }

  Keeps-fsync_file : (f : Handle) → Keeps R (fsync_file f)
  unfolding fsync_file
  Keeps-fsync_file f = search (rules, Keeps-record_sync, stable) depth 10

  pub Keeps-fsync_dir : (p : FilePath) → Keeps R (fsync_dir p)
  unfolding fsync_dir
  Keeps-fsync_dir p = search (rules, Keeps-record_sync, stable) depth 10

  Keeps-invalid_name : Keeps R invalid_name
  unfolding invalid_name
  Keeps-invalid_name = search (rules, allows.quiet, stable) depth 10

  Gives-invalid_name : Gives R IsSafe invalid_name
  unfolding invalid_name
  Gives-invalid_name =
      Gives-then IsSafe _ _ stable (Quiet.Keeps-record_rename allows.quiet _)
        λ u. Gives-raise IsSafe _ stable

  Gives-IsSafe :
      (s : Text) (b : Bool)
      → is_safe_path_segment s ≡ b
      → Gives R IsSafe (if b then pure s else invalid_name)
  Gives-IsSafe s true e = Gives-pure IsSafe s stable e
  Gives-IsSafe s false e = Gives-invalid_name

  -- A name that is accepted is safe.
  pub Gives-checked_name : (o : Option Text) → Gives R IsSafe (checked_name o)
  unfolding checked_name
  Gives-checked_name none = Gives-invalid_name
  Gives-checked_name (some s) = Gives-IsSafe s (is_safe_path_segment s) refl

  Keeps-rename : (p q : FilePath) → Below p → Below q → Keeps R (update_fs (Fs.rename p q))
  Keeps-rename p q hp hq = Keeps-update_fs stable _ (λ w. allows.renaming w p q hp hq)

  Keeps-sync_followed : (b : Bool) (f : Option Handle) → Keeps R (sync_followed b f)
  unfolding sync_followed
  Keeps-sync_followed true (some f) = Keeps-fsync_file f
  Keeps-sync_followed true none = search (rules, stable)
  Keeps-sync_followed false f = search (rules, stable)

  pub Keeps-apply_rename :
      (p q : FilePath)
      → Below p
      → Below q
      → (b : Bool) (f : Option Handle) → Keeps R (apply_rename p q b f)
  unfolding apply_rename
  Keeps-apply_rename p q hp hq b f =
      search (rules, Keeps-rename, Keeps-sync_followed, allows.quiet, stable) depth 12

  Keeps-write_file : (f : Handle) (b : Bytes) → Keeps R (write_file f b)
  unfolding write_file
  Keeps-write_file f b = record { at = λ w. allows.writing w f b }

  pub Keeps-apply_data :
      (host : Host) (f : Handle) (v : Value) (o : Option Bytes) → Keeps R (apply_data host f v o)
  unfolding apply_data
  Keeps-apply_data host f v o =
      search (rules, Keeps-accept_data allows.quiet, Keeps-write_file, allows.quiet, stable) depth
        10

  created-keeps :
      (w : World) (p : FilePath) (o : Opened)
      → Below p
      → Fs.open_truncate p w.fs ≡ o
      → R w (created_target o w).1
  unfolding created_target
  created-keeps w p (Opened.opened h fs) hp e = allows.creating w p hp h fs e
  created-keeps w p Opened.not_found hp e = stable.same w
  created-keeps w p Opened.failed hp e = stable.same w

  Keeps-create_target : (p : FilePath) → Below p → Keeps R (create_target p)
  unfolding create_target
  Keeps-create_target p hp = record { at = λ w. created-keeps w p _ hp refl }

  pub Keeps-target_file :
      (p : FilePath) (f : Option Handle) (v : Value) → Below p → Keeps R (target_file p f v)
  unfolding target_file
  Keeps-target_file p (some h) v hp = search (rules, stable)
  Keeps-target_file p none v hp = search (rules, Keeps-create_target, stable) depth 10

  pub Keeps-report_target :
      (host : Host) (n : ℕ) (f : Option Handle) → Keeps R (report_target host n f)
  unfolding report_target
  Keeps-report_target host n none = search (rules, allows.quiet, stable) depth 10
  Keeps-report_target host n (some h) = search (rules, allows.quiet, stable) depth 10

-- ===== src/Link/Renames.antt =====
-- The code of a rename frame and the bytes of the inodes.
use logline.Base.{◌≡◌, refl, Bool, true, false, Option, none, some, Text, arith}
use logline.Json.{Value}
use logline.Fs
use logline.Fs.{FilePath, Fs, Node, dir, file, Handle, path_eq, has_children, rename_node}
use logline.Server.World.{Sync, modify, update_fs}
use logline.Server.World.Keeps.{Keeps, Keeps-update_fs, keeps_rules}
use logline.Server.Quiet
use logline.Server.Rename.{
  record_sync, fsync_file, fsync_dir, invalid_name, checked_name, sync_followed, apply_rename,
  handle_rename,
}
use logline.Link.Content.{IsSameContent, IsSameContent-quiet, same_content, stable}

node-content :
    (src dst : FilePath) (n m : Option Node) (fs fs' : Fs)
    → rename_node src dst n m fs ≡ some fs'
    → fs'.content ≡ fs.content
unfolding rename_node
node-content src dst none m fs fs' e = absurd (cc)
node-content src dst (some (file i)) (some dir) fs fs' e = absurd (cc)
node-content src dst (some (file i)) none fs fs' e = ground arith
node-content src dst (some (file i)) (some (file j)) fs fs' e = ground arith
node-content src dst (some dir) none fs fs' e = ground arith
node-content src dst (some dir) (some (file j)) fs fs' e = absurd (cc)
node-content src dst (some dir) (some dir) fs fs' e = ground arith

Keeps-rename : (p q : FilePath) → Keeps IsSameContent (update_fs (Fs.rename p q))
unfolding Fs.rename
Keeps-rename p q =
    Keeps-update_fs stable _ (λ w fs e. same_content (node-content p q _ _ w.fs fs e))

Keeps-record_sync : (s : Sync) → Keeps IsSameContent (record_sync s)
unfolding record_sync modify
Keeps-record_sync s = record { at = λ w. same_content refl }

ruleset rules = (keeps_rules, Keeps-rename, Keeps-record_sync, Quiet.Keeps-record_rename)

Keeps-fsync_file : (f : Handle) → Keeps IsSameContent (fsync_file f)
unfolding fsync_file
Keeps-fsync_file f = search (rules, stable) depth 10

Keeps-fsync_dir : (p : FilePath) → Keeps IsSameContent (fsync_dir p)
unfolding fsync_dir
Keeps-fsync_dir p = search (rules, stable) depth 10

Keeps-sync_followed : (b : Bool) (f : Option Handle) → Keeps IsSameContent (sync_followed b f)
unfolding sync_followed
Keeps-sync_followed true (some f) = Keeps-fsync_file f
Keeps-sync_followed true none = search (rules, stable)
Keeps-sync_followed false f = search (rules, stable)

Keeps-checked_name : (o : Option Text) → Keeps IsSameContent (checked_name o)
unfolding checked_name invalid_name
Keeps-checked_name none = search (rules, IsSameContent-quiet, stable) depth 10
Keeps-checked_name (some s) = search (rules, IsSameContent-quiet, stable) depth 10

Keeps-apply_rename :
    (p q : FilePath) (b : Bool) (f : Option Handle) → Keeps IsSameContent (apply_rename p q b f)
unfolding apply_rename
Keeps-apply_rename p q b f =
    search (rules, Keeps-sync_followed, IsSameContent-quiet, stable) depth 12

pub Keeps-handle_rename :
    (d p : FilePath) (f : Option Handle) (v : Value) → Keeps IsSameContent (handle_rename d p f v)
unfolding handle_rename
Keeps-handle_rename d p f v =
    search (rules, Keeps-checked_name, Keeps-apply_rename, Keeps-fsync_dir, stable) depth 14

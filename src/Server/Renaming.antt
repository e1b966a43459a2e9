-- ===== src/Server/Renaming.antt =====
-- `handle_rename` of server/logline_server/main.py: what a rename does to the two names, and what
-- sending it again does.
use logline.Base.{
  ℕ, ◌≡◌, ◌≢◌, refl, sym, ap, ◌∙◌, inl, inr, Bool, true, false, Bool-cases, Option, none, some,
  if◌then◌else◌, [], codes, Text,
}
use logline.Fs
use logline.Fs.{
  FilePath, Fs, Node, dir, file, Handle, find, remove, put, lookup, exists, rename_node,
}
use logline.Fs.Laws.{path_eq_iff, path_eq_refl, find-remove, find-put}
use logline.Server.World.{ok, World, Action, pure, gets, modify, commit, update_fs, ◌>>=◌, ◌>>◌}
use logline.Server.Telemetry.{record_event, record_rename}
use logline.Server.Rename.{record_sync, fsync_file, sync_followed, apply_rename}

entries_of : Option Fs → Fs.Entries
entries_of none = []
entries_of (some fs) = fs.entries

moved_file :
    (src dst : FilePath) (i : ℕ) (target : Option Node) (fs fs' : Fs)
    → Fs.path_eq src dst ≡ false
    → rename_node src dst (some (file i)) target fs ≡ some fs'
    → fs'.entries ≡ put dst (file i) (remove src fs.entries)
unfolding rename_node entries_of
moved_file src dst i (some dir) fs fs' n e = absurd (cc)
moved_file src dst i none fs fs' n e = sym (ap entries_of (rw n at e))
moved_file src dst i (some (file j)) fs fs' n e = sym (ap entries_of (rw n at e))

path_eq_sym : (p q : FilePath) → Fs.path_eq p q ≡ false → Fs.path_eq q p ≡ false
path_eq_sym p q n =
    let no : true ≢ false = λ h. cc in
    elim (Bool-cases (Fs.path_eq q p)) [
      | inr f ↦ f
      | inl t ↦ absurd (no (sym ((path_eq_iff p q).1 (sym ((path_eq_iff q p).0 t))) ∙ n))
    ]

-- The names after the rename of a file to another name.
renamed-names :
    (src dst : FilePath) (i : ℕ) (fs fs' : Fs)
    → Fs.path_eq src dst ≡ false
    → lookup src fs ≡ some (file i)
    → Fs.rename src dst fs ≡ some fs'
    → (lookup dst fs' ≡ some (file i)) × (lookup src fs' ≡ none)
unfolding Fs.rename
renamed-names src dst i fs fs' n at e =
    let moved : fs'.entries ≡ put dst (file i) (remove src fs.entries) =
      moved_file src dst i (lookup dst fs) fs fs' n (rw at at e) in
    (
      rw (moved, find-put dst dst (file i) (remove src fs.entries), path_eq_refl dst),
      rw (
        moved,
        find-put dst src (file i) (remove src fs.entries),
        path_eq_sym src dst n,
        find-remove src src fs.entries,
        path_eq_refl src,
      ),
    )

record_rename-fs :
    (result : Text) (w : World)
    → ((record_rename result w).0 ≡ ok tt) × ((record_rename result w).1.fs ≡ w.fs)
unfolding record_rename record_event modify
record_rename-fs result w = elim (Bool-cases w.metrics_enabled) [
  | inl t ↦ (refl, rw t)
  | inr f ↦ (refl, rw f)
]

second_branch :
    (b c : Bool) (m n k : Action Unit) (w : World)
    → b ≡ false
    → c ≡ true
    → (if b then m else if c then n else k) w ≡ n w
second_branch true c m n k w p q = absurd (cc)
second_branch false true m n k w p q = refl
second_branch false false m n k w p q = absurd (cc)

first_branch : (b : Bool) (m n : Action Unit) (w : World) → b ≡ true → (if b then m else n) w ≡ m w
first_branch true m n w p = refl
first_branch false m n w p = absurd (cc)

-- A rename whose old name is gone and whose new name is there changes nothing, and returns.
replayed :
    (src dst : FilePath) (i : ℕ) (follows : Bool) (f : Option Handle) (w : World)
    → lookup src w.fs ≡ none
    → lookup dst w.fs ≡ some (file i)
    → ((apply_rename src dst follows f w).0 ≡ ok tt)
      × ((apply_rename src dst follows f w).1.fs ≡ w.fs)
unfolding apply_rename ◌>>=◌ gets
replayed src dst i follows f w gone there =
    let here =
      second_branch (exists src w.fs) (exists dst w.fs) _ _ _ w (rw (gone, exists))
        (rw (there, exists)) in
    let noop = record_rename-fs (codes "noop") w in
    (ap (λ r. r.0) here ∙ noop.0, ap (λ r. r.1.fs) here ∙ noop.1)

sync_followed-fs :
    (follows : Bool) (f : Option Handle) (w : World) → (sync_followed follows f w).1.fs ≡ w.fs
unfolding sync_followed fsync_file ◌>>=◌ gets record_sync modify pure
sync_followed-fs true (some f) w = refl
sync_followed-fs true none w = refl
sync_followed-fs false f w = refl

-- What a rename that returns has done, with the surroundings of the call.
done_rename :
    (src dst : FilePath) (i : ℕ) (follows : Bool) (f : Option Handle) (w : World) (o : Option Fs)
    → Fs.rename src dst w.fs ≡ o
    → Fs.path_eq src dst ≡ false
    → lookup src w.fs ≡ some (file i)
    → let run = (commit o >> (record_rename (codes "ok") >> sync_followed follows f)) w in
      run.0 ≡ ok tt → (lookup dst run.1.fs ≡ some (file i)) × (lookup src run.1.fs ≡ none)
unfolding commit ◌>>=◌ record_rename record_event modify
done_rename src dst i follows f w none e n at h = absurd (cc)
done_rename src dst i follows f w (some fs') e n at h =
    let names = renamed-names src dst i w.fs fs' n at e in
    let kept = sync_followed-fs follows f (record_rename (codes "ok") (record w { fs = fs' })).1 in
    let same = kept ∙ (record_rename-fs (codes "ok") (record w { fs = fs' })).1 in
    (ap (lookup dst) same ∙ names.0, ap (lookup src) same ∙ names.1)

-- A rename of a file to another name that returns has moved the file: its inode has the new name,
-- and the old name is gone. Applied again in the world that it left, it returns and changes nothing
-- in the file system.
pub apply_rename-replay :
    (src dst : FilePath) (i : ℕ) (follows : Bool) (f : Option Handle) (w : World)
    → Fs.path_eq src dst ≡ false
    → lookup src w.fs ≡ some (file i)
    → (apply_rename src dst follows f w).0 ≡ ok tt
    → let v = (apply_rename src dst follows f w).1 in
      ((lookup dst v.fs ≡ some (file i)) × (lookup src v.fs ≡ none))
      × ((apply_rename src dst follows f v).0 ≡ ok tt)
      × ((apply_rename src dst follows f v).1.fs ≡ v.fs)
unfolding apply_rename ◌>>=◌ gets update_fs
apply_rename-replay src dst i follows f w n at h =
    let here = first_branch (exists src w.fs) _ _ w (rw (at, exists)) in
    let moved =
      done_rename src dst i follows f w (Fs.rename src dst w.fs) refl n at
        (sym (ap (λ r. r.0) here) ∙ h) in
    let there = ap (λ r. lookup dst r.1.fs) here ∙ moved.0 in
    let gone = ap (λ r. lookup src r.1.fs) here ∙ moved.1 in
    let again = replayed src dst i follows f (apply_rename src dst follows f w).1 gone there in
    ((there, gone), again.0, again.1)

-- ===== src/Concurrent/Bytes.antt =====
-- The pieces of a connection and the bytes of one inode.
use logline.Base.{
  ℕ, ◌≡◌, refl, ap, ◌∙◌, false, Option, none, some, ◌==◌, arith, Bytes, text_eq, codes,
}
use logline.Json.{Value}
use logline.Fs
use logline.Fs.{
  FilePath, Fs, Handle, Opened, opened, not_found, failed, Node, dir, file, write, open_truncate,
  update,
}
use logline.Fs.Laws.{write-content}
use logline.Host.{Host}
use logline.Server.World.{World, Action, Result, ok, err}
use logline.Server.World.Keeps.{IsStable, Keeps, Keeps-update_fs, keeps_rules}
use logline.Server.Quiet
use logline.Server.Quiet.{IsQuiet}
use logline.Server.Command.{Command}
use logline.Server.Auth.{Configuration}
use logline.Server.Accept.{Keeps-accept_data}
use logline.Server.Append.{write_file, apply_data}
use logline.Server.Serve.{
  Session, opened_target, open_target, report_target, created_target, serve_command,
}
use logline.Server.World.Gives.{Gives, Gives-pure, Gives-raise, Gives-if, Gives-bind, Gives-then}
use logline.Server.Handle.{lift, authenticated, authenticate, Header, make_dir, make_destination}
use logline.Link.Content.{IsSameContent}
use logline.Link.Renames.{Keeps-handle_rename}
use logline.Concurrent.Schedule.{Connection, welcome, other_command, finish_at}

-- The bytes of one inode stay.
pub record IsSameAt (i : ℕ) (u v : World) : Type 0 where
  pub same : v.fs.content i ≡ u.fs.content i

module _ (i : ℕ) where
  same_at : {u v : World} → v.fs.content i ≡ u.fs.content i → IsSameAt i u v
  same_at e = record { same = e }

  pub IsSameAt-quiet : IsQuiet (IsSameAt i)
  IsSameAt-quiet = record {
    stable = record { same = λ w. same_at refl; compose = λ u v w h k. same_at (k.same ∙ h.same) };
    reading = λ w x k e. same_at refl;
    sending = λ w o. same_at refl;
    measuring = λ w e h on. same_at refl;
  }

  abbrev at_rest : IsStable (IsSameAt i)
  at_rest = IsSameAt-quiet.stable

  -- A frame for another file.
  Keeps-write_file :
      (h : Handle) (b : Bytes) → (h.inode == i) ≡ false → Keeps (IsSameAt i) (write_file h b)
  unfolding write_file
  Keeps-write_file h b n = record { at = λ w. same_at (rw write-content (rw n refl)) }

  ruleset rules = (
    keeps_rules, Quiet.Keeps-record_bytes_written, Quiet.Keeps-record_write_duration,
    Quiet.Keeps-send_reply,
  )

  Keeps-apply_data :
      (host : Host) (h : Handle) (v : Value) (o : Option Bytes)
      → (h.inode == i) ≡ false
      → Keeps (IsSameAt i) (apply_data host h v o)
  unfolding apply_data
  Keeps-apply_data host h v o n =
      search (rules, Keeps-accept_data IsSameAt-quiet, Keeps-write_file, IsSameAt-quiet, at_rest)
        depth 10

  pub Keeps-finish_at :
      (host : Host) (conn : Connection) (c : Command) (h : Handle)
      → (h.inode == i) ≡ false
      → Keeps (IsSameAt i) (finish_at host conn c h)
  unfolding finish_at
  Keeps-finish_at host conn c h n =
      search (rules, Keeps-apply_data, IsSameAt-quiet, at_rest) depth 10

  Keeps-make_dir : (p : FilePath) → Keeps (IsSameAt i) (make_dir p)
  unfolding make_dir Fs.mkdir
  Keeps-make_dir p = Keeps-update_fs at_rest _ (λ w fs e. same_at (ground arith))

  Keeps-authenticated : (r : Result Unit) → Keeps (IsSameAt i) (authenticated r)
  unfolding authenticated
  Keeps-authenticated (ok u) = search (keeps_rules, at_rest)
  Keeps-authenticated (err e) =
      search (keeps_rules, Quiet.Keeps-record_auth_failure, IsSameAt-quiet, at_rest) depth 8

  Keeps-lift : {A : Type 0} (r : Result A) → Keeps (IsSameAt i) (lift r)
  Keeps-lift r = record { at = λ w. same_at refl }

  opened-same :
      (w : World) (o : Opened) (n : Option Node)
      → Fs.open_node n w.fs ≡ o
      → IsSameAt i w (opened_target o w).1
  unfolding opened_target Fs.open_node
  opened-same w (Opened.opened h fs) none e = cc
  opened-same w (Opened.opened h fs) (some dir) e = cc
  opened-same w (Opened.opened h fs) (some (file j)) e = same_at (ground arith)
  opened-same w Opened.not_found n e = same_at refl
  opened-same w Opened.failed n e = same_at refl

  Keeps-open_target : (p : FilePath) → Keeps (IsSameAt i) (open_target p)
  unfolding open_target Fs.open_existing
  Keeps-open_target p = record { at = λ w. opened-same w _ (Fs.lookup p w.fs) refl }

  Keeps-report_target :
      (host : Host) (n : ℕ) (f : Option Handle) → Keeps (IsSameAt i) (report_target host n f)
  unfolding report_target
  Keeps-report_target host n none = search (rules, IsSameAt-quiet, at_rest) depth 10
  Keeps-report_target host n (some h) = search (rules, IsSameAt-quiet, at_rest) depth 10

  Keeps-make_destination : (d : FilePath) → Keeps (IsSameAt i) (make_destination d)
  unfolding make_destination
  Keeps-make_destination d = search (keeps_rules, Keeps-make_dir, at_rest) depth 10

  -- A connection that begins writes to no file.
  pub Keeps-welcome :
      (host : Host) (conf : Configuration) (h : Header) → Keeps (IsSameAt i) (welcome host conf h)
  unfolding welcome authenticate
  Keeps-welcome host conf h =
      search
        (
          keeps_rules, Keeps-authenticated, Keeps-lift, Keeps-make_destination, Keeps-open_target,
          Keeps-report_target, at_rest,
        )
        depth 20

  Keeps-of_content : {A : Type 0} (m : Action A) → Keeps IsSameContent m → Keeps (IsSameAt i) m
  Keeps-of_content m k = record { at = λ w. same_at (ap (λ f. f i) (k.at w).content) }

  -- A command that is no `data` writes to no file, and leaves the connection its file.
  pub Gives-other_command :
      (host : Host) (conn : Connection) (c : Command)
      → text_eq c.name (codes "data") ≡ false
      → Gives
          (IsSameAt i)
          (λ (o : Connection). o.session.f ≡ conn.session.f)
          (other_command host conn c)
  unfolding other_command serve_command
  Gives-other_command host conn c e =
      let P = λ (s : Session). s.f ≡ conn.session.f in
      let Q = λ (o : Connection). o.session.f ≡ conn.session.f in
      rw e (
        Gives-bind P Q _ _ at_rest
          (Gives-if P _ _ _
            (Gives-then P _ _ at_rest
              (Keeps-of_content _
                (Keeps-handle_rename conn.dst_dir conn.session.dst_path conn.session.f c.metadata))
              λ p.
                Gives-then P _ _ at_rest (Quiet.Keeps-send_reply IsSameAt-quiet host _ none)
                  λ u. Gives-pure P _ at_rest refl)
            (Gives-raise P _ at_rest))
          λ s q. Gives-pure Q _ at_rest q)

  -- A target that is created is another file, if the handle on it says so.
  pub created-same :
      (w : World) (o : Opened) (p : FilePath)
      → Fs.open_truncate p w.fs ≡ o
      → ((h : Handle) → (created_target o w).0 ≡ ok h → (h.inode == i) ≡ false)
      → IsSameAt i w (created_target o w).1
  unfolding created_target Fs.open_truncate
  created-same w (Opened.opened h fs) p e n = let other = n h refl in same_at (ground arith)
  created-same w Opened.not_found p e n = same_at refl
  created-same w Opened.failed p e n = same_at refl

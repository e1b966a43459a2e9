-- ===== src/Server/Allows/Loop.antt =====
-- The command loop of a connection: the path of the open file stays in the served directory.
use logline.Base.{ℕ, zero, suc, Bool, true, false, Option, none, some, if◌then◌else◌, Text}
use logline.Json.{Value}
use logline.Fs
use logline.Fs.{FilePath, Fs, Handle, Node, dir, file}
use logline.Fs.Join.{path_join}
use logline.Host.{Host}
use logline.Server.World.{World}
use logline.Server.World.Keeps.{Keeps, keeps_rules}
use logline.Server.World.Gives.{Gives, Gives-pure, Gives-raise, Gives-if, Gives-bind, Gives-then}
use logline.Server.Quiet.{Keeps-send_reply, Keeps-recv_command}
use logline.Server.Segments.{IsSafe}
use logline.Server.Command.{Command}
use logline.Server.Rename.{handle_rename}
use logline.Server.Serve.{
  Session, open_target, opened_target, serve_command, serve_loop, serve_client,
}
use logline.Server.Allows.{
  Allows, stable, Gives-checked_name, Keeps-apply_rename, Keeps-fsync_dir, Keeps-apply_data,
  Keeps-target_file, Keeps-report_target,
}

module _ {R : World → World → Type 0} {Below : FilePath → Type 0} (allows : Allows R Below)
    (dst_dir : FilePath) (children : (c : Text) → IsSafe c → Below (path_join dst_dir c)) where
  Below-if : (b : Bool) (p q : FilePath) → Below p → Below q → Below (if b then p else q)
  Below-if true p q hp hq = hp
  Below-if false p q hp hq = hq

  Gives-handle_rename :
      (p : FilePath) (f : Option Handle) (v : Value)
      → Below p
      → Gives R Below (handle_rename dst_dir p f v)
  unfolding handle_rename
  Gives-handle_rename p f v hp =
      Gives-then Below _ _ (stable allows) (search (keeps_rules, stable allows)) λ fields.
        Gives-bind IsSafe Below _ _ (stable allows) (Gives-checked_name allows _) λ src safe_src.
          Gives-bind IsSafe Below _ _ (stable allows) (Gives-checked_name allows _) λ dst safe_dst.
            Gives-then Below _ _ (stable allows)
              (Keeps-apply_rename allows _ _ (children src safe_src) (children dst safe_dst) _ f)
              λ _. Gives-then Below _ _ (stable allows) (Keeps-fsync_dir allows dst_dir) λ _.
                Gives-pure Below _ (stable allows)
                  (Below-if _ (path_join dst_dir dst) p (children dst safe_dst) hp)

  abbrev pub IsIn : Session → Type 0
  IsIn s = Below s.dst_path

  pub Gives-serve_command :
      (host : Host) (s : Session) (c : Command)
      → IsIn s
      → Gives R IsIn (serve_command host dst_dir s c)
  unfolding serve_command
  Gives-serve_command host s c h =
      Gives-if IsIn _ _ _
        (Gives-then IsIn _ _ (stable allows) (Keeps-target_file allows s.dst_path s.f c.metadata h)
          λ f.
            Gives-then IsIn _ _ (stable allows)
              (Keeps-apply_data allows host f c.metadata c.payload)
              λ f'.
                Gives-then IsIn _ _ (stable allows) (Keeps-send_reply allows.quiet host _ none)
                  λ _. Gives-pure IsIn _ (stable allows) h)
        (Gives-if IsIn _ _ _
          (Gives-bind Below IsIn _ _ (stable allows)
            (Gives-handle_rename s.dst_path s.f c.metadata h)
            λ p hp.
              Gives-then IsIn _ _ (stable allows) (Keeps-send_reply allows.quiet host _ none)
                λ _. Gives-pure IsIn _ (stable allows) hp)
          (Gives-raise IsIn _ (stable allows)))

  pub Gives-serve_loop :
      (fuel : ℕ) (host : Host) (s : Session)
      → IsIn s
      → Gives R (λ (u : Unit {0}). Unit {0}) (serve_loop fuel host dst_dir s)
  unfolding serve_loop
  Gives-serve_loop zero host s h = Gives-pure _ tt (stable allows) tt
  Gives-serve_loop (suc fuel) host s h =
      Gives-then _ _ _ (stable allows) (Keeps-recv_command allows.quiet host false) λ c.
        Gives-bind IsIn _ _ _ (stable allows) (Gives-serve_command host s c h)
          λ s' h'. Gives-serve_loop fuel host s' h'

  opened-keeps : (w : World) (n : Option Node) → R w (opened_target (Fs.open_node n w.fs) w).1
  unfolding opened_target Fs.open_node
  opened-keeps w none = (stable allows).same w
  opened-keeps w (some dir) = (stable allows).same w
  opened-keeps w (some (file i)) = (stable allows).same w

  pub Keeps-open_target : (p : FilePath) → Keeps R (open_target p)
  unfolding open_target Fs.open_existing
  Keeps-open_target p = record { at = λ w. opened-keeps w (Fs.lookup p w.fs) }

  pub Gives-serve_client :
      (host : Host) (target : Text) (n : ℕ)
      → IsSafe target
      → Gives R (λ (u : Unit {0}). Unit {0}) (serve_client host dst_dir target n)
  unfolding serve_client
  Gives-serve_client host target n safe =
      Gives-then _ _ _ (stable allows) (Keeps-open_target _) λ f.
        Gives-then _ _ _ (stable allows) (Keeps-report_target allows host n f) λ f'.
          Gives-then _ _ _ (stable allows) (search (keeps_rules, stable allows))
            λ left. Gives-serve_loop (suc left) host _ (children target safe)

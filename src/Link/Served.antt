-- ===== src/Link/Served.antt =====
-- What serving one command does to the bytes at the server, for a command that holds the bytes of a
-- given file at their offset.
use logline.Base.{
  ℕ, ◌≡◌, refl, inl, inr, true, Bool-cases, Option, none, some, [], ◌==◌, arith, if◌then◌else◌,
  length, Bytes, text_eq, codes,
}
use logline.Json.{Value}
use native.Mathlib.Decide.{ℕ_discrete}
use logline.Fs
use logline.Fs.{
  FilePath, Fs, Node, dir, file, Handle, Opened, opened, not_found, failed, lookup, is_dir, parent,
  open_truncate, update,
}
use logline.Host.{Host}
use logline.Server.World.{protocol_error, World, Action, Result, ok, err, pure, raise, ◌>>=◌, ◌>>◌}
use logline.Server.World.Keeps.{Keeps, Keeps-or_raise, Keeps-unless}
use logline.Server.Quiet.{Keeps-send_reply}
use logline.Server.Command.{Command}
use logline.Server.Stream.{send_reply}
use logline.Server.Rename.{handle_rename}
use logline.Server.Append.{apply_data}
use logline.Server.Accept.Decodes.{IsAccepted}
use logline.Server.Appending.{IsAppended, Applied, apply_data-Applied}
use logline.Server.Serve.{Session, created_target, create_target, target_file, serve_command}
use logline.Agent.Segment.{chunk_size, read_at}
use logline.Agent.Copy.{IsPrefix, append_read}
use logline.Link.Content.{IsSameContent, IsSameContent-quiet, stable, content_of_disk}
use logline.Link.Triple.{
  Contents, After, Triple, Triple-same, Triple-pure, Triple-raise, Triple-if, Triple-weaken,
  Triple-bind,
}
use logline.Link.Renames.{Keeps-handle_rename}

-- The bytes of an inode are a prefix of a file.
abbrev pub Copied : ℕ → Bytes → Contents → Type 0
Copied i source c = IsPrefix (c i) source

abbrev pub StandsAtEnd : Handle → Contents → Type 0
StandsAtEnd h c = h.position ≡ length (c h.inode)

abbrev pub HandleAtEnd : Option Handle → Contents → Type 0
HandleAtEnd none c = Unit {0}
HandleAtEnd (some h) c = StandsAtEnd h c

-- The condition between two commands of a connection.
abbrev pub Ready : ℕ → Bytes → Option Handle → Contents → Type 0
Ready i source f c = Copied i source c × HandleAtEnd f c

-- What a `data` frame holds, if it is accepted, is the file's bytes at the frame's offset.
pub record IsHonest (host : Host) (source : Bytes) (c : Command) : Type 0 where
  pub bytes :
      (h : Handle) (out : Bytes)
      → IsAccepted host h c.metadata c.payload out
      → out ≡ read_at h.position chunk_size source

-- A file that is opened for a first frame is empty, and so is its handle's position.
truncates :
    (p : FilePath) (fs fs' : Fs) (h : Handle)
    → Fs.open_truncate p fs ≡ opened h fs'
    → (h.position ≡ 0) × (fs'.content ≡ update h.inode [] fs.content)
unfolding Fs.open_truncate
truncates p fs fs' h e = (ground arith, ground arith)

module _ (i : ℕ) (source : Bytes) where
  emptied : (j : ℕ) (c : Contents) → Copied i source c → Copied i source (update j [] c)
  emptied j c p = elim (Bool-cases (j == i)) [
    | inl same ↦ rw same (record { rest = source; whole = refl })
    | inr other ↦ rw other p
  ]

  created :
      (o : Opened) (w : World) (p : FilePath)
      → Fs.open_truncate p w.fs ≡ o
      → Copied i source w.fs.content
      → After
          (λ h. Ready i source (some h))
          (Copied i source)
          (created_target o w).0
          (created_target o w).1.fs.content
  unfolding created_target
  created Opened.not_found w p e c = c
  created Opened.failed w p e c = c
  created (Opened.opened h fs) w p e c =
      let (at, empty) = truncates p w.fs fs h e in
      rw empty (emptied h.inode w.fs.content c, ground (arith, at))

  Triple-create_target :
      (p : FilePath)
      → Triple (Copied i source) (create_target p) (λ h. Ready i source (some h)) (Copied i source)
  unfolding create_target
  Triple-create_target p = record { at = λ w c. created _ w p refl c }

  appended :
      (host : Host) (c : Command) (h h' : Handle) (u v : World) (out : Bytes)
      → IsHonest host source c
      → Copied i source u.fs.content
      → StandsAtEnd h u.fs.content
      → IsAccepted host h c.metadata c.payload out
      → IsAppended h out u v h'
      → Copied i source v.fs.content
  appended host c h h' u v out honest copied at accepted a = elim (ℕ_discrete i h.inode) [
    | yes same ↦
        let here : IsPrefix (u.fs.content h.inode) source = rw (← same) copied in
        rw (same, a.content, honest.bytes h out accepted, at)
          (append_read chunk_size (u.fs.content h.inode) source here)
    | no other ↦ rw (a.others i other) copied
  ]

  Triple-target_file :
      (p : FilePath) (f : Option Handle) (v : Value)
      → Triple
          (Ready i source f)
          (target_file p f v)
          (λ h. Ready i source (some h))
          (Copied i source)
  unfolding target_file
  Triple-target_file p (some h) v = Triple-pure _ h _ _ (λ c r. r)
  Triple-target_file p none v =
      Triple-weaken (Copied i source) _ _ _ _ _ _ (λ c r. r.0) (λ a c r. r) (λ c r. r)
        (Triple-bind _ _ _ _ _ _ (Triple-same _ _ (Keeps-or_raise stable _ _)) λ fields.
          Triple-bind _ _ _ _ _ _ (Triple-same _ _ (Keeps-or_raise stable _ _)) λ offset.
            Triple-bind _ _ _ _ _ _ (Triple-same _ _ (Keeps-unless stable _ _))
              λ u. Triple-create_target p)

  finished :
      (host : Host) (c : Command) (h : Handle) (u v : World) (r : Result Handle)
      → IsHonest host source c
      → Ready i source (some h) u.fs.content
      → Applied host h c.metadata c.payload u r v
      → After (λ h'. Ready i source (some h')) (Copied i source) r v.fs.content
  finished host c h u v (err e) honest (copied, at) d = rw (content_of_disk d) copied
  finished host c h u v (ok h') honest (copied, at) (out, accepted, a) =
      (appended host c h h' u v out honest copied at accepted a, a.at_end)

  Triple-apply_data :
      (host : Host) (c : Command) (h : Handle)
      → IsHonest host source c
      → Triple
          (Ready i source (some h))
          (apply_data host h c.metadata c.payload)
          (λ h'. Ready i source (some h'))
          (Copied i source)
  Triple-apply_data host c h honest = record {
    at = λ w r.
        finished host c h w _ _ honest r (apply_data-Applied host h c.metadata c.payload w r.1);
  }

  module _ (host : Host) where
    Triple-quiet :
        {A : Type 0} (f : Option Handle) (m : Action A)
        → Keeps IsSameContent m
        → Triple (Ready i source f) m (λ a. Ready i source f) (Copied i source)
    Triple-quiet f m k =
        Triple-weaken _ _ _ _ _ _ _ (λ c r. r) (λ a c r. r) (λ c r. r.0)
          (Triple-same (Ready i source f) m k)

    Triple-unless_data :
        (p : FilePath) (s : Session) (c : Command)
        → Triple
            (Ready i source s.f)
            (if text_eq c.name (codes "rename")
              then (do
                dst_path ← handle_rename p s.dst_path s.f c.metadata
                send_reply host (codes "ok") none
                pure (record s { dst_path = dst_path }))
              else raise protocol_error)
            (λ s'. Ready i source s'.f)
            (Copied i source)
    Triple-unless_data p s c =
        Triple-if _ _ _ _ _ _
          (λ is_rename.
            Triple-bind _ _ _ _ _ _
              (Triple-quiet s.f _ (Keeps-handle_rename p s.dst_path s.f c.metadata))
              λ q.
                Triple-bind _ _ _ _ _ _
                  (Triple-quiet s.f (send_reply host (codes "ok") none)
                    (Keeps-send_reply IsSameContent-quiet host _ _))
                  λ u. Triple-pure _ (record s { dst_path = q }) _ _ (λ c r. r))
          (λ other. Triple-raise _ protocol_error _ _ (λ c r. r.0))

    -- One command keeps the condition, whether it is carried out or refused.
    pub Triple-serve_command :
        (p : FilePath) (s : Session) (c : Command)
        → (text_eq c.name (codes "data") ≡ true → IsHonest host source c)
        → Triple
            (Ready i source s.f)
            (serve_command host p s c)
            (λ s'. Ready i source s'.f)
            (Copied i source)
    unfolding serve_command
    Triple-serve_command p s c honest =
        Triple-if _ _ _ _ _ _
          (λ is_data. Triple-bind _ _ _ _ _ _ (Triple-target_file s.dst_path s.f c.metadata) λ h.
            Triple-bind _ _ _ _ _ _ (Triple-apply_data host c h (honest is_data)) λ h'.
              Triple-bind _ _ _ _ _ _
                (Triple-quiet (some h') _ (Keeps-send_reply IsSameContent-quiet host _ _))
                λ u. Triple-pure _ _ _ _ (λ c r. r))
          (λ no_data. Triple-unless_data p s c)

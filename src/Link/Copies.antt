-- ===== src/Link/Copies.antt =====
-- A segment of the agent on the server's own code, and the bytes of an inode at the server.
use logline.Base.{
  ℕ, ◌<◌, ◌≡◌, refl, sym, ap, ◌∙◌, Bool, true, false, Bool-cases, inl, inr, Option, none, some, [],
  ◌++◌, ltb, arith, length, Bytes, Text,
}
use logline.Fs
use logline.Fs.{
  FilePath, Fs, Node, dir, file, Handle, Opened, opened, not_found, failed, lookup, open_node,
}
use logline.Fs.Join.{path_join}
use logline.Host.{Host}
use logline.Server.World.{Result, ok, err, World, pure, gets, modify, ◌>>=◌}
use logline.Server.World.Keeps.{Keeps}
use logline.Server.Quiet.{Keeps-recv_command}
use logline.Server.Stream.{send, send_reply}
use logline.Server.Handle.{lift, checked_target}
use logline.Server.Serve.{Session, opened_target, open_target, report_target}
use logline.Agent.Client.{data_frame, rename_frame}
use logline.Agent.Network.{Seal, Segment}
use logline.Agent.Segment.{chunk_size, read_at, run}
use logline.Agent.Copy.{IsPrefix-trans}
use logline.Agent.Mirror.{IsKept, run-kept}
use logline.Link.Content.{IsSameContent, IsSameContent-quiet, same_content}
use logline.Link.Triple.{Contents, After, Triple, Triple-same, Triple-pure, Triple-bind}
use logline.Link.Served.{Copied, Ready, Triple-serve_command}
use logline.Link.Frames.{
  IsFaithful, Receives, max_bytes, data_frame-Receives, rename_frame-Receives,
}
use logline.Link.Line.{
  Fault, delivered, lost, unanswered, State, took, serve_frame, open_session, reached, settled,
  exchange, sent, connecting, connected, line,
}

abbrev SessionReady : ℕ → Bytes → Option Session → Contents → Type 0
SessionReady i source none c = Copied i source c
SessionReady i source (some s) c = Ready i source s.f c

-- The bytes of the inode are a prefix of the log file, and the file that the connection has open
-- stands at its end.
pub record IsCopying (i : ℕ) (st : State) : Type 0 where
  pub ready : SessionReady i st.source st.session st.server.fs.content

module _ (i : ℕ) where
  copied :
      (source : Bytes) (s : Option Session) (c : Contents)
      → SessionReady i source s c
      → Copied i source c
  copied source none c r = r
  copied source (some s) c r = r.0

  grown :
      (source more : Bytes) (s : Option Session) (c : Contents)
      → SessionReady i source s c
      → SessionReady i (source ++ more) s c
  grown source more none c r = IsPrefix-trans _ _ _ r (record { rest = more; whole = refl })
  grown source more (some s) c (r, at) =
      (IsPrefix-trans _ _ _ r (record { rest = more; whole = refl }), at)

  pub took-IsCopying : (st : State) → IsCopying i st → IsCopying i (took st)
  unfolding took
  took-IsCopying st c = record { ready = grown st.source _ st.session _ c.ready }

  settled-IsCopying :
      (b : Bool) (r : Result Session) (w : World) (st : State)
      → After (λ s. Ready i st.source s.f) (Copied i st.source) r w.fs.content
      → IsCopying i (settled b r w st)
  unfolding settled
  settled-IsCopying true (ok s) w st a = record { ready = a }
  settled-IsCopying true (err e) w st a = record { ready = a }
  settled-IsCopying false (ok s) w st a = record { ready = a.0 }
  settled-IsCopying false (err e) w st a = record { ready = a }

  module _ (host : Host) (dst_dir : FilePath) where
    serve_frame-ready :
        (source : Bytes) (s : Session) (w : World)
        → Receives host source w
        → Ready i source s.f w.fs.content
        → After
            (λ s'. Ready i source s'.f)
            (Copied i source)
            (serve_frame host dst_dir s w).0
            (serve_frame host dst_dir s w).1.fs.content
    unfolding serve_frame ◌>>=◌
    serve_frame-ready source s w rc r =
        let k = ((Keeps-recv_command IsSameContent-quiet host false).at w).content in
        let same : rc.after.fs.content ≡ w.fs.content =
          ap (λ x. x.1.fs.content) (sym rc.received) ∙ k in
        rw rc.received (
          (Triple-serve_command i source host dst_dir s rc.command rc.honest).at rc.after
            (rw same r))

    exchange-IsCopying :
        (current : Option Session) (fault : Fault) (frame : Bytes) (st : State)
        → Receives host st.source (reached frame st.server)
        → IsCopying i st
        → SessionReady i st.source current st.server.fs.content
        → IsCopying i (exchange host dst_dir current fault frame st).1
    unfolding exchange reached
    exchange-IsCopying none fault frame st rc c r = c
    exchange-IsCopying (some s) lost frame st rc c r = record { ready = r.0 }
    exchange-IsCopying (some s) unanswered frame st rc c r =
        settled-IsCopying false _ _ st
          (serve_frame-ready st.source s (reached frame st.server) rc r)
    exchange-IsCopying (some s) delivered frame st rc c r =
        settled-IsCopying true _ _ st (serve_frame-ready st.source s (reached frame st.server) rc r)

    sent-IsCopying :
        (frame : Bytes) (st : State)
        → (length frame < max_bytes → Receives host st.source (reached frame st.server))
        → IsCopying i st
        → IsCopying i (sent host dst_dir frame st).1
    unfolding sent
    sent-IsCopying frame st rc c = elim (Bool-cases (ltb (length frame) max_bytes)) [
      | inl fits ↦ rw fits (
          took-IsCopying _ (exchange-IsCopying st.session _ frame st (rc (ground arith)) c c.ready))
      | inr over ↦ rw over (took-IsCopying st c)
    ]

    opened-same :
        (o : Option Node) (w : World)
        → (opened_target (open_node o w.fs) w).1.fs.content ≡ w.fs.content
    unfolding opened_target open_node
    opened-same none w = refl
    opened-same (some dir) w = refl
    opened-same (some (file j)) w = refl

    Keeps-open_target : (p : FilePath) → Keeps IsSameContent (open_target p)
    unfolding open_target Fs.open_existing
    Keeps-open_target p = record { at = λ w. same_content (opened-same (lookup p w.fs) w) }

    Triple-report_target :
        (source : Bytes) (n : ℕ) (f : Option Handle)
        → Triple
            (Copied i source)
            (report_target host n f)
            (λ f'. Ready i source f')
            (Copied i source)
    unfolding report_target send_reply send modify gets pure ◌>>=◌
    Triple-report_target source n none = record { at = λ w c. (c, tt) }
    Triple-report_target source n (some h) = record { at = λ w c. (c, refl) }

    Keeps-lift : {A : Type 0} (r : Result A) → Keeps IsSameContent (lift r)
    Keeps-lift r = record { at = λ w. same_content refl }

    Triple-open_session :
        (source : Bytes) (target : Text) (n : ℕ)
        → Triple
            (Copied i source)
            (open_session host dst_dir target n)
            (λ s. Ready i source s.f)
            (Copied i source)
    unfolding open_session
    Triple-open_session source target n =
        Triple-bind _ _ _ _ _ _ (Triple-same _ _ (Keeps-lift (checked_target (some target))))
          λ name.
            Triple-bind _ _ _ _ _ _ (Triple-same _ _ (Keeps-open_target (path_join dst_dir name)))
              λ f. Triple-bind _ _ _ _ _ _ (Triple-report_target source n f) λ f'.
                Triple-pure _ (record { f = f'; dst_path = path_join dst_dir name }) _ _ (λ c r. r)

    connecting-IsCopying :
        (fault : Fault) (target : Text) (prefix : Bytes) (st : State)
        → IsCopying i st
        → IsCopying i (connecting host dst_dir fault target prefix st).1
    unfolding connecting reached
    connecting-IsCopying lost target prefix st c = record {
      ready = copied st.source st.session _ c.ready;
    }
    connecting-IsCopying unanswered target prefix st c = settled-IsCopying false _ _ st (
        (Triple-open_session st.source target (length prefix)).at (reached [] st.server)
          (copied st.source st.session _ c.ready))
    connecting-IsCopying delivered target prefix st c = settled-IsCopying true _ _ st (
        (Triple-open_session st.source target (length prefix)).at (reached [] st.server)
          (copied st.source st.session _ c.ready))

    line-IsKept : (now : Text) → IsFaithful host → IsKept (line host dst_dir now) (IsCopying i)
    unfolding connected reached
    line-IsKept now laws = record {
      connect = λ target prefix st c. took-IsCopying _ (connecting-IsCopying _ target prefix st c);
      send_data = λ pos st c.
          sent-IsCopying (data_frame host pos (read_at pos chunk_size st.source)) st
            (λ fits. data_frame-Receives host laws st.source _ pos fits refl) c;
      send_rename = λ src dst st c.
          sent-IsCopying (rename_frame host src dst) st
            (λ fits. rename_frame-Receives host laws st.source _ src dst fits refl) c;
      sha13_for = λ iso_dt st c. took-IsCopying st c;
      sleep = took-IsCopying;
    }

-- Where json and gzip read back what they wrote, and before a run the bytes of an inode at the server
-- are a prefix of the log file and a file that the connection has open stands at its end, the same
-- holds after the run of a segment of the agent on the server's own code, with any faults of the
-- connection and any growth of the log file, and however the run ends.
pub run-IsCopying :
    (host : Host) (dst_dir : FilePath) (now : Text) (prefix_length_bytes rounds : ℕ) (i : ℕ)
    (idle : State → Bool) (asked : State → Option Seal) (g : Segment) (st : State)
    → IsFaithful host
    → IsCopying i st
    → IsCopying i (run host prefix_length_bytes (line host dst_dir now) rounds idle asked g st).1.1
run-IsCopying host dst_dir now prefix_length_bytes rounds i idle asked g st laws =
    run-kept host prefix_length_bytes (line host dst_dir now) (IsCopying i)
      (line-IsKept i host dst_dir now laws) rounds idle asked g st

-- ===== src/Concurrent/Own.antt =====
-- The turns of a connection that has a file open at its end, and the bytes of the file.
use logline.Base.{
  ℕ, ◌≡◌, refl, sym, ap, ◌∙◌, Bool, true, false, none, some, ◌++◌, ◌==◌, length, text_eq, codes,
}
use mathlib.Core.Path.{subst}
use logline.Fs.{FilePath, Fs, Handle}
use logline.Host.{Host}
use logline.Server.World.{World, Action, Result, ok, err, pure, modify, continue, ◌>>=◌, ◌>>◌}
use logline.Server.World.Gives.{Returned}
use logline.Server.Command.{Command}
use logline.Server.Stream.{send, send_reply}
use logline.Server.Auth.{Configuration}
use logline.Server.Appending.{Applied, apply_data-Applied}
use logline.Server.Serve.{target_file}
use logline.Agent.Copy.{IsPrefix, IsPrefix-refl}
use logline.Concurrent.Schedule.{
  Phase, idle, busy, Connection, Process, Turn, header, command, resume, leave, begin_data,
  begin_command, finish_at, finish_data, kept, assign, settle, turn_of,
}
use logline.Concurrent.Bytes.{IsSameAt, IsSameAt-quiet, Gives-other_command}
use logline.Concurrent.Elsewhere.{assigned}

-- The connection `k` has the inode open, and no other one has.
pub record IsAlone (k i : ℕ) (s : Process) : Type 0 where
  pub connection : Connection
  pub handle : Handle
  pub open_connection : s.connections k ≡ some connection
  pub open_file : connection.session.f ≡ some handle
  pub inode : handle.inode ≡ i
  pub others :
      (j : ℕ) (c : Connection) (h : Handle)
      → (k == j) ≡ false
      → s.connections j ≡ some c
      → c.session.f ≡ some h
      → (h.inode == i) ≡ false

-- What the connection has open, it has open at its end.
abbrev pub StandsAtEnd : ℕ → Process → Type 0
StandsAtEnd k s =
    (c : Connection) (h : Handle)
    → s.connections k ≡ some c
    → c.session.f ≡ some h
    → h.position ≡ length (s.world.fs.content h.inode)

pub record IsGrown (k i : ℕ) (s t : Process) : Type 0 where
  pub prefix : IsPrefix (s.world.fs.content i) (t.world.fs.content i)
  pub at_end : StandsAtEnd k t

-- What the connection leaves open, by itself.
stands :
    (k : ℕ) (s : Process) (conn : Connection) (h : Handle)
    → s.connections k ≡ some conn
    → conn.session.f ≡ some h
    → h.position ≡ length (s.world.fs.content h.inode)
    → StandsAtEnd k s
stands k s conn h e f p c h' e' f' =
    let same_conn : c ≡ conn = cc in let same_handle : h' ≡ h = cc in rw same_handle p

gone : (k : ℕ) (s : Process) → s.connections k ≡ none → StandsAtEnd k s
gone k s e c h e' f' = absurd (cc)

-- The own turns of a connection that has an inode open at its end.
module _ (host : Host) (conf : Configuration) (k i : ℕ) (dst_dir dst_path : FilePath) (h : Handle)
    (inode : h.inode ≡ i) where
  abbrev at : Phase → Connection
  at p = record {
    dst_dir = dst_dir;
    session = record { f = some h; dst_path = dst_path };
    phase = p;
  }

  -- A turn that writes nothing and leaves the connection its file, or ends it.
  rested :
      (s : Process) (r : Result Connection) (w : World)
      → h.position ≡ length (s.world.fs.content i)
      → IsSameAt i s.world w
      → Returned (λ (o : Connection). o.session.f ≡ some h) r
      → IsGrown k i s (settle k (r, w) s)
  unfolding settle kept
  rested s (ok o) w p q f =
      let t : Process = record { world = w; connections = assign k (some o) s.connections } in
      record {
        prefix = rw q.same (IsPrefix-refl (s.world.fs.content i));
        at_end =
            stands k t o h (assigned host conf i k (some o) s.connections) f
              (p ∙ (ap length (sym q.same) ∙ ap (λ j. length (w.fs.content j)) (sym inode)));
      }
  rested s (err e) w p q f =
      let t : Process = record { world = w; connections = assign k none s.connections } in
      record {
        prefix = rw q.same (IsPrefix-refl (s.world.fs.content i));
        at_end = gone k t (assigned host conf i k none s.connections);
      }

  command-IsGrown :
      (s : Process) (c : Command) (is_data : Bool)
      → h.position ≡ length (s.world.fs.content i)
      → text_eq c.name (codes "data") ≡ is_data
      → IsGrown k i s (settle k (begin_command host (at idle) c s.world) s)
  unfolding begin_command begin_data target_file pure ◌>>=◌
  command-IsGrown s c true p e =
      rw e (rested s (ok (at (busy c))) s.world p ((IsSameAt-quiet i).stable.same s.world) refl)
  command-IsGrown s c false p e =
      let g = Gives-other_command i host (at idle) c e in
      rw e (rested s _ _ p (g.keeps.at s.world) (g.gives s.world))

  -- What follows when a `data` frame was applied.
  abbrev reply_turn : Handle → Action Connection
  reply_turn h' = do
    send_reply host (codes "ok") none
    pure (record {
      dst_dir = dst_dir;
      session = record { f = some h'; dst_path = dst_path };
      phase = idle;
    })

  applied-IsGrown :
      (s : Process) (c : Command) (r : Result Handle) (w : World)
      → Applied host h c.metadata c.payload s.world r w
      → IsGrown k i s (settle k (continue r reply_turn w) s)
  unfolding settle kept send_reply send modify pure ◌>>=◌
  applied-IsGrown s c (err e) w a =
      let t : Process = record { world = w; connections = assign k none s.connections } in
      record {
        prefix = rw (ap (λ (fs : Fs). fs.content i) a.fs) (IsPrefix-refl (s.world.fs.content i));
        at_end = gone k t (assigned host conf i k none s.connections);
      }
  applied-IsGrown s c (ok h') w (out, accepted, a) =
      let x = reply_turn h' w in
      let o : Connection = record {
        dst_dir = dst_dir;
        session = record { f = some h'; dst_path = dst_path };
        phase = idle;
      } in
      let t : Process = record { world = x.1; connections = assign k (some o) s.connections } in
      record {
        prefix = record {
          rest = out;
          whole = subst (λ n. w.fs.content n ≡ s.world.fs.content n ++ out) inode a.content;
        };
        at_end = stands k t o h' (assigned host conf i k (some o) s.connections) refl a.at_end;
      }

  finish-IsGrown :
      (s : Process) (c : Command)
      → h.position ≡ length (s.world.fs.content i)
      → IsGrown k i s (settle k (finish_at host (at (busy c)) c h s.world) s)
  unfolding finish_at ◌>>=◌
  finish-IsGrown s c p = applied-IsGrown s c _ _ (
      apply_data-Applied host h c.metadata c.payload s.world
        (p ∙ ap (λ j. length (s.world.fs.content j)) (sym inode)))

  unchanged-IsGrown : (s : Process) → StandsAtEnd k s → IsGrown k i s s
  unchanged-IsGrown s p = record { prefix = IsPrefix-refl (s.world.fs.content i); at_end = p }

  left-IsGrown :
      (s : Process) → IsGrown k i s (record s { connections = assign k none s.connections })
  left-IsGrown s =
      let t = record s { connections = assign k none s.connections } in
      record {
        prefix = IsPrefix-refl (s.world.fs.content i);
        at_end = gone k t (assigned host conf i k none s.connections);
      }

  pub own-IsGrown :
      (s : Process) (p : Phase) (t : Turn)
      → StandsAtEnd k s
      → h.position ≡ length (s.world.fs.content i)
      → IsGrown k i s (turn_of host k (at p) p t s)
  unfolding turn_of finish_data
  own-IsGrown s idle (command c) q e = command-IsGrown s c _ e refl
  own-IsGrown s idle leave q e = left-IsGrown s
  own-IsGrown s idle resume q e = unchanged-IsGrown s q
  own-IsGrown s idle (header x) q e = unchanged-IsGrown s q
  own-IsGrown s (busy c) resume q e = finish-IsGrown s c e
  own-IsGrown s (busy c) leave q e = left-IsGrown s
  own-IsGrown s (busy c) (command d) q e = unchanged-IsGrown s q
  own-IsGrown s (busy c) (header x) q e = unchanged-IsGrown s q

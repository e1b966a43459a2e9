-- ===== src/Concurrent/Frames.antt =====
-- A `data` frame of a connection, between whose two turns other connections take theirs.
use logline.Base.{
  ℕ, ◌≡◌, refl, sym, ap, ◌∙◌, true, false, inl, inr, ◌⊎◌, none, some, List, [], ◌∷◌, ◌++◌, ◌==◌,
  length, text_eq, codes, All, Bytes, arith,
}
use mathlib.Core.Path.{subst}
use logline.Fs.{FilePath, Fs, Handle}
use logline.Host.{Host}
use logline.Server.World.{World, Action, Result, ok, err, pure, modify, continue, ◌>>=◌, ◌>>◌}
use logline.Server.Command.{Command}
use logline.Server.Stream.{send, send_reply}
use logline.Server.Auth.{Configuration}
use logline.Server.Accept.Decodes.{IsAccepted}
use logline.Server.Appending.{Applied, apply_data-Applied}
use logline.Server.Serve.{target_file}
use logline.Concurrent.Schedule.{
  Phase, idle, busy, Connection, Process, Turn, command, resume, begin_data, begin_command,
  finish_at, finish_data, kept, assign, settle, turn_of, turn_at, turn, run,
}
use logline.Concurrent.Elsewhere.{assigned, turn_at-same}
use logline.Concurrent.Grown.{Throughout, Throughout-first, turn_at-other, alone-Elsewhere}

run-append :
    (host : Host) (conf : Configuration) (ts us : List (ℕ × Turn)) (s : Process)
    → run host conf (ts ++ us) s ≡ run host conf us (run host conf ts s)
unfolding run
run-append host conf [] us s = refl
run-append host conf ((j, t) ∷ ts) us s = run-append host conf ts us (turn host conf j t s)

-- The turns are of other connections.
abbrev pub Others : ℕ → List (ℕ × Turn) → Type 0
Others k ts = All (λ (t : ℕ × Turn). (k == t.0) ≡ false) ts

-- They leave the connection and the bytes of its file.
record IsStill (k i : ℕ) (s t : Process) : Type 0 where
  connection : t.connections k ≡ s.connections k
  content : t.world.fs.content i ≡ s.world.fs.content i

module _ (host : Host) (conf : Configuration) (k i : ℕ) where
  Others-IsStill :
      (ts : List (ℕ × Turn)) (s : Process)
      → Others k ts
      → Throughout host conf k i ts s
      → IsStill k i s (run host conf ts s)
  unfolding run turn
  Others-IsStill [] s o a = record { connection = refl; content = refl }
  Others-IsStill ((j, t) ∷ ts) s (e, o) (a, b) =
      let s' = turn host conf j t s in
      let later = Others-IsStill ts s' o b in
      let e' : (j == k) ≡ false = ground arith in
      let first =
        turn_at-same host conf i j (s.connections j) t s refl
          (alone-Elsewhere host conf k i s j a e)
          (alone-Elsewhere host conf k i s' j (Throughout-first host conf k i ts s' b) e) in
      record {
        connection = later.connection ∙ turn_at-other host conf k i j (s.connections j) t s e';
        content = later.content ∙ first.same;
      }

  -- What a frame comes to: it is refused, its connection is closed and the file stays; or it is
  -- accepted, its decoded bytes are appended, and the connection waits at their end.
  pub IsShipped : FilePath → FilePath → Handle → Command → Process → Process → Type 0
  IsShipped dst_dir dst_path h c s t =
      ((t.connections k ≡ none) × (t.world.fs.content i ≡ s.world.fs.content i))
      ⊎ ((out : Bytes) × (h' : Handle) × IsAccepted host h c.metadata c.payload out
          × (t.world.fs.content i ≡ s.world.fs.content i ++ out)
          × (t.connections k
              ≡ some (record {
                dst_dir = dst_dir;
                session = record { f = some h'; dst_path = dst_path };
                phase = idle;
              }))
          × (h'.inode ≡ i)
          × (h'.position ≡ length (t.world.fs.content i)))

  module _ (dst_dir dst_path : FilePath) (h : Handle) (inode : h.inode ≡ i) (c : Command) where
    abbrev at : Phase → Connection
    at p = record {
      dst_dir = dst_dir;
      session = record { f = some h; dst_path = dst_path };
      phase = p;
    }

    abbrev reply_turn : Handle → Action Connection
    reply_turn h' = do
      send_reply host (codes "ok") none
      pure (record {
        dst_dir = dst_dir;
        session = record { f = some h'; dst_path = dst_path };
        phase = idle;
      })

    applied-IsShipped :
        (s : Process) (r : Result Handle) (w : World)
        → Applied host h c.metadata c.payload s.world r w
        → IsShipped dst_dir dst_path h c s (settle k (continue r reply_turn w) s)
    unfolding settle kept send_reply send modify pure ◌>>=◌ IsShipped
    applied-IsShipped s (err e) w a =
        inl (assigned host conf i k none s.connections, ap (λ (fs : Fs). fs.content i) a.fs)
    applied-IsShipped s (ok h') w (out, accepted, a) = inr (
      out,
      h',
      accepted,
      subst (λ n. w.fs.content n ≡ s.world.fs.content n ++ out) inode a.content,
      assigned host conf i k _ s.connections,
      a.inode ∙ inode,
      a.at_end ∙ ap (λ n. length (w.fs.content n)) (a.inode ∙ inode),
    )

    finished :
        (s : Process)
        → h.position ≡ length (s.world.fs.content i)
        → s.connections k ≡ some (at (busy c))
        → IsShipped dst_dir dst_path h c s (turn host conf k resume s)
    unfolding turn turn_at turn_of finish_data finish_at ◌>>=◌
    finished s p e = rw e (
        applied-IsShipped s _ _ (
          apply_data-Applied host h c.metadata c.payload s.world
            (p ∙ ap (λ j. length (s.world.fs.content j)) (sym inode))))

    begun :
        (s : Process)
        → text_eq c.name (codes "data") ≡ true
        → s.connections k ≡ some (at idle)
        → turn host conf k (command c) s
          ≡ record { world = s.world; connections = assign k (some (at (busy c))) s.connections }
    unfolding turn turn_at turn_of begin_command begin_data target_file pure ◌>>=◌ settle kept
    begun s d e = rw (e, d) refl

    -- The bytes are compared with those at the beginning.
    since :
        (s u t : Process)
        → u.world.fs.content i ≡ s.world.fs.content i
        → IsShipped dst_dir dst_path h c u t
        → IsShipped dst_dir dst_path h c s t
    unfolding IsShipped
    since s u t q (inl (gone, same)) = inl (gone, same ∙ q)
    since s u t q (inr (out, h', accepted, grown, waits, same, at_end)) =
        inr (out, h', accepted, grown ∙ ap (λ b. b ++ out) q, waits, same, at_end)

    -- A `data` frame that arrives on a connection which alone has its file open, at its end, and whatever
    -- turns of other connections come before its payload is decompressed: it is refused, the connection is
    -- closed and the file has the bytes that it had; or its payload decodes, its offset is the length that
    -- the file had, the decoded bytes are appended to what it had, and the connection waits at their end.
    pub run-IsShipped :
        (ts : List (ℕ × Turn)) (s : Process)
        → text_eq c.name (codes "data") ≡ true
        → s.connections k ≡ some (at idle)
        → h.position ≡ length (s.world.fs.content i)
        → Others k ts
        → Throughout host conf k i ((k, command c) ∷ ts) s
        → IsShipped dst_dir dst_path h c s
            (run host conf ((k, command c) ∷ (ts ++ (k, resume) ∷ [])) s)
    unfolding run turn
    run-IsShipped ts s d e p o (a, b) =
        let s₁ = turn host conf k (command c) s in
        let s₂ = run host conf ts s₁ in
        let first : s₁ ≡ record {
          world = s.world;
          connections = assign k (some (at (busy c))) s.connections;
        } =
          begun s d e in
        let still = Others-IsStill ts s₁ o b in
        let same : s₂.world.fs.content i ≡ s.world.fs.content i =
          still.content ∙ ap (λ (x : Process). x.world.fs.content i) first in
        let waits : s₂.connections k ≡ some (at (busy c)) =
          still.connection
          ∙ (ap (λ (x : Process). x.connections k) first
              ∙ assigned host conf i k (some (at (busy c))) s.connections) in
        subst (IsShipped dst_dir dst_path h c s)
          (sym (run-append host conf ((k, command c) ∷ ts) ((k, resume) ∷ []) s))
          (since s s₂ _ same (finished s₂ (p ∙ ap length (sym same)) waits))

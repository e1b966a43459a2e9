-- ===== src/Concurrent/Confined.antt =====
-- Whatever the order of the turns, no connection changes an entry outside the destination directory.
use logline.Base.{
  ℕ, ◌≡◌, refl, sym, ap, ◌∙◌, Bool-cases, inl, inr, Option, none, some, List, [], ◌∷◌, ◌==◌, arith,
  Text,
}
use logline.Json.{Value}
use logline.Fs
use logline.Fs.{FilePath, Fs, Handle, parent, relative_to}
use logline.Fs.Outside.{find-outside}
use logline.Fs.Join.{path_join}
use logline.Host.{Host}
use logline.Server.World.{World, Action, Result, ok, err, ◌>>=◌}
use logline.Server.World.Keeps.{IsStable, keeps_rules}
use logline.Server.World.Gives.{
  Gives, Returned, Gives-pure, Gives-raise, Gives-if, Gives-bind, Gives-then,
}
use logline.Server.Quiet.{Keeps-send_reply}
use logline.Server.Segments.{IsSafe}
use logline.Server.Command.{Command}
use logline.Server.Paths.{build_destination_dir}
use logline.Server.Auth.{Configuration}
use logline.Server.Serve.{Session}
use logline.Server.Handle.{lift, Header}
use logline.Server.Allows.{Allows, stable, Keeps-apply_data, Keeps-target_file, Keeps-report_target}
use logline.Server.Allows.Loop.{Keeps-open_target, Gives-serve_command}
use logline.Server.Allows.Client.{Keeps-authenticate, Keeps-make_destination, checked_target-IsSafe}
use logline.Server.Confinement.{build-eq, IsConfined-Allows}
use logline.Concurrent.Schedule.{
  Phase, idle, busy, Connection, Process, Turn, header, command, resume, leave, welcome, begin_data,
  other_command, begin_command, finish_at, finish_data, kept, assign, settle, turn_of, turn_at,
  turn, run,
}

module _ {A B : Type 0} {R : World → World → Type 0} (Q : B → Type 0) where
  -- What follows may use that the result was no error.
  Gives-bind-lift :
      (r : Result A) (f : A → Action B)
      → IsStable R
      → ((a : A) → r ≡ ok a → Gives R Q (f a))
      → Gives R Q (lift r >>= f)
  unfolding ◌>>=◌
  Gives-bind-lift (ok a) f s g = g a refl
  Gives-bind-lift (err e) f s g = record { keeps = record { at = λ w. s.same w }; gives = λ w. tt }

module _ {R : World → World → Type 0} {Below : FilePath → Type 0} (allows : Allows R Below)
    (host : Host) (conf : Configuration)
    (places : (hostname directory : Value) (d : FilePath)
      → build_destination_dir host conf.destination_directory hostname directory ≡ ok d
      → Below d × Below (parent d) × ((c : Text) → IsSafe c → Below (path_join d c))) where
  abbrev IsPlaced : Connection → Type 0
  IsPlaced c = Below c.session.dst_path × ((x : Text) → IsSafe x → Below (path_join c.dst_dir x))

  Gives-welcome : (h : Header) → Gives R IsPlaced (welcome host conf h)
  unfolding welcome
  Gives-welcome h =
      Gives-then IsPlaced _ _ (stable allows) (Keeps-authenticate allows host conf places h.auth)
        λ _.
          Gives-then IsPlaced _ _ (stable allows) (search (keeps_rules, stable allows)) λ directory.
            Gives-bind-lift IsPlaced _ _ (stable allows) λ d e.
              let (hd, hp, hc) = places _ _ d e in
              Gives-then IsPlaced _ _ (stable allows)
                (Keeps-make_destination allows host conf places d hd hp)
                λ _. Gives-bind-lift IsPlaced _ _ (stable allows) λ target e'.
                  Gives-then IsPlaced _ _ (stable allows) (Keeps-open_target allows d hc _) λ f.
                    Gives-then IsPlaced _ _ (stable allows)
                      (Keeps-report_target allows host h.prefix_length f)
                      λ f'.
                        Gives-pure IsPlaced _ (stable allows) (
                          hc target (checked_target-IsSafe allows host conf places _ target e'),
                          hc,
                        )

  Gives-begin_command :
      (conn : Connection) (c : Command)
      → IsPlaced conn
      → Gives R IsPlaced (begin_command host conn c)
  unfolding begin_command begin_data other_command
  Gives-begin_command conn c p =
      Gives-if IsPlaced _ _ _
        (Gives-then IsPlaced _ _ (stable allows) (Keeps-target_file allows _ _ _ p.0)
          λ h. Gives-pure IsPlaced _ (stable allows) p)
        (Gives-bind (λ (s : Session). Below s.dst_path) IsPlaced _ _ (stable allows)
          (Gives-serve_command allows conn.dst_dir p.1 host conn.session c p.0)
          λ s q. Gives-pure IsPlaced _ (stable allows) (q, p.1))

  Gives-finish_data :
      (conn : Connection) (c : Command) (o : Option Handle)
      → IsPlaced conn
      → Gives R IsPlaced (finish_data host conn c o)
  unfolding finish_data finish_at
  Gives-finish_data conn c none p = Gives-raise IsPlaced _ (stable allows)
  Gives-finish_data conn c (some h) p =
      Gives-then IsPlaced _ _ (stable allows) (Keeps-apply_data allows host h _ _) λ h'.
        Gives-then IsPlaced _ _ (stable allows) (Keeps-send_reply allows.quiet host _ none)
          λ _. Gives-pure IsPlaced _ (stable allows) p

  -- Every open connection is placed.
  abbrev AllPlaced : (ℕ → Option Connection) → Type 0
  AllPlaced connections = (j : ℕ) (c : Connection) → connections j ≡ some c → IsPlaced c

  record Kept (s t : Process) : Type 0 where
    world : R s.world t.world
    placed : AllPlaced t.connections

  assigned :
      (k : ℕ) (o : Option Connection) (connections : ℕ → Option Connection)
      → ((c : Connection) → o ≡ some c → IsPlaced c)
      → AllPlaced connections
      → AllPlaced (assign k o connections)
  assigned k o connections h all j c e = elim (Bool-cases (k == j)) [
    | inl same ↦ h c (ground arith)
    | inr other ↦ all j c (ground arith)
  ]

  kept-IsPlaced :
      (r : Result Connection) (c : Connection) → Returned IsPlaced r → kept r ≡ some c → IsPlaced c
  unfolding kept
  kept-IsPlaced (ok a) c p e = let same : a ≡ c = cc in rw (← same) p
  kept-IsPlaced (err x) c p e = absurd (cc)

  settle-Kept :
      (k : ℕ) (m : Action Connection) (s : Process)
      → Gives R IsPlaced m
      → AllPlaced s.connections
      → Kept s (settle k (m s.world) s)
  unfolding settle
  settle-Kept k m s g all = record {
    world = g.keeps.at s.world;
    placed = assigned k _ s.connections (λ c e. kept-IsPlaced _ c (g.gives s.world) e) all;
  }

  unchanged : (s : Process) → AllPlaced s.connections → Kept s s
  unchanged s all = record { world = (stable allows).same s.world; placed = all }

  left :
      (k : ℕ) (s : Process)
      → AllPlaced s.connections
      → Kept s (record s { connections = assign k none s.connections })
  left k s all = record {
    world = (stable allows).same s.world;
    placed = assigned k none s.connections (λ c e. cc) all;
  }

  turn_of-Kept :
      (k : ℕ) (conn : Connection) (p : Phase) (t : Turn) (s : Process)
      → IsPlaced conn
      → AllPlaced s.connections
      → Kept s (turn_of host k conn p t s)
  unfolding turn_of
  turn_of-Kept k conn idle (command c) s p all =
      settle-Kept k _ s (Gives-begin_command conn c p) all
  turn_of-Kept k conn idle leave s p all = left k s all
  turn_of-Kept k conn idle resume s p all = unchanged s all
  turn_of-Kept k conn idle (header h) s p all = unchanged s all
  turn_of-Kept k conn (busy c) resume s p all =
      settle-Kept k _ s (Gives-finish_data conn c conn.session.f p) all
  turn_of-Kept k conn (busy c) leave s p all = left k s all
  turn_of-Kept k conn (busy c) (command d) s p all = unchanged s all
  turn_of-Kept k conn (busy c) (header h) s p all = unchanged s all

  turn_at-Kept :
      (k : ℕ) (o : Option Connection) (t : Turn) (s : Process)
      → s.connections k ≡ o
      → AllPlaced s.connections
      → Kept s (turn_at host conf k o t s)
  unfolding turn_at
  turn_at-Kept k none (header h) s e all = settle-Kept k _ s (Gives-welcome h) all
  turn_at-Kept k none (command c) s e all = unchanged s all
  turn_at-Kept k none resume s e all = unchanged s all
  turn_at-Kept k none leave s e all = unchanged s all
  turn_at-Kept k (some conn) t s e all = turn_of-Kept k conn conn.phase t s (all k conn e) all

  run-Kept :
      (ts : List (ℕ × Turn)) (s : Process) → AllPlaced s.connections → Kept s (run host conf ts s)
  unfolding run turn
  run-Kept [] s all = unchanged s all
  run-Kept ((k, t) ∷ ts) s all =
      let first = turn_at-Kept k (s.connections k) t s refl all in
      let rest = run-Kept ts (turn host conf k t s) first.placed in
      record {
        world = (stable allows).compose s.world _ _ first.world rest.world;
        placed = rest.placed;
      }

-- From a server without connections, whatever connections begin and whatever they send in whatever
-- order, no name outside the configured destination directory is created, removed or made to stand for
-- something else.
pub run-confined :
    (host : Host) (conf : Configuration) (ts : List (ℕ × Turn)) (w : World) (p : FilePath)
    → relative_to (host.resolve conf.destination_directory) p ≡ none
    → Fs.lookup p (run host conf ts (record { world = w; connections = λ k. none })).world.fs
      ≡ Fs.lookup p w.fs
run-confined host conf ts w p h =
    let base = host.resolve conf.destination_directory in
    let s : Process = record { world = w; connections = λ k. none } in
    let c =
      run-Kept (IsConfined-Allows base) host conf
        (λ a b d. build-eq host conf.destination_directory d a b) ts s (λ j c e. absurd (cc)) in
    sym (find-outside base p (run host conf ts s).world.fs.entries h)
    ∙ ap (Fs.find p) c.world.outside_same
    ∙ find-outside base p w.fs.entries h

-- ===== src/Concurrent/Elsewhere.antt =====
-- The turns of other connections and the bytes of one inode.
use logline.Base.{
  ℕ, ◌≡◌, refl, Bool, true, false, Option, none, some, ◌==◌, if◌then◌else◌, arith, text_eq, codes,
}
use mathlib.Core.Path.{subst}
use logline.Json.{Value}
use logline.Fs.{FilePath, Handle}
use logline.Host.{Host}
use logline.Server.World.{
  Error, World, Action, Result, ok, err, pure, continue, or_raise, raise, unless, ◌>>=◌, ◌>>◌,
}
use logline.Server.Command.{Command}
use logline.Server.Auth.{Configuration}
use logline.Server.Serve.{create_target, target_file}
use logline.Concurrent.Schedule.{
  Phase, idle, busy, Connection, Process, Turn, header, command, resume, leave, begin_data,
  other_command, begin_command, finish_data, kept, assign, settle, turn_of, turn_at,
}
use logline.Concurrent.Bytes.{
  IsSameAt, IsSameAt-quiet, Keeps-finish_at, Keeps-welcome, Gives-other_command, created-same,
}

module _ (i : ℕ) where
  -- The inode stays, if what the action returns is no handle on it.
  record SameUnless (m : Action Handle) : Type 0 where
    at :
        (w : World)
        → ((h : Handle) → (m w).0 ≡ ok h → (h.inode == i) ≡ false)
        → IsSameAt i w (m w).1

  same : (w : World) → IsSameAt i w w
  same w = (IsSameAt-quiet i).stable.same w

  module _ {A : Type 0} (f : A → Action Handle) (h : (a : A) → SameUnless (f a)) where
    SameUnless-or_raise : (e : Error) (o : Option A) → SameUnless (or_raise e o >>= f)
    unfolding or_raise ◌>>=◌
    SameUnless-or_raise e none = record { at = λ w n. same w }
    SameUnless-or_raise e (some a) = record { at = λ w n. (h a).at w n }

  SameUnless-unless :
      (b : Bool) (e : Error) (m : Action Handle) → SameUnless m → SameUnless (unless b e >> m)
  unfolding unless ◌>>=◌
  SameUnless-unless true e m h = record { at = λ w n. h.at w n }
  SameUnless-unless false e m h = record { at = λ w n. same w }

  SameUnless-create : (p : FilePath) → SameUnless (create_target p)
  unfolding create_target
  SameUnless-create p = record { at = λ w n. created-same i w _ p refl n }

  SameUnless-target_file :
      (p : FilePath) (f : Option Handle) (v : Value) → SameUnless (target_file p f v)
  unfolding target_file pure
  SameUnless-target_file p (some h) v = record { at = λ w n. same w }
  SameUnless-target_file p none v =
      SameUnless-or_raise _
        (λ fields.
          SameUnless-or_raise _ (λ offset. SameUnless-unless _ _ _ (SameUnless-create p)) _ _)
        _ _

module _ (host : Host) (conf : Configuration) (i : ℕ) where
  -- A turn of another connection, by the file that it has open before or after.
  abbrev pub Elsewhere : ℕ → Process → Type 0
  Elsewhere j s =
      (c : Connection) (h : Handle)
      → s.connections j ≡ some c
      → c.session.f ≡ some h
      → (h.inode == i) ≡ false

  pub assigned : (j : ℕ) (o : Option Connection) (f : ℕ → Option Connection) → assign j o f j ≡ o
  assigned j o f = let here : (j == j) ≡ true = ground arith in rw here refl

  -- The connection that decompresses the payload of a frame.
  abbrev conn_busy : Connection → Command → Handle → Connection
  conn_busy conn c h = record conn { session = record conn.session { f = some h }; phase = busy c }

  begun :
      (j : ℕ) (conn : Connection) (c : Command) (s : Process) (r : Result Handle) (w : World)
      → let x = continue r (λ h. pure (conn_busy conn c h)) w in
        Elsewhere j (settle j x s) → ((h : Handle) → r ≡ ok h → (h.inode == i) ≡ false) × (x.1 ≡ w)
  unfolding settle kept pure
  begun j conn c s (err x) w e = (λ h p. absurd (cc), refl)
  begun j conn c s (ok h) w e = (
    λ h' p. e (conn_busy conn c h) h' (assigned j (some (conn_busy conn c h)) s.connections) (cc),
    refl,
  )

  other_command-same :
      (j : ℕ) (conn : Connection) (c : Command) (s : Process) (is_data : Bool)
      → text_eq c.name (codes "data") ≡ is_data
      → Elsewhere j (settle j (begin_command host conn c s.world) s)
      → IsSameAt i s.world (begin_command host conn c s.world).1
  unfolding begin_command begin_data ◌>>=◌
  other_command-same j conn c s true e after =
      let (r, w) = target_file conn.session.dst_path conn.session.f c.metadata s.world in
      let ended : Elsewhere j (settle j (begin_data conn c s.world) s) =
        subst
          (λ b.
            Elsewhere j
              (settle j ((if b then begin_data conn c else other_command host conn c) s.world) s))
          e after in
      let (elsewhere, kept_world) = begun j conn c s r w ended in
      rw (e, kept_world)
        ((SameUnless-target_file i conn.session.dst_path conn.session.f c.metadata).at s.world
          elsewhere)
  other_command-same j conn c s false e after =
      rw e ((Gives-other_command i host conn c e).keeps.at s.world)

  finish_data-same :
      (conn : Connection) (c : Command) (f : Option Handle) (w : World)
      → ((h : Handle) → f ≡ some h → (h.inode == i) ≡ false)
      → IsSameAt i w (finish_data host conn c f w).1
  unfolding finish_data raise
  finish_data-same conn c none w n = same i w
  finish_data-same conn c (some h) w n = (Keeps-finish_at i host conn c h (n h refl)).at w

  turn_of-same :
      (j : ℕ) (conn : Connection) (p : Phase) (t : Turn) (s : Process)
      → s.connections j ≡ some conn
      → Elsewhere j s
      → Elsewhere j (turn_of host j conn p t s)
      → IsSameAt i s.world (turn_of host j conn p t s).world
  unfolding turn_of settle
  turn_of-same j conn idle (command c) s e before after =
      other_command-same j conn c s (text_eq c.name (codes "data")) refl after
  turn_of-same j conn idle leave s e before after = same i s.world
  turn_of-same j conn idle resume s e before after = same i s.world
  turn_of-same j conn idle (header h) s e before after = same i s.world
  turn_of-same j conn (busy c) resume s e before after =
      finish_data-same conn c conn.session.f s.world (λ h f. before conn h e f)
  turn_of-same j conn (busy c) leave s e before after = same i s.world
  turn_of-same j conn (busy c) (command d) s e before after = same i s.world
  turn_of-same j conn (busy c) (header h) s e before after = same i s.world

  pub turn_at-same :
      (j : ℕ) (o : Option Connection) (t : Turn) (s : Process)
      → s.connections j ≡ o
      → Elsewhere j s
      → Elsewhere j (turn_at host conf j o t s)
      → IsSameAt i s.world (turn_at host conf j o t s).world
  unfolding turn_at settle
  turn_at-same j none (header h) s e before after = (Keeps-welcome i host conf h).at s.world
  turn_at-same j none (command c) s e before after = same i s.world
  turn_at-same j none resume s e before after = same i s.world
  turn_at-same j none leave s e before after = same i s.world
  turn_at-same j (some conn) t s e before after = turn_of-same j conn conn.phase t s e before after

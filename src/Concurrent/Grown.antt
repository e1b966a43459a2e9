-- ===== src/Concurrent/Grown.antt =====
-- A file that one connection alone has open, while other connections take turns.
use logline.Base.{
  ℕ, ◌≡◌, refl, sym, ap, ◌∙◌, true, false, Bool-cases, inl, inr, Option, none, some, List, [], ◌∷◌,
  ◌==◌, arith, length,
}
use mathlib.Core.Path.{subst}
use logline.Fs.{Handle}
use logline.Host.{Host}
use logline.Server.Auth.{Configuration}
use logline.Agent.Copy.{IsPrefix-refl, IsPrefix-trans}
use logline.Concurrent.Schedule.{
  Phase, idle, busy, Connection, Process, Turn, header, command, resume, leave, settle, turn_of,
  turn_at, turn, run,
}
use logline.Concurrent.Bytes.{IsSameAt}
use logline.Concurrent.Elsewhere.{Elsewhere, turn_at-same}
use logline.Concurrent.Own.{IsAlone, StandsAtEnd, IsGrown, own-IsGrown}

module _ (host : Host) (conf : Configuration) (k i : ℕ) where
  own_turn :
      (c : Connection) (h : Handle) (o : Option Handle) (t : Turn) (s : Process)
      → c.session.f ≡ o
      → o ≡ some h
      → h.inode ≡ i
      → h.position ≡ length (s.world.fs.content i)
      → StandsAtEnd k s
      → IsGrown k i s (turn_of host k c c.phase t s)
  own_turn c h o t s f e inode p q =
      subst
        (λ (x : Option Handle). IsGrown k i s (
          turn_of host k
            (record {
              dst_dir = c.dst_dir;
              session = record { f = x; dst_path = c.session.dst_path };
              phase = c.phase;
            })
            c.phase t s))
        (sym (f ∙ e))
        (own-IsGrown host conf k i c.dst_dir c.session.dst_path h inode s c.phase t q p)

  -- The turns of the others leave the connection as it is.
  turn_of-other :
      (j : ℕ) (c : Connection) (p : Phase) (t : Turn) (s : Process)
      → (j == k) ≡ false
      → (turn_of host j c p t s).connections k ≡ s.connections k
  unfolding turn_of settle
  turn_of-other j c idle (command d) s e = rw e refl
  turn_of-other j c idle leave s e = rw e refl
  turn_of-other j c idle resume s e = refl
  turn_of-other j c idle (header h) s e = refl
  turn_of-other j c (busy d) resume s e = rw e refl
  turn_of-other j c (busy d) leave s e = rw e refl
  turn_of-other j c (busy d) (command x) s e = refl
  turn_of-other j c (busy d) (header h) s e = refl

  pub turn_at-other :
      (j : ℕ) (o : Option Connection) (t : Turn) (s : Process)
      → (j == k) ≡ false
      → (turn_at host conf j o t s).connections k ≡ s.connections k
  unfolding turn_at settle
  turn_at-other j none (header h) s e = rw e refl
  turn_at-other j none (command c) s e = refl
  turn_at-other j none resume s e = refl
  turn_at-other j none leave s e = refl
  turn_at-other j (some c) t s e = turn_of-other j c c.phase t s e

  pub alone-Elsewhere :
      (s : Process) (j : ℕ) → IsAlone k i s → (k == j) ≡ false → Elsewhere host conf i j s
  alone-Elsewhere s j a e c h = a.others j c h e

  own_at :
      (j : ℕ) (t : Turn) (s : Process)
      → IsAlone k i s
      → StandsAtEnd k s
      → (j == k) ≡ true
      → IsGrown k i s (turn host conf j t s)
  unfolding turn turn_at
  own_at j t s a q same =
      let number : j ≡ k = ground arith in
      let at_i : a.handle.position ≡ length (s.world.fs.content i) =
        q a.connection a.handle a.open_connection a.open_file
        ∙ ap (λ x. length (s.world.fs.content x)) a.inode in
      rw (number, a.open_connection)
        (own_turn a.connection a.handle a.connection.session.f t s refl a.open_file a.inode at_i q)

  end_at :
      (j : ℕ) (t : Turn) (s : Process)
      → (j == k) ≡ false
      → IsSameAt i s.world (turn host conf j t s).world
      → IsAlone k i s
      → StandsAtEnd k s
      → StandsAtEnd k (turn host conf j t s)
  unfolding turn
  end_at j t s e w a q c h open_c open_h =
      let before = sym (turn_at-other j (s.connections j) t s e) ∙ open_c in
      let here : c ≡ a.connection = cc in
      let both : some h ≡ some a.handle =
        sym open_h ∙ (ap (λ (x : Connection). x.session.f) here ∙ a.open_file) in
      let file : h ≡ a.handle = cc in
      let inode : h.inode ≡ i = ap (λ (x : Handle). x.inode) file ∙ a.inode in
      q c h before open_h
      ∙ subst
          (λ n. length (s.world.fs.content n) ≡ length ((turn host conf j t s).world.fs.content n))
          (sym inode) (ap length (sym w.same))

  turn-IsGrown :
      (j : ℕ) (t : Turn) (s : Process)
      → IsAlone k i s
      → IsAlone k i (turn host conf j t s)
      → StandsAtEnd k s
      → IsGrown k i s (turn host conf j t s)
  unfolding turn
  turn-IsGrown j t s a b q = elim (Bool-cases (j == k)) [
    | inl same ↦ own_at j t s a q same
    | inr other ↦
        let e : (k == j) ≡ false = ground arith in
        let w =
          turn_at-same host conf i j (s.connections j) t s refl (alone-Elsewhere s j a e)
            (alone-Elsewhere _ j b e) in
        record {
          prefix = rw w.same (IsPrefix-refl (s.world.fs.content i));
          at_end = end_at j t s other w a q;
        }
  ]

-- Through all the turns the connection `k` is the one that has the inode open.
abbrev pub Throughout : Host → Configuration → ℕ → ℕ → List (ℕ × Turn) → Process → Type 0
Throughout host conf k i [] s = IsAlone k i s
Throughout host conf k i ((j, t) ∷ ts) s =
    IsAlone k i s × Throughout host conf k i ts (turn host conf j t s)

pub Throughout-first :
    (host : Host) (conf : Configuration) (k i : ℕ) (ts : List (ℕ × Turn)) (s : Process)
    → Throughout host conf k i ts s
    → IsAlone k i s
Throughout-first host conf k i [] s a = a
Throughout-first host conf k i ((j, t) ∷ ts) s (a, b) = a

-- As long as one connection alone has a file open, and it stands at the end of that file to begin with,
-- the bytes of the file only grow, whatever turns of whatever connections come in whatever order, and the
-- connection stands at their end.
pub run-IsGrown :
    (host : Host) (conf : Configuration) (k i : ℕ) (ts : List (ℕ × Turn)) (s : Process)
    → Throughout host conf k i ts s
    → StandsAtEnd k s
    → IsGrown k i s (run host conf ts s)
unfolding run
run-IsGrown host conf k i [] s a q = record {
  prefix = IsPrefix-refl (s.world.fs.content i);
  at_end = q;
}
run-IsGrown host conf k i ((j, t) ∷ ts) s (a, b) q =
    let s' = turn host conf j t s in
    let first = turn-IsGrown host conf k i j t s a (Throughout-first host conf k i ts s' b) q in
    let rest = run-IsGrown host conf k i ts s' b first.at_end in
    record { prefix = IsPrefix-trans _ _ _ first.prefix rest.prefix; at_end = rest.at_end }

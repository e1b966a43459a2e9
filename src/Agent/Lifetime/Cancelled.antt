-- ===== src/Agent/Lifetime/Cancelled.antt =====
-- The segments that run when a coordinator ends.
use logline.Base.{
  ◌≡◌, ◌⊎◌, inl, inr, refl, false, Bool-cases, Option, none, some, List, [], ◌∷◌, All,
}
use logline.Host.{Host}
use logline.Agent.Network.{Seal}
use logline.Agent.Coordinator.{Running, PathCoordinator, request_seal, step, seen}
use logline.Agent.Tracking.{IsAmong, IsAccompanied, step-IsAccompanied}
use logline.Agent.Lifetime.{Look, prepared, fails, opened_inode, looked, with_live, cancelled, run}

-- The task of the segment is not done in any of the rounds.
abbrev pub Runs : List Look → Running → Type 0
Runs ls r = All (λ (l : Look). l.is_done r ≡ false) ls

-- Nor is it after the segment was sealed in one of them.
abbrev pub Lasts : List Look → Running → Type 0
Lasts [] r = Unit {0}
Lasts (l ∷ ls) r =
    (l.is_done r ≡ false) × Lasts ls r × ((seal : Seal) → Runs ls (l.sealed (request_seal seal r)))

-- The segment itself, or as it was sealed in one of the rounds.
abbrev pub Became : List Look → Running → Running → Type 0
Became [] r x = x ≡ r
Became (l ∷ ls) r x = ((seal : Seal) × (x ≡ l.sealed (request_seal seal r))) ⊎ Became ls r x

Lasts-Runs : (ls : List Look) (r : Running) → Lasts ls r → Runs ls r
Lasts-Runs [] r h = tt
Lasts-Runs (l ∷ ls) r (d, h, s) = (d, Lasts-Runs ls r h)

itself : (ls : List Look) (r : Running) → Became ls r r
itself [] r = refl
itself (l ∷ ls) r = inr (itself ls r)

with_live-closing :
    (o : Option Running) (rs : List Running) (r : Running)
    → IsAmong r rs
    → IsAmong r (with_live o rs)
unfolding with_live
with_live-closing none rs r a = a
with_live-closing (some live) rs r a = inr a

with_live-live :
    (o : Option Running) (rs : List Running) (r : Running) → o ≡ some r → IsAmong r (with_live o rs)
unfolding with_live
with_live-live none rs r e = absurd (cc)
with_live-live (some live) rs r e = inl (cc)

prepared-IsAccompanied :
    (host : Host) (l : Look) (p : PathCoordinator)
    → IsAccompanied l.sealed l.is_done p (prepared l p)
unfolding step seen prepared
prepared-IsAccompanied host l p =
    step-IsAccompanied host l.now l.listings l.sealed l.is_done none 0 p

looked-IsAccompanied :
    (host : Host) (l : Look) (p : PathCoordinator)
    → IsAccompanied l.sealed l.is_done p (looked host l p)
unfolding looked
looked-IsAccompanied host l p =
    step-IsAccompanied host l.now l.listings l.sealed l.is_done l.inode (opened_inode l.opened) p

module _ (host : Host) where
  closing-cancelled :
      (ls : List Look) (p : PathCoordinator) (r : Running)
      → IsAmong r p.closing
      → Runs ls r
      → IsAmong r (run host ls p)
  unfolding run cancelled
  closing-cancelled [] p r a h = with_live-closing p.live p.closing r a
  closing-cancelled (l ∷ ls) p r a (d, h) = elim (Bool-cases (fails l (prepared l p))) [
    | inl failed ↦
        rw failed (with_live-closing _ _ r ((prepared-IsAccompanied host l p).closing r a d))
    | inr went ↦
        rw went (
          closing-cancelled ls (looked host l p) r ((looked-IsAccompanied host l p).closing r a d)
            h)
  ]

  -- A live segment, by what a round made of it.
  stopped :
      (l : Look) (ls : List Look) (p q : PathCoordinator) (r : Running)
      → IsAccompanied l.sealed l.is_done p q
      → p.live ≡ some r
      → l.is_done r ≡ false
      → (x : Running) × Became (l ∷ ls) r x × IsAmong x (cancelled q)
  unfolding cancelled
  stopped l ls p q r a e d = elim (a.live r e d) [
    | inl live ↦ (r, itself (l ∷ ls) r, with_live-live q.live q.closing r live)
    | inr asked ↦ (
      l.sealed (request_seal asked.0 r),
      inl (asked.0, refl),
      with_live-closing q.live q.closing _ asked.1,
    )
  ]

  live-cancelled :
      (ls : List Look) (p : PathCoordinator) (r : Running)
      → p.live ≡ some r
      → Lasts ls r
      → (x : Running) × Became ls r x × IsAmong x (run host ls p)
  unfolding run cancelled
  live-cancelled [] p r e h = (r, refl, with_live-live p.live p.closing r e)
  live-cancelled (l ∷ ls) p r e (d, h, s) = elim (Bool-cases (fails l (prepared l p))) [
    | inl failed ↦ rw failed (stopped l ls p (prepared l p) r (prepared-IsAccompanied host l p) e d)
    | inr went ↦ rw went (elim ((looked-IsAccompanied host l p).live r e d) [
      | inl live ↦ let (x, b, a) = live-cancelled ls (looked host l p) r live h in (x, inr b, a)
      | inr asked ↦ (
        l.sealed (request_seal asked.0 r),
        inl (asked.0, refl),
        closing-cancelled ls (looked host l p) _ asked.1 (s asked.0),
      )
    ])
  ]

-- However the rounds of a coordinator end, by a file that cannot be opened or by a cancellation: a
-- segment that is live or closing, and whose task is done in none of them, as it is and as it may be
-- sealed, is cancelled at the end, as it was or as it was sealed.
pub run-cancels :
    (host : Host) (ls : List Look) (p : PathCoordinator) (r : Running)
    → (p.live ≡ some r) ⊎ IsAmong r p.closing
    → Lasts ls r
    → (x : Running) × Became ls r x × IsAmong x (run host ls p)
run-cancels host ls p r (inl live) h = live-cancelled host ls p r live h
run-cancels host ls p r (inr closing) h =
    (r, itself ls r, closing-cancelled host ls p r closing (Lasts-Runs ls r h))

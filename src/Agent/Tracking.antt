-- ===== src/Agent/Tracking.antt =====
-- The rounds of `PathCoordinator.run` in coordinator.py: the live segment and the closing ones.
use logline.Base.{
  ℕ, ◌≡◌, ◌⊎◌, inl, inr, refl, sym, ap, ◌∙◌, Bool, true, false, Option, none, some, List, [], ◌∷◌,
  Text, arith, Bool-cases,
}
use logline.Host.{Host}
use logline.Agent.Network.{Seal}
use logline.Agent.Coordinator.{
  Running, PathCoordinator, seal_name, learn_iso_dt, make_segment, request_seal, seal_live,
  same_inode, sealed_first, on_new_inode, reap, drop_dead, seen, step,
}

-- The live segment reads the inode that was seen last.
pub record IsTracking (p : PathCoordinator) : Type 0 where
  pub tracked : (r : Running) → p.live ≡ some r → p.last_inode ≡ some r.inode

abbrev pub IsAmong : Running → List Running → Type 0
IsAmong r [] = ⊥
IsAmong r (s ∷ ss) = (r ≡ s) ⊎ IsAmong r ss

-- A segment that runs is among the closing ones, or live, or was asked to seal and is closing.
pub record IsAccompanied (sealed : Running → Running) (is_done : Running → Bool)
    (p q : PathCoordinator) : Type 0 where
  pub closing : (r : Running) → IsAmong r p.closing → is_done r ≡ false → IsAmong r q.closing
  pub live :
      (r : Running)
      → p.live ≡ some r
      → is_done r ≡ false
      → (q.live ≡ some r) ⊎ ((seal : Seal) × IsAmong (sealed (request_seal seal r)) q.closing)

inode_of : Option Running → Option ℕ
inode_of none = none
inode_of (some r) = some r.inode

same_inode-some : (n : ℕ) (last : Option ℕ) → same_inode n last ≡ true → last ≡ some n
unfolding same_inode
same_inode-some n none h = absurd (cc)
same_inode-some n (some last) h = ap some (ground arith)

reap-IsAmong :
    (is_done : Running → Bool) (r : Running) (rs : List Running)
    → is_done r ≡ false
    → IsAmong r rs
    → IsAmong r (reap is_done rs)
unfolding reap
reap-IsAmong is_done r [] d a = a
reap-IsAmong is_done r (s ∷ rs) d (inl same) =
    let running : is_done s ≡ false = rw (← same) d in rw running (inl same)
reap-IsAmong is_done r (s ∷ rs) d (inr later) = elim (Bool-cases (is_done s)) [
  | inl dead ↦ rw dead (reap-IsAmong is_done r rs d later)
  | inr running ↦ rw running (inr (reap-IsAmong is_done r rs d later))
]

module _ (host : Host) (now : Text) (listings : List (Option (List Text)))
    (sealed : Running → Running) (is_done : Running → Bool) where
  drop_dead-IsTracking :
      (o : Option Running) (p : PathCoordinator)
      → p.live ≡ o
      → IsTracking p
      → IsTracking (drop_dead is_done o p)
  unfolding drop_dead
  drop_dead-IsTracking none p e t = t
  drop_dead-IsTracking (some live) p e t = elim (Bool-cases (is_done live)) [
    | inl dead ↦ rw dead (record { tracked = λ r h. absurd (cc) })
    | inr running ↦ rw running t
  ]

  -- After a new inode was opened, it is that of the live segment.
  opened-IsTracking :
      (inode : ℕ) (p : PathCoordinator)
      → IsTracking p
      → IsTracking
          (record (on_new_inode host now listings sealed inode p) { last_inode = some inode })
  unfolding on_new_inode make_segment inode_of
  opened-IsTracking inode p t = elim (Bool-cases (same_inode inode p.last_inode)) [
    | inl same ↦
        rw same (record {
          tracked = λ r h. sym (same_inode-some inode p.last_inode same) ∙ t.tracked r h;
        })
    | inr other ↦ rw other (record { tracked = λ r h. ap inode_of h })
  ]

  seen-IsTracking :
      (f_inode : ℕ) (inode : Option ℕ) (p : PathCoordinator)
      → ((i : ℕ) → inode ≡ some i → f_inode ≡ i)
      → IsTracking p
      → IsTracking (seen host now listings sealed f_inode inode p)
  unfolding seen
  seen-IsTracking f_inode none p agree t = t
  seen-IsTracking f_inode (some i) p agree t = elim (Bool-cases (same_inode i p.last_inode)) [
    | inl same ↦ rw same t
    | inr other ↦ rw (other, agree i refl) (opened-IsTracking i p t)
  ]

  -- Whether the inode is new or not, the segments stay or are sealed.
  Accompanied-same : (p : PathCoordinator) → IsAccompanied sealed is_done p p
  Accompanied-same p = record { closing = λ r a d. a; live = λ r e d. inl e }

  -- What the live segment is asked for.
  abbrev asked_of : PathCoordinator → Seal
  asked_of p =
      let ((iso_dt, is_orphan), m) = learn_iso_dt host now listings p.consumed_isos p.markers in
      record {
        seal_name = seal_name p.basename p.ephemeral iso_dt is_orphan;
        is_orphan = is_orphan;
        iso_dt = iso_dt;
      }

  sealed_first-IsAmong :
      (p : PathCoordinator) (o : Option Running)
      → ((r : Running)
          → IsAmong r p.closing
          → IsAmong r (sealed_first host now listings sealed o p).closing)
        × ((r : Running)
            → o ≡ some r
            → (seal : Seal) × IsAmong
                (sealed (request_seal seal r))
                (sealed_first host now listings sealed o p).closing)
  unfolding sealed_first seal_live
  sealed_first-IsAmong p none = (λ r a. a, λ r e. absurd (cc))
  sealed_first-IsAmong p (some live) = (
    λ r a. inr a,
    λ r e.
        let same : live ≡ r = cc in
        (asked_of p, inl (ap (λ x. sealed (request_seal (asked_of p) x)) (sym same))),
  )

  opened-IsAccompanied :
      (f_inode : ℕ) (p : PathCoordinator)
      → IsAccompanied sealed is_done p (on_new_inode host now listings sealed f_inode p)
  unfolding on_new_inode
  opened-IsAccompanied f_inode p = elim (Bool-cases (same_inode f_inode p.last_inode)) [
    | inl same ↦ rw same (Accompanied-same p)
    | inr other ↦
        let (kept, sealing) = sealed_first-IsAmong p p.live in
        rw other (record { closing = λ r a d. kept r a; live = λ r e d. inr (sealing r e) })
  ]

  seen-IsAccompanied :
      (f_inode : ℕ) (inode : Option ℕ) (p : PathCoordinator)
      → IsAccompanied sealed is_done p (seen host now listings sealed f_inode inode p)
  unfolding seen
  seen-IsAccompanied f_inode none p = Accompanied-same p
  seen-IsAccompanied f_inode (some i) p = elim (Bool-cases (same_inode i p.last_inode)) [
    | inl same ↦ rw same (Accompanied-same p)
    | inr other ↦
        let a = opened-IsAccompanied f_inode p in
        rw other (record { closing = a.closing; live = a.live })
  ]

  dropped-closing :
      (o : Option Running) (p : PathCoordinator) → (drop_dead is_done o p).closing ≡ p.closing
  unfolding drop_dead
  dropped-closing none p = refl
  dropped-closing (some live) p = elim (Bool-cases (is_done live)) [
    | inl dead ↦ rw dead refl
    | inr running ↦ rw running refl
  ]

  dropped-live :
      (o : Option Running) (p : PathCoordinator) (r : Running)
      → p.live ≡ o
      → o ≡ some r
      → is_done r ≡ false
      → (drop_dead is_done o p).live ≡ some r
  unfolding drop_dead
  dropped-live none p r l e d = absurd (cc)
  dropped-live (some live) p r l e d =
      let same : live ≡ r = cc in
      let running : is_done live ≡ false = rw same d in rw running (l ∙ e)

  pub step-IsAccompanied :
      (inode : Option ℕ) (f_inode : ℕ) (p : PathCoordinator)
      → IsAccompanied sealed is_done p (step host now listings sealed is_done inode f_inode p)
  unfolding step
  step-IsAccompanied inode f_inode p =
      let q : PathCoordinator = record p { closing = reap is_done p.closing } in
      let a = seen-IsAccompanied f_inode inode (drop_dead is_done p.live q) in
      record {
        closing = λ r m d.
            a.closing r (rw (dropped-closing p.live q) (reap-IsAmong is_done r p.closing d m)) d;
        live = λ r e d. a.live r (dropped-live p.live q r refl e d) d;
      }

  -- A round keeps the live segment that of the inode seen last, where the file that is opened is the
  -- one whose inode was just read; and every segment that runs stays live or closing, or was asked to
  -- seal and is closing.
  pub step-IsTracking :
      (inode : Option ℕ) (f_inode : ℕ) (p : PathCoordinator)
      → ((i : ℕ) → inode ≡ some i → f_inode ≡ i)
      → IsTracking p
      → let q = step host now listings sealed is_done inode f_inode p in
        IsTracking q × IsAccompanied sealed is_done p q
  unfolding step
  step-IsTracking inode f_inode p agree t =
      let q : PathCoordinator = record p { closing = reap is_done p.closing } in
      let q' : PathCoordinator = drop_dead is_done p.live q in
      (
        seen-IsTracking f_inode inode q' agree
            (drop_dead-IsTracking p.live q refl (record { tracked = t.tracked })),
        step-IsAccompanied inode f_inode p,
      )

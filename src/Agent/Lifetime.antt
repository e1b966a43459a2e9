-- ===== src/Agent/Lifetime.antt =====
-- coordinator.py, `PathCoordinator.run`: its rounds, and the segments that it cancels at its end.
pub mod Cancelled
use logline.Base.{ℕ, Bool, true, false, not, Option, none, some, List, [], ◌∷◌, if◌then◌else◌, Text}
use logline.Host.{Host}
use logline.Agent.Coordinator.{Running, PathCoordinator, same_inode, reap, drop_dead, step}

-- What a round finds: `opened` is the inode of the file if it is opened, none where `open` raises;
-- `is_done` and `sealed` are of the segments' tasks.
pub record Look : Type 0 where
  pub now : Text
  pub listings : List (Option (List Text))
  pub inode : Option ℕ
  pub opened : Option ℕ
  pub sealed : Running → Running
  pub is_done : Running → Bool

-- `_reap_closing`, and a live segment that ended by itself.
unfoldable pub prepared : Look → PathCoordinator → PathCoordinator
unfolding reap drop_dead
prepared l p =
    let q : PathCoordinator = record p { closing = reap l.is_done p.closing } in
    drop_dead l.is_done q.live q

-- `inode is not None and inode != self.last_inode`
unfoldable pub is_new : Option ℕ → Option ℕ → Bool
unfolding same_inode
is_new none last_inode = false
is_new (some inode) last_inode = not (same_inode inode last_inode)

-- Does `open` raise? `q` is the coordinator as it comes to that.
unfoldable pub fails : Look → PathCoordinator → Bool
unfolding is_new
fails l q = elim l.opened [ none ↦ is_new l.inode q.last_inode | some f_inode ↦ false ]

-- The inode of the file that was opened; a round that opens none does not look at it.
unfoldable pub opened_inode : Option ℕ → ℕ
opened_inode none = 0
opened_inode (some f_inode) = f_inode

-- A round in which `open` does not raise.
unfoldable pub looked : Host → Look → PathCoordinator → PathCoordinator
unfolding step opened_inode
looked host l p = step host l.now l.listings l.sealed l.is_done l.inode (opened_inode l.opened) p

unfoldable pub with_live : Option Running → List Running → List Running
with_live none closing = closing
with_live (some live) closing = live ∷ closing

-- `[self.live, *self.closing]`, without a live segment that is `None`.
unfoldable pub cancelled : PathCoordinator → List Running
unfolding with_live
cancelled p = with_live p.live p.closing

-- The rounds until an exception: `open` raises, or the task of the coordinator is cancelled as it
-- sleeps after the last one. The result are the segments that are cancelled then.
unfoldable pub run : Host → List Look → PathCoordinator → List Running
unfolding prepared fails looked cancelled
run host [] p = cancelled p
run host (l ∷ ls) p =
    let q = prepared l p in
    let rest = run host ls (looked host l p) in if fails l q then cancelled q else rest

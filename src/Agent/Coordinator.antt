-- ===== src/Agent/Coordinator.antt =====
-- coordinator.py, `PathCoordinator`: the segments of one path, and how a rotation of its file is
-- named and taken over.
use logline.Base.{
  ℕ, Bool, true, false, ◌&&◌, Option, none, some, List, [], ◌∷◌, ◌++◌, ◌==◌, if◌then◌else◌, any,
  Text, codes,
}
use logline.Fs.{FilePath, path_eq}
use logline.Host.{Host}
use logline.Agent.Files.{Machine}
use logline.Agent.Markers.{MarkerWatcher, init, newest_unconsumed_waiting}
use logline.Agent.Network.{Seal, Segment}

-- A segment with the inode that it reads.
pub record Running : Type 0 where
  pub inode : ℕ
  pub segment : Segment

pub record PathCoordinator : Type 0 where
  pub basename : Text
  pub is_own_log : Bool
  pub ephemeral : Bool
  pub markers : MarkerWatcher
  pub live : Option Running
  pub closing : List Running
  pub consumed_isos : List Text
  pub last_inode : Option ℕ

unfoldable pub start : Text → Bool → Bool → PathCoordinator
unfolding init
start basename is_own_log ephemeral = record {
  basename = basename;
  is_own_log = is_own_log;
  ephemeral = ephemeral;
  markers = init basename;
  live = none;
  closing = [];
  consumed_isos = [];
  last_inode = none;
}

-- `_classify_ephemeral` of a path that is resolved: is it a match of one of the patterns?
unfoldable pub classify_ephemeral : Machine → ℕ → List Text → FilePath → Bool
classify_ephemeral m time ephemeral_globs file_path =
    any (λ pattern. any (λ match. path_eq match.1 file_path) (m.glob time pattern)) ephemeral_globs

-- `_learn_iso_dt`: one listing of the directory for each round of its loop, and the time at its
-- end.
unfoldable pub learn_iso_dt :
    Host
    → Text
    → List (Option (List Text))
    → List Text
    → MarkerWatcher
    → (Text × Bool) × MarkerWatcher
learn_iso_dt host now [] consumed m = ((now, true), m)
learn_iso_dt host now (listing ∷ listings) consumed m =
    let (found, m') = newest_unconsumed_waiting host listing consumed m in
    let later = learn_iso_dt host now listings consumed m' in
    elim found [ some iso_dt ↦ ((iso_dt, false), m') | none ↦ later ]

-- The name that `_seal_live` chooses.
unfoldable pub seal_name : Text → Bool → Text → Bool → Text
seal_name basename ephemeral iso_dt is_orphan =
    if is_orphan && ephemeral
    then basename ++ codes ".orphan"
    else if is_orphan
    then basename ++ (codes "." ++ (iso_dt ++ codes ".orphan"))
    else basename ++ (codes "." ++ iso_dt)

-- `_make_segment` with the state that `Segment` begins with.
unfoldable pub make_segment : PathCoordinator → ℕ → Running
make_segment p inode = record {
  inode = inode;
  segment = record {
    target = p.basename;
    role_live = true;
    is_own_log = p.is_own_log;
    ephemeral = p.ephemeral;
    pending_seal = none;
    sealed = false;
    no_resume = false;
    lag = 0;
    position = 0;
    header_length = 0;
    bytes_read = 0;
  };
}

-- `request_seal`
unfoldable pub request_seal : Seal → Running → Running
request_seal seal r = record r { segment = record r.segment { pending_seal = some seal } }

-- `_seal_live` on the live segment: `sealed` is that segment once `wait_sealed` has returned.
unfoldable pub seal_live :
    Host
    → Text
    → List (Option (List Text))
    → (Running → Running)
    → Running
    → PathCoordinator
    → PathCoordinator
unfolding learn_iso_dt seal_name request_seal
seal_live host now listings sealed live p =
    let ((iso_dt, is_orphan), m) = learn_iso_dt host now listings p.consumed_isos p.markers in
    let name = seal_name p.basename p.ephemeral iso_dt is_orphan in
    let seal : Seal = record { seal_name = name; is_orphan = is_orphan; iso_dt = iso_dt } in
    record p {
      markers = m;
      consumed_isos = iso_dt ∷ p.consumed_isos;
      closing = sealed (request_seal seal live) ∷ p.closing;
      live = none;
    }

unfoldable pub same_inode : ℕ → Option ℕ → Bool
same_inode inode none = false
same_inode inode (some last) = last == inode

unfoldable pub sealed_first :
    Host
    → Text
    → List (Option (List Text))
    → (Running → Running)
    → Option Running
    → PathCoordinator
    → PathCoordinator
unfolding seal_live
sealed_first host now listings sealed none p = p
sealed_first host now listings sealed (some live) p = seal_live host now listings sealed live p

-- `_on_new_inode`: `f_inode` is that of the file that was opened.
unfoldable pub on_new_inode :
    Host
    → Text
    → List (Option (List Text))
    → (Running → Running)
    → ℕ
    → PathCoordinator
    → PathCoordinator
unfolding same_inode sealed_first make_segment
on_new_inode host now listings sealed f_inode p =
    if same_inode f_inode p.last_inode
    then p
    else (let q = sealed_first host now listings sealed p.live p in
        record q { live = some (make_segment q f_inode) })

-- `_reap_closing`
unfoldable pub reap : (Running → Bool) → List Running → List Running
reap is_done [] = []
reap is_done (r ∷ rs) = if is_done r then reap is_done rs else r ∷ reap is_done rs

unfoldable pub drop_dead : (Running → Bool) → Option Running → PathCoordinator → PathCoordinator
drop_dead is_done none p = p
drop_dead is_done (some live) p =
    if is_done live then record p { live = none; last_inode = none } else p

unfoldable pub seen :
    Host
    → Text
    → List (Option (List Text))
    → (Running → Running)
    → ℕ
    → Option ℕ
    → PathCoordinator
    → PathCoordinator
unfolding same_inode on_new_inode
seen host now listings sealed f_inode none p = p
seen host now listings sealed f_inode (some inode) p =
    if same_inode inode p.last_inode
    then p
    else record (on_new_inode host now listings sealed f_inode p) { last_inode = some inode }

-- One round of the loop of `run`: `inode` is what `_stat_inode` gives, and `f_inode` that of the
-- file that is opened afterwards.
unfoldable pub step :
    Host
    → Text
    → List (Option (List Text))
    → (Running → Running)
    → (Running → Bool)
    → Option ℕ
    → ℕ
    → PathCoordinator
    → PathCoordinator
unfolding reap drop_dead seen
step host now listings sealed is_done inode f_inode p =
    let q = record p { closing = reap is_done p.closing } in
    let q' = drop_dead is_done q.live q in seen host now listings sealed f_inode inode q'

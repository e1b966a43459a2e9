-- ===== src/Agent/Tests.antt =====
-- Examples of the agent: a file of five bytes of which two are at a server that is in memory.
use logline.Base.{
  text_eq, ℕ, ◌≡◌, refl, ap, inl, inr, Bool, true, false, ◌==◌, none, some, List, [], ◌∷◌, ◌++◌,
  arith, length, ltb, Bytes, Text, codes,
}
use logline.Host.{Host}
use logline.Agent.Markers.{MarkerWatcher, get, init, scan, sha13_for}
use logline.Agent.Hashes.{scan-known}
use logline.Agent.Network.{Network, Seal, Segment, done}
use logline.Agent.Segment.{run, drain_available}
use logline.Agent.Copy.{IsPrefix-refl, IsMoved, IsSent, IsExclusive, IsCopy, run-IsCopy}
use logline.Agent.Ships.{IsDelivered, drain_available-ships}
use logline.Agent.Coordinator.{PathCoordinator, start, step, learn_iso_dt}
use logline.Agent.Tracking.{IsTracking, IsAccompanied, step-IsTracking}
use logline.Agent.Rotation.{IsNamed, learn_iso_dt-IsNamed}

abbrev host : Host
host = record {
  sha1 = λ b. b;
  loads = λ b. none;
  dumps = λ v. [];
  gzip_compress = λ b. b;
  gzip_decompress = λ b. none;
  lzma_decompress = λ b. none;
  zstandard_decompress = none;
  zstd_decompress = none;
  is_decimal = λ c. ltb 47 c;
  resolve = λ p. p;
}

-- The file and its copy at the server, which appends a frame at its end and refuses every other
-- and every rename.
abbrev State : Type 0
State = Bytes × Bytes

abbrev received : Bool → Bytes → State → Bool × State
received true chunk s = (true, (s.0, s.1 ++ chunk))
received false chunk s = (false, s)

abbrev net : Network
net = record {
  State = State;
  source = λ s. s.0;
  connect = λ target prefix s. (some (record { length = length s.1; prefix_sha1 = none }), s);
  send_data = λ pos chunk s. received (pos == length s.1) chunk s;
  send_rename = λ src dst s. (false, s);
  utc_iso_dt = λ s. codes "20260101T000000Z";
  sha13_for = λ iso_dt s. (some (codes "0123456789abc"), s);
  sleep = λ s. s;
}

abbrev remote : State → Bytes
remote s = s.1

abbrev state : State
state = (codes "hello", codes "he")

abbrev segment : Segment
segment = record {
  target = codes "foo.log";
  role_live = true;
  is_own_log = false;
  ephemeral = false;
  pending_seal = none;
  sealed = false;
  no_resume = false;
  lag = 0;
  position = 2;
  header_length = 2;
  bytes_read = 0;
}

stays : (s : State) → IsMoved net remote s s
stays s = record { grows = IsPrefix-refl s.0; kept = inl refl }

sends :
    (b : Bool) (pos : ℕ) (chunk : Bytes) (s : State)
    → (pos == length s.1) ≡ b
    → IsSent net remote pos chunk s (received b chunk s).1
sends true pos chunk s e = record { grows = IsPrefix-refl s.0; appended = inr (ground arith, refl) }
sends false pos chunk s e = record { grows = IsPrefix-refl s.0; appended = inl refl }

exclusive : IsExclusive net remote
exclusive = record {
  connect = λ target prefix s. stays s;
  send_data = λ pos chunk s. sends (pos == length s.1) pos chunk s refl;
  send_rename = λ src dst s. stays s;
  sha13_for = λ iso_dt s. stays s;
  sleep = λ s. stays s;
}

two_copied : IsCopy net remote state
unfolding IsCopy
two_copied = record { rest = codes "llo"; whole = refl }

abbrev seal : Seal
seal = record {
  seal_name = codes "foo.log.20260101T000000Z";
  is_orphan = false;
  iso_dt = codes "20260101T000000Z";
}

delivers :
    (chunk : Bytes) (s : State)
    → let (b, t) = net.send_data (length (remote s)) chunk s in IsDelivered net remote chunk s b t
delivers chunk s =
    let here : (length s.1 == length s.1) ≡ true = ground arith in
    rw here (record { acknowledged = refl; appended = refl; at_rest = refl })

run-IsCopy_example :
    IsCopy net remote (run host 3 net 9 (λ s. true) (λ s. some seal) segment state).1.1
run-IsCopy_example =
    run-IsCopy host 3 net remote 9 (λ s. true) (λ s. some seal) segment state exclusive two_copied

drain_available-ships_example :
    let r = drain_available host 3 net 4 segment state in
    (r.0 ≡ done (ltb (length (remote state)) (length (net.source state))))
    × (remote r.1.1 ≡ codes "hello")
drain_available-ships_example =
    drain_available-ships host 3 net remote delivers 4 segment state two_copied refl (omega arith)

abbrev watcher : MarkerWatcher
watcher = init (codes "foo.log")

abbrev listing : List Text
listing = codes "foo.log" ∷ codes "foo.log.20260101T000000Z.lh-logrotate-waiting" ∷ []

learn_iso_dt-IsNamed_example :
    IsNamed host
      (codes "20260102T000000Z")
      (codes "foo.log")
      []
      []
      (some listing ∷ [])
      (learn_iso_dt host (codes "20260102T000000Z") (some listing ∷ []) [] watcher)
unfolding init
learn_iso_dt-IsNamed_example =
    learn_iso_dt-IsNamed host (codes "20260102T000000Z") (codes "foo.log") [] (some listing) []
      watcher refl

abbrev finished : MarkerWatcher
finished = record watcher { sha_by_iso = (codes "20260101T000000Z", codes "0123456789abc") ∷ [] }

known : get (codes "20260101T000000Z") finished.sha_by_iso ≡ some (codes "0123456789abc")
unfolding get text_eq
known = refl

scan-known_example :
    (get (codes "20260101T000000Z") (scan host (some listing) finished).sha_by_iso
      ≡ some (codes "0123456789abc"))
    × (sha13_for host none (codes "20260101T000000Z") (scan host (some listing) finished)
        ≡ (some (codes "0123456789abc"), scan host (some listing) finished))
scan-known_example =
    scan-known host (codes "20260101T000000Z") (codes "0123456789abc") (some listing) none finished
      known

-- The path was rotated: another inode stands under its name.
abbrev rotated : PathCoordinator
rotated = record (start (codes "foo.log") false false) {
  live = some (record { inode = 7; segment = segment });
  last_inode = some 7;
}

rotated-IsTracking : IsTracking rotated
rotated-IsTracking = record {
  tracked = λ r e.
      let same : record { inode = 7; segment = segment } ≡ r = cc in ap (λ x. some x.inode) same;
}

step-IsTracking_example :
    let q =
      step host
        (codes "20260101T000000Z")
        (some listing ∷ [])
        (λ r. r)
        (λ r. false)
        (some 8)
        8
        rotated in
    IsTracking q × IsAccompanied (λ r. r) (λ r. false) rotated q
step-IsTracking_example =
    step-IsTracking host (codes "20260101T000000Z") (some listing ∷ []) (λ r. r) (λ r. false)
      (some 8) 8 rotated (λ i e. cc) rotated-IsTracking

-- ===== src/Agent/Mirror.antt =====
-- coordinator.py, `Segment`: what a segment sends of its file, whatever its surroundings do.
use logline.Base.{
  ℕ, zero, suc, ◌+◌, Bool, true, false, not, ◌&&◌, Option, none, some, if◌then◌else◌, leb, length,
  Bytes, Text, is_empty,
}
use logline.Host.{Host}
use logline.Agent.Network.{
  HeaderReply, Network, Seal, Segment, end_segment, unfinished, Act, pure, gets, call, asks, modify,
  continue, ◌>>=◌, ◌>>◌,
}
use logline.Agent.Network.Keeps.{
  Keeps, keeps_rules, Keeps-pure, Keeps-raise, Keeps-asks, Keeps-call, Keeps-if, Keeps-option,
  Keeps-modify, Keeps-bind,
}
use logline.Agent.Segment.{
  chunk_size, read_at, seek, read, read_prefix, open_connection, opened, or_failed,
  seal_stale_remote, connect, retry, reconnect, resumed, resume, count_sent, at_end, send,
  drain_loop, drain_available, reconnect_to, rename, do_seal, drain_until_sha13, drain_until_idle,
  close_orphan, finalize, closing_phase, live_phase, live_round, pause_if, run, next_backoff,
}

-- A predicate of the surroundings that every call of a segment keeps, where a data frame holds
-- the bytes of the file at its offset.
pub record IsKept (net : Network) (I : net.State → Type 0) : Type 0 where
  pub connect :
      (target : Text) (prefix : Bytes) (s : net.State) → I s → I (net.connect target prefix s).1
  pub send_data :
      (pos : ℕ) (s : net.State)
      → I s
      → I (net.send_data pos (read_at pos chunk_size (net.source s)) s).1
  pub send_rename : (src dst : Text) (s : net.State) → I s → I (net.send_rename src dst s).1
  pub sha13_for : (iso_dt : Text) (s : net.State) → I s → I (net.sha13_for iso_dt s).1
  pub sleep : (s : net.State) → I s → I (net.sleep s)

module _ (host : Host) (prefix_length_bytes : ℕ) (net : Network) (I : net.State → Type 0)
    (kept : IsKept net I) where
  Keeps-sleep : Keeps I {A = Unit} (call (λ s. (tt, net.sleep s)))
  Keeps-sleep = Keeps-call I _ kept.sleep

  Keeps-read : (n : ℕ) → Keeps I (read host prefix_length_bytes net n)
  unfolding read
  Keeps-read n = search (keeps_rules) depth 10

  Keeps-seek : (n : ℕ) → Keeps I (seek host prefix_length_bytes net n)
  unfolding seek
  Keeps-seek n = search (keeps_rules) depth 10

  Keeps-read_prefix : Keeps I (read_prefix host prefix_length_bytes net)
  unfolding read_prefix
  Keeps-read_prefix = search (keeps_rules, Keeps-read) depth 10

  Keeps-connecting : (target : Text) (prefix : Bytes) → Keeps I (call (net.connect target prefix))
  Keeps-connecting target prefix = Keeps-call I _ (kept.connect target prefix)

  Keeps-open_connection :
      (prefix : Bytes) → Keeps I (open_connection host prefix_length_bytes net prefix)
  unfolding open_connection
  Keeps-open_connection prefix = search (keeps_rules, Keeps-connecting) depth 10

  Keeps-opened : (o : Option HeaderReply) → Keeps I (opened host prefix_length_bytes net o)
  unfolding opened
  Keeps-opened none = search (keeps_rules) depth 10
  Keeps-opened (some reply) = search (keeps_rules) depth 10

  Keeps-or_failed : (b : Bool) → Keeps I (or_failed host prefix_length_bytes net b)
  unfolding or_failed
  Keeps-or_failed true = search (keeps_rules) depth 10
  Keeps-or_failed false = search (keeps_rules) depth 10

  Keeps-renaming : (src dst : Text) → Keeps I (call (net.send_rename src dst))
  Keeps-renaming src dst = Keeps-call I _ (kept.send_rename src dst)

  Keeps-seal_stale_remote :
      (prefix : Bytes) → Keeps I (seal_stale_remote host prefix_length_bytes net prefix)
  unfolding seal_stale_remote
  Keeps-seal_stale_remote prefix =
      search (keeps_rules, Keeps-renaming, Keeps-or_failed, Keeps-open_connection, Keeps-opened)
        depth 12

  Keeps-connect : Keeps I (connect host prefix_length_bytes net)
  unfolding connect
  Keeps-connect =
      search
        (
          keeps_rules, Keeps-read_prefix, Keeps-open_connection, Keeps-opened,
          Keeps-seal_stale_remote, Keeps-seek,
        )
        depth 12

  Keeps-retry :
      (rounds backoff : ℕ) (prefix : Bytes)
      → Keeps I (retry host prefix_length_bytes net rounds backoff prefix)
  unfolding retry
  Keeps-retry zero backoff prefix = search (keeps_rules) depth 10
  Keeps-retry (suc rounds) backoff prefix =
      Keeps-bind I _ _ (Keeps-open_connection prefix) λ answer.
        Keeps-option I answer _ _
          (λ reply. Keeps-bind I _ _ (Keeps-opened (some reply)) λ x. Keeps-pure I tt)
          (Keeps-bind I _ _ Keeps-sleep λ x. Keeps-retry rounds (next_backoff backoff) prefix)

  Keeps-reconnect : (rounds : ℕ) → Keeps I (reconnect host prefix_length_bytes net rounds)
  unfolding reconnect
  Keeps-reconnect rounds = search (keeps_rules, Keeps-read_prefix, Keeps-retry) depth 10

  Keeps-resume : (rounds : ℕ) (b : Bool) → Keeps I (resume host prefix_length_bytes net rounds b)
  unfolding resume resumed
  Keeps-resume rounds b = search (keeps_rules, Keeps-reconnect) depth 12

  Keeps-count_sent : (n : ℕ) → Keeps I (count_sent host prefix_length_bytes net n)
  unfolding count_sent
  Keeps-count_sent n = search (keeps_rules) depth 10

  Keeps-at_end : (b : Bool) → Keeps I (at_end host prefix_length_bytes net b)
  unfolding at_end
  Keeps-at_end b = search (keeps_rules) depth 10

  -- The frame that is sent holds what was just read.
  sent-kept :
      (sent : Bool) (n : ℕ) (again failure : Act net.State Bool)
      → Keeps I again
      → Keeps I failure
      → Keeps I (if sent then (count_sent host prefix_length_bytes net n >> again) else failure)
  sent-kept sent n again failure ka kf =
      Keeps-if I sent _ failure (Keeps-bind I _ _ (Keeps-count_sent n) λ x. ka) kf

  send-kept :
      (pos : ℕ) (again failure : Act net.State Bool) (g : Segment) (s : net.State)
      → Keeps I again
      → Keeps I failure
      → I s
      → I
          (send host prefix_length_bytes net pos
            (read_at pos chunk_size (net.source s))
            again
            failure
            g
            s).1.1
  unfolding send ◌>>=◌ call continue
  send-kept pos again failure g s ka kf i =
      let chunk : Bytes = read_at pos chunk_size (net.source s) in
      (sent-kept (net.send_data pos chunk s).0 (length chunk) again failure ka kf).at g
        (net.send_data pos chunk s).1 (kept.send_data pos s i)

  if-kept :
      (b : Bool) (m n : Act net.State Bool) (g : Segment) (s : net.State)
      → I (m g s).1.1
      → I (n g s).1.1
      → I ((if b then m else n) g s).1.1
  if-kept true m n g s im i = im
  if-kept false m n g s im i = i

  Keeps-drain_loop :
      (rounds : ℕ) (b : Bool) → Keeps I (drain_loop host prefix_length_bytes net rounds b)
  unfolding drain_loop read ◌>>=◌ gets asks pure modify
  Keeps-drain_loop zero b = Keeps-raise I unfinished
  Keeps-drain_loop (suc rounds) b = record {
    at = λ g s i.
        let chunk : Bytes = read_at g.position chunk_size (net.source s) in
        let g' : Segment = record g { position = g.position + length chunk } in
        let again : Act net.State Bool = drain_loop host prefix_length_bytes net rounds true in
        let failure : Act net.State Bool = resume host prefix_length_bytes net rounds b in
        if-kept (is_empty chunk) (at_end host prefix_length_bytes net b)
          (send host prefix_length_bytes net g.position chunk again failure) g' s
          ((Keeps-at_end b).at g' s i)
          (send-kept g.position again failure g' s (Keeps-drain_loop rounds true)
            (Keeps-resume rounds b) i);
  }

  Keeps-drain_available :
      (rounds : ℕ) → Keeps I (drain_available host prefix_length_bytes net rounds)
  unfolding drain_available
  Keeps-drain_available rounds = Keeps-drain_loop rounds false

  Keeps-reconnect_to :
      (rounds : ℕ) (dst : Text) → Keeps I (reconnect_to host prefix_length_bytes net rounds dst)
  unfolding reconnect_to
  Keeps-reconnect_to rounds dst = search (keeps_rules, Keeps-reconnect) depth 10

  Keeps-rename :
      (rounds : ℕ) (src dst : Text) (fail_closed : Bool)
      → Keeps I (rename host prefix_length_bytes net rounds src dst fail_closed)
  unfolding rename
  Keeps-rename zero src dst fail_closed = Keeps-raise I unfinished
  Keeps-rename (suc rounds) src dst fail_closed =
      Keeps-bind I _ _ (Keeps-renaming src dst) λ renamed.
        Keeps-if I renamed _ _ (Keeps-pure I tt) (
          Keeps-if I fail_closed _ _ (Keeps-raise I end_segment) (
            Keeps-bind I _ _ (Keeps-reconnect_to rounds dst) λ n.
              Keeps-if I (leb 0 n) _ _ (Keeps-pure I tt) (Keeps-rename rounds src dst fail_closed)))

  Keeps-do_seal :
      (rounds : ℕ) (seal : Seal) → Keeps I (do_seal host prefix_length_bytes net rounds seal)
  unfolding do_seal
  Keeps-do_seal rounds seal = search (keeps_rules, Keeps-drain_available, Keeps-rename) depth 12

  Keeps-sha13_for : (iso_dt : Text) → Keeps I (call (net.sha13_for iso_dt))
  Keeps-sha13_for iso_dt = Keeps-call I _ (kept.sha13_for iso_dt)

  Keeps-drain_until_sha13 :
      (rounds : ℕ) (iso_dt : Text)
      → Keeps I (drain_until_sha13 host prefix_length_bytes net rounds iso_dt)
  unfolding drain_until_sha13
  Keeps-drain_until_sha13 zero iso_dt = Keeps-raise I unfinished
  Keeps-drain_until_sha13 (suc rounds) iso_dt = Keeps-bind I _ _ (Keeps-drain_available rounds) λ b.
      Keeps-bind I _ _ (Keeps-sha13_for iso_dt) λ sha13.
        Keeps-option I sha13 _ _ (λ sha. Keeps-pure I sha)
          (Keeps-bind I _ _ Keeps-sleep λ x. Keeps-drain_until_sha13 rounds iso_dt)

  Keeps-drain_until_idle :
      (rounds : ℕ) (idle : net.State → Bool)
      → Keeps I (drain_until_idle host prefix_length_bytes net rounds idle)
  unfolding drain_until_idle
  Keeps-drain_until_idle zero idle = Keeps-raise I unfinished
  Keeps-drain_until_idle (suc rounds) idle = Keeps-bind I _ _ (Keeps-drain_available rounds) λ sent.
      Keeps-bind I _ _ (Keeps-asks I idle) λ idle_long.
        Keeps-if I (not sent && idle_long) _ _ (Keeps-pure I tt)
          (Keeps-bind I _ _ Keeps-sleep λ x. Keeps-drain_until_idle rounds idle)

  Keeps-closing_phase :
      (rounds : ℕ) (idle : net.State → Bool) (seal : Seal)
      → Keeps I (closing_phase host prefix_length_bytes net rounds idle seal)
  unfolding closing_phase close_orphan finalize
  Keeps-closing_phase rounds idle seal =
      search
        (
          keeps_rules, Keeps-drain_available, Keeps-drain_until_sha13, Keeps-drain_until_idle,
          Keeps-rename,
        )
        depth 12

  Keeps-pause_if : (b : Bool) → Keeps I (pause_if host prefix_length_bytes net b)
  unfolding pause_if
  Keeps-pause_if true = Keeps-sleep
  Keeps-pause_if false = Keeps-pure I tt

  Keeps-live_round :
      (rounds : ℕ) (asked : net.State → Option Seal)
      → Keeps I (live_round host prefix_length_bytes net rounds asked)
  unfolding live_round
  Keeps-live_round rounds asked =
      search (keeps_rules, Keeps-drain_available, Keeps-pause_if) depth 12

  Keeps-live_phase :
      (rounds : ℕ) (asked : net.State → Option Seal)
      → Keeps I (live_phase host prefix_length_bytes net rounds asked)
  unfolding live_phase
  Keeps-live_phase zero asked = Keeps-raise I unfinished
  Keeps-live_phase (suc rounds) asked = Keeps-bind I _ _ (Keeps-asks I asked) λ seal.
      Keeps-option I seal _ _ (λ x. Keeps-bind I _ _ (Keeps-modify I _) λ y. Keeps-pure I x)
        (Keeps-bind I _ _ (Keeps-live_round rounds asked) λ x. Keeps-live_phase rounds asked)

  -- A whole run keeps what the calls keep, however it ends.
  pub run-kept :
      (rounds : ℕ) (idle : net.State → Bool) (asked : net.State → Option Seal) (g : Segment)
      (s : net.State)
      → I s
      → I (run host prefix_length_bytes net rounds idle asked g s).1.1
  unfolding run
  run-kept rounds idle asked g s =
      let whole : Keeps I (run host prefix_length_bytes net rounds idle asked) =
        search (keeps_rules, Keeps-connect, Keeps-live_phase, Keeps-do_seal, Keeps-closing_phase)
          depth 12 in
      whole.at g s

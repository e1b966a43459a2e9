-- ===== src/Agent/Segment.antt =====
-- coordinator.py, `Segment`: how one file is shipped to one target, sealed and finalized. The
-- loops that wait for the surroundings take a number of rounds, and end as `unfinished` where it
-- runs out.
use logline.Base.{
  ◌||◌, ℕ, zero, suc, ◌+◌, ◌-◌, ◌*◌, ◌^◌, min, Bool, true, false, ◌&&◌, not, Option, none, some,
  ◌++◌, ltb, leb, if◌then◌else◌, length, take, drop, Bytes, Text, text_eq, is_empty, codes,
}
use logline.Host.{Host, sha1_b64}
use logline.Agent.Network.{
  HeaderReply, Network, Seal, Segment, end_segment, failed, unfinished, Act, pure, raise, gets,
  call, asks, modify, ◌>>=◌, ◌>>◌,
}

abbrev pub chunk_size : ℕ
chunk_size = 2 ^ 20

-- In milliseconds.
abbrev pub reconnect_backoff_min : ℕ
reconnect_backoff_min = 1000

abbrev pub reconnect_backoff_max : ℕ
reconnect_backoff_max = 30000

unfoldable pub next_backoff : ℕ → ℕ
next_backoff backoff = min (backoff * 2) reconnect_backoff_max

-- `file_stream.read(n)` at a position.
unfoldable pub read_at : ℕ → ℕ → Bytes → Bytes
read_at pos n source = take n (drop pos source)

-- `reply.get('prefix_sha1') not in (None, sha1_b64(prefix))`
unfoldable pub prefix_differs : Host → Option Text → Bytes → Bool
prefix_differs host none prefix = false
prefix_differs host (some sha) prefix = not (text_eq sha (sha1_b64 host prefix))

module _ (host : Host) (prefix_length_bytes : ℕ) (net : Network) where
  -- `self.file_stream.seek(n)`
  unfoldable pub seek : ℕ → Act net.State Unit
  unfolding modify
  seek n = modify (λ g. record g { position = n })

  -- `self.file_stream.read(n)`
  unfoldable pub read : ℕ → Act net.State Bytes
  unfolding read_at modify
  read n = do
    pos ← gets (λ g. g.position)
    chunk ← asks (λ s. read_at pos n (net.source s))
    modify (λ g. record g { position = pos + length chunk })
    pure chunk

  unfoldable pub read_prefix : Act net.State Bytes
  unfolding seek read
  read_prefix = do seek 0; read prefix_length_bytes

  -- `self.conn = await self.server(…)`: the header reply, none where it raises.
  unfoldable pub open_connection : Bytes → Act net.State (Option HeaderReply)
  open_connection prefix = do target ← gets (λ g. g.target); call (net.connect target prefix)

  -- The rest of a method whose connection must have opened.
  unfoldable pub opened : Option HeaderReply → Act net.State HeaderReply
  unfolding modify
  opened none = raise failed
  opened (some reply) = do modify (λ g. record g { header_length = reply.length }); pure reply

  unfoldable pub or_failed : Bool → Act net.State Unit
  or_failed true = pure tt
  or_failed false = raise failed

  unfoldable pub stale_name : Text → Bool → Text → Text
  stale_name target ephemeral iso_dt =
      if ephemeral
      then target ++ codes ".orphan"
      else target ++ (codes "." ++ (iso_dt ++ codes ".orphan"))

  unfoldable pub seal_stale_remote : Bytes → Act net.State Unit
  unfolding open_connection opened or_failed stale_name
  seal_stale_remote prefix = do
    target ← gets (λ g. g.target)
    ephemeral ← gets (λ g. g.ephemeral)
    iso_dt ← asks net.utc_iso_dt
    renamed ← call (net.send_rename target (stale_name target ephemeral iso_dt))
    or_failed renamed
    reply ← open_connection prefix
    _ ← opened reply
    pure tt

  unfoldable pub is_stale : Segment → HeaderReply → Bytes → Bool
  unfolding prefix_differs
  is_stale g reply prefix =
      g.role_live && ltb 0 reply.length && prefix_differs host reply.prefix_sha1 prefix

  unfoldable pub connect : Act net.State Unit
  unfolding read_prefix open_connection opened is_stale seal_stale_remote seek
  connect = do
    prefix ← read_prefix
    answer ← open_connection prefix
    reply ← opened answer
    stale ← gets (λ g. is_stale g reply prefix)
    if stale then seal_stale_remote prefix else pure tt
    length ← gets (λ g. g.header_length)
    seek length

  -- The loop of `_reconnect`; each failure is followed by a longer pause.
  unfoldable pub retry : ℕ → ℕ → Bytes → Act net.State Unit
  unfolding open_connection opened next_backoff
  retry zero backoff prefix = raise unfinished
  retry (suc rounds) backoff prefix = do
    answer ← open_connection prefix
    let again = retry rounds (next_backoff backoff) prefix
    elim answer [
      | some reply ↦ (do _ ← opened (some reply); pure tt)
      | none ↦ (do _ ← call (λ s. (tt, net.sleep s)); again)
    ]

  unfoldable pub reconnect : ℕ → Act net.State Unit
  unfolding read_prefix retry
  reconnect rounds = do prefix ← read_prefix; retry rounds reconnect_backoff_min prefix

  unfoldable pub stream_lag : Segment → Bytes → ℕ
  stream_lag g source = length source - g.position

  unfoldable pub resumed : ℕ → Bool → Act net.State Bool
  unfolding reconnect seek
  resumed rounds sent_any = do
    reconnect rounds
    length ← gets (λ g. g.header_length)
    seek length
    pure sent_any

  -- What follows a `send_data` that raised.
  unfoldable pub resume : ℕ → Bool → Act net.State Bool
  unfolding resumed
  resume rounds sent_any = do
    no_resume ← gets (λ g. g.no_resume)
    if no_resume then raise end_segment else resumed rounds sent_any

  -- What follows a `send_data` that returned.
  unfoldable pub count_sent : ℕ → Act net.State Unit
  unfolding stream_lag modify
  count_sent n = do
    source ← asks net.source
    modify (λ g. record g { bytes_read = g.bytes_read + n; lag = stream_lag g source })

  unfoldable pub at_end : Bool → Act net.State Bool
  unfolding modify
  at_end sent_any = do modify (λ g. record g { lag = 0 }); pure sent_any

  -- A chunk that was read at a position; `again` is the next round of the loop.
  unfoldable pub send : ℕ → Bytes → Act net.State Bool → Act net.State Bool → Act net.State Bool
  unfolding count_sent
  send pos chunk again failure = do
    sent ← call (net.send_data pos chunk)
    if sent then (count_sent (length chunk) >> again) else failure

  unfoldable pub drain_loop : ℕ → Bool → Act net.State Bool
  unfolding read resume at_end send
  drain_loop zero sent_any = raise unfinished
  drain_loop (suc rounds) sent_any = do
    pos ← gets (λ g. g.position)
    chunk ← read chunk_size
    let again = drain_loop rounds true
    if is_empty chunk then at_end sent_any else send pos chunk again (resume rounds sent_any)

  unfoldable pub drain_available : ℕ → Act net.State Bool
  unfolding drain_loop
  drain_available rounds = drain_loop rounds false

  unfoldable pub reconnect_to : ℕ → Text → Act net.State ℕ
  unfolding reconnect modify
  reconnect_to rounds dst = do
    modify (λ g. record g { target = dst })
    reconnect rounds
    gets (λ g. g.header_length)

  -- `_rename`. Every length passes the test of the reply's length, `>= 0`.
  unfoldable pub rename : ℕ → Text → Text → Bool → Act net.State Unit
  unfolding reconnect_to
  rename zero src dst fail_closed = raise unfinished
  rename (suc rounds) src dst fail_closed = do
    renamed ← call (net.send_rename src dst)
    let again = rename rounds src dst fail_closed
    let recover = (do length ← reconnect_to rounds dst; if leb 0 length then pure tt else again)
    if renamed then pure tt else if fail_closed then raise end_segment else recover

  -- `_do_seal`, for the seal that was asked for.
  unfoldable pub do_seal : ℕ → Seal → Act net.State Unit
  unfolding drain_available rename modify
  do_seal rounds seal = do
    _ ← drain_available rounds
    target ← gets (λ g. g.target)
    ephemeral ← gets (λ g. g.ephemeral)
    rename rounds target seal.seal_name (ephemeral && seal.is_orphan)
    modify (λ g. record g { target = seal.seal_name; role_live = false; sealed = true })

  unfoldable pub drain_until_sha13 : ℕ → Text → Act net.State Text
  unfolding drain_available
  drain_until_sha13 zero iso_dt = raise unfinished
  drain_until_sha13 (suc rounds) iso_dt = do
    _ ← drain_available rounds
    sha13 ← call (net.sha13_for iso_dt)
    let again = drain_until_sha13 rounds iso_dt
    elim sha13 [ some sha ↦ pure sha | none ↦ (do _ ← call (λ s. (tt, net.sleep s)); again) ]

  -- `_drain_until_idle`; that the file was idle for long enough is the environment's to say.
  unfoldable pub drain_until_idle : ℕ → (net.State → Bool) → Act net.State Unit
  unfolding drain_available
  drain_until_idle zero idle = raise unfinished
  drain_until_idle (suc rounds) idle = do
    sent ← drain_available rounds
    idle_long ← asks idle
    let again = drain_until_idle rounds idle
    if not sent && idle_long then pure tt else (do _ ← call (λ s. (tt, net.sleep s)); again)

  -- The two branches of `_closing_phase`.
  unfoldable pub close_orphan : ℕ → (net.State → Bool) → Act net.State Unit
  unfolding drain_until_idle modify
  close_orphan rounds idle = do
    modify (λ g. record g { no_resume = g.ephemeral })
    drain_until_idle rounds idle

  unfoldable pub finalize : ℕ → Seal → Act net.State Unit
  unfolding drain_available rename drain_until_sha13 modify
  finalize rounds seal = do
    sha13 ← drain_until_sha13 rounds seal.iso_dt
    _ ← drain_available rounds
    rename rounds seal.seal_name (seal.seal_name ++ (codes "." ++ sha13)) false
    modify (λ g. record g { target = seal.seal_name ++ (codes "." ++ sha13) })

  unfoldable pub closing_phase : ℕ → (net.State → Bool) → Seal → Act net.State Unit
  unfolding close_orphan finalize
  closing_phase rounds idle seal =
      if seal.is_orphan then close_orphan rounds idle else finalize rounds seal

  unfoldable pub is_asked : Option Seal → Bool
  is_asked none = false
  is_asked (some seal) = true

  unfoldable pub pause_if : Bool → Act net.State Unit
  pause_if true = call (λ s. (tt, net.sleep s))
  pause_if false = pure tt

  -- One round of `_live_phase`: it pauses where nothing was sent and, for the agent's own log,
  -- always, but not where the seal was asked for meanwhile.
  unfoldable pub live_round : ℕ → (net.State → Option Seal) → Act net.State Unit
  unfolding drain_available is_asked pause_if
  live_round rounds asked = do
    sent ← drain_available rounds
    is_own_log ← gets (λ g. g.is_own_log)
    now_asked ← asks (λ s. is_asked (asked s))
    pause_if (not now_asked && (is_own_log || not sent))

  -- `_live_phase`: the coordinator asks for the seal while the segment waits or drains.
  unfoldable pub live_phase : ℕ → (net.State → Option Seal) → Act net.State Seal
  unfolding live_round modify
  live_phase zero asked = raise unfinished
  live_phase (suc rounds) asked = do
    seal ← asks asked
    let again = live_phase rounds asked
    elim seal [
      | some seal ↦ (do modify (λ g. record g { pending_seal = some seal }); pure seal)
      | none ↦ (do live_round rounds asked; again)
    ]

  -- The body of `run`.
  unfoldable pub run : ℕ → (net.State → Bool) → (net.State → Option Seal) → Act net.State Unit
  unfolding connect live_phase do_seal closing_phase
  run rounds idle asked = do
    connect
    seal ← live_phase rounds asked
    do_seal rounds seal
    closing_phase rounds idle seal

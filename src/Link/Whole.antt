-- ===== src/Link/Whole.antt =====
-- A drain over the server's own code.
use logline.Base.{
  ℕ, zero, suc, ◌+◌, ◌-◌, ◌<◌, ◌≤◌, ◌≡◌, refl, sym, ap, ◌∙◌, true, false, some, List, [], ◌∷◌, ◌++◌,
  append-nil, arith, ltb, length, length-append, length-take, length-drop, drop, Bytes, Text, codes,
}
use logline.Fs
use logline.Fs.{FilePath, Fs, Handle}
use logline.Fs.Laws.{write_appends}
use logline.Host.{Host}
use logline.Server.World.{World, ok}
use logline.Server.Serve.{Session}
use logline.Agent.Client.{data_frame}
use logline.Agent.Network.{Segment, done}
use logline.Agent.Segment.{chunk_size, read_at, drain_available}
use logline.Agent.Copy.{IsPrefix, IsCopy}
use logline.Agent.Ships.{IsDelivered, drain_available-delivers}
use logline.Link.Frames.{IsFaithful, max_bytes}
use logline.Link.Line.{
  delivered, Turn, State, next_turn, took, serve_frame, reached, settled, exchange, sent, line,
}
use logline.Link.Delivery.{Does, data_frame-Serves, read_reply-ok}

-- The next calls go through, and the log file is at rest meanwhile.
abbrev pub AllDelivered : ℕ → List Turn → Type 0
AllDelivered zero ts = Unit {0}
AllDelivered (suc n) [] = false ≡ true
AllDelivered (suc n) (t ∷ ts) = (t.fault ≡ delivered) × (t.grown ≡ []) × AllDelivered n ts

-- The connection has the file open at its end, the next calls go through, and every frame of the log
-- file fits into a `bytes` object.
pub record IsOnline (host : Host) (i n : ℕ) (st : State) : Type 0 where
  pub handle : Handle
  pub dst_path : FilePath
  pub session : st.session ≡ some (record { f = some handle; dst_path = dst_path })
  pub inode : handle.inode ≡ i
  pub at_end : handle.position ≡ length (st.server.fs.content i)
  pub turns : AllDelivered n st.turns
  pub within : handle.position ≤ length st.source
  pub fits :
      (offset : ℕ)
      → offset ≤ length st.source
      → length (data_frame host offset (read_at offset chunk_size st.source)) < max_bytes

abbrev pub copy_of : ℕ → State → Bytes
copy_of i st = st.server.fs.content i

-- A write at the end of an inode.
write_appends_at :
    (i : ℕ) (h : Handle) (new : Bytes) (fs : Fs)
    → h.inode ≡ i
    → h.position ≡ length (fs.content i)
    → ((Fs.write h new fs).1.content i ≡ fs.content i ++ new)
      × ((Fs.write h new fs).0.position ≡ length ((Fs.write h new fs).1.content i))
      × ((Fs.write h new fs).0.inode ≡ i)
write_appends_at i h new fs same e =
    let (a, at, kept) = write_appends h new fs (rw same e) in
    (rw (← same) a, rw (← same) at, kept ∙ same)

-- A read gives no more than there is.
length-read_at : (k n : ℕ) (s : Bytes) → length (read_at k n s) ≤ length s - k
unfolding read_at
length-read_at k n s = omega (arith, length-take n (drop k s), length-drop k s)

module _ (host : Host) (laws : IsFaithful host) (dst_dir : FilePath) (now : Text) (i : ℕ) where
  next_delivered :
      (n : ℕ) (ts : List Turn) → AllDelivered (suc n) ts → (next_turn ts).0.fault ≡ delivered
  unfolding next_turn
  next_delivered n [] a = absurd (cc)
  next_delivered n (t ∷ ts) a = a.0

  next_at_rest : (n : ℕ) (ts : List Turn) → AllDelivered (suc n) ts → (next_turn ts).0.grown ≡ []
  unfolding next_turn
  next_at_rest n [] a = absurd (cc)
  next_at_rest n (t ∷ ts) a = a.1

  later_delivered :
      (n : ℕ) (ts : List Turn) → AllDelivered (suc n) ts → AllDelivered n (next_turn ts).1
  unfolding next_turn
  later_delivered n [] a = absurd (cc)
  later_delivered n (t ∷ ts) a = a.2

  -- A frame that goes through, in terms of the server's answer.
  exchanged :
      (s : Session) (frame : Bytes) (st : State) (s' : Session)
      → let (r, w) = serve_frame host dst_dir s (reached frame st.server) in
        r ≡ ok s'
        → w.output ≡ codes "ok\n"
        → exchange host dst_dir (some s) delivered frame st
          ≡ (true, record st { server = w; session = some s' })
  unfolding exchange settled
  exchanged s frame st s' e o = rw (o, e, read_reply-ok host) refl

  -- The same, of the call.
  answered :
      (s : Session) (frame : Bytes) (st : State) (s' : Session)
      → let (r, w) = serve_frame host dst_dir s (reached frame st.server) in
        st.session ≡ some s
        → (next_turn st.turns).0.fault ≡ delivered
        → length frame < max_bytes
        → r ≡ ok s'
        → w.output ≡ codes "ok\n"
        → sent host dst_dir frame st ≡ (true, took (record st { server = w; session = some s' }))
  unfolding sent
  answered s frame st s' e f l a o =
      let fits : ltb (length frame) max_bytes ≡ true = ground arith in
      let through =
        ap (λ c. exchange host dst_dir c (next_turn st.turns).0.fault frame st) e
        ∙ (ap (λ k. exchange host dst_dir (some s) k frame st) f ∙ exchanged s frame st s' a o) in
      rw fits (ap (λ x. (x.0, took x.1)) through)

  module _ (n : ℕ) (st : State) (j : IsOnline host i (suc n) st) where
    abbrev chunk : Bytes
    chunk = read_at j.handle.position chunk_size st.source

    abbrev frame : Bytes
    frame = data_frame host j.handle.position chunk

    abbrev after : World
    after =
        (serve_frame host dst_dir (record { f = some j.handle; dst_path = j.dst_path })
          (reached frame st.server)).1

    abbrev moved : Handle
    moved = (Fs.write j.handle chunk st.server.fs).0

    abbrev answer : State
    answer = took (record st {
      server = after;
      session = some (record { f = some moved; dst_path = j.dst_path });
    })

    served :
        Does
          (serve_frame host dst_dir (record { f = some j.handle; dst_path = j.dst_path }))
          (reached frame st.server)
          (record { f = some moved; dst_path = j.dst_path })
          (Fs.write j.handle chunk st.server.fs).1
          (codes "ok\n")
    unfolding reached
    served =
        data_frame-Serves host laws dst_dir j.dst_path j.handle chunk (reached frame st.server)
          (j.fits j.handle.position j.within) refl

    sent-answer : sent host dst_dir frame st ≡ (true, answer)
    sent-answer =
        answered (record { f = some j.handle; dst_path = j.dst_path }) frame st _ j.session
          (next_delivered n st.turns j.turns) (j.fits j.handle.position j.within) served.returns
          served.written

    source-answer : answer.source ≡ st.source
    unfolding took
    source-answer = rw (next_at_rest n st.turns j.turns) (append-nil st.source)

    appends : copy_of i answer ≡ copy_of i st ++ chunk
    unfolding took
    appends =
        ap (λ (fs : Fs). fs.content i) served.disk
        ∙ (write_appends_at i j.handle chunk st.server.fs j.inode j.at_end).0

    moved_within : moved.position ≤ length st.source
    moved_within =
        let (a, at, same) = write_appends_at i j.handle chunk st.server.fs j.inode j.at_end in
        let grown : moved.position ≡ length (copy_of i st) + length chunk =
          at ∙ (ap length a ∙ length-append (copy_of i st) chunk) in
        omega
          (arith, grown, j.within, j.at_end, length-read_at j.handle.position chunk_size st.source)

    answer-IsOnline : IsOnline host i n answer
    unfolding took
    answer-IsOnline =
        let (a, at, same) = write_appends_at i j.handle chunk st.server.fs j.inode j.at_end in
        record {
          handle = moved;
          dst_path = j.dst_path;
          session = refl;
          inode = same;
          at_end = at ∙ sym (ap (λ (fs : Fs). length (fs.content i)) served.disk);
          turns = later_delivered n st.turns j.turns;
          within = rw source-answer moved_within;
          fits = λ offset. rw source-answer (j.fits offset);
        }

    delivers :
        let chunk = read_at (length (copy_of i st)) chunk_size st.source in
        let (b, t) = sent host dst_dir (data_frame host (length (copy_of i st)) chunk) st in
        IsDelivered (line host dst_dir now) (copy_of i) chunk st b t × IsOnline host i n t
    delivers =
        rw (← j.at_end, sent-answer)
          (
            record { acknowledged = refl; appended = appends; at_rest = source-answer },
            answer-IsOnline,
          )

-- Where json and gzip read back what they wrote, the frames of the log file fit into a `bytes` object,
-- the connection has the server's file open at its end, that file is a prefix of the log file, the
-- next calls go through while the log file is at rest, and there are more of them than bytes are
-- missing, a drain from there on the server's own code returns, says whether anything was missing,
-- and leaves the whole log file at the server.
pub drain_available-whole :
    (host : Host) (dst_dir : FilePath) (now : Text) (prefix_length_bytes rounds i : ℕ) (g : Segment)
    (st : State)
    → IsFaithful host
    → IsOnline host i rounds st
    → IsPrefix (copy_of i st) st.source
    → g.position ≡ length (copy_of i st)
    → length st.source - length (copy_of i st) < rounds
    → let r = drain_available host prefix_length_bytes (line host dst_dir now) rounds g st in
      (r.0 ≡ done (ltb (length (copy_of i st)) (length st.source))) × (copy_of i r.1.1 ≡ st.source)
unfolding IsCopy
drain_available-whole host dst_dir now prefix_length_bytes rounds i g st laws j p at h =
    drain_available-delivers host prefix_length_bytes (line host dst_dir now) (copy_of i)
      (IsOnline host i) (record { delivers = delivers host laws dst_dir now i }) rounds g st p at h
      j

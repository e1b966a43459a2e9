-- ===== src/Agent/Ships.antt =====
-- coordinator.py, `_drain_available`: with a server that answers and a file at rest, all that can
-- be read is shipped.
use logline.Base.{
  ℕ, zero, suc, ◌+◌, ◌-◌, ◌<◌, ◌≡◌, refl, ap, sym, ◌∙◌, inl, inr, Bool, true, false, ◌||◌, [], ◌∷◌,
  ◌++◌, append-nil, arith, ltb, length, length-append, take, drop, drop-append_self, Bool-cases,
  Bytes, is_empty,
}
use logline.Host.{Host}
use logline.Agent.Network.{Network, Segment, done, pure, gets, call, asks, modify, continue, ◌>>=◌}
use logline.Agent.Segment.{
  chunk_size, read_at, read, stream_lag, at_end, count_sent, send, drain_loop, drain_available,
}
use logline.Agent.Copy.{IsPrefix, append_read, IsCopy}

-- A frame at the end of the server's file is appended and acknowledged, and the file that is read
-- stays.
pub record IsDelivered (net : Network) (remote : net.State → Bytes) (chunk : Bytes) (s : net.State)
    (b : Bool) (t : net.State) : Type 0 where
  pub acknowledged : b ≡ true
  pub appended : remote t ≡ remote s ++ chunk
  pub at_rest : net.source t ≡ net.source s

-- Surroundings that deliver a number of frames: the next one, and then one less.
pub record IsDelivering (net : Network) (remote : net.State → Bytes)
    (online : ℕ → net.State → Type 0) : Type 0 where
  pub delivers :
      (n : ℕ) (s : net.State)
      → online (suc n) s
      → let chunk = read_at (length (remote s)) chunk_size (net.source s) in
        let (b, t) = net.send_data (length (remote s)) chunk s in
        IsDelivered net remote chunk s b t × online n t

module _ (host : Host) (prefix_length_bytes : ℕ) (net : Network) (remote : net.State → Bytes)
    (online : ℕ → net.State → Type 0) (delivering : IsDelivering net remote online) where
  step_end :
      (rounds : ℕ) (b : Bool) (g : Segment) (s : net.State)
      → is_empty (read_at g.position chunk_size (net.source s)) ≡ true
      → ((drain_loop host prefix_length_bytes net (suc rounds) b g s).0 ≡ done b)
        × ((drain_loop host prefix_length_bytes net (suc rounds) b g s).1.1 ≡ s)
  unfolding drain_loop read ◌>>=◌ gets asks pure modify continue at_end
  step_end rounds b g s e = (rw e, rw e)

  abbrev after_send : ℕ → Segment → net.State → Bytes → Segment
  after_send pos g s chunk = record g {
    position = pos + length chunk;
    bytes_read = g.bytes_read + length chunk;
    lag = length (net.source s) - (pos + length chunk);
  }

  step_send :
      (rounds pos : ℕ) (b : Bool) (g : Segment) (s : net.State)
      → let chunk = read_at pos chunk_size (net.source s) in
        g.position ≡ pos
        → is_empty chunk ≡ false
        → (net.send_data pos chunk s).0 ≡ true
        → drain_loop host prefix_length_bytes net (suc rounds) b g s
          ≡ drain_loop host prefix_length_bytes net rounds true
              (after_send pos g (net.send_data pos chunk s).1 chunk)
              (net.send_data pos chunk s).1
  unfolding drain_loop read ◌>>=◌ gets asks pure modify continue send call count_sent stream_lag
  step_send rounds pos b g s at e d = rw (at, e, d)

  -- What is read at the end of the copy is empty where the copy is whole.
  read_rest :
      (n : ℕ) (r source : Bytes) (p : IsPrefix r source)
      → read_at (length r) n source ≡ take n p.rest
  unfolding read_at
  read_rest n r source p =
      let tail : drop (length r) source ≡ p.rest = rw p.whole (drop-append_self r p.rest) in
      ap (take n) tail

  nothing_left : (n : ℕ) (t : Bytes) → 0 < n → is_empty (take n t) ≡ true → t ≡ []
  nothing_left n [] h e = refl
  nothing_left zero (c ∷ t) h e = absurd (omega arith)
  nothing_left (suc n) (c ∷ t) h e = absurd (cc)

  something_read : (t : Bytes) → is_empty t ≡ false → 0 < length t
  something_read [] e = absurd (cc)
  something_read (c ∷ t) e = omega arith

  all_sent :
      (rounds : ℕ) (b : Bool) (g : Segment) (s : net.State)
      → IsCopy net remote s
      → g.position ≡ length (remote s)
      → is_empty (read_at (length (remote s)) chunk_size (net.source s)) ≡ true
      → let r = drain_loop host prefix_length_bytes net (suc rounds) b g s in
        (r.0 ≡ done (b || ltb (length (remote s)) (length (net.source s))))
        × (remote r.1.1 ≡ net.source s)
  unfolding IsCopy
  all_sent rounds b g s c at e =
      let none_left : c.rest ≡ [] =
        nothing_left chunk_size c.rest (omega arith)
          (ap is_empty (sym (read_rest chunk_size _ _ c)) ∙ e) in
      let whole : net.source s ≡ remote s = c.whole ∙ (rw none_left (append-nil (remote s))) in
      let (finished, same) = step_end rounds b g s (rw at e) in
      let more : ltb (length (remote s)) (length (net.source s)) ≡ false =
        rw whole (ground arith) in
      let or_false : (b || false) ≡ b = elim (Bool-cases b) [
        | inl t ↦ rw t refl
        | inr f ↦ rw f refl
      ] in
      (finished ∙ ap done (rw more (sym or_false)), ap remote same ∙ sym whole)

  drain_loop-ships :
      (rounds : ℕ) (b : Bool) (g : Segment) (s : net.State)
      → IsCopy net remote s
      → g.position ≡ length (remote s)
      → length (net.source s) - length (remote s) < rounds
      → online rounds s
      → let r = drain_loop host prefix_length_bytes net rounds b g s in
        (r.0 ≡ done (b || ltb (length (remote s)) (length (net.source s))))
        × (remote r.1.1 ≡ net.source s)
  unfolding IsCopy
  drain_loop-ships zero b g s c at h j = absurd (omega arith)
  drain_loop-ships (suc rounds) b g s c at h j =
      let chunk : Bytes = read_at (length (remote s)) chunk_size (net.source s) in
      let t : net.State = (net.send_data (length (remote s)) chunk s).1 in
      let (d, j') = delivering.delivers rounds s j in
      elim (Bool-cases (is_empty chunk)) [
        | inl empty ↦ all_sent rounds b g s c at empty
        | inr more ↦
            let longer : IsPrefix (remote s ++ chunk) (net.source s) =
              append_read chunk_size (remote s) (net.source s) c in
            let some_read : 0 < length chunk = something_read chunk more in
            let size : length (net.source s)
                ≡ (length (remote s) + length chunk) + length longer.rest =
              ap length longer.whole
              ∙ (length-append (remote s ++ chunk) longer.rest
                  ∙ ap (λ k. k + length longer.rest) (length-append (remote s) chunk)) in
            let size_t : length (remote t) ≡ length (remote s) + length chunk =
              ap length d.appended ∙ length-append (remote s) chunk in
            let behind : ltb (length (remote s)) (length (net.source s)) ≡ true = ground arith in
            let or_true : true ≡ (b || true) = elim (Bool-cases b) [
              | inl p ↦ rw p refl
              | inr p ↦ rw p refl
            ] in
            let step = step_send rounds (length (remote s)) b g s at more d.acknowledged in
            let (finished, whole) =
              drain_loop-ships rounds true (after_send (length (remote s)) g t chunk) t
                (rw (d.appended, d.at_rest) longer) (sym size_t)
                (rw (d.at_rest, size_t) (omega arith)) j' in
            (
              ap (λ r. r.0) step ∙ (finished ∙ ap done (rw behind or_true)),
              ap (λ r. remote r.1.1) step ∙ (whole ∙ d.at_rest),
            )
      ]

  -- A drain from the end of the copy returns and leaves the whole file at the server, as long as the
  -- surroundings deliver.
  pub drain_available-delivers :
      (rounds : ℕ) (g : Segment) (s : net.State)
      → IsCopy net remote s
      → g.position ≡ length (remote s)
      → length (net.source s) - length (remote s) < rounds
      → online rounds s
      → let r = drain_available host prefix_length_bytes net rounds g s in
        (r.0 ≡ done (ltb (length (remote s)) (length (net.source s))))
        × (remote r.1.1 ≡ net.source s)
  unfolding drain_available
  drain_available-delivers rounds g s c at h j = drain_loop-ships rounds false g s c at h j

module _ (host : Host) (prefix_length_bytes : ℕ) (net : Network) (remote : net.State → Bytes)
    (delivers : (chunk : Bytes) (s : net.State)
      → let (b, t) = net.send_data (length (remote s)) chunk s in
        IsDelivered net remote chunk s b t) where
  -- With a server that appends and acknowledges every frame at the end of its file, and a file at
  -- rest whose copy is a prefix of it, a drain from the end of the copy returns: it leaves the whole
  -- file at the server, and says whether it sent anything. A round for each byte that is missing
  -- and one more are enough.
  pub drain_available-ships :
      (rounds : ℕ) (g : Segment) (s : net.State)
      → IsCopy net remote s
      → g.position ≡ length (remote s)
      → length (net.source s) - length (remote s) < rounds
      → let r = drain_available host prefix_length_bytes net rounds g s in
        (r.0 ≡ done (ltb (length (remote s)) (length (net.source s))))
        × (remote r.1.1 ≡ net.source s)
  drain_available-ships rounds g s c at h =
      drain_available-delivers host prefix_length_bytes net remote (λ n t. Unit {0})
        (record { delivers = λ n t j. (delivers _ t, tt) }) rounds g s c at h tt

-- ===== src/Agent/Copy.antt =====
-- coordinator.py, `Segment`: the copy of a file at the server, over any run of a segment.
use logline.Base.{
  ℕ, ◌≡◌, refl, ap, sym, ◌∙◌, ◌⊎◌, inl, inr, Bool, Option, [], ◌++◌, append_assoc, append-nil,
  length, take, drop, take-append-drop, drop-append_self, Bytes, Text,
}
use logline.Host.{Host}
use logline.Agent.Network.{Network, Seal, Segment}
use logline.Agent.Segment.{chunk_size, read_at, run}
use logline.Agent.Mirror.{run-kept}

-- The second text begins with the first.
pub record IsPrefix (s t : Bytes) : Type 0 where
  pub rest : Bytes
  pub whole : t ≡ s ++ rest

pub IsPrefix-refl : (s : Bytes) → IsPrefix s s
IsPrefix-refl s = record { rest = []; whole = sym (append-nil s) }

pub IsPrefix-trans : (s t u : Bytes) → IsPrefix s t → IsPrefix t u → IsPrefix s u
IsPrefix-trans s t u p q = record {
  rest = p.rest ++ q.rest;
  whole = q.whole ∙ (ap (λ x. x ++ q.rest) p.whole ∙ append_assoc s p.rest q.rest);
}

-- The bytes of the file at the end of its copy prolong the copy.
pub append_read :
    (n : ℕ) (r source : Bytes)
    → IsPrefix r source
    → IsPrefix (r ++ read_at (length r) n source) source
unfolding read_at
append_read n r source p =
    let tail : drop (length r) source ≡ p.rest = rw p.whole (drop-append_self r p.rest) in
    record {
      rest = drop n p.rest;
      whole = rw tail (
          p.whole
          ∙ (ap (λ x. r ++ x) (sym (take-append-drop n p.rest))
              ∙ sym (append_assoc r (take n p.rest) (drop n p.rest))));
    }

-- What a call may do to the file that is read and to the file at the server: the first only
-- grows, and the second stays or is a new one.
pub record IsMoved (net : Network) (remote : net.State → Bytes) (s t : net.State) : Type 0 where
  pub grows : IsPrefix (net.source s) (net.source t)
  pub kept : (remote t ≡ remote s) ⊎ (remote t ≡ [])

-- What a data frame may do: it is appended where its offset is the length of the file, or nothing
-- happens.
pub record IsSent (net : Network) (remote : net.State → Bytes) (pos : ℕ) (chunk : Bytes)
    (s t : net.State) : Type 0 where
  pub grows : IsPrefix (net.source s) (net.source t)
  pub appended :
      (remote t ≡ remote s) ⊎ ((pos ≡ length (remote s)) × (remote t ≡ remote s ++ chunk))

-- The surroundings of a segment: the server's file is written by this segment alone.
pub record IsExclusive (net : Network) (remote : net.State → Bytes) : Type 0 where
  pub connect :
      (target : Text) (prefix : Bytes) (s : net.State)
      → IsMoved net remote s (net.connect target prefix s).1
  pub send_data :
      (pos : ℕ) (chunk : Bytes) (s : net.State)
      → IsSent net remote pos chunk s (net.send_data pos chunk s).1
  pub send_rename :
      (src dst : Text) (s : net.State) → IsMoved net remote s (net.send_rename src dst s).1
  pub sha13_for : (iso_dt : Text) (s : net.State) → IsMoved net remote s (net.sha13_for iso_dt s).1
  pub sleep : (s : net.State) → IsMoved net remote s (net.sleep s)

module _ (net : Network) (remote : net.State → Bytes) where
  -- The file at the server is a prefix of the file.
  unfoldable pub IsCopy : net.State → Type 0
  IsCopy s = IsPrefix (remote s) (net.source s)

  moved : (s t : net.State) → IsMoved net remote s t → IsCopy s → IsCopy t
  unfolding IsCopy
  moved s t m c = elim m.kept [
    | inl same ↦ rw same (IsPrefix-trans _ _ _ c m.grows)
    | inr empty ↦ rw empty (record { rest = net.source t; whole = refl })
  ]

  sent :
      (pos : ℕ) (s t : net.State)
      → IsSent net remote pos (read_at pos chunk_size (net.source s)) s t
      → IsCopy s
      → IsCopy t
  unfolding IsCopy
  sent pos s t m c = elim m.appended [
    | inl same ↦ rw same (IsPrefix-trans _ _ _ c m.grows)
    | inr (at, more) ↦
        rw (more, at)
          (IsPrefix-trans _ _ _ (append_read chunk_size (remote s) (net.source s) c) m.grows)
  ]

module _ (host : Host) (prefix_length_bytes : ℕ) (net : Network) (remote : net.State → Bytes) where
  -- The copy at the server stays a prefix of the file through any run of a segment, with any
  -- failures, reconnects and growth of the file and however the run ends, where the segment alone
  -- writes to its file at the server.
  pub run-IsCopy :
      (rounds : ℕ) (idle : net.State → Bool) (asked : net.State → Option Seal) (g : Segment)
      (s : net.State)
      → IsExclusive net remote
      → IsCopy net remote s
      → IsCopy net remote (run host prefix_length_bytes net rounds idle asked g s).1.1
  run-IsCopy rounds idle asked g s x =
      run-kept host prefix_length_bytes net (IsCopy net remote)
        (record {
          connect = λ target prefix u. moved net remote u _ (x.connect target prefix u);
          send_data = λ pos u.
              sent net remote pos u _ (x.send_data pos (read_at pos chunk_size (net.source u)) u);
          send_rename = λ src dst u. moved net remote u _ (x.send_rename src dst u);
          sha13_for = λ iso_dt u. moved net remote u _ (x.sha13_for iso_dt u);
          sleep = λ u. moved net remote u _ (x.sleep u);
        })
        rounds idle asked g s

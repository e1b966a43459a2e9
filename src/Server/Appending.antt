-- ===== src/Server/Appending.antt =====
-- What one `data` frame does to the file that the connection has open.
use logline.Base.{ℕ, zero, suc, ◌≡◌, ◌≢◌, refl, ◌∙◌, Option, ◌++◌, length, Bytes, arith}
use logline.Json.{Value}
use logline.Fs
use logline.Fs.{Fs, Handle, Entries}
use logline.Fs.Laws.{write_appends, write-content, write-entries}
use logline.Host.{Host}
use logline.Server.World.{World, Action, Result, ok, err, pure, modify, continue, ◌>>=◌, ◌>>◌}
use logline.Server.World.Gives.{Returned}
use logline.Server.SameDisk.{IsSameDisk, IsSameDisk-quiet}
use logline.Server.Telemetry.{record_event, record_write_duration, record_bytes_written}
use logline.Server.Quiet.{Keeps-record_write_duration, Keeps-record_bytes_written}
use logline.Server.Append.{accept_data, write_file, apply_data}
use logline.Server.Accept.Decodes.{IsAccepted, Gives-accept_data}

-- The open file stands at the end of its bytes.
abbrev pub IsAtEnd : Handle → World → Type 0
IsAtEnd h w = h.position ≡ length (w.fs.content h.inode)

pub record IsAppended (h : Handle) (out : Bytes) (u v : World) (h' : Handle) : Type 0 where
  pub content : v.fs.content h.inode ≡ u.fs.content h.inode ++ out
  pub others : (j : ℕ) → j ≢ h.inode → v.fs.content j ≡ u.fs.content j
  pub entries : v.fs.entries ≡ u.fs.entries
  pub syncs : v.syncs ≡ u.syncs
  pub inode : h'.inode ≡ h.inode
  pub at_end : IsAtEnd h' v

-- A frame is refused and the disk stays, or it is accepted and its bytes are appended.
abbrev pub Applied : Host → Handle → Value → Option Bytes → World → Result Handle → World → Type 0
Applied host h metadata payload u (err e) v = IsSameDisk u v
Applied host h metadata payload u (ok h') v =
    (out : Bytes) × IsAccepted host h metadata payload out × IsAppended h out u v h'

-- The write, without the measurements that follow it.
write-others :
    (h : Handle) (out : Bytes) (fs : Fs) (j : ℕ)
    → j ≢ h.inode
    → (Fs.write h out fs).1.content j ≡ fs.content j
write-others h out fs j n = rw write-content (ground arith)

written :
    (h : Handle) (out : Bytes) (u w v : World)
    → IsAtEnd h u
    → IsSameDisk u w
    → v.fs ≡ (Fs.write h out w.fs).1
    → v.syncs ≡ w.syncs
    → IsAppended h out u v (Fs.write h out w.fs).0
written h out u w v e d p q =
    let a = write_appends h out u.fs e in
    let fs : v.fs ≡ (Fs.write h out u.fs).1 = rw (← d.fs) p in
    record {
      content = rw fs a.0;
      others = λ j n. rw fs (write-others h out u.fs j n);
      entries = rw fs (write-entries h out u.fs);
      syncs = q ∙ d.syncs;
      inode = rw d.fs a.2;
      at_end = rw (fs, d.fs) (rw a.2 a.1);
    }

-- After the checks: the write and its measurements.
write_accepted : Handle → Bytes → Action Handle
write_accepted f out = do
  f' ← write_file f out
  record_write_duration
  record_bytes_written (length out)
  pure f'

silent :
    {A : Type 0} (m : Action Unit) (n : Action A) (w : World)
    → (m w).0 ≡ ok tt
    → (m >> n) w ≡ n (m w).1
unfolding ◌>>=◌
silent m n w h = rw h

bytes_written-ok : (n : ℕ) (w : World) → (record_bytes_written n w).0 ≡ ok tt
unfolding record_bytes_written record_event modify
bytes_written-ok zero w = refl
bytes_written-ok (suc n) w = refl

duration-ok : (w : World) → (record_write_duration w).0 ≡ ok tt
unfolding record_write_duration record_event modify
duration-ok w = refl

-- The world after the measurements.
measured_world : Bytes → World → World
measured_world out w = (record_bytes_written (length out) (record_write_duration w).1).1

measured_world-disk : (out : Bytes) (w : World) → IsSameDisk w (measured_world out w)
unfolding measured_world
measured_world-disk out w =
    let v = (record_write_duration w).1 in
    IsSameDisk-quiet.stable.compose w v _ ((Keeps-record_write_duration IsSameDisk-quiet).at w)
      ((Keeps-record_bytes_written IsSameDisk-quiet (length out)).at v)

write_accepted-eq :
    (h : Handle) (out : Bytes) (w : World)
    → write_accepted h out w
      ≡ (ok (Fs.write h out w.fs).0, measured_world out (record w { fs = (Fs.write h out w.fs).1 }))
unfolding write_accepted write_file measured_world ◌>>=◌ pure
write_accepted-eq h out w =
    let v : World = record w { fs = (Fs.write h out w.fs).1 } in
    silent record_write_duration _ v (duration-ok v)
    ∙ silent (record_bytes_written (length out)) _ (record_write_duration v).1
        (bytes_written-ok (length out) (record_write_duration v).1)

apply_data-eq :
    (host : Host) (h : Handle) (metadata : Value) (payload : Option Bytes)
    → apply_data host h metadata payload
      ≡ (accept_data host h metadata payload >>= write_accepted h)
unfolding apply_data write_accepted
apply_data-eq host h metadata payload = refl

module _ (host : Host) (h : Handle) (metadata : Value) (payload : Option Bytes) where
  finish_data :
      (r : Result Bytes) (u w : World)
      → IsAtEnd h u
      → IsSameDisk u w
      → Returned (IsAccepted host h metadata payload) r
      → Applied host h metadata payload u
          (continue r (write_accepted h) w).0
          (continue r (write_accepted h) w).1
  finish_data (err e) u w at d a = d
  finish_data (ok out) u w at d a =
      let v : World = record w { fs = (Fs.write h out w.fs).1 } in
      let m = measured_world-disk out v in
      rw (write_accepted-eq h out w)
        (out, a, written h out u w (measured_world out v) at d m.fs m.syncs)

  -- A `data` frame at an open file that stands at its end is refused and changes nothing on the
  -- disk; or its payload decodes, its offset is the length of the file, and the decoded bytes are
  -- appended to that file, which the connection then again has open at its end, while every other
  -- file, all names and what was made durable stay.
  pub apply_data-Applied :
      (u : World)
      → IsAtEnd h u
      → let (r, v) = apply_data host h metadata payload u in Applied host h metadata payload u r v
  apply_data-Applied u at = rw apply_data-eq (
      unfold ◌>>=◌ in
      finish_data _ u _ at ((Gives-accept_data IsSameDisk-quiet host h metadata payload).keeps.at u)
        ((Gives-accept_data IsSameDisk-quiet host h metadata payload).gives u))

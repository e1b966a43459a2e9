-- ===== src/Link/Delivery.antt =====
-- A `data` frame that reaches the server's code where the file ends.
use logline.Base.{
  ℕ, zero, suc, ◌+◌, ◌<◌, ◌≡◌, refl, ap, ◌∙◌, true, ◌==◌, Option, none, some, [], ◌++◌, arith, ltb,
  length, Bytes, text_eq, codes, Bool-cases, inl, inr,
}
use logline.Base.Encoding.{ascii}
use logline.Base.Words.{split}
use logline.Base.Int.{pos}
use logline.Json.{Value, null, str, get}
use logline.Fs
use logline.Fs.{FilePath, Fs, Handle}
use logline.Host.{Host}
use logline.Server.World.{Error, ok, World, Event, Action, pure, or_raise, modify, ◌>>=◌}
use logline.Server.Telemetry.{
  record_event, record_decompress_duration, record_bytes_written, record_write_duration,
  record_bytes_received,
}
use logline.Server.Append.{
  measured, decompress_named, decompress, check_offset, accept_data, write_file, apply_data,
}
use logline.Server.Stream.{line_length, split_line, send, reply_frame, send_reply}
use logline.Server.Serve.{target_file, serve_command}
use logline.Agent.Client.{command_frame, data_metadata, data_frame, read_reply}
use logline.Link.Frames.{IsFaithful, max_bytes, recv-data_frame, either_frame}
use logline.Link.Line.{serve_frame, is_reply}

-- What an action does in a world: it returns, and leaves this disk and this output.
pub record Does {A : Type 0} (m : Action A) (w : World) (a : A) (fs : Fs) (output : Bytes)
    : Type 0 where
  pub returns : (m w).0 ≡ ok a
  pub disk : (m w).1.fs ≡ fs
  pub written : (m w).1.output ≡ output

module _ {A B : Type 0} where
  pub Does-bind :
      (m : Action A) (f : A → Action B) (w : World) (a : A) (b : B) (fs fs' : Fs) (o o' : Bytes)
      → Does m w a fs o
      → ((v : World) → v.fs ≡ fs → v.output ≡ o → Does (f a) v b fs' o')
      → Does (m >>= f) w b fs' o'
  unfolding ◌>>=◌
  Does-bind m f w a b fs fs' o o' d k =
      let e = k (m w).1 d.disk d.written in
      record {
        returns = rw d.returns e.returns;
        disk = rw d.returns e.disk;
        written = rw d.returns e.written;
      }

-- A measurement leaves the disk and the output alone.
Does-event : (e : Event) (w : World) → Does (record_event e) w tt w.fs w.output
unfolding record_event modify
Does-event e w = elim (Bool-cases w.metrics_enabled) [
  | inl on ↦ record { returns = refl; disk = rw on refl; written = rw on refl }
  | inr off ↦ record { returns = refl; disk = rw off refl; written = rw off refl }
]

Does-bytes_written : (n : ℕ) (w : World) → Does (record_bytes_written n) w tt w.fs w.output
unfolding record_bytes_written modify
Does-bytes_written zero w = record { returns = refl; disk = refl; written = refl }
Does-bytes_written (suc n) w = Does-event (Event.bytes_written (suc n)) w

Does-bytes_received : (n : ℕ) (w : World) → Does (record_bytes_received n) w tt w.fs w.output
unfolding record_bytes_received modify
Does-bytes_received zero w = record { returns = refl; disk = refl; written = refl }
Does-bytes_received (suc n) w = Does-event (Event.bytes_received (suc n)) w

module _ {A : Type 0} where
  Does-pure : (a : A) (w : World) → Does (pure a) w a w.fs w.output
  unfolding pure
  Does-pure a w = record { returns = refl; disk = refl; written = refl }

  Does-or_raise :
      (e : Error) (o : Option A) (a : A) (w : World)
      → o ≡ some a
      → Does (or_raise e o) w a w.fs w.output
  unfolding or_raise
  Does-or_raise e none a w h = absurd (cc)
  Does-or_raise e (some b) a w h = record { returns = cc; disk = refl; written = refl }

  -- The same, of an action that is equal, in a world with the same disk and output.
  Does-like :
      (m : Action A) (w : World) (a : A) (fs : Fs) (o : Bytes)
      → w.fs ≡ fs
      → w.output ≡ o
      → Does m w a w.fs w.output
      → Does m w a fs o
  Does-like m w a fs o p q d = record {
    returns = d.returns;
    disk = d.disk ∙ p;
    written = d.written ∙ q;
  }

module _ (host : Host) (offset : ℕ) (payload out : Bytes) where
  -- The payload is decompressed, with a measurement or without.
  Does-decompress-null :
      (w : World) → payload ≡ out → Does (decompress host null payload) w out w.fs w.output
  unfolding decompress
  Does-decompress-null w e = rw e (Does-pure out w)

  Does-decompress-gzip :
      (w : World)
      → host.gzip_decompress payload ≡ some out
      → Does (decompress host (str (codes "gzip")) payload) w out w.fs w.output
  unfolding decompress decompress_named measured record_decompress_duration text_eq
  Does-decompress-gzip w e = Does-bind _ _ w out out _ _ _ _ (Does-or_raise _ _ out w e) λ v p q.
      Does-bind _ _ v tt out _ _ _ _ (Does-like _ v tt _ _ p q (Does-event _ v))
        λ v' p' q'. Does-like _ v' out _ _ p' q' (Does-pure out v')

-- A command that holds bytes at the position of the file, under a compression that is undone.
module _ (host : Host) (h : Handle) (compression : Value) (payload out : Bytes)
    (undone : (w : World) → Does (decompress host compression payload) w out w.fs w.output) where
  Does-accept_data :
      (w : World)
      → Does
          (accept_data host h (data_metadata h.position compression) (some payload))
          w
          out
          w.fs
          w.output
  unfolding accept_data data_metadata get text_eq check_offset
  Does-accept_data w =
      Does-bind _ _ w payload out _ _ _ _ (Does-or_raise _ _ payload w refl) λ v p q.
        Does-bind _ _ v _ out _ _ _ _ (Does-like _ v _ _ _ p q (Does-or_raise _ _ _ v refl))
          λ v p q. Does-bind _ _ v out out _ _ _ _ (Does-like _ v _ _ _ p q (undone v)) λ v p q.
            Does-bind _ _ v (pos h.position) out _ _ _ _
              (Does-like _ v _ _ _ p q (Does-or_raise _ _ _ v refl))
              λ v p q.
                Does-bind _ _ v tt out _ _ _ _
                  (Does-like _ v _ _ _ p q (
                    let here : (h.position == h.position) ≡ true = ground arith in
                    rw here (Does-pure tt v)))
                  λ v p q. Does-like _ v _ _ _ p q (Does-pure out v)

  Does-write_file :
      (w : World)
      → Does (write_file h out) w (Fs.write h out w.fs).0 (Fs.write h out w.fs).1 w.output
  unfolding write_file
  Does-write_file w = record { returns = refl; disk = refl; written = refl }

  Does-apply_data :
      (w : World)
      → Does
          (apply_data host h (data_metadata h.position compression) (some payload))
          w
          (Fs.write h out w.fs).0
          (Fs.write h out w.fs).1
          w.output
  unfolding apply_data record_write_duration
  Does-apply_data w = Does-bind _ _ w out _ _ _ _ _ (Does-accept_data w) λ v p q.
      Does-bind _ _ v (Fs.write h out w.fs).0 _ _ _ _ _ (rw (← p, ← q) (Does-write_file v)) λ v p q.
        Does-bind _ _ v tt _ _ _ _ _ (Does-like _ v _ _ _ p q (Does-event _ v)) λ v p q.
          Does-bind _ _ v tt _ _ _ _ _ (Does-like _ v _ _ _ p q (Does-bytes_written _ v))
            λ v p q. Does-like _ v _ _ _ p q (Does-pure _ v)

  Does-send_reply :
      (w : World) → Does (send_reply host (codes "ok") none) w tt w.fs (w.output ++ codes "ok\n")
  unfolding send_reply send reply_frame modify
  Does-send_reply w = record { returns = refl; disk = refl; written = refl }

  -- The whole of a round of the server's loop, after the command was received.
  pub Does-serve_data :
      (dst_dir dst_path : FilePath) (w : World)
      → Does
          (serve_command host dst_dir
            (record { f = some h; dst_path = dst_path })
            (record {
              name = codes "data";
              metadata = data_metadata h.position compression;
              payload = some payload;
            }))
          w
          (record { f = some (Fs.write h out w.fs).0; dst_path = dst_path })
          (Fs.write h out w.fs).1
          (w.output ++ codes "ok\n")
  unfolding serve_command target_file text_eq
  Does-serve_data dst_dir dst_path w = Does-bind _ _ w h _ _ _ _ _ (Does-pure h w) λ v p q.
      Does-bind _ _ v (Fs.write h out w.fs).0 _ (Fs.write h out w.fs).1 _ w.output _
        (rw (← p, ← q) (Does-apply_data v))
        λ v p q.
          Does-bind _ _ v tt _ (Fs.write h out w.fs).1 _ (w.output ++ codes "ok\n") _
            (rw (← p, ← q) (Does-send_reply v)) λ v p q. Does-like _ v _ _ _ p q (Does-pure _ v)

-- A frame that reaches the server where its file ends.
module _ (host : Host) (laws : IsFaithful host) (dst_dir dst_path : FilePath) (h : Handle)
    (chunk : Bytes) (w : World) where
  abbrev Serves : Type 0
  Serves =
      Does (serve_frame host dst_dir (record { f = some h; dst_path = dst_path })) w
        (record { f = some (Fs.write h chunk w.fs).0; dst_path = dst_path })
        (Fs.write h chunk w.fs).1 (w.output ++ codes "ok\n")

  Does-serve_frame :
      (compression : Value) (payload : Bytes)
      → host.loads (host.dumps (data_metadata h.position compression) ++ codes "\n")
        ≡ some (data_metadata h.position compression)
      → ((v : World) → Does (decompress host compression payload) v chunk v.fs v.output)
      → length
          (command_frame host (codes "data") (data_metadata h.position compression) (some payload))
        < max_bytes
      → w.input
        ≡ command_frame host (codes "data") (data_metadata h.position compression) (some payload)
      → Serves
  unfolding serve_frame
  Does-serve_frame compression payload loaded undone fits e =
      let got = recv-data_frame host w h.position compression payload loaded fits e in
      let counted =
        Does-bytes_received
          (length (host.dumps (data_metadata h.position compression) ++ codes "\n")
            + length payload)
          (record w { input = [] }) in
      Does-bind _ _ w
        (record {
          name = codes "data";
          metadata = data_metadata h.position compression;
          payload = some payload;
        })
        _ w.fs _ w.output _
        (record {
          returns = ap (λ x. x.0) got;
          disk = ap (λ x. x.1.fs) got ∙ counted.disk;
          written = ap (λ x. x.1.output) got ∙ counted.written;
        })
        λ v p q.
          rw (← p, ← q) (Does-serve_data host h compression payload chunk undone dst_dir dst_path v)

  pub data_frame-Serves :
      length (data_frame host h.position chunk) < max_bytes
      → w.input ≡ data_frame host h.position chunk
      → Serves
  unfolding data_frame
  data_frame-Serves fits e =
      either_frame (ltb (length (host.gzip_compress chunk)) (length chunk)) _ _ w.input
        (Does-serve_frame (str (codes "gzip")) (host.gzip_compress chunk) (laws.zipped h.position)
          (λ v.
            Does-decompress-gzip host h.position (host.gzip_compress chunk) chunk v
              (laws.gzip chunk)))
        (Does-serve_frame null chunk (laws.plain h.position)
          (λ v. Does-decompress-null host h.position chunk chunk v refl))
        fits e

pub read_reply-ok : (host : Host) → is_reply (read_reply host (codes "ok\n")) ≡ true
unfolding is_reply read_reply split_line line_length ascii split text_eq
read_reply-ok host = refl

-- ===== src/Link/Frames.antt =====
-- What the server makes of the agent's `data` and `rename` frames: the command that it reads, and
-- that a `data` command holds the bytes of the file that the agent read.
use logline.Base.{
  ℕ, ◌+◌, ◌^◌, ◌≤◌, ◌<◌, ◌≡◌, refl, sym, ◌∙◌, Bool, true, false, Option, none, some, [], ◌∷◌, ◌++◌,
  append-nil, arith, ltb, if◌then◌else◌, length, length-append, Bytes, Text, text_eq, codes,
}
use logline.Base.Decimal.{format}
use logline.Json.{Value, null, str}
use logline.Host.{Host}
use logline.Base.Words.{is_space}
use logline.Server.World.{ok, World}
use logline.Server.Accept.Decodes.{Decodes}
use logline.Server.Command.{Command, recv_command}
use logline.Agent.Client.{command_frame, data_metadata, data_frame, rename_metadata, rename_frame}
use logline.Agent.Segment.{chunk_size, read_at}
use logline.Wire.Lines.{is_letter}
use logline.Wire.Reading.{IsName}
use logline.Wire.{received, frame-none, recv_command-command_frame}
use logline.Link.Served.{IsHonest}
use logline.Link.Decoded.{decoded-null, is_gzip, decoded-gzip, data_command-IsHonest}

-- What the two programs rely on in `json` and `gzip`.
pub record IsFaithful (host : Host) : Type 0 where
  pub plain :
      (offset : ℕ)
      → host.loads (host.dumps (data_metadata offset null) ++ codes "\n")
        ≡ some (data_metadata offset null)
  pub zipped :
      (offset : ℕ)
      → host.loads (host.dumps (data_metadata offset (str (codes "gzip"))) ++ codes "\n")
        ≡ some (data_metadata offset (str (codes "gzip")))
  -- the metadata of a rename is JSON text, whatever its names are read back as
  pub renames :
      (src dst : Text)
      → (v : Value) × (host.loads (host.dumps (rename_metadata src dst) ++ codes "\n") ≡ some v)
  pub gzip : (b : Bytes) → host.gzip_decompress (host.gzip_compress b) ≡ some b

-- The command that the server reads from the frame.
pub record Receives (host : Host) (source : Bytes) (w : World) : Type 0 where
  pub command : Command
  pub after : World
  pub received : recv_command host false w ≡ (ok command, after)
  pub honest : text_eq command.name (codes "data") ≡ true → IsHonest host source command

record_receipt :
    (host : Host) (source : Bytes) (w : World) (name : Text) (metadata value : Value)
    (payload : Option Bytes) (n : ℕ)
    → recv_command host false w
      ≡ (ok (record { name = name; metadata = value; payload = payload }), received n [] w)
    → (text_eq name (codes "data") ≡ true
        → IsHonest host source (record { name = name; metadata = value; payload = payload }))
    → Receives host source w
record_receipt host source w name metadata value payload n e honest = record {
  command = record { name = name; metadata = value; payload = payload };
  after = received n [] w;
  received = e;
  honest = honest;
}

data-IsName : IsName (codes "data")
unfolding is_letter is_space
data-IsName = record { some_letter = omega arith; letters = refl; short = omega arith }

rename-IsName : IsName (codes "rename")
unfolding is_letter is_space
rename-IsName = record { some_letter = omega arith; letters = refl; short = omega arith }

not_data : text_eq (codes "rename") (codes "data") ≡ false
unfolding text_eq
not_data = refl

-- A frame is no longer than a `bytes` object can be.
abbrev pub max_bytes : ℕ
max_bytes = 2 ^ 63

small : (n k : ℕ) → n ≤ k → k < max_bytes → n < 10 ^ 4300
small n k h l = omega arith

length-append_right : (s t : Bytes) → length t ≤ length (s ++ t)
length-append_right s t = omega (arith, length-append s t)

length-cons : (c : ℕ) (s : Bytes) → length s ≤ length (c ∷ s)
length-cons c s = omega arith

-- The parts of a frame are no longer than it is.
module _ (host : Host) (name : Text) (metadata : Value) where
  metadata_within :
      length (host.dumps metadata ++ codes "\n") ≤ length (command_frame host name metadata none)
  unfolding command_frame
  metadata_within = omega (
    arith,
    length-append name (
        32
        ∷ (format (length (host.dumps metadata ++ codes "\n"))
            ++ (10 ∷ (host.dumps metadata ++ codes "\n")))),
    length-append (format (length (host.dumps metadata ++ codes "\n")))
        (10 ∷ (host.dumps metadata ++ codes "\n")),
  )

  parts_within :
      (payload : Bytes)
      → length (host.dumps metadata ++ codes "\n") + length payload
        ≤ length (command_frame host name metadata (some payload))
  unfolding command_frame
  parts_within payload =
      let md : Bytes = host.dumps metadata ++ codes "\n" in
      let sizes : Bytes = format (length payload) ++ (10 ∷ (md ++ payload)) in
      omega (
        arith,
        length-append name (32 ∷ (format (length md) ++ (32 ∷ sizes))),
        length-append (format (length md)) (32 ∷ sizes),
        length-append (format (length payload)) (10 ∷ (md ++ payload)),
        length-append md payload,
      )

-- A `data` frame is read as its command.
pub recv-data_frame :
    (host : Host) (w : World) (offset : ℕ) (compression : Value) (payload : Bytes)
    → host.loads (host.dumps (data_metadata offset compression) ++ codes "\n")
      ≡ some (data_metadata offset compression)
    → length (command_frame host (codes "data") (data_metadata offset compression) (some payload))
      < max_bytes
    → w.input ≡ command_frame host (codes "data") (data_metadata offset compression) (some payload)
    → recv_command host false w ≡ (
      ok (record {
        name = codes "data";
        metadata = data_metadata offset compression;
        payload = some payload;
      }),
      received
          (length (host.dumps (data_metadata offset compression) ++ codes "\n") + length payload)
          []
          w,
    )
recv-data_frame host w offset compression payload loaded fits e =
    let metadata : Value = data_metadata offset compression in
    let within = parts_within host (codes "data") metadata payload in
    recv_command-command_frame host (codes "data") metadata (some payload) [] w loaded
      (small _ _ (omega (arith, within)) fits) (small _ _ (omega (arith, within)) fits) data-IsName
      (e ∙ sym (append-nil _))

-- One of two frames.
pub either_frame :
    {R : Type 0} (b : Bool) (zipped whole input : Bytes)
    → (length zipped < max_bytes → input ≡ zipped → R)
    → (length whole < max_bytes → input ≡ whole → R)
    → length (if b then zipped else whole) < max_bytes
    → input ≡ (if b then zipped else whole)
    → R
either_frame true zipped whole input h k = h
either_frame false zipped whole input h k = k

module _ (host : Host) (laws : IsFaithful host) (source : Bytes) (w : World) where
  pub rename_frame-Receives :
      (src dst : Text)
      → length (rename_frame host src dst) < max_bytes
      → w.input ≡ rename_frame host src dst
      → Receives host source w
  unfolding rename_frame
  rename_frame-Receives src dst fits e =
      let (v, loaded) = laws.renames src dst in
      record_receipt host source w (codes "rename") (rename_metadata src dst) v none _
        (frame-none host (codes "rename") (rename_metadata src dst) v [] w loaded
          (small _ _ (metadata_within host (codes "rename") (rename_metadata src dst)) fits)
          rename-IsName (e ∙ sym (append-nil _)))
        (λ h. absurd (cc (h, not_data)))

  -- A frame whose payload stands for the bytes that were read.
  frame-Receives :
      (offset : ℕ) (compression : Value) (payload : Bytes)
      → host.loads (host.dumps (data_metadata offset compression) ++ codes "\n")
        ≡ some (data_metadata offset compression)
      → ((out : Bytes)
          → Decodes host payload out compression
          → out ≡ read_at offset chunk_size source)
      → length (command_frame host (codes "data") (data_metadata offset compression) (some payload))
        < max_bytes
      → w.input
        ≡ command_frame host (codes "data") (data_metadata offset compression) (some payload)
      → Receives host source w
  frame-Receives offset compression payload loaded decodes fits e =
      let metadata : Value = data_metadata offset compression in
      record_receipt host source w (codes "data") metadata metadata (some payload) _
        (recv-data_frame host w offset compression payload loaded fits e)
        (λ h. data_command-IsHonest host source offset compression payload decodes)

  pub data_frame-Receives :
      (offset : ℕ)
      → length (data_frame host offset (read_at offset chunk_size source)) < max_bytes
      → w.input ≡ data_frame host offset (read_at offset chunk_size source)
      → Receives host source w
  unfolding data_frame is_gzip text_eq
  data_frame-Receives offset fits e =
      let chunk : Bytes = read_at offset chunk_size source in
      either_frame (ltb (length (host.gzip_compress chunk)) (length chunk)) _ _ w.input
        (frame-Receives offset (str (codes "gzip")) (host.gzip_compress chunk) (laws.zipped offset)
          (λ out d. decoded-gzip host _ chunk _ out refl (laws.gzip chunk) d))
        (frame-Receives offset null chunk (laws.plain offset)
          (λ out d. decoded-null host _ chunk _ out refl refl d))
        fits e

-- ===== src/Wire/Tests.antt =====
-- An example of a frame on the wire.
use logline.Base.{◌+◌, ◌≡◌, ◌++◌, refl, false, none, some, [], arith, length, Bytes, codes}
use logline.Json.{null}
use logline.Host.{Host}
use logline.Server.World.{ok, World}
use logline.Server.Command.{recv_command}
use logline.Agent.Client.{command_frame, read_reply, replied}
use logline.Server.Stream.{reply_frame}
use logline.Wire.Replies.{read_reply-reply_frame}
use logline.Base.Words.{is_space}
use logline.Wire.Lines.{is_letter}
use logline.Wire.Reading.{IsName}
use logline.Wire.{received, recv_command-command_frame}

abbrev host : Host
host = record {
  sha1 = λ b. b;
  loads = λ b. some null;
  dumps = λ v. codes "null";
  gzip_compress = λ b. b;
  gzip_decompress = λ b. some b;
  lzma_decompress = λ b. some b;
  zstandard_decompress = none;
  zstd_decompress = none;
  is_decimal = λ c. false;
  resolve = λ p. p;
}

abbrev frame : Bytes
frame = command_frame host (codes "data") null (some (codes "abc"))

abbrev world : World
world = record {
  fs = record { entries = []; content = λ n. []; next = 0 };
  syncs = [];
  input = frame ++ codes "rest";
  output = [];
  closed = false;
  metrics_enabled = false;
  metrics = [];
}

data-IsName : IsName (codes "data")
unfolding is_letter is_space
data-IsName = record { some_letter = omega arith; letters = refl; short = omega arith }

recv_command-command_frame_example : recv_command host false world ≡ (
  ok (record { name = codes "data"; metadata = null; payload = some (codes "abc") }),
  received (length (codes "null\n") + 3) (codes "rest") world,
)
recv_command-command_frame_example =
    recv_command-command_frame host (codes "data") null (some (codes "abc")) (codes "rest") world
      refl (omega arith) (omega arith) data-IsName refl

-- A reply of four bytes, in front of the next one.
read_reply-reply_frame_example :
    read_reply host (reply_frame host (codes "ok") (some null) ++ codes "error\n")
    ≡ replied null (codes "error\n")
read_reply-reply_frame_example =
    read_reply-reply_frame host (some null) (codes "error\n") (refl, omega arith, omega arith)

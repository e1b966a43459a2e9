-- ===== src/Link/Tests.antt =====
-- An example of a segment on the server's code: a file of five bytes, a server without it, and a
-- connection that breaks once.
use logline.Base.{
  append_assoc, arith, ℕ, zero, suc, ◌+◌, ◌≡◌, refl, ap, ◌∙◌, true, false, none, some, [], ◌∷◌,
  ◌++◌, if◌then◌else◌, ◌==◌, Bytes, Text, text_eq, codes,
}
use logline.Base.Int.{pos}
use logline.Json.{Value, null, int, str, obj, field, end}
use logline.Fs.{dir, file, zeros}
use logline.Host.{Host}
use logline.Server.World.{World}
use logline.Server.Serve.{report}
use logline.Agent.Client.{command_frame, data_frame, data_metadata}
use logline.Agent.Network.{Seal, Segment, done}
use logline.Agent.Segment.{chunk_size, read_at, run, drain_available}
use logline.Link.Frames.{IsFaithful}
use logline.Link.Line.{Fault, Turn, State, delivered, unanswered, line}
use logline.Link.Whole.{IsOnline, copy_of, drain_available-whole}
use logline.Link.Frames.{max_bytes}
use logline.Base.Decimal.{format}
use logline.Base.{◌<◌, ◌≤◌, length}
use logline.Link.Copies.{IsCopying, run-IsCopying}

-- A number in unary and a tag, in place of JSON.
tag : Text → Value → ℕ
tag key null = if text_eq key (codes "offset") then 1 else 3
tag key v = if text_eq key (codes "offset") then 2 else 4

dumps : Value → Text
unfolding tag
dumps (obj (field key (int (pos n)) (field k v end))) = zeros n ++ (tag key v ∷ [])
dumps v = []

tagged : ℕ → ℕ → Value
tagged n c =
    if c == 1
    then data_metadata n null
    else if c == 2
    then data_metadata n (str (codes "gzip"))
    else if c == 3
    then report n null
    else report n (str [])

counted : ℕ → Bytes → Value
unfolding tagged
counted n [] = null
counted n (zero ∷ s) = counted (suc n) s
counted n (suc c ∷ s) = tagged n (suc c)

counted-zeros :
    (n k c : ℕ) (s : Bytes) → counted k (zeros n ++ (suc c ∷ s)) ≡ tagged (n + k) (suc c)
unfolding counted
counted-zeros zero k c s = ap (λ m. tagged m (suc c)) (omega arith)
counted-zeros (suc n) k c s = counted-zeros n (suc k) c s ∙ ap (λ m. tagged m (suc c)) (omega arith)

abbrev host : Host
host = record {
  sha1 = λ b. b;
  loads = λ b. some (counted 0 b);
  dumps = dumps;
  gzip_compress = λ b. b;
  gzip_decompress = λ b. some b;
  lzma_decompress = λ b. some b;
  zstandard_decompress = none;
  zstd_decompress = none;
  is_decimal = λ c. false;
  resolve = λ p. p;
}

read_back : (n c : ℕ) → counted 0 ((zeros n ++ (suc c ∷ [])) ++ codes "\n") ≡ tagged n (suc c)
read_back n c =
    ap (counted 0) (append_assoc (zeros n) (suc c ∷ []) (codes "\n"))
    ∙ (counted-zeros n 0 c (codes "\n") ∙ ap (λ m. tagged m (suc c)) (omega arith))

laws : IsFaithful host
unfolding dumps data_metadata tag tagged text_eq
laws = record {
  plain = λ offset. ap some (read_back offset 0);
  zipped = λ offset. ap some (read_back offset 1);
  renames = λ src dst. (_, refl);
  gzip = λ b. refl;
}

abbrev world : World
world = record {
  fs = record { entries = (codes "logs" ∷ [], dir) ∷ []; content = λ n. []; next = 0 };
  syncs = [];
  input = [];
  output = [];
  closed = false;
  metrics_enabled = false;
  metrics = [];
}

abbrev turn : Fault → Turn
turn fault = record { fault = fault; grown = []; sha13 = some (codes "0123456789abc") }

-- The reply to the first frame is lost, and the agent connects again.
abbrev state : State
state = record {
  source = codes "hello";
  server = world;
  session = none;
  turns = turn delivered ∷ turn unanswered ∷ turn delivered ∷ turn delivered ∷ turn delivered ∷ [];
}

abbrev segment : Segment
segment = record {
  target = codes "foo.log";
  role_live = true;
  is_own_log = false;
  ephemeral = false;
  pending_seal = none;
  sealed = false;
  no_resume = false;
  lag = 0;
  position = 0;
  header_length = 0;
  bytes_read = 0;
}

abbrev seal : Seal
seal = record {
  seal_name = codes "foo.log.20260101T000000Z";
  is_orphan = true;
  iso_dt = codes "20260101T000000Z";
}

abbrev after : State
after =
    (run host 3 (line host (codes "logs" ∷ []) (codes "20260101T000000Z")) 5 (λ st. true)
      (λ st. some seal) segment state).1.1

run-IsCopying_example : IsCopying 0 after
run-IsCopying_example =
    run-IsCopying host (codes "logs" ∷ []) (codes "20260101T000000Z") 3 5 0 (λ st. true)
      (λ st. some seal) segment state laws
      (record { ready = record { rest = codes "hello"; whole = refl } })

-- The file is open at the server with its first two bytes, and the connection holds.
abbrev online : State
online = record {
  source = codes "hello";
  server = record world {
    fs = record {
      entries = (codes "logs" ∷ codes "foo.log" ∷ [], file 0) ∷ (codes "logs" ∷ [], dir) ∷ [];
      content = λ n. codes "he";
      next = 1;
    };
  };
  session = some (record {
    f = some (record { inode = 0; position = 2 });
    dst_path = codes "logs" ∷ codes "foo.log" ∷ [];
  });
  turns = turn delivered ∷ turn delivered ∷ turn delivered ∷ turn delivered ∷ [];
}

frame_fits :
    (offset : ℕ)
    → offset ≤ 5
    → length (data_frame host offset (read_at offset chunk_size (codes "hello"))) < max_bytes
unfolding data_frame command_frame data_metadata dumps tag text_eq read_at format
frame_fits zero h = omega arith
frame_fits (suc zero) h = omega arith
frame_fits (suc (suc zero)) h = omega arith
frame_fits (suc (suc (suc zero))) h = omega arith
frame_fits (suc (suc (suc (suc zero)))) h = omega arith
frame_fits (suc (suc (suc (suc (suc zero))))) h = omega arith
frame_fits (suc (suc (suc (suc (suc (suc k)))))) h = absurd (omega arith)

online-IsOnline : IsOnline host 0 4 online
online-IsOnline = record {
  handle = record { inode = 0; position = 2 };
  dst_path = codes "logs" ∷ codes "foo.log" ∷ [];
  session = refl;
  inode = refl;
  at_end = refl;
  turns = (refl, refl, (refl, refl, (refl, refl, (refl, refl, tt))));
  within = omega arith;
  fits = frame_fits;
}

drain_available-whole_example :
    let r =
      drain_available host 3
        (line host (codes "logs" ∷ []) (codes "20260101T000000Z"))
        4
        (record segment { position = 2 })
        online in
    (r.0 ≡ done true) × (copy_of 0 r.1.1 ≡ codes "hello")
drain_available-whole_example =
    drain_available-whole host (codes "logs" ∷ []) (codes "20260101T000000Z") 3 4 0
      (record segment { position = 2 }) online laws online-IsOnline
      (record { rest = codes "llo"; whole = refl }) refl (omega arith)

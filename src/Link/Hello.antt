-- ===== src/Link/Hello.antt =====
-- The handshake: what `handle_client` of the server makes of the header that `connect_to_server` of
-- the agent writes.
use logline.Base.{
  ℕ, ◌<◌, ◌^◌, ◌≡◌, ◌≢◌, refl, ◌∙◌, true, false, none, some, [], ◌∷◌, ◌++◌, append_assoc, arith,
  length, all, Bytes, Text, text_eq, is_empty, contains, Lacks, contains-append, codes, ltb, ◌+◌,
  inl, inr, Bool-cases,
}
use logline.Base.Decimal.{is_digit, format, all-format}
use logline.Base.Encoding.{utf8}
use logline.Base.Words.{is_space}
use logline.Json.{Value, str, Fields, field, end, get, truthy}
use logline.Fs.{FilePath}
use logline.Host.{Host, sha1_hex}
use logline.Server.World.{Result, ok, err, World, Action, continue, pure, unless, ◌>>=◌, ◌>>◌}
use logline.Server.Stream.{stream_limit, line_length, split_line, readline}
use logline.Server.Command.{Command, starts_with, has_substring, recv_command}
use logline.Server.Auth.{Configuration, check_client_auth}
use logline.Server.Paths.{is_safe_path_segment, destination_dir, build_destination_dir}
use logline.Server.Admission.{Member, check_client_auth_iff}
use logline.Server.Serve.{serve_client}
use logline.Server.Handle.{
  authenticated, authenticate, Header, check_header, make_destination, checked_target, serve_header,
  is_hello, serve_hello, recv_hello, after_hello, try_client,
}
use logline.Agent.Client.{command_frame, header}
use logline.Wire.Lines.{
  is_letter, is_inline, inline, inline-append, letters-format, split_line-append,
}
use logline.Wire.Reading.{IsName}
use logline.Wire.{received, recv_command-command_frame}

hello : Text
hello = codes "logline-agent-v1"

hello-IsName : IsName (codes "logline-agent-v1")
unfolding is_letter is_space
hello-IsName = record { some_letter = omega arith; letters = refl; short = omega arith }

-- A line without the letter H does not speak HTTP.
no_http : (s : Text) → Lacks b'H' s → has_substring (codes "HTTP/") s ≡ false
unfolding has_substring starts_with contains
no_http [] h = refl
no_http (c ∷ s) h = ground (arith, no_http s)

Lacks-digits : (s : Text) → all is_digit s ≡ true → Lacks b'H' s
unfolding contains is_digit
Lacks-digits [] h = refl
Lacks-digits (c ∷ s) h = ground (arith, Lacks-digits s)

hello_line-Lacks : (n : ℕ) → Lacks b'H' ((codes "logline-agent-v1" ++ (32 ∷ format n)) ++ (10 ∷ []))
unfolding contains
hello_line-Lacks n =
    rw
      (
        contains-append b'H' (codes "logline-agent-v1" ++ (32 ∷ format n)) (10 ∷ []),
        contains-append b'H' (codes "logline-agent-v1") (32 ∷ format n),
        Lacks-digits (format n) (all-format n),
      )
      refl

-- Such a line is read as the first one in the way that any other is.
recv_command-first :
    (host : Host) (w : World)
    → Lacks b'H' (split_line w.input).0
    → recv_command host true w ≡ recv_command host false w
unfolding recv_command readline ◌>>=◌ unless
recv_command-first host w h = elim (Bool-cases (ltb stream_limit (line_length w.input))) [
  | inl long ↦ simp long
  | inr fits ↦ simp (fits, no_http (split_line w.input).0 h)
]

module _ {A B C : Type 0} (f : A → Action B) (g : B → Action C) where
  continue_assoc :
      (r : Result A) (w : World)
      → continue (continue r f w).0 g (continue r f w).1 ≡ continue r (λ a. f a >>= g) w
  unfolding ◌>>=◌
  continue_assoc (ok a) w = refl
  continue_assoc (err e) w = refl

bind_assoc :
    {A B C : Type 0} (m : Action A) (f : A → Action B) (g : B → Action C) (w : World)
    → ((m >>= f) >>= g) w ≡ (m >>= (λ a. f a >>= g)) w
unfolding ◌>>=◌
bind_assoc m f g w = continue_assoc f g (m w).0 (m w).1

-- The first line of the agent's frame.
hello_line :
    (n : ℕ) (w : World) (rest : Bytes)
    → w.input ≡ (codes "logline-agent-v1" ++ (32 ∷ format n)) ++ (10 ∷ rest)
    → Lacks b'H' (split_line w.input).0
unfolding is_letter is_space
hello_line n w rest e =
    let l : Bytes = codes "logline-agent-v1" ++ (32 ∷ format n) in
    let ok_line : all is_inline l ≡ true =
      inline-append (codes "logline-agent-v1") (format n) refl
        (inline (format n) (letters-format n)) in
    rw (e, split_line-append l rest ok_line) (hello_line-Lacks n)

abbrev fields_of : Value → Fields
fields_of (Value.obj fs) = fs
fields_of _ = end

abbrev auth_of : Text → Fields
auth_of client_token = field (codes "client_token") (str client_token) end

-- What the server's checks make of the agent's header.
abbrev hello_header : Host → Text → Text → Text → Bytes → Text → Header
hello_header host hostname directory target log_prefix client_token = record {
  fields = fields_of (header host hostname directory target log_prefix client_token);
  prefix_length = length log_prefix;
  auth = auth_of client_token;
}

check_header-hello :
    (host : Host) (hostname directory target : Text) (log_prefix : Bytes) (client_token : Text)
    → is_empty hostname ≡ false
    → check_header (header host hostname directory target log_prefix client_token)
      ≡ ok (hello_header host hostname directory target log_prefix client_token)
unfolding check_header header get text_eq truthy
check_header-hello host [] directory target log_prefix client_token h = absurd (cc)
check_header-hello host (c ∷ s) directory target log_prefix client_token h = refl

-- A host name that leads to a destination is not empty.
named_host :
    (host : Host) (base : FilePath) (hostname directory : Text) (dst_dir : FilePath)
    → destination_dir host base hostname directory ≡ ok dst_dir
    → is_empty hostname ≡ false
unfolding destination_dir is_safe_path_segment
named_host host base [] directory dst_dir h = cc
named_host host base (c ∷ s) directory dst_dir h = refl

-- The header as the server reads it.
module _ (host : Host) (conf : Configuration) (hostname directory target : Text)
    (log_prefix : Bytes) (client_token : Text) where
  abbrev auth_fields : Fields
  auth_fields = field (codes "client_token") (str client_token) end

  abbrev hello_value : Value
  hello_value = header host hostname directory target log_prefix client_token

  abbrev hello_bytes : Bytes
  hello_bytes = host.dumps hello_value ++ codes "\n"

  abbrev hello_command : Command
  hello_command = record { name = codes "logline-agent-v1"; metadata = hello_value; payload = none }

  -- A handshake that the two programs can carry out: `json` reads the header back, the token is
  -- configured, and the names are safe.
  pub record IsWelcome (dst_dir : FilePath) : Type 0 where
    pub faithful : host.loads hello_bytes ≡ some hello_value
    pub small : length hello_bytes < 10 ^ 4300
    pub bytes : Bytes
    pub encoded : utf8 client_token ≡ some bytes
    pub present : client_token ≢ []
    pub listed : Member (sha1_hex host bytes) conf.client_token_hashes
    pub destination :
        destination_dir host conf.destination_directory hostname directory ≡ ok dst_dir
    pub safe : is_safe_path_segment target ≡ true

  recv-hello :
      (dst_dir : FilePath) (rest : Bytes) (w : World)
      → IsWelcome dst_dir
      → w.input ≡ command_frame host (codes "logline-agent-v1") hello_value none ++ rest
      → recv_command host true w ≡ (ok hello_command, received (length hello_bytes + 0) rest w)
  unfolding command_frame
  recv-hello dst_dir rest w h e =
      recv_command-first host w
        (hello_line (length hello_bytes) w (hello_bytes ++ rest) (e ∙ simp append_assoc))
      ∙ recv_command-command_frame host (codes "logline-agent-v1") hello_value none rest w
          h.faithful h.small (omega arith) hello-IsName e

  -- The server's code behind the checks: it serves the target that the agent named, in the directory
  -- that the agent's one is mapped to.
  abbrev pub Served : FilePath → Action Text
  Served dst_dir = do
    make_destination dst_dir
    serve_client host dst_dir target (length log_prefix)
    pure (codes "ok")

  known :
      (dst_dir : FilePath)
      → IsWelcome dst_dir
      → check_client_auth host conf (auth_of client_token) ≡ ok tt
  unfolding get text_eq
  known dst_dir h = (check_client_auth_iff host conf (auth_of client_token)).1 (record {
    token = client_token;
    presented = refl;
    present = h.present;
    bytes = h.bytes;
    encoded = h.encoded;
    listed = h.listed;
  })

  serve-hello :
      (dst_dir : FilePath) (w : World)
      → IsWelcome dst_dir
      → (do serve_hello host conf hello_command; pure (codes "ok")) w ≡ Served dst_dir w
  unfolding serve_hello is_hello serve_header header get text_eq authenticate authenticated
      checked_target ◌>>=◌ build_destination_dir
  serve-hello dst_dir w h =
      simp
        (
          check_header-hello host hostname directory target log_prefix client_token
              (named_host host conf.destination_directory hostname directory dst_dir h.destination),
          known dst_dir h,
          h.destination,
          h.safe,
        )
        (bind_assoc (make_destination dst_dir)
          (λ u. serve_client host dst_dir target (length log_prefix)) (λ u. pure (codes "ok")) w)

  -- On the bytes that the agent's `connect_to_server` writes, and any that follow them, the server's
  -- `handle_client` serves the target that the agent named in the directory to which the agent's is
  -- mapped, where `json` reads the header back, the token is configured, and the names are safe.
  pub try_client-header :
      (dst_dir : FilePath) (rest : Bytes) (w : World)
      → IsWelcome dst_dir
      → w.input ≡ command_frame host (codes "logline-agent-v1") hello_value none ++ rest
      → try_client host conf false w ≡ Served dst_dir (received (length hello_bytes + 0) rest w)
  unfolding try_client recv_hello after_hello
  try_client-header dst_dir rest w h e =
      rw (recv-hello dst_dir rest w h e)
        (serve-hello dst_dir (received (length hello_bytes + 0) rest w) h)

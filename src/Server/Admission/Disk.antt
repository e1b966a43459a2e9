-- ===== src/Server/Admission/Disk.antt =====
-- A connection that is not admitted leaves the file system, and what was made durable, untouched.
use logline.Base.{Bool-cases, ◌≡◌, refl, ◌⊎◌, inl, inr, Bool, true, false, Text}
use mathlib.Core.Path.{subst}
use logline.Host.{Host}
use logline.Server.World.{
  active_connection_inc, Error, received_http_request, Result, ok, err, World, Action, pure, raise,
  unless, ◌>>=◌,
}
use logline.Server.World.Keeps.{Keeps, keeps_rules, Keeps-bind}
use logline.Server.World.Gives.{Gives, Gives-bind, Gives-then, Gives-raise}
use logline.Server.Quiet.{
  Keeps-record_auth_failure, Keeps-recv_command, Keeps-record_protocol_error,
  Keeps-send_http_response,
}
use logline.Server.SameDisk.{
  IsSameDisk, same, IsSameDisk-quiet, stable, record_event-disk, close_disk,
}
use logline.Server.Telemetry.{record_connection, active_connections}
use logline.Server.Command.{Command}
use logline.Server.Auth.{Configuration, check_client_auth}
use logline.Server.Handle.{
  authenticated, Header, check_header, serve_header, serve_hello, is_hello, recv_hello, after_hello,
  try_client, outcome, finish, handle_client,
}
use logline.Server.Allows.Client.{Keeps-bind-lift}
use logline.Server.Admission.{IsKnown, check_client_auth_iff}

Result-cases : {A : Type 0} (r : Result A) → ((a : A) × (r ≡ ok a)) ⊎ ((e : Error) × (r ≡ err e))
Result-cases (ok a) = inl (a, refl)
Result-cases (err e) = inr (e, refl)

-- The handshake of an admitted client: its command was received, its header is well-formed, and
-- its token is known.
pub record IsAdmitted (host : Host) (conf : Configuration) (late : Bool) (w : World) : Type 0 where
  pub command : Command
  pub rest : World
  pub received : recv_hello host late w ≡ (ok command, rest)
  pub named : is_hello command ≡ true
  pub header : Header
  pub checked : check_header command.metadata ≡ ok header
  pub known : IsKnown host conf header.auth

unless_refused :
    (b : Bool) (e : Error) → b ≡ false → Gives IsSameDisk (λ (u : Unit {0}). ⊥) (unless b e)
unfolding unless
unless_refused true e h = cc
unless_refused false e h = record { keeps = record { at = λ w. same refl refl }; gives = λ w. tt }

module _ (host : Host) (conf : Configuration) where
  refused :
      (r : Result Unit) (e : Error)
      → r ≡ err e
      → Gives IsSameDisk (λ (u : Unit {0}). ⊥) (authenticated r)
  unfolding authenticated
  refused (ok u) e h = cc
  refused (err d) e h =
      Gives-then _ _ _ stable (Keeps-record_auth_failure IsSameDisk-quiet)
        λ _. Gives-raise _ d stable

  serve_header-refused :
      (h : Header) (e : Error)
      → check_client_auth host conf h.auth ≡ err e
      → Keeps IsSameDisk (serve_header host conf h)
  unfolding serve_header
  serve_header-refused h e p =
      (Gives-bind (λ (u : Unit {0}). ⊥) (λ (u : Unit {0}). Unit {0}) _ _ stable (refused _ e p)
        (λ a f. absurd f)).keeps

  -- Why a command is served without touching the disk, or its client is known.
  abbrev IsServable : Command → Type 0
  IsServable c =
      (is_hello c ≡ true)
      × (h : Header) × (check_header c.metadata ≡ ok h)
      × IsKnown host conf h.auth

  header-disk :
      (c : Command) (h : Header)
      → is_hello c ≡ true
      → check_header c.metadata ≡ ok h
      → Keeps IsSameDisk (serve_header host conf h) ⊎ IsServable c
  header-disk c h n p = elim (Result-cases (check_client_auth host conf h.auth)) [
    | inl (u, e) ↦ inr (n, h, p, (check_client_auth_iff host conf h.auth).0 e)
    | inr (d, e) ↦ inl (serve_header-refused h d e)
  ]

  hello-disk : (c : Command) → Keeps IsSameDisk (serve_hello host conf c) ⊎ IsServable c
  unfolding serve_hello
  hello-disk c = elim (Bool-cases (is_hello c)) [
    | inr n ↦
        inl
          (Gives-bind (λ (u : Unit {0}). ⊥) (λ (u : Unit {0}). Unit {0}) _ _ stable
            (unless_refused _ _ n) (λ u f. absurd f)).keeps
    | inl n ↦ elim (Result-cases (check_header c.metadata)) [
      | inr (d, p) ↦ inl (
          Keeps-bind stable _ _ (search (keeps_rules, stable))
            λ u. Keeps-bind-lift stable _ _ λ h q. absurd (cc))
      | inl (h, p) ↦ elim (header-disk c h n p) [
        | inr s ↦ inr s
        | inl k ↦ inl (
            Keeps-bind stable _ _ (search (keeps_rules, stable)) λ u.
              Keeps-bind-lift stable _ _ λ h' q.
                let same_header : h ≡ h' = cc in
                subst (λ x. Keeps IsSameDisk (serve_header host conf x)) same_header k)
      ]
    ]
  ]

  then_quiet :
      (t : Text) {m : Action Unit} → Keeps IsSameDisk m → Keeps IsSameDisk (m >>= λ _. pure t)
  then_quiet t {m} k = search (keeps_rules, stable)

  after_hello-disk :
      (r : Result Command) (w : World)
      → IsSameDisk w (after_hello host conf r w).1 ⊎ ((c : Command) × (r ≡ ok c) × IsServable c)
  unfolding after_hello raise pure
  after_hello-disk (ok c) w = elim (hello-disk c) [
    | inl k ↦ inl ((then_quiet _ k).at w)
    | inr s ↦ inr (c, refl, s)
  ]
  after_hello-disk (err received_http_request) w = inl (quiet.at w)
    where
      quiet : Keeps IsSameDisk (after_hello host conf (err received_http_request))
      quiet =
          search
            (
              keeps_rules, Keeps-record_protocol_error, Keeps-send_http_response, IsSameDisk-quiet,
              stable,
            )
            depth 8
  after_hello-disk (err Error.timeout) w = inl (same refl refl)
  after_hello-disk (err _) w = inl (same refl refl)

  hello-quiet : (late : Bool) → Keeps IsSameDisk (recv_hello host late)
  unfolding recv_hello
  hello-quiet true = search (keeps_rules, stable)
  hello-quiet false = Keeps-recv_command IsSameDisk-quiet host true

  try_client-disk :
      (late : Bool) (w : World)
      → IsSameDisk w (try_client host conf late w).1 ⊎ IsAdmitted host conf late w
  unfolding try_client
  try_client-disk late w = split (recv_hello host late w) refl ((hello-quiet late).at w)
    where
      split :
          (o : Result Command × World)
          → recv_hello host late w ≡ o
          → IsSameDisk w o.1
          → IsSameDisk w (after_hello host conf o.0 o.1).1 ⊎ IsAdmitted host conf late w
      split (r, v) e h = elim (after_hello-disk r v) [
        | inl k ↦ inl (stable.compose w v _ h k)
        | inr (c, q, s) ↦ inr (record {
          command = c;
          rest = v;
          received = cc;
          named = s.0;
          header = s.1;
          checked = s.2;
          known = s.3;
        })
      ]

  finish-disk : (t : Text) → Keeps IsSameDisk (finish t)
  unfolding finish record_connection active_connections
  finish-disk t = search (keeps_rules, record_event-disk, close_disk, stable) depth 8

  -- A connection whose client does not present a configured token, in a well-formed handshake and
  -- in time, changes neither the file system nor what was made durable; in particular it creates
  -- no directory and no file.
  pub handle_client-disk :
      (late : Bool) (w : World)
      → IsSameDisk w (handle_client host conf late w).1
        ⊎ IsAdmitted host conf late (active_connections active_connection_inc w).1
  unfolding handle_client active_connections
  handle_client-disk late w =
      let begun = active_connections active_connection_inc w in
      let k₁ : IsSameDisk w begun.1 = (record_event-disk active_connection_inc).at w in
      elim (try_client-disk late begun.1) [
        | inr a ↦ inr a
        | inl k₂ ↦
            let run = try_client host conf late begun.1 in
            inl (
              stable.compose w begun.1 _ k₁
                (stable.compose begun.1 run.1 _ k₂ ((finish-disk (outcome run.0)).at run.1)))
      ]

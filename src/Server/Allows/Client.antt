-- ===== src/Server/Allows/Client.antt =====
-- A whole connection: the served directory and its parent are allowed wherever the configuration
-- and the header lead.
use logline.Base.{◌≡◌, refl, Bool, true, false, Option, none, some, arith, Text}
use logline.Json.{Value, Fields}
use logline.Fs.{FilePath, parent}
use logline.Fs.Join.{path_join}
use logline.Host.{Host}
use logline.Server.World.{Error, World, Action, Result, ok, err, ◌>>=◌}
use logline.Server.World.Keeps.{IsStable, Keeps, Keeps-update_fs, Keeps-bind, keeps_rules}
use logline.Server.Quiet.{
  Keeps-record_auth_failure, Keeps-recv_command, Keeps-record_protocol_error,
  Keeps-send_http_response,
}
use logline.Server.Segments.{IsSafe}
use logline.Server.Command.{Command}
use logline.Server.Paths.{build_destination_dir}
use logline.Server.Auth.{Configuration}
use logline.Server.Handle.{
  lift, authenticated, authenticate, Header, make_dir, make_destination, checked_target,
  serve_header, serve_hello, recv_hello, after_hello, try_client,
}
use logline.Server.Allows.{Allows, stable}
use logline.Server.Allows.Loop.{Gives-serve_client}

module _ {R : World → World → Type 0} {A : Type 0} (stable : IsStable R) where
  pub Keeps-lift : (r : Result A) → Keeps R (lift r)
  Keeps-lift r = record { at = λ w. stable.same w }

  -- What follows may use that the result was no error.
  pub Keeps-bind-lift :
      {B : Type 0} (r : Result A) (f : A → Action B)
      → ((a : A) → r ≡ ok a → Keeps R (f a))
      → Keeps R (lift r >>= f)
  unfolding ◌>>=◌
  Keeps-bind-lift (ok a) f kf = kf a refl
  Keeps-bind-lift (err e) f kf = record { at = λ w. stable.same w }

module _ {R : World → World → Type 0} {Below : FilePath → Type 0} (allows : Allows R Below)
    (host : Host) (conf : Configuration)
    (places : (hostname directory : Value) (d : FilePath)
      → build_destination_dir host conf.destination_directory hostname directory ≡ ok d
      → Below d × Below (parent d) × ((c : Text) → IsSafe c → Below (path_join d c))) where
  Keeps-authenticated : (r : Result Unit) → Keeps R (authenticated r)
  unfolding authenticated
  Keeps-authenticated (ok u) = search (keeps_rules, stable allows)
  Keeps-authenticated (err e) =
      search (keeps_rules, Keeps-record_auth_failure, allows.quiet, stable allows) depth 8

  pub Keeps-authenticate : (auth : Fields) → Keeps R (authenticate host conf auth)
  unfolding authenticate
  Keeps-authenticate auth = Keeps-authenticated _

  Keeps-make_dir : (p : FilePath) → Below p → Keeps R (make_dir p)
  unfolding make_dir
  Keeps-make_dir p h = Keeps-update_fs (stable allows) _ (λ w. allows.making w p h)

  pub Keeps-make_destination :
      (d : FilePath) → Below d → Below (parent d) → Keeps R (make_destination d)
  unfolding make_destination
  Keeps-make_destination d h hp = search (keeps_rules, Keeps-make_dir, stable allows) depth 10

  pub checked_target-IsSafe : (o : Option Text) (s : Text) → checked_target o ≡ ok s → IsSafe s
  unfolding checked_target
  checked_target-IsSafe none s e = cc
  checked_target-IsSafe (some t) s e = ground arith

  Keeps-serve_header : (h : Header) → Keeps R (serve_header host conf h)
  unfolding serve_header
  Keeps-serve_header h = Keeps-bind (stable allows) _ _ (Keeps-authenticate h.auth) λ _.
      Keeps-bind (stable allows) _ _ (search (keeps_rules, stable allows)) λ directory.
        Keeps-bind-lift (stable allows) _ _ λ d e.
          let (hd, hp, hc) = places _ _ d e in
          Keeps-bind (stable allows) _ _ (Keeps-make_destination d hd hp) λ _.
            Keeps-bind-lift (stable allows) _ _ λ target e'.
              (Gives-serve_client allows d hc host target h.prefix_length
                (checked_target-IsSafe _ target e')).keeps

  Keeps-serve_hello : (c : Command) → Keeps R (serve_hello host conf c)
  unfolding serve_hello
  Keeps-serve_hello c =
      Keeps-bind (stable allows) _ _ (search (keeps_rules, stable allows))
        λ _. Keeps-bind (stable allows) _ _ (Keeps-lift (stable allows) _) λ h. Keeps-serve_header h

  Keeps-recv_hello : (late : Bool) → Keeps R (recv_hello host late)
  unfolding recv_hello
  Keeps-recv_hello true = search (keeps_rules, stable allows)
  Keeps-recv_hello false = Keeps-recv_command allows.quiet host true

  Keeps-after_hello : (r : Result Command) → Keeps R (after_hello host conf r)
  unfolding after_hello
  Keeps-after_hello (ok c) = search (keeps_rules, Keeps-serve_hello, stable allows) depth 8
  Keeps-after_hello (err Error.received_http_request) =
      search
        (
          keeps_rules,
          Keeps-record_protocol_error,
          Keeps-send_http_response,
          allows.quiet,
          stable allows,
        )
        depth 8
  Keeps-after_hello (err _) = search (keeps_rules, stable allows)

  -- Everything between the beginning and the end of a connection.
  pub Keeps-try_client : (late : Bool) → Keeps R (try_client host conf late)
  unfolding try_client
  Keeps-try_client late = record {
    at = λ w.
        let (r, w') = recv_hello host late w in
        (stable allows).compose w w' _ ((Keeps-recv_hello late).at w) ((Keeps-after_hello r).at w');
  }

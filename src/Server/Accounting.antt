-- ===== src/Server/Accounting.antt =====
-- What a connection leaves in the metrics: its beginning, its end with one outcome, and between
-- them only measurements of other kinds.
use logline.Base.{
  ◌≡◌, refl, sym, ◌∙◌, ◌⊎◌, inl, inr, Bool, true, List, [], ◌∷◌, ◌++◌, append_assoc, append-nil,
  Text, All, All-append, codes,
}
use logline.Fs.{FilePath}
use logline.Host.{Host}
use logline.Server.World.{
  Event, connection, active_connection_inc, active_connection_dec, connection_closed,
  received_http_request, timeout, Result, ok, err, World, pure, modify, continue, ◌>>=◌,
}
use logline.Server.World.Keeps.{IsStable}
use logline.Server.Quiet.{IsInner}
use logline.Server.Telemetry.{
  record_protocol_error, record_event, record_connection, active_connections,
}
use logline.Server.Command.{Command}
use logline.Server.Stream.{send_http_response}
use logline.Server.Auth.{Configuration}
use logline.Server.Handle.{
  serve_hello, recv_hello, after_hello, try_client, outcome, finish, handle_client,
}
use logline.Server.Allows.{Allows}
use logline.Server.Allows.Client.{Keeps-try_client}

-- The metrics grow by measurements that belong inside a connection.
record IsCounted (u v : World) : Type 0 where
  enabled : v.metrics_enabled ≡ u.metrics_enabled
  middle : List Event
  grows : v.metrics ≡ u.metrics ++ middle
  inner : All IsInner middle

IsCounted-stable : IsStable IsCounted
IsCounted-stable = record {
  same = λ w. record { enabled = refl; middle = []; grows = sym (append-nil _); inner = tt };
  compose = λ u v w h k. record {
    enabled = k.enabled ∙ h.enabled;
    middle = h.middle ++ k.middle;
    grows = rw (k.grows, h.grows) (append_assoc u.metrics h.middle k.middle);
    inner = All-append IsInner h.middle k.middle h.inner k.inner;
  };
}

untouched :
    {u v : World} → v.metrics_enabled ≡ u.metrics_enabled → v.metrics ≡ u.metrics → IsCounted u v
untouched e m = record { enabled = e; middle = []; grows = rw (m, append-nil); inner = tt }

-- Whatever directory it serves, a connection counts so.
IsCounted-Allows : Allows IsCounted (λ (p : FilePath). Unit {0})
IsCounted-Allows = record {
  quiet = record {
    stable = IsCounted-stable;
    reading = λ w i k e. untouched refl refl;
    sending = λ w o. untouched refl refl;
    measuring =
        λ w e h on. record { enabled = refl; middle = e ∷ []; grows = refl; inner = (h, tt) };
  };
  syncing = λ w s. untouched refl refl;
  creating = λ w p b h fs e. untouched refl refl;
  renaming = λ w p q a b fs e. untouched refl refl;
  making = λ w p b fs e. untouched refl refl;
  writing = λ w h b. untouched refl refl;
}

try_client-IsCounted :
    (host : Host) (conf : Configuration) (late : Bool) (w : World)
    → IsCounted w (try_client host conf late w).1
try_client-IsCounted host conf late w =
    (Keeps-try_client IsCounted-Allows host conf (λ a b d e. (tt, tt, λ c safe. tt)) late).at w

-- The metrics around one connection.
abbrev pub IsAccounted : World → World → Type 0
IsAccounted u v =
    (middle : List Event) × (result : Text) × (v.metrics
      ≡ u.metrics
        ++ (active_connection_inc ∷ (middle ++ (connection result ∷ active_connection_dec ∷ []))))
    × All IsInner middle
    × ((result ≡ codes "ok") ⊎ (result ≡ codes "error"))

abbrev pub IsLabel : Text → Type 0
IsLabel t = (t ≡ codes "ok") ⊎ (t ≡ codes "error")

then-IsLabel :
    (t : Text)
    → IsLabel t
    → (r : Result Unit) (w : World) → IsLabel (outcome (continue r (λ _. pure t) w).0)
unfolding outcome pure
then-IsLabel t h (ok u) w = h
then-IsLabel t h (err connection_closed) w = inl refl
then-IsLabel t h (err _) w = inr refl

after_hello-IsLabel :
    (host : Host) (conf : Configuration) (r : Result Command) (w : World)
    → IsLabel (outcome (after_hello host conf r w).0)
unfolding after_hello outcome ◌>>=◌ record_protocol_error record_event send_http_response
after_hello-IsLabel host conf (ok c) w =
    let (r, w') = serve_hello host conf c w in then-IsLabel (codes "ok") (inl refl) r w'
after_hello-IsLabel host conf (err received_http_request) w = inl refl
after_hello-IsLabel host conf (err timeout) w = inr refl
after_hello-IsLabel host conf (err connection_closed) w = inl refl
after_hello-IsLabel host conf (err _) w = inr refl

recorded :
    (e : Event) (w : World)
    → w.metrics_enabled ≡ true
    → record_event e w ≡ (ok tt, record w { metrics = w.metrics ++ e ∷ [] })
unfolding record_event modify
recorded e w h = rw h

finish-metrics :
    (result : Text) (w : World)
    → w.metrics_enabled ≡ true
    → ((finish result w).1.metrics ≡ w.metrics ++ (connection result ∷ active_connection_dec ∷ []))
      × ((finish result w).1.closed ≡ true)
      × ((finish result w).0 ≡ ok tt)
unfolding finish record_connection active_connections ◌>>=◌ record_event modify
finish-metrics result w h = (simp (h, append_assoc), refl, refl)

try_client-IsLabel :
    (host : Host) (conf : Configuration) (late : Bool) (w : World)
    → IsLabel (outcome (try_client host conf late w).0)
unfolding try_client
try_client-IsLabel host conf late w =
    let (r, w') = recv_hello host late w in after_hello-IsLabel host conf r w'

ended :
    (host : Host) (conf : Configuration) (late : Bool) (u : World)
    → u.metrics_enabled ≡ true
    → let w = record u { metrics = u.metrics ++ active_connection_inc ∷ [] } in
      let (r, v) = try_client host conf late w in
      IsAccounted u (finish (outcome r) v).1
      × ((finish (outcome r) v).1.closed ≡ true)
      × ((finish (outcome r) v).0 ≡ ok tt)
ended host conf late u h =
    let w : World = record u { metrics = u.metrics ++ active_connection_inc ∷ [] } in
    let counted : IsCounted w (try_client host conf late w).1 =
      try_client-IsCounted host conf late w in
    let last =
      finish-metrics (outcome (try_client host conf late w).0) (try_client host conf late w).1
        (counted.enabled ∙ h) in
    (
      (
        counted.middle,
        outcome (try_client host conf late w).0,
        simp (last.0, counted.grows, append_assoc),
        counted.inner,
        try_client-IsLabel host conf late w,
      ),
      last.1,
      last.2,
    )

-- While metrics are on, a connection, whatever the client sends and however it ends, records one
-- beginning, then only measurements of other kinds, then one outcome, `ok` or `error`, and one end;
-- the connection is closed, and no exception leaves the handler.
pub handle_client-IsAccounted :
    (host : Host) (conf : Configuration) (late : Bool) (w : World)
    → w.metrics_enabled ≡ true
    → IsAccounted w (handle_client host conf late w).1
      × ((handle_client host conf late w).1.closed ≡ true)
      × ((handle_client host conf late w).0 ≡ ok tt)
unfolding handle_client active_connections
handle_client-IsAccounted host conf late w h =
    let begun : record_event active_connection_inc w
        ≡ (ok tt, record w { metrics = w.metrics ++ active_connection_inc ∷ [] }) =
      recorded active_connection_inc w h in
    rw begun (ended host conf late w h)

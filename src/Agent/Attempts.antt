-- ===== src/Agent/Attempts.antt =====
-- How the attempts of `connect_to_server` are measured.
use logline.Base.{
  ◌≡◌, refl, ap, sym, ◌∙◌, Bool-cases, inl, inr, true, Option, none, some, List, [], ◌∷◌, ◌++◌,
  append-nil, Bytes, Text, codes,
}
use mathlib.Core.Path.{subst}
use logline.Json.{Value, str, truthy, as_str}
use logline.Config.Agent.{Configuration}
use logline.Host.{Host}
use logline.Agent.Client.{
  Reply, replied, connection_error, malformed, error_reply, protocol_error, unreadable, header,
  command_frame, read_reply,
}
use logline.Agent.Telemetry.{
  Event, bytes_read, bytes_sent, send_duration, frame, connect, rotation, Telemetry, record_event,
  record_connect, record_frame, record_send_duration,
}
use logline.Agent.Connect.{
  Answer, answered, expired, broken, Sent, returned, raised, ended, after_answer, send_command,
  send_header, Endpoint, endpoint, Opening, no_context, not_opened, opened, greeted, connect_with,
  connect_as, connect_to_server,
}

-- The outcomes of the attempts that were measured, and those of the frames.
abbrev pub connects : List Event → List Text
connects [] = []
connects (connect result ∷ es) = result ∷ connects es
connects (bytes_read n ∷ es) = connects es
connects (bytes_sent n ∷ es) = connects es
connects (send_duration ∷ es) = connects es
connects (frame result ∷ es) = connects es
connects (rotation ∷ es) = connects es

connects-append : (es fs : List Event) → connects (es ++ fs) ≡ connects es ++ connects fs
connects-append [] fs = refl
connects-append (connect result ∷ es) fs = ap (λ l. result ∷ l) (connects-append es fs)
connects-append (bytes_read n ∷ es) fs = connects-append es fs
connects-append (bytes_sent n ∷ es) fs = connects-append es fs
connects-append (send_duration ∷ es) fs = connects-append es fs
connects-append (frame result ∷ es) fs = connects-append es fs
connects-append (rotation ∷ es) fs = connects-append es fs

-- What an attempt should add: its outcome, by what came of the opening and whether the server replied.
abbrev pub outcomes : Opening → Option Value → List Text
outcomes no_context reply = []
outcomes not_opened reply = codes "error" ∷ []
outcomes (opened server) (some reply) = codes "ok" ∷ []
outcomes (opened server) none = []

-- A frame leaves the outcomes of the attempts alone, and metrics on.
record IsQuiet (t u : Telemetry) : Type 0 where
  enabled : u.enabled ≡ true
  same : connects u.events ≡ connects t.events

recorded :
    (e : Event) (t : Telemetry)
    → t.enabled ≡ true
    → connects (e ∷ []) ≡ []
    → IsQuiet t (record_event e t)
unfolding record_event
recorded e t on q = rw on (record {
  enabled = refl;
  same = connects-append t.events (e ∷ []) ∙ (ap (λ l. connects t.events ++ l) q ∙ append-nil _);
})

measured :
    (result : Text) (t : Telemetry)
    → t.enabled ≡ true
    → IsQuiet t (record_frame result (record_send_duration t))
unfolding record_frame record_send_duration
measured result t on =
    let first = recorded send_duration t on refl in
    let then_frame = recorded (frame result) (record_event send_duration t) first.enabled refl in
    record { enabled = then_frame.enabled; same = then_frame.same ∙ first.same }

same_telemetry : (t : Telemetry) → t.enabled ≡ true → IsQuiet t t
same_telemetry t on = record { enabled = on; same = refl }

ended-IsQuiet : (r : Reply) (t : Telemetry) → t.enabled ≡ true → IsQuiet t (ended r t).1
unfolding ended
ended-IsQuiet (replied v rest) t on = measured (codes "ok") t on
ended-IsQuiet error_reply t on = measured (codes "error") t on
ended-IsQuiet protocol_error t on = measured (codes "error") t on
ended-IsQuiet connection_error t on = same_telemetry t on
ended-IsQuiet malformed t on = same_telemetry t on
ended-IsQuiet unreadable t on = same_telemetry t on

after_answer-IsQuiet :
    (host : Host) (a : Answer) (t : Telemetry)
    → t.enabled ≡ true
    → IsQuiet t (after_answer host a t).1
unfolding after_answer
after_answer-IsQuiet host (answered bytes) t on = ended-IsQuiet (read_reply host bytes) t on
after_answer-IsQuiet host expired t on = same_telemetry t on
after_answer-IsQuiet host broken t on = same_telemetry t on

counts :
    (result : Text) (t : Telemetry)
    → t.enabled ≡ true
    → connects (record_connect result t).events ≡ connects t.events ++ result ∷ []
unfolding record_connect record_event
counts result t on = rw on (connects-append t.events (connect result ∷ []))

greeted-counts :
    (written : Bytes) (s : Sent) (server : Bytes → Answer) (t u : Telemetry)
    → IsQuiet t u
    → let c = greeted (record { written = written; sent = s; telemetry = u }) in
      connects c.telemetry.events ≡ connects t.events ++ outcomes (opened server) c.header_reply
unfolding greeted
greeted-counts written raised server t u q = q.same ∙ sym (append-nil _)
greeted-counts written (returned reply) server t u q = elim (Bool-cases (truthy reply)) [
  | inl kept ↦ rw kept (counts (codes "ok") u q.enabled ∙ ap (λ l. l ++ codes "ok" ∷ []) q.same)
  | inr empty ↦ rw empty (q.same ∙ sym (append-nil _))
]

connect_with-counts :
    (host : Host) (hostname directory target : Text) (log_prefix : Bytes) (client_token : Text)
    (o : Opening) (t : Telemetry)
    → t.enabled ≡ true
    → let c = connect_with host hostname directory target log_prefix client_token o t in
      connects c.telemetry.events ≡ connects t.events ++ outcomes o c.header_reply
unfolding connect_with send_header send_command
connect_with-counts host hostname directory target log_prefix client_token no_context t on =
    sym (append-nil _)
connect_with-counts host hostname directory target log_prefix client_token not_opened t on =
    counts (codes "error") t on
connect_with-counts host hostname directory target log_prefix client_token (opened server) t on =
    let metadata : Value = header host hostname directory target log_prefix client_token in
    let written : Bytes = command_frame host (codes "logline-agent-v1") metadata none in
    greeted-counts written (after_answer host (server written) t).0 server t
      (after_answer host (server written) t).1 (after_answer-IsQuiet host (server written) t on)

-- While metrics are on and the token is a text, an attempt is measured as an error exactly where the
-- connection does not open in time, and as a success exactly where the server's reply to the header is there;
-- an attempt that opens and whose header has no such reply is not measured, nor is one for which
-- there is no context of TLS.
pub connect_to_server-counts :
    (host : Host) (open_connection : Endpoint → Opening) (conf : Configuration)
    (hostname directory target : Text) (log_prefix : Bytes) (client_token : Text) (t : Telemetry)
    → t.enabled ≡ true
    → conf.client_token ≡ str client_token
    → let c = connect_to_server host open_connection conf hostname directory target log_prefix t in
      connects c.telemetry.events
      ≡ connects t.events ++ outcomes (open_connection (endpoint conf)) c.header_reply
unfolding connect_to_server connect_as
connect_to_server-counts host open_connection conf hostname directory target log_prefix client_token
      t on a =
    let o = open_connection (endpoint conf) in
    subst
      (λ v.
        let c =
          connect_as host open_connection conf hostname directory target log_prefix (as_str v) t in
        connects c.telemetry.events ≡ connects t.events ++ outcomes o c.header_reply)
      (sym a) (connect_with-counts host hostname directory target log_prefix client_token o t on)

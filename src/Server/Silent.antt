-- ===== src/Server/Silent.antt =====
-- The record_* functions of telemetry.py while metrics are off.
use logline.Base.{Bool, Text, ◌≡◌, refl, ◌∙◌, false}
use logline.Fs.{FilePath}
use logline.Host.{Host}
use logline.Server.World.{World, Event, active_connection_inc, modify, ◌>>=◌}
use logline.Server.Telemetry.{record_event, record_connection, active_connections}
use logline.Server.Auth.{Configuration}
use logline.Server.Handle.{try_client, finish, handle_client}
use logline.Server.Allows.{Allows}
use logline.Server.Allows.Client.{Keeps-try_client}

-- Where metrics are off they stay off, and nothing is recorded.
record IsSilent (u v : World) : Type 0 where
  enabled : v.metrics_enabled ≡ u.metrics_enabled
  silent : u.metrics_enabled ≡ false → v.metrics ≡ u.metrics

untouched :
    {u v : World} → v.metrics_enabled ≡ u.metrics_enabled → v.metrics ≡ u.metrics → IsSilent u v
untouched e m = record { enabled = e; silent = λ off. m }

IsSilent-Allows : Allows IsSilent (λ (p : FilePath). Unit {0})
IsSilent-Allows = record {
  quiet = record {
    stable = record {
      same = λ w. untouched refl refl;
      compose = λ u v w h k. record {
        enabled = k.enabled ∙ h.enabled;
        silent = λ off. k.silent (h.enabled ∙ off) ∙ h.silent off;
      };
    };
    reading = λ w i k e. untouched refl refl;
    sending = λ w o. untouched refl refl;
    measuring = λ w e h on. record { enabled = refl; silent = λ off. absurd (cc (on, off)) };
  };
  syncing = λ w s. untouched refl refl;
  creating = λ w p b h fs e. untouched refl refl;
  renaming = λ w p q a b fs e. untouched refl refl;
  making = λ w p b fs e. untouched refl refl;
  writing = λ w h b. untouched refl refl;
}

unrecorded : (e : Event) (w : World) → w.metrics_enabled ≡ false → (record_event e w).1 ≡ w
unfolding record_event modify
unrecorded e w off = rw off refl

finish-silent :
    (result : Text) (w : World)
    → w.metrics_enabled ≡ false
    → (finish result w).1.metrics ≡ w.metrics
unfolding finish record_connection active_connections record_event modify ◌>>=◌
finish-silent result w off = simp off

-- While metrics are off, a whole connection records nothing, whatever the client sends and however it
-- ends.
pub handle_client-silent :
    (host : Host) (conf : Configuration) (late : Bool) (w : World)
    → w.metrics_enabled ≡ false
    → (handle_client host conf late w).1.metrics ≡ w.metrics
unfolding handle_client active_connections
handle_client-silent host conf late w off =
    let k =
      (Keeps-try_client IsSilent-Allows host conf (λ a b d e. (tt, tt, λ c safe. tt)) late).at w in
    rw (unrecorded active_connection_inc w off)
      (finish-silent _ (try_client host conf late w).1 (k.enabled ∙ off) ∙ k.silent off)

-- ===== src/Agent/Telemetry.antt =====
-- agent/logline_agent/telemetry.py: the instruments, the sources of the gauges, and what is recorded.
use logline.Base.{
  ℕ, Bool, true, false, ◌&&◌, Option, none, some, List, [], ◌∷◌, ◌++◌, ◌==◌, leb, if◌then◌else◌,
  Text, codes,
}
use logline.Json.{Value, truthy}
use logline.Config.{Metrics}

-- A measurement with its labels. A duration is a reading of the clock and is left out.
pub data Event : Type 0 where
  bytes_read bytes_sent : ℕ → Event
  send_duration : Event
  frame connect : Text → Event
  rotation : Event

-- The module's variables: `lag_sources` are the callables by their tokens, each as what it returns.
pub record Telemetry : Type 0 where
  pub enabled : Bool
  pub files_watched : Option ℕ
  pub lag_sources : List (ℕ × Option ℕ)
  pub events : List Event

-- The resource and the exporter that `init_metrics` sets up.
pub record Provider : Type 0 where
  pub service_name : Text
  pub host_name : Option Value
  pub endpoint : Option Value

-- `if value:`
unfoldable pub if_truthy : Value → Option Value
if_truthy value = if truthy value then some value else none

unfoldable pub off : Telemetry
off = record { enabled = false; files_watched = none; lag_sources = []; events = [] }

-- Of a process whose metrics are off; `installed` says that the SDK can be imported.
unfoldable pub init_metrics : Metrics → Bool → Telemetry → Option Provider × Telemetry
unfolding if_truthy
init_metrics conf installed t =
    if conf.enabled && installed
    then (
      some (record {
        service_name = codes "logline-agent";
        host_name = if_truthy conf.host_name;
        endpoint = if_truthy conf.endpoint;
      }),
      record t { enabled = true },
    )
    else (none, t)

unfoldable pub record_event : Event → Telemetry → Telemetry
record_event e t = if t.enabled then record t { events = t.events ++ e ∷ [] } else t

unfoldable pub record_bytes_read : ℕ → Telemetry → Telemetry
unfolding record_event
record_bytes_read count t = if count == 0 then t else record_event (bytes_read count) t

unfoldable pub record_bytes_sent : ℕ → Telemetry → Telemetry
unfolding record_event
record_bytes_sent count t = if count == 0 then t else record_event (bytes_sent count) t

unfoldable pub record_send_duration : Telemetry → Telemetry
unfolding record_event
record_send_duration t = record_event send_duration t

unfoldable pub record_frame : Text → Telemetry → Telemetry
unfolding record_event
record_frame result t = record_event (frame result) t

unfoldable pub record_connect : Text → Telemetry → Telemetry
unfolding record_event
record_connect result t = record_event (connect result) t

unfoldable pub record_rotation : Telemetry → Telemetry
unfolding record_event
record_rotation t = record_event rotation t

unfoldable pub set_files_watched_source : ℕ → Telemetry → Telemetry
set_files_watched_source count t = if t.enabled then record t { files_watched = some count } else t

-- `_lag_sources.pop(token, None)`
unfoldable pub remove : ℕ → List (ℕ × Option ℕ) → List (ℕ × Option ℕ)
remove token [] = []
remove token ((k, v) ∷ m) = let rest = remove token m in if k == token then rest else (k, v) ∷ rest

-- `_lag_sources[token] = source`
unfoldable pub put : ℕ → Option ℕ → List (ℕ × Option ℕ) → List (ℕ × Option ℕ)
put token lag [] = (token, lag) ∷ []
put token lag ((k, v) ∷ m) =
    let rest = put token lag m in if k == token then (k, lag) ∷ m else (k, v) ∷ rest

unfoldable pub register_lag_source : ℕ → Option ℕ → Telemetry → Telemetry
unfolding put
register_lag_source token lag t =
    if t.enabled then record t { lag_sources = put token lag t.lag_sources } else t

unfoldable pub unregister_lag_source : ℕ → Telemetry → Telemetry
unfolding remove
unregister_lag_source token t = record t { lag_sources = remove token t.lag_sources }

-- The lags that are known.
unfoldable pub known : List (ℕ × Option ℕ) → List ℕ
known [] = []
known ((k, none) ∷ m) = known m
known ((k, some lag) ∷ m) = lag ∷ known m

unfoldable pub largest : ℕ → List ℕ → ℕ
largest lag [] = lag
largest lag (l ∷ ls) = if leb lag l then largest l ls else largest lag ls

-- `_observe_shipping_lag`: at most one observation.
unfoldable pub observe : List ℕ → Option ℕ
unfolding largest
observe [] = none
observe (lag ∷ lags) = some (largest lag lags)

unfoldable pub observe_shipping_lag : Telemetry → Option ℕ
unfolding known observe
observe_shipping_lag t = observe (known t.lag_sources)

-- `_observe_files_watched`
unfoldable pub observe_files_watched : Telemetry → Option ℕ
observe_files_watched t = t.files_watched

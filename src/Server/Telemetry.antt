-- ===== src/Server/Telemetry.antt =====
-- server/logline_server/telemetry.py: while metrics are off nothing is recorded, and a count of
-- zero is not recorded either.
use logline.Base.{
  ℕ, zero, suc, Bool, true, ◌&&◌, Option, none, some, [], ◌∷◌, ◌++◌, if◌then◌else◌, Text, codes,
}
use logline.Json.{Value, truthy}
use logline.Config.{Metrics}
use logline.Server.World.{
  Event, connection, bytes_received, bytes_written, write_duration, decompress_duration,
  protocol_error, auth_failure, rename, World, Action, modify,
}

unfoldable pub record_event : Event → Action Unit
unfolding modify
record_event e =
    modify (λ w. if w.metrics_enabled then record w { metrics = w.metrics ++ e ∷ [] } else w)

unfoldable pub record_connection : Text → Action Unit
record_connection result = record_event (connection result)

unfoldable pub active_connections : Event → Action Unit
active_connections e = record_event e

unfoldable pub record_bytes_received : ℕ → Action Unit
record_bytes_received zero = modify (λ w. w)
record_bytes_received (suc n) = record_event (bytes_received (suc n))

unfoldable pub record_bytes_written : ℕ → Action Unit
record_bytes_written zero = modify (λ w. w)
record_bytes_written (suc n) = record_event (bytes_written (suc n))

unfoldable pub record_write_duration : Action Unit
record_write_duration = record_event write_duration

unfoldable pub record_decompress_duration : Text → Action Unit
record_decompress_duration compression = record_event (decompress_duration compression)

unfoldable pub record_protocol_error : Text → Action Unit
record_protocol_error error_type = record_event (protocol_error error_type)

unfoldable pub record_auth_failure : Action Unit
record_auth_failure = record_event auth_failure

unfoldable pub record_rename : Text → Action Unit
record_rename result = record_event (rename result)

-- The resource and the exporter that `init_metrics` sets up.
pub record Provider : Type 0 where
  pub service_name : Text
  pub host_name : Option Value
  pub endpoint : Option Value

-- `if value:`
unfoldable pub if_truthy : Value → Option Value
if_truthy value = if truthy value then some value else none

-- Of a process whose metrics are off; `installed` says that the SDK can be imported. That the
-- instruments are there is one switch.
unfoldable pub init_metrics : Metrics → Bool → World → Option Provider × World
unfolding if_truthy
init_metrics conf installed w =
    if conf.enabled && installed
    then (
      some (record {
        service_name = codes "logline-server";
        host_name = if_truthy conf.host_name;
        endpoint = if_truthy conf.endpoint;
      }),
      record w { metrics_enabled = true },
    )
    else (none, w)

-- ===== src/Server/Command.antt =====
-- `recv_command` of server/logline_server/main.py: one command with its metadata and payload.
use logline.Base.{
  ℕ, zero, suc, ◌+◌, Bool, true, false, ◌&&◌, ◌||◌, not, List, [], ◌∷◌, ◌==◌, Bytes, Text, is_empty,
  codes, Option, none, some,
}
use logline.Base.Decimal.{isdigit, int_of}
use logline.Base.Encoding.{ascii}
use logline.Base.Words.{split}
use logline.Json.{Value, null}
use logline.Host.{Host}
use logline.Server.World.{
  connection_closed, received_http_request, protocol_error, value_error, json_error, Action, pure,
  raise, or_raise, unless, ◌>>=◌, ◌>>◌,
}
use logline.Server.Telemetry.{record_bytes_received}
use logline.Server.Stream.{readline, readexactly}

pub record Command : Type 0 where
  pub name : Text
  pub metadata : Value
  pub payload : Option Bytes

-- `needle in line`
unfoldable pub starts_with : Text → Text → Bool
starts_with [] s = true
starts_with (c ∷ p) [] = false
starts_with (c ∷ p) (d ∷ s) = c == d && starts_with p s

unfoldable pub has_substring : Text → Text → Bool
unfolding starts_with
has_substring p [] = starts_with p []
has_substring p (c ∷ s) = starts_with p (c ∷ s) || has_substring p s

read_payload : Option ℕ → Action (Option Bytes)
read_payload none = pure none
read_payload (some zero) = pure (some [])
read_payload (some (suc n)) = do bytes ← readexactly (suc n); pure (some bytes)

size_or_zero : Option ℕ → ℕ
size_or_zero none = 0
size_or_zero (some n) = n

-- What follows once the command line is understood.
unfoldable pub read_body : Host → Text → ℕ → Option ℕ → Action Command
unfolding read_payload size_or_zero
read_body host command metadata_size data_size = do
  metadata_bytes ← readexactly metadata_size
  metadata ← or_raise json_error (host.loads metadata_bytes)
  payload ← read_payload data_size
  record_bytes_received (metadata_size + size_or_zero data_size)
  pure (record { name = command; metadata = metadata; payload = payload })

-- The branches on the number of words of the command line.
unfoldable pub read_parts : Host → List Text → Action Command
read_parts host (command ∷ []) = pure (record { name = command; metadata = null; payload = none })
read_parts host (command ∷ metadata_size ∷ []) = do
  unless (isdigit metadata_size) protocol_error
  n ← or_raise value_error (int_of metadata_size)
  read_body host command n none
read_parts host (command ∷ metadata_size ∷ data_size ∷ []) = do
  unless (isdigit metadata_size && isdigit data_size) protocol_error
  n ← or_raise value_error (int_of metadata_size)
  k ← or_raise value_error (int_of data_size)
  read_body host command n (some k)
read_parts host _ = raise protocol_error

unfoldable pub recv_command : Host → Bool → Action Command
recv_command host first = do
  line ← readline
  unless (not (is_empty line)) connection_closed
  unless (not (first && has_substring (codes "HTTP/") line)) received_http_request
  text ← or_raise protocol_error (ascii line)
  read_parts host (split text)

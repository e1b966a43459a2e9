-- ===== src/Server/Append.antt =====
-- `apply_data` of server/logline_server/main.py, and `decompress_zst` of util.py beside it.
use logline.Base.{
  ℕ, Bool, false, Option, none, some, ◌==◌, if◌then◌else◌, length, Bytes, Text, text_eq, codes,
}
use logline.Base.Int.{ℤ, pos, negsuc}
use logline.Json.{Value, get, null, as_str, as_dict, as_int}
use logline.Fs
use logline.Fs.{Fs, Handle}
use logline.Host.{Host}
use logline.Server.World.{
  protocol_error, unsupported_compression, decompress_error, no_zstd, ok, Action, pure, raise,
  or_raise, ◌>>=◌, ◌>>◌,
}
use logline.Server.Telemetry.{
  record_protocol_error, record_decompress_duration, record_write_duration, record_bytes_written,
}

-- The package that is imported, or what to do on `ImportError`.
unfoldable pub with_package : Option (Bytes → Option Bytes) → Bytes → Action Bytes → Action Bytes
with_package (some decompress) compressed otherwise =
    or_raise decompress_error (decompress compressed)
with_package none compressed otherwise = otherwise

unfoldable pub decompress_zst : Host → Bytes → Action Bytes
unfolding with_package
decompress_zst host compressed =
    with_package host.zstandard_decompress compressed
      (with_package host.zstd_decompress compressed (raise no_zstd))

unfoldable pub unsupported : Action Bytes
unsupported = do record_protocol_error (codes "bad_compression"); raise unsupported_compression

unfoldable pub measured : Text → Action Bytes → Action Bytes
measured compression run = do out ← run; record_decompress_duration compression; pure out

unfoldable pub decompress_named : Host → Option Text → Bytes → Action Bytes
decompress_named host none payload = unsupported
decompress_named host (some name) payload =
    if text_eq name (codes "gzip")
    then measured name (or_raise decompress_error (host.gzip_decompress payload))
    else if text_eq name (codes "lzma")
    then measured name (or_raise decompress_error (host.lzma_decompress payload))
    else if text_eq name (codes "zst")
    then measured name (decompress_zst host payload)
    else unsupported

-- The payload of a frame, by the compression that its metadata names.
unfoldable pub decompress : Host → Value → Bytes → Action Bytes
unfolding decompress_named unsupported measured decompress_zst
decompress host null payload = pure payload
decompress host compression payload = decompress_named host (as_str compression) payload

-- `offset == f.tell()`
abbrev pub is_at : ℤ → ℕ → Bool
is_at (pos n) position = n == position
is_at (negsuc n) position = false

unfoldable pub check_offset : Handle → ℤ → Action Unit
check_offset f offset =
    if is_at offset f.position
    then pure tt
    else do record_protocol_error (codes "offset_mismatch"); raise protocol_error

-- `f.write(data)` and `f.flush()`
unfoldable pub write_file : Handle → Bytes → Action Handle
write_file f out w = (ok (Fs.write f out w.fs).0, record w { fs = (Fs.write f out w.fs).1 })

-- Everything before the write: the bytes to be written.
unfoldable pub accept_data : Host → Handle → Value → Option Bytes → Action Bytes
accept_data host f metadata payload = do
  data' ← or_raise protocol_error payload
  fields ← or_raise protocol_error (as_dict metadata)
  out ← decompress host (get (codes "compression") fields) data'
  offset ← or_raise protocol_error (as_int (get (codes "offset") fields))
  check_offset f offset
  pure out

-- The result is the open file at its new position.
unfoldable pub apply_data : Host → Handle → Value → Option Bytes → Action Handle
unfolding accept_data check_offset write_file
apply_data host f metadata payload = do
  out ← accept_data host f metadata payload
  f' ← write_file f out
  record_write_duration
  record_bytes_written (length out)
  pure f'

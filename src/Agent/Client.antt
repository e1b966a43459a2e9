-- ===== src/Agent/Client.antt =====
-- agent/logline_agent/client.py: the frames that the agent sends and the replies that it reads.
use logline.Base.{
  ℕ, zero, suc, Option, none, some, List, [], ◌∷◌, ◌++◌, ltb, leb, if◌then◌else◌, length, take,
  drop, Bytes, Text, text_eq, is_empty, codes,
}
use logline.Base.Int.{pos}
use logline.Base.Decimal.{format, isdigit, int_of}
use logline.Base.Encoding.{ascii}
use logline.Base.Words.{split}
use logline.Json.{Value, null, int, str, obj, field, end}
use logline.Host.{Host, sha1_b64}
use logline.Server.Stream.{stream_limit, line_length, split_line}

-- What `_send_command` writes: the command line, the metadata with a newline, and the payload.
unfoldable pub command_frame : Host → Text → Value → Option Bytes → Bytes
command_frame host command metadata none =
    let md_bytes = host.dumps metadata ++ codes "\n" in
    command ++ (32 ∷ (format (length md_bytes) ++ (10 ∷ md_bytes)))
command_frame host command metadata (some payload) =
    let md_bytes = host.dumps metadata ++ codes "\n" in
    command
    ++ (32
        ∷ (format (length md_bytes)
            ++ (32 ∷ (format (length payload) ++ (10 ∷ (md_bytes ++ payload))))))

-- The header of `connect_to_server`; the directory is that of the log file.
unfoldable pub header : Host → Text → Text → Text → Bytes → Text → Value
header host hostname directory target log_prefix client_token = obj (
    field (codes "hostname") (str hostname) (
      field (codes "directory") (str directory) (
        field (codes "target") (str target) (
          field (codes "prefix")
            (obj (
              field (codes "length") (int (pos (length log_prefix)))
                (field (codes "sha1") (str (sha1_b64 host log_prefix)) end)))
            (field (codes "auth") (obj (field (codes "client_token") (str client_token) end))
              end)))))

-- `send_data`: the payload is compressed where that makes it shorter.
unfoldable pub data_metadata : ℕ → Value → Value
data_metadata offset compression =
    obj (field (codes "offset") (int (pos offset)) (field (codes "compression") compression end))

unfoldable pub data_frame : Host → ℕ → Bytes → Bytes
unfolding command_frame data_metadata
data_frame host offset content =
    let content_gz = host.gzip_compress content in
    if ltb (length content_gz) (length content)
    then command_frame host (codes "data") (data_metadata offset (str (codes "gzip")))
        (some content_gz)
    else command_frame host (codes "data") (data_metadata offset null) (some content)

-- `send_rename`
unfoldable pub rename_metadata : Text → Text → Value
rename_metadata src dst = obj (field (codes "from") (str src) (field (codes "to") (str dst) end))

unfoldable pub rename_frame : Host → Text → Text → Bytes
unfolding command_frame rename_metadata
rename_frame host src dst = command_frame host (codes "rename") (rename_metadata src dst) none

-- How `_send_command` ends once the frame was written: with the reply and what follows it in the
-- stream, or by an exception.
pub data Reply : Type 0 where
  replied : Value → Bytes → Reply
  connection_error malformed error_reply protocol_error unreadable : Reply

-- `if reply_status == 'ok' … elif reply_status == 'error' … else …`
unfoldable pub judge : Text → Value → Bytes → Reply
judge status reply rest =
    if text_eq status (codes "ok")
    then replied reply rest
    else if text_eq status (codes "error")
    then error_reply
    else protocol_error

unfoldable pub loaded : Text → Option Value → Bytes → Reply
unfolding judge
loaded status none rest = unreadable
loaded status (some reply) rest = judge status reply rest

-- The payload of a reply; a length of zero stands for none. A length that is no plain decimal
-- number is an exception of `int` or of `readexactly`, except for spellings with a sign or
-- underscores, which the server does not send and which are refused here.
unfoldable pub read_payload : Host → Text → Option ℕ → Bytes → Reply
unfolding judge loaded
read_payload host status none rest = unreadable
read_payload host status (some zero) rest = judge status null rest
read_payload host status (some (suc n)) rest =
    if leb (suc n) (length rest)
    then loaded status (host.loads (take (suc n) rest)) (drop (suc n) rest)
    else unreadable

unfoldable pub reply_length : Text → Option ℕ
reply_length word = if isdigit word then int_of word else none

unfoldable pub read_parts : Host → List Text → Bytes → Reply
unfolding judge loaded read_payload reply_length
read_parts host (status ∷ size ∷ []) rest = read_payload host status (reply_length size) rest
read_parts host (status ∷ []) rest = judge status null rest
read_parts host _ rest = malformed

unfoldable pub decoded : Host → Option Text → Bytes → Reply
unfolding read_parts
decoded host none rest = unreadable
decoded host (some line) rest = read_parts host (split line) rest

-- The second half of `_send_command`, over the bytes that the server sends; a line beyond the limit of the
-- stream is an exception of `readline`.
unfoldable pub read_reply : Host → Bytes → Reply
unfolding decoded
read_reply host input =
    let (line, rest) = split_line input in
    if ltb stream_limit (line_length input)
    then unreadable
    else if is_empty line
    then connection_error
    else decoded host (ascii line) rest

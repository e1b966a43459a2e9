-- ===== src/Server/Stream.antt =====
-- The two ends of the connection: what `asyncio`'s reader does with the bytes received, and the
-- replies (`send_reply`, `send_http_response`) of server/logline_server/main.py.
use logline.Base.{
  ℕ, suc, ◌≡◌, refl, [], ◌∷◌, ◌++◌, arith, ltb, leb, ◌==◌, if◌then◌else◌, ◌^◌, length, take, drop,
  Bytes, Text, codes, Option, none, some,
}
use logline.Base.Decimal.{format}
use logline.Json.{Value}
use logline.Host.{Host}
use logline.Server.World.{value_error, incomplete_read, ok, err, Action, modify, ◌>>◌}

-- The first line with its newline, or all there is, and what follows.
unfoldable pub split_line : Bytes → Bytes × Bytes
split_line [] = ([], [])
split_line (c ∷ s) = let (l, r) = split_line s in if c == 10 then (c ∷ [], s) else (c ∷ l, r)

-- What follows the first line is the input without it.
pub split_line-drop : (s : Bytes) → (split_line s).1 ≡ drop (length (split_line s).0) s
unfolding split_line
split_line-drop [] = refl
split_line-drop (c ∷ s) = ground (arith, split_line-drop s)

-- How many bytes stand before the newline, or before the end.
unfoldable pub line_length : Bytes → ℕ
line_length [] = 0
line_length (c ∷ s) = let n = line_length s in if c == 10 then 0 else suc n

-- The default limit of a stream of `asyncio`.
abbrev pub stream_limit : ℕ
stream_limit = 2 ^ 16

-- `reader.readline()`
unfoldable pub readline : Action Bytes
readline w =
    if ltb stream_limit (line_length w.input)
    then (err value_error, w)
    else (ok (split_line w.input).0, record w { input = (split_line w.input).1 })

-- `reader.readexactly(n)`
unfoldable pub readexactly : ℕ → Action Bytes
readexactly n w =
    if leb n (length w.input)
    then (ok (take n w.input), record w { input = drop n w.input })
    else (err incomplete_read, record w { input = [] })

-- `writer.write(data)`, and `writer.drain()` after it.
unfoldable pub send : Bytes → Action Unit
send out = modify (λ w. record w { output = w.output ++ out })

unfoldable pub reply_frame : Host → Text → Option Value → Bytes
reply_frame host status none = status ++ codes "\n"
reply_frame host status (some payload) =
    let payload_bytes = host.dumps payload in
    status ++ (codes " " ++ (format (length payload_bytes) ++ (codes "\n" ++ payload_bytes)))

unfoldable pub send_reply : Host → Text → Option Value → Action Unit
unfolding send reply_frame
send_reply host status payload = send (reply_frame host status payload)

unfoldable pub send_http_response : Action Unit
unfolding send
send_http_response = do
  send (codes "HTTP/1.0 404 Not Found\r\n")
  send (codes "Content-Type: text/plain\r\n")
  send (codes "\r\n")
  send (codes "This is not a HTTP service.\n")

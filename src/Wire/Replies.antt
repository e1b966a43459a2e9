-- ===== src/Wire/Replies.antt =====
-- The replies: what `send_reply` of the server writes is what `_send_command` of the agent reads.
use logline.Base.{
  ℕ, zero, suc, false, ltb, ◌≤◌, ◌<◌, ◌^◌, ◌≡◌, refl, ap, ◌∙◌, true, Option, none, some, [], ◌∷◌,
  ◌++◌, append_assoc, arith, leb, length, length-append, all, take, drop, take-append_self,
  drop-append_self, Bytes, text_eq, codes,
}
use logline.Base.Decimal.{length-format, format, isdigit-format, int_of-format}
use logline.Base.Words.{is_space, split}
use logline.Json.{Value, null}
use logline.Host.{Host}
use logline.Server.Stream.{stream_limit, line_length, reply_frame}
use logline.Agent.Client.{
  replied, judge, loaded, read_payload, reply_length, read_parts, decoded, read_reply,
}
use logline.Wire.Lines.{
  line_length-append, is_letter, is_inline, inline, inline-append, letters-format,
  split_line-append, ascii-line,
}
use logline.Wire.Reading.{IsName, split-size, is_empty-append}

ok-IsName : IsName (codes "ok")
unfolding is_letter is_space
ok-IsName = record { some_letter = omega arith; letters = refl; short = omega arith }

module _ (host : Host) (rest : Bytes) where
  -- A reply whose line is known.
  read_line :
      (l body : Bytes)
      → all is_inline l ≡ true
      → length l ≤ stream_limit
      → read_reply host (l ++ (10 ∷ body)) ≡ read_parts host (split (l ++ (10 ∷ []))) body
  unfolding read_reply decoded
  read_line l body h short =
      let fits : ltb stream_limit (line_length (l ++ (10 ∷ body))) ≡ false =
        rw (line_length-append l body h) (ground arith) in
      rw (fits, split_line-append l body h, is_empty-append l, ascii-line l h) refl

  judge-ok : (v : Value) → judge (codes "ok") v rest ≡ replied v rest
  unfolding judge text_eq
  judge-ok v = refl

  read_payload-append :
      (v : Value) (n : ℕ) (bytes : Bytes)
      → length bytes ≡ n
      → 0 < n
      → host.loads bytes ≡ some v
      → read_payload host (codes "ok") (some n) (bytes ++ rest) ≡ replied v rest
  unfolding read_payload loaded
  read_payload-append v zero bytes e p l = absurd (omega arith)
  read_payload-append v (suc n) bytes e p l =
      let enough : leb (suc n) (length (bytes ++ rest)) ≡ true =
        ground (arith, length-append bytes rest) in
      let head : take (suc n) (bytes ++ rest) ≡ bytes = rw (← e) (take-append_self bytes rest) in
      let tail : drop (suc n) (bytes ++ rest) ≡ rest = rw (← e) (drop-append_self bytes rest) in
      simp (enough, head, tail, l, judge-ok v)

  line_fits : (n : ℕ) → n < 10 ^ 4300 → length (codes "ok" ++ (32 ∷ format n)) ≤ stream_limit
  line_fits n h = omega (arith, length-format n 4299 h)

  parts-some :
      (v : Value)
      → host.loads (host.dumps v) ≡ some v
      → 0 < length (host.dumps v)
      → length (host.dumps v) < 10 ^ 4300
      → read_parts host (codes "ok" ∷ format (length (host.dumps v)) ∷ []) (host.dumps v ++ rest)
        ≡ replied v rest
  unfolding read_parts reply_length
  parts-some v l some_byte small =
      let n : ℕ = length (host.dumps v) in
      rw (isdigit-format n, int_of-format n small)
        (read_payload-append v n (host.dumps v) refl some_byte l)

  read_some :
      (v : Value)
      → host.loads (host.dumps v) ≡ some v
      → 0 < length (host.dumps v)
      → length (host.dumps v) < 10 ^ 4300
      → read_reply host (reply_frame host (codes "ok") (some v) ++ rest) ≡ replied v rest
  unfolding reply_frame is_letter is_space
  read_some v l some_byte small =
      let n : ℕ = length (host.dumps v) in
      let line : Bytes = codes "ok" ++ (32 ∷ format n) in
      let ok_line : all is_inline line ≡ true =
        inline-append (codes "ok") (format n) refl (inline (format n) (letters-format n)) in
      ap (read_reply host) (simp append_assoc)
      ∙ (read_line line (host.dumps v ++ rest) ok_line (line_fits n small)
          ∙ (ap (λ ws. read_parts host ws (host.dumps v ++ rest))
                (split-size (codes "ok") n ok-IsName)
              ∙ parts-some v l some_byte small))

  read_none : read_reply host (reply_frame host (codes "ok") none ++ rest) ≡ replied null rest
  unfolding reply_frame is_letter is_space split read_parts
  read_none = read_line (codes "ok") rest (inline (codes "ok") refl) (omega arith) ∙ judge-ok null

abbrev pub payload_of : Option Value → Value
payload_of none = null
payload_of (some v) = v

-- What `json` and `int()` have to do for a payload to arrive: text that is not empty, of a length that
-- `int()` converts, and that is read back.
abbrev pub Arrives : Host → Option Value → Type 0
Arrives host none = Unit {0}
Arrives host (some v) =
    (host.loads (host.dumps v) ≡ some v)
    × (0 < length (host.dumps v))
    × (length (host.dumps v) < 10 ^ 4300)

-- A reply `ok` of the server is read by the agent as its payload, null where there is none, and the
-- agent's stream is left right behind it, where `json` gives text that it reads back and whose length
-- `int()` converts.
pub read_reply-reply_frame :
    (host : Host) (payload : Option Value) (rest : Bytes)
    → Arrives host payload
    → read_reply host (reply_frame host (codes "ok") payload ++ rest)
      ≡ replied (payload_of payload) rest
read_reply-reply_frame host none rest a = read_none host rest
read_reply-reply_frame host (some v) rest a = read_some host rest v a.0 a.1 a.2

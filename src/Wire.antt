-- ===== src/Wire.antt =====
-- The protocol between the two programs: what the agent's client writes is what the server's
-- `recv_command` reads.
pub mod Lines
pub mod Reading
pub mod Replies
mod Tests
use logline.Base.{
  ℕ, zero, suc, ◌+◌, ◌*◌, ◌^◌, ◌≤◌, ◌<◌, ◌≡◌, refl, sym, ap, ◌∙◌, Bool, true, false, ◌&&◌, ◌||◌,
  not, List, [], ◌∷◌, ◌++◌, append_assoc, append-nil, arith, leb, ltb, ◌==◌, if◌then◌else◌, length,
  length-append, all, take, drop, take-append_self, drop-append_self, take-length, drop-length,
  Bytes, Text, is_empty, Option, none, some, codes,
}
use logline.Base.Decimal.{
  is_digit, isdigit, int_of, format, all-format, format-ne-nil, isdigit-format, int_of-format,
  length-format,
}
use logline.Base.Encoding.{ascii}
use logline.Base.Words.{is_space, split}
use native.Mathlib.Nat.{add-zero}
use logline.Json.{Value}
use logline.Host.{Host}
use logline.Server.World.{
  Result, ok, err, World, Action, pure, or_raise, modify, unless, ◌>>=◌, ◌>>◌,
}
use logline.Server.Telemetry.{record_event, record_bytes_received}
use logline.Server.Stream.{stream_limit, split_line, line_length, readline, readexactly}
use logline.Server.Command.{Command, has_substring, read_body, read_parts, recv_command}
use logline.Agent.Client.{command_frame}
use logline.Wire.Lines.{
  is_letter, is_inline, all_weaken, all-append, letters-format, inline, split_line-append,
  line_length-append, ascii-line, split-letters, inline-append, space_32, space_10, split-nil,
}
use logline.Wire.Reading.{
  IsName, read_line, split-sizes, split-size, readexactly-append, received-ok,
}

-- The world after a frame was read: the input behind it, and its size in the metrics.
abbrev pub received : ℕ → Bytes → World → World
received size rest w = (record_bytes_received size (record w { input = rest })).1

module _ (host : Host) (name : Text) (metadata value : Value) (rest : Bytes) (w : World)
    (loaded : host.loads (host.dumps metadata ++ codes "\n") ≡ some value)
    (small : length (host.dumps metadata ++ codes "\n") < 10 ^ 4300) where
  abbrev md_bytes : Bytes
  md_bytes = host.dumps metadata ++ codes "\n"

  body-none :
      (u : World)
      → u.input ≡ md_bytes ++ rest
      → read_body host name (length md_bytes) none u ≡ (
        ok (record { name = name; metadata = value; payload = none }),
        (record_bytes_received (length md_bytes) (record u { input = rest })).1,
      )
  unfolding read_body ◌>>=◌
  body-none u e = simp (readexactly-append md_bytes rest u e, loaded, received-ok, add-zero)

  body-some :
      (payload : Bytes) (u : World)
      → u.input ≡ md_bytes ++ (payload ++ rest)
      → read_body host name (length md_bytes) (some (length payload)) u ≡ (
        ok (record { name = name; metadata = value; payload = some payload }),
        (record_bytes_received (length md_bytes + length payload) (record u { input = rest })).1,
      )
  unfolding read_body ◌>>=◌
  body-some [] u e = simp (readexactly-append md_bytes rest u e, loaded, received-ok)
  body-some (b ∷ p) u e = simp (
    readexactly-append md_bytes ((b ∷ p) ++ rest) u e,
    loaded,
    readexactly-append (b ∷ p) rest (record u { input = (b ∷ p) ++ rest }) refl,
    received-ok,
  )

  line_fits :
      (n k : ℕ)
      → n < 10 ^ 4300
      → k < 10 ^ 4300
      → length name ≤ 50000
      → length (name ++ (32 ∷ (format n ++ (32 ∷ format k)))) ≤ stream_limit
  line_fits n k hn hk h = omega (
    arith,
    length-append name (32 ∷ (format n ++ (32 ∷ format k))),
    length-append (format n) (32 ∷ format k),
    length-format n 4299 hn,
    length-format k 4299 hk,
  )

  parts-some :
      (payload : Bytes) (u : World)
      → length payload < 10 ^ 4300
      → u.input ≡ md_bytes ++ (payload ++ rest)
      → read_parts host (name ∷ format (length md_bytes) ∷ format (length payload) ∷ []) u ≡ (
        ok (record { name = name; metadata = value; payload = some payload }),
        (record_bytes_received (length md_bytes + length payload) (record u { input = rest })).1,
      )
  unfolding read_parts ◌>>=◌
  parts-some payload u fits e = simp (
    isdigit-format (length md_bytes),
    isdigit-format (length payload),
    int_of-format (length md_bytes) small,
    int_of-format (length payload) fits,
    body-some payload u e,
  )

  parts-none :
      (u : World)
      → u.input ≡ md_bytes ++ rest
      → read_parts host (name ∷ format (length md_bytes) ∷ []) u ≡ (
        ok (record { name = name; metadata = value; payload = none }),
        (record_bytes_received (length md_bytes) (record u { input = rest })).1,
      )
  unfolding read_parts ◌>>=◌
  parts-none u e =
      simp (isdigit-format (length md_bytes), int_of-format (length md_bytes) small, body-none u e)

  frame-some :
      (payload : Bytes)
      → IsName name
      → length payload < 10 ^ 4300
      → w.input ≡ command_frame host name metadata (some payload) ++ rest
      → recv_command host false w ≡ (
        ok (record { name = name; metadata = value; payload = some payload }),
        received (length md_bytes + length payload) rest w,
      )
  unfolding command_frame
  frame-some payload n fits e =
      let l : Bytes = name ++ (32 ∷ (format (length md_bytes) ++ (32 ∷ format (length payload)))) in
      let cut : w.input ≡ l ++ (10 ∷ (md_bytes ++ (payload ++ rest))) = e ∙ simp append_assoc in
      let ok_line : all is_inline l ≡ true = inline-append name _ n.letters (
        inline-append (format (length md_bytes)) _ (letters-format (length md_bytes))
          (inline (format (length payload)) (letters-format (length payload)))) in
      read_line host l (md_bytes ++ (payload ++ rest)) w ok_line (line_fits _ _ small fits n.short)
        cut
      ∙ (ap (λ ws. read_parts host ws (record w { input = md_bytes ++ (payload ++ rest) }))
            (split-sizes name (length md_bytes) (length payload) n)
          ∙ parts-some payload (record w { input = md_bytes ++ (payload ++ rest) }) fits refl)

  -- A frame without a payload, whatever its metadata is read back as.
  pub frame-none :
      IsName name
      → w.input ≡ command_frame host name metadata none ++ rest
      → recv_command host false w ≡ (
        ok (record { name = name; metadata = value; payload = none }),
        received (length md_bytes) rest w,
      )
  unfolding command_frame
  frame-none n e =
      let l : Bytes = name ++ (32 ∷ format (length md_bytes)) in
      let cut : w.input ≡ l ++ (10 ∷ (md_bytes ++ rest)) = e ∙ simp append_assoc in
      let ok_line : all is_inline l ≡ true =
        inline-append name _ n.letters
          (inline (format (length md_bytes)) (letters-format (length md_bytes))) in
      read_line host l (md_bytes ++ rest) w ok_line
        (omega (
          arith,
          length-append name (32 ∷ format (length md_bytes)),
          length-format (length md_bytes) 4299 small,
          n.short,
        ))
        cut
      ∙ (ap (λ ws. read_parts host ws (record w { input = md_bytes ++ rest }))
            (split-size name (length md_bytes) n)
          ∙ parts-none (record w { input = md_bytes ++ rest }) refl)

abbrev pub size_of : Option Bytes → ℕ
size_of none = 0
size_of (some payload) = length payload

-- A frame that the agent writes is the command that the server reads, and the server's stream is
-- left right behind it: for a name of letters, a metadata that `json.loads` reads back from what
-- `json.dumps` made of it, and sizes that `int()` converts.
pub recv_command-command_frame :
    (host : Host) (name : Text) (metadata : Value) (payload : Option Bytes) (rest : Bytes)
    (w : World)
    → host.loads (host.dumps metadata ++ codes "\n") ≡ some metadata
    → length (host.dumps metadata ++ codes "\n") < 10 ^ 4300
    → size_of payload < 10 ^ 4300
    → IsName name
    → w.input ≡ command_frame host name metadata payload ++ rest
    → recv_command host false w ≡ (
      ok (record { name = name; metadata = metadata; payload = payload }),
      received (length (host.dumps metadata ++ codes "\n") + size_of payload) rest w,
    )
recv_command-command_frame host name metadata none rest w loaded small fits n e =
    frame-none host name metadata metadata rest w loaded small n e
    ∙ ap
        (λ k. (ok (record { name = name; metadata = metadata; payload = none }), received k rest w))
        (sym (add-zero (length (host.dumps metadata ++ codes "\n"))))
recv_command-command_frame host name metadata (some payload) rest w loaded small fits n e =
    frame-some host name metadata metadata rest w loaded small payload n fits e

-- ===== src/Server/Quiet.antt =====
-- Relations between worlds that do not look at the stream and allow the measurements made during a
-- connection: what reads commands, sends replies and records metrics keeps them.
use logline.Base.{
  ℕ, zero, suc, ◌≡◌, refl, Bool, true, false, Option, none, some, List, [], ◌∷◌, ◌++◌,
  if◌then◌else◌, Bytes, Text, arith, ltb, leb, length, drop, drop-length, sym,
}
use logline.Json.{Value}
use logline.Host.{Host}
use logline.Server.World.{
  Event, connection, active_connection_inc, active_connection_dec, bytes_received, bytes_written,
  write_duration, decompress_duration, protocol_error, auth_failure, rename, World, Result, modify,
}
use logline.Server.World.Keeps.{IsStable, Keeps, keeps_rules, Keeps-pure}
use logline.Server.Telemetry.{
  record_event, record_bytes_received, record_bytes_written, record_write_duration,
  record_decompress_duration, record_protocol_error, record_auth_failure, record_rename,
}
use logline.Server.Stream.{
  split_line-drop, stream_limit, line_length, readline, split_line, readexactly, send, send_reply,
  send_http_response,
}
use logline.Server.Command.{read_body, read_parts, recv_command}

-- The measurements inside a connection: all but those of its beginning and end.
abbrev pub IsInner : Event → Type 0
IsInner (connection r) = ⊥
IsInner active_connection_inc = ⊥
IsInner active_connection_dec = ⊥
IsInner _ = Unit

pub record IsQuiet (R : World → World → Type 0) : Type 0 where
  pub stable : IsStable R
  pub reading : (w : World) (i : Bytes) (k : ℕ) → i ≡ drop k w.input → R w (record w { input = i })
  pub sending : (w : World) (o : Bytes) → R w (record w { output = w.output ++ o })
  pub measuring :
      (w : World) (e : Event)
      → IsInner e
      → w.metrics_enabled ≡ true
      → R w (record w { metrics = w.metrics ++ e ∷ [] })

module _ {A : Type 0} (R : World → World → Type 0) (w : World) where
  pub step-if : (b : Bool) (x y : Result A × World) → R w x.1 → R w y.1 → R w (if b then x else y).1
  step-if true x y hx hy = hx
  step-if false x y hx hy = hy

module _ {R : World → World → Type 0} (quiet : IsQuiet R) where
  measured-if :
      (w : World) (b : Bool) (x y : World) → (b ≡ true → R w x) → R w y → R w (if b then x else y)
  measured-if w true x y hx hy = hx refl
  measured-if w false x y hx hy = hy

  pub Keeps-record_event : (e : Event) → IsInner e → Keeps R (record_event e)
  unfolding record_event
  Keeps-record_event e h = record {
    at = λ w. measured-if w w.metrics_enabled _ _ (quiet.measuring w e h) (quiet.stable.same w);
  }

  pub Keeps-record_bytes_received : (n : ℕ) → Keeps R (record_bytes_received n)
  unfolding record_bytes_received modify
  Keeps-record_bytes_received zero = record { at = λ w. quiet.stable.same w }
  Keeps-record_bytes_received (suc n) = Keeps-record_event (bytes_received (suc n)) tt

  pub Keeps-record_bytes_written : (n : ℕ) → Keeps R (record_bytes_written n)
  unfolding record_bytes_written modify
  Keeps-record_bytes_written zero = record { at = λ w. quiet.stable.same w }
  Keeps-record_bytes_written (suc n) = Keeps-record_event (bytes_written (suc n)) tt

  pub Keeps-record_write_duration : Keeps R record_write_duration
  unfolding record_write_duration
  Keeps-record_write_duration = Keeps-record_event write_duration tt

  pub Keeps-record_decompress_duration : (c : Text) → Keeps R (record_decompress_duration c)
  unfolding record_decompress_duration
  Keeps-record_decompress_duration c = Keeps-record_event (decompress_duration c) tt

  pub Keeps-record_protocol_error : (c : Text) → Keeps R (record_protocol_error c)
  unfolding record_protocol_error
  Keeps-record_protocol_error c = Keeps-record_event (protocol_error c) tt

  pub Keeps-record_auth_failure : Keeps R record_auth_failure
  unfolding record_auth_failure
  Keeps-record_auth_failure = Keeps-record_event auth_failure tt

  pub Keeps-record_rename : (c : Text) → Keeps R (record_rename c)
  unfolding record_rename
  Keeps-record_rename c = Keeps-record_event (rename c) tt

  pub Keeps-readline : Keeps R readline
  unfolding readline
  Keeps-readline = record {
    at = λ w.
        step-if R w (ltb stream_limit (line_length w.input)) _ _ (quiet.stable.same w)
          (quiet.reading w (split_line w.input).1 _ (split_line-drop w.input));
  }

  pub Keeps-readexactly : (n : ℕ) → Keeps R (readexactly n)
  unfolding readexactly
  Keeps-readexactly n = record {
    at = λ w.
        step-if R w (leb n (length w.input)) _ _ (quiet.reading w (drop n w.input) n refl)
          (quiet.reading w [] (length w.input) (sym (drop-length _ w.input (omega arith))));
  }

  pub Keeps-send : (o : Bytes) → Keeps R (send o)
  unfolding send modify
  Keeps-send o = record { at = λ w. quiet.sending w o }

  pub Keeps-send_reply : (host : Host) (s : Text) (v : Option Value) → Keeps R (send_reply host s v)
  unfolding send_reply modify
  Keeps-send_reply host s v = record { at = λ w. quiet.sending w _ }

  pub Keeps-send_http_response : Keeps R send_http_response
  unfolding send_http_response
  Keeps-send_http_response = search (keeps_rules, Keeps-send, quiet.stable) depth 10

  pub Keeps-read_body :
      (host : Host) (c : Text) (n : ℕ) (k : Option ℕ) → Keeps R (read_body host c n k)
  unfolding read_body
  Keeps-read_body host c n none =
      search (keeps_rules, Keeps-readexactly, Keeps-record_bytes_received, quiet.stable) depth 10
  Keeps-read_body host c n (some zero) =
      search (keeps_rules, Keeps-readexactly, Keeps-record_bytes_received, quiet.stable) depth 10
  Keeps-read_body host c n (some (suc k)) =
      search (keeps_rules, Keeps-readexactly, Keeps-record_bytes_received, quiet.stable) depth 10

  pub Keeps-read_parts : (host : Host) (ps : List Text) → Keeps R (read_parts host ps)
  unfolding read_parts
  Keeps-read_parts host (a ∷ []) = Keeps-pure quiet.stable _
  Keeps-read_parts host (a ∷ b ∷ []) = search (keeps_rules, Keeps-read_body, quiet.stable) depth 10
  Keeps-read_parts host (a ∷ b ∷ c ∷ []) =
      search (keeps_rules, Keeps-read_body, quiet.stable) depth 10
  Keeps-read_parts host _ = search (keeps_rules, quiet.stable)

  pub Keeps-recv_command : (host : Host) (first : Bool) → Keeps R (recv_command host first)
  unfolding recv_command
  Keeps-recv_command host first =
      search (keeps_rules, Keeps-readline, Keeps-read_parts, quiet.stable) depth 10

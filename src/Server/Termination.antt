-- ===== src/Server/Termination.antt =====
-- The command loop ends: every round reads at least one byte, and no round returns from the loop.
use logline.Base.{
  ℕ, zero, suc, ◌≤◌, ◌<◌, ◌≡◌, refl, ◌≢◌, ◌⊎◌, inl, inr, Bool, true, false, not, ◌&&◌, [], ◌∷◌,
  arith, length, length-drop, Bytes, Text, is_empty, codes, ltb, Bool-cases,
}
use native.Mathlib.Nat.{le_refl, le_trans}
use logline.Base.Encoding.{ascii}
use logline.Base.Words.{split}
use logline.Fs.{FilePath}
use logline.Host.{Host}
use logline.Server.World.{
  Error, Result, ok, err, World, Action, or_raise, gets, unless, continue, ◌>>=◌, ◌>>◌,
}
use logline.Server.World.Keeps.{Keeps, keeps_rules}
use logline.Server.Quiet.{IsQuiet, Keeps-read_parts}
use logline.Server.Stream.{split_line, split_line-drop, line_length, stream_limit, readline}
use logline.Server.Command.{Command, has_substring, read_parts, recv_command}
use logline.Server.Serve.{
  Session, serve_command, serve_loop, serve_client, open_target, report_target,
}
use logline.Server.Allows.{Allows}
use logline.Server.Allows.Loop.{Gives-serve_command}

-- The input does not grow.
record IsRead (u v : World) : Type 0 where
  shorter : length v.input ≤ length u.input

IsRead-quiet : IsQuiet IsRead
IsRead-quiet = record {
  stable = record {
    same = λ w. record { shorter = le_refl _ };
    compose = λ u v w h k. record { shorter = le_trans k.shorter h.shorter };
  };
  reading = λ w i k e. record { shorter = rw e (omega (arith, length-drop k w.input)) };
  sending = λ w o. record { shorter = le_refl _ };
  measuring = λ w e h on. record { shorter = le_refl _ };
}

IsRead-Allows : Allows IsRead (λ (p : FilePath). Unit {0})
IsRead-Allows = record {
  quiet = IsRead-quiet;
  syncing = λ w s. record { shorter = le_refl _ };
  creating = λ w p b h fs e. record { shorter = le_refl _ };
  renaming = λ w p q a b fs e. record { shorter = le_refl _ };
  making = λ w p b fs e. record { shorter = le_refl _ };
  writing = λ w h b. record { shorter = le_refl _ };
}

split_line-le : (s : Bytes) → length (split_line s).1 ≤ length s
split_line-le s = rw (split_line-drop s) (omega (arith, length-drop (length (split_line s).0) s))

-- A line that is read takes a byte, or there is nothing left.
split_line-shorter :
    (s : Bytes) → (is_empty (split_line s).0 ≡ true) ⊎ (length (split_line s).1 < length s)
unfolding split_line
split_line-shorter [] = inl refl
split_line-shorter (c ∷ s) = ground (arith, split_line-le s)

-- What follows the reading of the line.
after_line : Host → Bool → Bytes → Action Command
after_line host first line = do
  unless (not (is_empty line)) Error.connection_closed
  unless (not (first && has_substring (codes "HTTP/") line)) Error.received_http_request
  text ← or_raise Error.protocol_error (ascii line)
  read_parts host (split text)

Keeps-after_line :
    (host : Host) (first : Bool) (line : Bytes) → Keeps IsRead (after_line host first line)
unfolding after_line
Keeps-after_line host first line =
    search (keeps_rules, Keeps-read_parts, IsRead-quiet, IsRead-quiet.stable) depth 10

empty_line :
    (host : Host) (first : Bool) (line : Bytes) (w : World) {c : Command} {v : World}
    → is_empty line ≡ true
    → after_line host first line w ≢ (ok c, v)
unfolding after_line ◌>>=◌
empty_line host first [] w h e = cc
empty_line host first (b ∷ l) w h e = cc

-- After the line, the input is no longer than what followed the line.
after_line-shorter :
    (host : Host) (first : Bool) (w u : World) {c : Command} {v : World}
    → u.input ≡ (split_line w.input).1
    → after_line host first (split_line w.input).0 u ≡ (ok c, v)
    → length v.input < length w.input
after_line-shorter host first w u {c} {v} i e =
    let kept : length (after_line host first (split_line w.input).0 u).1.input ≤ length u.input =
      ((Keeps-after_line host first (split_line w.input).0).at u).shorter in
    let last : length v.input ≤ length (split_line w.input).1 = rw (← i) (rw e at kept) in
    elim (split_line-shorter w.input) [
      | inl none_left ↦ absurd (empty_line host first (split_line w.input).0 u none_left e)
      | inr less ↦ omega arith
    ]

-- A command that is received has taken at least a byte of the input.
recv_command-shorter :
    (host : Host) (first : Bool) (w : World) {c : Command} {v : World}
    → recv_command host first w ≡ (ok c, v)
    → length v.input < length w.input
unfolding recv_command after_line readline ◌>>=◌
recv_command-shorter host first w {c} {v} e =
    elim (Bool-cases (ltb stream_limit (line_length w.input))) [
      | inl long ↦ absurd (cc (rw long at e))
      | inr short ↦
          after_line-shorter host first w (record w { input = (split_line w.input).1 }) refl
            (rw short at e)
    ]

module _ {A : Type 0} where
  continued :
      (f : A → Action Unit) (w : World) (m : Action A) (r : Result A) (v : World)
      → m w ≡ (r, v)
      → ((a : A) (u : World) → m w ≡ (ok a, u) → (f a u).0 ≢ ok tt)
      → (continue r f v).0 ≢ ok tt
  continued f w m (ok a) v e h = h a v e
  continued f w m (err d) v e h = λ p. cc

  -- Where the rest of an action always raises, the whole does.
  continue_raises :
      (m : Action A) (f : A → Action Unit) (w : World)
      → ((a : A) (u : World) → m w ≡ (ok a, u) → (f a u).0 ≢ ok tt)
      → ((m >>= f) w).0 ≢ ok tt
  unfolding ◌>>=◌
  continue_raises m f w h = continued f w m (m w).0 (m w).1 refl h

left_is :
    (left : ℕ) (u x : World) → gets (λ w. length w.input) u ≡ (ok left, x) → left ≡ length x.input
unfolding gets
left_is left u x e = cc

module _ (host : Host) (dst_dir : FilePath) where
  serve_command-read :
      (s : Session) (c : Command) (w : World)
      → length (serve_command host dst_dir s c w).1.input ≤ length w.input
  serve_command-read s c w =
      ((Gives-serve_command IsRead-Allows dst_dir (λ t safe. tt) host s c tt).keeps.at w).shorter

  -- With a round for each byte of the input and one more, the loop is left by an exception.
  serve_loop-raises :
      (fuel : ℕ) (s : Session) (w : World)
      → length w.input < fuel
      → (serve_loop fuel host dst_dir s w).0 ≢ ok tt
  unfolding serve_loop
  serve_loop-raises zero s w h = absurd (omega arith)
  serve_loop-raises (suc fuel) s w h = continue_raises (recv_command host false) _ w λ c v e.
      continue_raises (serve_command host dst_dir s c) _ v λ s' u e'.
        let kept : length u.input ≤ length v.input = rw e' at (serve_command-read s c v) in
        serve_loop-raises fuel s' u (omega (arith, recv_command-shorter host false w e))

  -- A connection that is served never leaves the loop but by an exception: the bound on the rounds
  -- that the model sets is enough for every input.
  pub serve_client-raises :
      (target : Text) (prefix_length : ℕ) (w : World)
      → (serve_client host dst_dir target prefix_length w).0 ≢ ok tt
  unfolding serve_client gets
  serve_client-raises target prefix_length w = continue_raises (open_target _) _ w λ f v e.
      continue_raises (report_target host prefix_length f) _ v λ f' u e'.
        continue_raises (gets (λ x. length x.input)) _ u
          λ left x e''. serve_loop-raises (suc left) _ x (omega (arith, left_is left u x e''))

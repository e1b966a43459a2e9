-- ===== src/Wire/Reading.antt =====
-- `recv_command` on a line and on a payload that stand at the head of the input.
use logline.Base.{
  ℕ, zero, suc, ◌≤◌, ◌<◌, ◌≡◌, refl, true, false, [], ◌∷◌, ◌++◌, append_assoc, arith, leb, ltb,
  length, length-append, all, take, drop, take-append_self, drop-append_self, Bytes, Text, is_empty,
}
use logline.Base.Decimal.{format, format-ne-nil}
use logline.Base.Words.{split}
use logline.Host.{Host}
use logline.Server.World.{ok, World, modify, ◌>>=◌}
use logline.Server.Telemetry.{record_event, record_bytes_received}
use logline.Server.Stream.{stream_limit, split_line, line_length, readline, readexactly}
use logline.Server.Command.{read_parts, recv_command}
use logline.Wire.Lines.{
  is_letter, is_inline, letters-format, split_line-append, line_length-append, ascii-line,
  split-letters, space_32, space_10, split-nil,
}

-- A command's name: ASCII letters without white space, and not too many.
pub record IsName (name : Text) : Type 0 where
  pub some_letter : 0 < length name
  pub letters : all is_letter name ≡ true
  pub short : length name ≤ 50000

pub is_empty-append : (l : Bytes) → is_empty (l ++ (10 ∷ [])) ≡ false
is_empty-append [] = refl
is_empty-append (c ∷ l) = refl

pub read_line :
    (host : Host) (l rest : Bytes) (w : World)
    → all is_inline l ≡ true
    → length l ≤ stream_limit
    → w.input ≡ l ++ (10 ∷ rest)
    → recv_command host false w
      ≡ read_parts host (split (l ++ (10 ∷ []))) (record w { input = rest })
unfolding recv_command readline ◌>>=◌
read_line host l rest w h short e =
    let fits : ltb stream_limit (line_length w.input) ≡ false =
      rw (e, line_length-append l rest h) (ground arith) in
    let cut : split_line w.input ≡ (l ++ (10 ∷ []), rest) = rw e (split_line-append l rest h) in
    simp (fits, cut, is_empty-append l, ascii-line l h)

-- The words of a command line with two sizes.
pub split-sizes :
    (name : Text) (n k : ℕ)
    → IsName name
    → split ((name ++ (32 ∷ (format n ++ (32 ∷ format k)))) ++ (10 ∷ []))
      ≡ name ∷ format n ∷ format k ∷ []
split-sizes name n k h = rw (
  append_assoc,
  split-letters name _ 32 h.some_letter h.letters space_32,
  append_assoc,
  split-letters (format n) _ 32 (format-ne-nil n) (letters-format n) space_32,
  split-letters (format k) [] 10 (format-ne-nil k) (letters-format k) space_10,
  split-nil,
)

pub split-size :
    (name : Text) (n : ℕ)
    → IsName name
    → split ((name ++ (32 ∷ format n)) ++ (10 ∷ [])) ≡ name ∷ format n ∷ []
split-size name n h = rw (
  append_assoc,
  split-letters name _ 32 h.some_letter h.letters space_32,
  split-letters (format n) [] 10 (format-ne-nil n) (letters-format n) space_10,
  split-nil,
)

pub readexactly-append :
    (s rest : Bytes) (u : World)
    → u.input ≡ s ++ rest
    → readexactly (length s) u ≡ (ok s, record u { input = rest })
unfolding readexactly
readexactly-append s rest u e =
    let enough : leb (length s) (length u.input) ≡ true =
      rw e (ground (arith, length-append s rest)) in
    let head : take (length s) u.input ≡ s = rw e (take-append_self s rest) in
    let tail : drop (length s) u.input ≡ rest = rw e (drop-append_self s rest) in
    simp (enough, head, tail)

pub received-ok : (n : ℕ) (u : World) → (record_bytes_received n u).0 ≡ ok tt
unfolding record_bytes_received record_event modify
received-ok zero u = refl
received-ok (suc n) u = refl

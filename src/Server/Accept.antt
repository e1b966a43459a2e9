-- ===== src/Server/Accept.antt =====
-- The checks and the decompression of a `data` frame: they only talk and measure, and what they let
-- through is at the position of the open file and decodes to the bytes that will be written.
pub mod Decodes
use logline.Base.{
  ℕ, ◌≡◌, refl, Bool, true, false, Option, none, some, List, [], ◌∷◌, ◌++◌, ◌⊎◌, inl, inr,
  Bool-cases, Option-cases, if◌then◌else◌, Bytes, Text, text_eq, text_eq_iff, arith, codes, ◌==◌,
}
use logline.Base.Int.{ℤ, pos, negsuc}
use logline.Json.{
  Value, null, bool, int, float, str, arr, obj, Fields, get, as_str, as_dict, as_int,
}
use logline.Fs.{Handle}
use logline.Host.{Host}
use logline.Server.World.{
  Error, World, Action, Result, ok, err, pure, raise, or_raise, gets, unless, ◌>>=◌,
}
use logline.Server.World.Keeps.{IsStable, Keeps, keeps_rules}
use logline.Server.World.Gives.{
  Gives, Gives-pure, Gives-raise, Gives-if, Gives-bind, Gives-then, Returned,
}
use logline.Server.Quiet.{
  IsQuiet, Keeps-record_event, Keeps-record_decompress_duration, Keeps-record_protocol_error,
}
use logline.Server.Append.{
  with_package, decompress_zst, unsupported, measured, decompress_named, decompress, is_at,
  check_offset, accept_data,
}

ruleset rules =
    (keeps_rules, Keeps-record_event, Keeps-record_decompress_duration, Keeps-record_protocol_error)

module _ {R : World → World → Type 0} (quiet : IsQuiet R) where
  Keeps-measured : (c : Text) (m : Action Bytes) → Keeps R m → Keeps R (measured c m)
  unfolding measured
  Keeps-measured c m km = search (rules, quiet, quiet.stable) depth 10

  Keeps-unsupported : Keeps R unsupported
  unfolding unsupported
  Keeps-unsupported = search (rules, quiet, quiet.stable) depth 10

  Keeps-with_package :
      (o : Option (Bytes → Option Bytes)) (b : Bytes) (m : Action Bytes)
      → Keeps R m
      → Keeps R (with_package o b m)
  unfolding with_package
  Keeps-with_package (some d) b m km = search (rules, quiet.stable)
  Keeps-with_package none b m km = km

  Keeps-decompress_zst : (host : Host) (b : Bytes) → Keeps R (decompress_zst host b)
  unfolding decompress_zst
  Keeps-decompress_zst host b = search (rules, Keeps-with_package, quiet.stable) depth 10

  Keeps-decompress_named :
      (host : Host) (o : Option Text) (b : Bytes) → Keeps R (decompress_named host o b)
  unfolding decompress_named
  Keeps-decompress_named host none b = Keeps-unsupported
  Keeps-decompress_named host (some c) b =
      search (rules, Keeps-measured, Keeps-decompress_zst, Keeps-unsupported, quiet.stable) depth 12

  Keeps-decompress : (host : Host) (v : Value) (b : Bytes) → Keeps R (decompress host v b)
  unfolding decompress
  Keeps-decompress host null b = search (rules, quiet.stable)
  Keeps-decompress host _ b = search (Keeps-decompress_named)

  Keeps-check_offset : (f : Handle) (z : ℤ) → Keeps R (check_offset f z)
  unfolding check_offset
  Keeps-check_offset f z = search (rules, quiet, quiet.stable) depth 10

  pub Keeps-accept_data :
      (host : Host) (f : Handle) (v : Value) (o : Option Bytes) → Keeps R (accept_data host f v o)
  unfolding accept_data
  Keeps-accept_data host f v o =
      search (rules, Keeps-decompress, Keeps-check_offset, quiet.stable) depth 14

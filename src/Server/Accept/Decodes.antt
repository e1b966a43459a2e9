-- ===== src/Server/Accept/Decodes.antt =====
-- What a payload stands for under the `compression` of its metadata, stated apart from the code.
use logline.Base.{
  ℕ, ◌≡◌, refl, true, Option, none, some, inl, inr, Bool-cases, if◌then◌else◌, Bytes, Text, text_eq,
  text_eq_iff, arith, codes,
}
use logline.Base.Int.{ℤ, pos, negsuc}
use logline.Json.{Value, null, int, str, obj, Fields, get, as_dict, as_int}
use logline.Fs.{Handle}
use logline.Host.{Host}
use logline.Server.World.{Error, World, Action, pure, raise, or_raise}
use logline.Server.World.Gives.{Gives, Gives-pure, Gives-raise, Gives-bind, Gives-then}
use logline.Server.Quiet.{IsQuiet, Keeps-record_decompress_duration, Keeps-record_protocol_error}
use logline.Server.Append.{
  with_package, decompress_zst, unsupported, measured, decompress_named, decompress, is_at,
  check_offset, accept_data,
}

pub data Decodes (host : Host) (payload out : Bytes) : Value → Type 0 where
  plain : out ≡ payload → Decodes host payload out null
  gzip : host.gzip_decompress payload ≡ some out → Decodes host payload out (str (codes "gzip"))
  lzma : host.lzma_decompress payload ≡ some out → Decodes host payload out (str (codes "lzma"))
  zstandard :
      (decoder : Bytes → Option Bytes)
      → host.zstandard_decompress ≡ some decoder
      → decoder payload ≡ some out
      → Decodes host payload out (str (codes "zst"))
  zstd :
      (decoder : Bytes → Option Bytes)
      → host.zstandard_decompress ≡ none
      → host.zstd_decompress ≡ some decoder
      → decoder payload ≡ some out
      → Decodes host payload out (str (codes "zst"))

pub record IsAccepted (host : Host) (f : Handle) (metadata : Value) (payload : Option Bytes)
    (out : Bytes) : Type 0 where
  pub fields : Fields
  pub bytes : Bytes
  pub object : metadata ≡ obj fields
  pub has_payload : payload ≡ some bytes
  pub decoded : Decodes host bytes out (get (codes "compression") fields)
  pub in_place : get (codes "offset") fields ≡ int (pos f.position)

is_at-pos : (z : ℤ) (n : ℕ) → is_at z n ≡ true → z ≡ pos n
is_at-pos (pos m) n h = ground arith
is_at-pos (negsuc m) n h = cc

as_dict-obj : (v : Value) (fs : Fields) → as_dict v ≡ some fs → v ≡ obj fs
as_dict-obj (obj gs) fs h = cc
as_dict-obj _ fs h = cc

as_int-int : (v : Value) (z : ℤ) → as_int v ≡ some z → v ≡ int z
as_int-int (int y) z h = cc
as_int-int _ z h = cc

module _ {R : World → World → Type 0} (quiet : IsQuiet R) (host : Host) where
  Gives-or_raise :
      {A : Type 0} (P : A → Type 0) (e : Error) (o : Option A)
      → ((a : A) → o ≡ some a → P a)
      → Gives R P (or_raise e o)
  unfolding or_raise raise pure
  Gives-or_raise P e none h = Gives-raise P e quiet.stable
  Gives-or_raise P e (some a) h = Gives-pure P a quiet.stable (h a refl)

  Gives-measured :
      (P : Bytes → Type 0) (c : Text) (m : Action Bytes) → Gives R P m → Gives R P (measured c m)
  unfolding measured
  Gives-measured P c m gm = Gives-bind P P _ _ quiet.stable gm λ out h.
      Gives-then P _ _ quiet.stable (Keeps-record_decompress_duration quiet c)
        λ u. Gives-pure P out quiet.stable h

  Gives-unsupported : (P : Bytes → Type 0) → Gives R P unsupported
  unfolding unsupported
  Gives-unsupported P =
      Gives-then P _ _ quiet.stable (Keeps-record_protocol_error quiet _)
        λ u. Gives-raise P _ quiet.stable

  Gives-with_package :
      (P : Bytes → Type 0) (o : Option (Bytes → Option Bytes)) (b : Bytes) (m : Action Bytes)
      → ((d : Bytes → Option Bytes) (out : Bytes) → o ≡ some d → d b ≡ some out → P out)
      → (o ≡ none → Gives R P m)
      → Gives R P (with_package o b m)
  unfolding with_package
  Gives-with_package P (some d) b m h gm = Gives-or_raise P _ _ (λ out e. h d out refl e)
  Gives-with_package P none b m h gm = gm refl

  Gives-decompress_zst :
      (b : Bytes) → Gives R (λ out. Decodes host b out (str (codes "zst"))) (decompress_zst host b)
  unfolding decompress_zst
  Gives-decompress_zst b =
      Gives-with_package _ _ b _ (λ d out e f. zstandard d e f)
        λ missing.
          Gives-with_package _ _ b _ (λ d out e f. zstd d missing e f)
            λ missing'. Gives-raise _ _ quiet.stable

  -- The branch for one name, where the text is that name.
  Gives-named :
      (P : Text → Bytes → Type 0) (c k : Text) (m n : Action Bytes)
      → Gives R (P k) m
      → Gives R (P c) n
      → Gives R (P c) (if text_eq c k then m else n)
  Gives-named P c k m n gm gn = elim (Bool-cases (text_eq c k)) [
    | inl e ↦ rw e (rw ((text_eq_iff c k).0 e) gm)
    | inr e ↦ rw e gn
  ]

  abbrev Means : Bytes → Text → Bytes → Type 0
  Means b c out = Decodes host b out (str c)

  Gives-decompress_named :
      (c : Text) (b : Bytes) → Gives R (Means b c) (decompress_named host (some c) b)
  unfolding decompress_named
  Gives-decompress_named c b =
      Gives-named (Means b) c (codes "gzip") _ _
        (Gives-measured _ _ _ (Gives-or_raise _ _ _ (λ out e. gzip e)))
        (Gives-named (Means b) c (codes "lzma") _ _
          (Gives-measured _ _ _ (Gives-or_raise _ _ _ (λ out e. lzma e)))
          (Gives-named (Means b) c (codes "zst") _ _ (Gives-measured _ _ _ (Gives-decompress_zst b))
            (Gives-unsupported _)))

  pub Gives-decompress :
      (v : Value) (b : Bytes) → Gives R (λ out. Decodes host b out v) (decompress host v b)
  unfolding decompress
  Gives-decompress null b = Gives-pure _ b quiet.stable (plain refl)
  Gives-decompress (str c) b = Gives-decompress_named c b
  Gives-decompress _ b = Gives-unsupported _

  pub Gives-check_offset :
      (f : Handle) (z : ℤ) → Gives R (λ (u : Unit {0}). z ≡ pos f.position) (check_offset f z)
  unfolding check_offset
  Gives-check_offset f z = elim (Bool-cases (is_at z f.position)) [
    | inl e ↦ rw e (Gives-pure _ tt quiet.stable (is_at-pos z f.position e))
    | inr e ↦ rw e (
        Gives-then _ _ _ quiet.stable (Keeps-record_protocol_error quiet _)
          λ u. Gives-raise _ _ quiet.stable)
  ]

  -- What a frame that is let through has: a payload, and an object with the position of the open
  -- file as its offset, under whose compression the payload stands for what will be written.
  pub Gives-accept_data :
      (f : Handle) (metadata : Value) (payload : Option Bytes)
      → Gives R (IsAccepted host f metadata payload) (accept_data host f metadata payload)
  unfolding accept_data
  Gives-accept_data f metadata payload =
      let P = IsAccepted host f metadata payload in
      Gives-bind (λ b. payload ≡ some b) P _ _ quiet.stable (Gives-or_raise _ _ _ (λ b e. e))
        λ b has_payload.
          Gives-bind (λ fs. metadata ≡ obj fs) P _ _ quiet.stable
            (Gives-or_raise _ _ _ (λ fs e. as_dict-obj metadata fs e))
            λ fs is_object.
              Gives-bind (λ out. Decodes host b out (get (codes "compression") fs)) P _ _
                quiet.stable (Gives-decompress _ b)
                λ out decoded.
                  Gives-bind (λ z. get (codes "offset") fs ≡ int z) P _ _ quiet.stable
                    (Gives-or_raise _ _ _ (λ z e. as_int-int _ z e))
                    λ z has_offset.
                      Gives-bind (λ (u : Unit {0}). z ≡ pos f.position) P _ _ quiet.stable
                        (Gives-check_offset f z)
                        λ u at_position. Gives-pure P out quiet.stable (record {
                          fields = fs;
                          bytes = b;
                          object = is_object;
                          has_payload = has_payload;
                          decoded = decoded;
                          in_place = rw (← at_position) has_offset;
                        })

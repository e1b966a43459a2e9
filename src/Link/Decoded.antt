-- ===== src/Link/Decoded.antt =====
-- A `data` command with the bytes that the agent read: what its payload is decoded to.
use logline.Base.{ℕ, ◌≡◌, refl, ◌∙◌, Bool, true, false, some, Bytes, text_eq, codes}
use logline.Base.Int.{pos}
use logline.Json.{Value, Fields, null, int, str, obj, field, end, get}
use logline.Host.{Host}
use logline.Server.Accept.Decodes.{Decodes}
use logline.Agent.Client.{data_metadata}
use logline.Agent.Segment.{chunk_size, read_at}
use logline.Link.Served.{IsHonest}

pub decoded-null :
    (host : Host) (v : Value) (b p out : Bytes) → v ≡ null → p ≡ b → Decodes host p out v → out ≡ b
decoded-null host v b p out e h (Decodes.plain d) = d ∙ h
decoded-null host v b p out e h (Decodes.gzip d) = absurd (cc)
decoded-null host v b p out e h (Decodes.lzma d) = absurd (cc)
decoded-null host v b p out e h (Decodes.zstandard k d f) = absurd (cc)
decoded-null host v b p out e h (Decodes.zstd k m d f) = absurd (cc)

unfoldable pub is_gzip : Value → Bool
is_gzip (str c) = text_eq c (codes "gzip")
is_gzip _ = false

pub decoded-gzip :
    (host : Host) (v : Value) (b p out : Bytes)
    → is_gzip v ≡ true
    → host.gzip_decompress p ≡ some b
    → Decodes host p out v
    → out ≡ b
unfolding is_gzip text_eq
decoded-gzip host v b p out e h (Decodes.plain d) = absurd (cc)
decoded-gzip host v b p out e h (Decodes.gzip d) = cc
decoded-gzip host v b p out e h (Decodes.lzma d) = absurd (cc)
decoded-gzip host v b p out e h (Decodes.zstandard k d f) = absurd (cc)
decoded-gzip host v b p out e h (Decodes.zstd k m d f) = absurd (cc)

-- The fields of the metadata of a `data` frame.
offset_field :
    (offset : ℕ) (compression : Value) (fields : Fields)
    → data_metadata offset compression ≡ obj fields
    → (get (codes "offset") fields ≡ int (pos offset))
      × (get (codes "compression") fields ≡ compression)
unfolding data_metadata get text_eq
offset_field offset compression fields e =
    let same : field (codes "offset") (int (pos offset))
          (field (codes "compression") compression end)
        ≡ fields =
      cc in
    rw (← same) (refl, refl)

pub data_command-IsHonest :
    (host : Host) (source : Bytes) (offset : ℕ) (compression : Value) (payload : Bytes)
    → ((out : Bytes)
        → Decodes host payload out compression
        → out ≡ read_at offset chunk_size source)
    → IsHonest host source (record {
      name = codes "data";
      metadata = data_metadata offset compression;
      payload = some payload;
    })
data_command-IsHonest host source offset compression payload decodes = record {
  bytes = λ h out a.
      let (at, under) = offset_field offset compression a.fields a.object in
      let same : offset ≡ h.position = cc (at, a.in_place) in
      let held : payload ≡ a.bytes = cc (a.has_payload) in
      rw (← same) (decodes out (rw (← under, held) a.decoded));
}

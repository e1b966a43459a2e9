-- ===== src/Host.antt =====
-- What the program calls and does not implement: the hash, the decompressors and JSON of Python's
-- library, the optional zstd packages, and the file system's resolution of symbolic links.
use logline.Base.{ℕ, Bool, Option, Bytes, Text}
use logline.Base.Encoding.{b64encode, hex}
use logline.Json.{Value}
use logline.Fs.{FilePath}

pub record Host : Type 0 where
  -- `hashlib.sha1(data).digest()`
  pub sha1 : Bytes → Bytes
  -- `json.loads(data)`; none where it raises
  pub loads : Bytes → Option Value
  -- `json.dumps(value)`, which is ASCII text
  pub dumps : Value → Text
  -- `gzip.compress`, and the decompressors; none where they raise
  pub gzip_compress : Bytes → Bytes
  pub gzip_decompress : Bytes → Option Bytes
  pub lzma_decompress : Bytes → Option Bytes
  -- the two packages, none where the package is not installed
  pub zstandard_decompress : Option (Bytes → Option Bytes)
  pub zstd_decompress : Option (Bytes → Option Bytes)
  -- is the character one that the `\d` of a regular expression matches?
  pub is_decimal : ℕ → Bool
  -- `Path.resolve()`
  pub resolve : FilePath → FilePath

-- Both `sha1_b64` functions.
unfoldable pub sha1_b64 : Host → Bytes → Text
sha1_b64 host data' = b64encode (host.sha1 data')

unfoldable pub sha1_hex : Host → Bytes → Text
sha1_hex host data' = hex (host.sha1 data')

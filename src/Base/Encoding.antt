-- ===== src/Base/Encoding.antt =====
-- Encodings of Python's standard library: base 64, hexadecimal digests, UTF-8 and ASCII.
use logline.Base.{
  ℕ, ◌+◌, ◌-◌, ◌*◌, ◌/◌, ◌%◌, ◌≡◌, refl, ◌&&◌, Option, none, some, [], ◌∷◌, ◌++◌, ltb, leb, ◌==◌,
  if◌then◌else◌, all, Text, Bytes, codes,
}

-- The letter of base 64 for a number below 64.
letter : ℕ → ℕ
letter n =
    if ltb n 26
    then b'A' + n
    else if ltb n 52
    then b'a' + (n - 26)
    else if ltb n 62
    then b'0' + (n - 52)
    else if n == 62
    then b'+'
    else b'/'

-- `b64encode(data).decode('ascii')`
unfoldable pub b64encode : Bytes → Text
unfolding letter
b64encode [] = []
b64encode (a ∷ []) = letter (a / 4) ∷ letter (a % 4 * 16) ∷ b'=' ∷ b'=' ∷ []
b64encode (a ∷ b ∷ []) =
    letter (a / 4) ∷ letter (a % 4 * 16 + b / 16) ∷ letter (b % 16 * 4) ∷ b'=' ∷ []
b64encode (a ∷ b ∷ c ∷ s) =
    letter (a / 4)
    ∷ letter (a % 4 * 16 + b / 16)
    ∷ letter (b % 16 * 4 + c / 64)
    ∷ letter (c % 64)
    ∷ b64encode s

nibble : ℕ → ℕ
nibble n = if ltb n 10 then b'0' + n else b'a' + (n - 10)

-- `.hexdigest()` of a digest.
unfoldable pub hex : Bytes → Text
unfolding nibble
hex [] = []
hex (a ∷ s) = nibble (a / 16) ∷ nibble (a % 16) ∷ hex s

-- One code point in UTF-8; surrogates cannot be encoded.
utf8_char : ℕ → Option Bytes
utf8_char c =
    if ltb c 0x80
    then some (c ∷ [])
    else if ltb c 0x800
    then some ((0xC0 + c / 64) ∷ (0x80 + c % 64) ∷ [])
    else if leb 0xD800 c && leb c 0xDFFF
    then none
    else if ltb c 0x10000
    then some ((0xE0 + c / 4096) ∷ (0x80 + c / 64 % 64) ∷ (0x80 + c % 64) ∷ [])
    else some
        ((0xF0 + c / 262144) ∷ (0x80 + c / 4096 % 64) ∷ (0x80 + c / 64 % 64) ∷ (0x80 + c % 64) ∷ [])

-- `s.encode('utf-8')`; none where it raises `UnicodeEncodeError`.
unfoldable pub utf8 : Text → Option Bytes
unfolding utf8_char
utf8 [] = some []
utf8 (c ∷ s) = elim (utf8_char c) [
  | none ↦ none
  | some head ↦ elim (utf8 s) [ none ↦ none | some rest ↦ some (head ++ rest) ]
]

-- `data.decode('ascii')`; none where it raises `UnicodeDecodeError`.
unfoldable pub ascii : Bytes → Option Text
ascii s = if all (λ c. ltb c 128) s then some s else none

b64encode-hello : b64encode (codes "hello") ≡ codes "aGVsbG8="
unfolding b64encode
b64encode-hello = refl

hex-bytes : hex (0xAA ∷ 0xF4 ∷ 0xC6 ∷ []) ≡ codes "aaf4c6"
unfolding hex
hex-bytes = refl

utf8-euro : utf8 (0x20AC ∷ []) ≡ some (0xE2 ∷ 0x82 ∷ 0xAC ∷ [])
unfolding utf8
utf8-euro = refl

-- ===== src/Server/Paths.antt =====
-- `_is_safe_path_segment` and `build_destination_dir` of server/logline_server/main.py.
use logline.Base.{
  ◌≡◌, refl, Bool, true, false, ◌&&◌, ◌||◌, not, none, some, List, [], ◌∷◌, if◌then◌else◌, any,
  Text, text_eq, is_empty, contains, codes,
}
use logline.Base.Parts.{strip, parts, join}
use logline.Json.{Value, as_str}
use logline.Fs.{FilePath, path_eq}
use logline.Fs.Join.{path_join}
use logline.Host.{Host}
use logline.Server.World.{protocol_error, Result, ok, err}

unfoldable pub is_safe_path_segment : Text → Bool
is_safe_path_segment segment =
    if is_empty segment || (text_eq segment (codes ".") || text_eq segment (codes ".."))
    then false
    else if contains b'/' segment || (contains b'\\' segment || contains 0 segment)
    then false
    else true

-- `'~'.join(directory.strip('/').split('/'))`
unfoldable pub mangle : Text → Text
unfolding strip parts join
mangle directory = let (p, ps) = parts b'/' (strip b'/' directory) in join b'~' p ps

prefixed : Text → List FilePath → List FilePath
prefixed c [] = []
prefixed c (q ∷ qs) = (c ∷ q) ∷ prefixed c qs

-- `path.parents`: every proper prefix of the path.
unfoldable pub parents : FilePath → List FilePath
unfolding prefixed
parents [] = []
parents (c ∷ p) = [] ∷ prefixed c (parents p)

-- `(base / hostname / mangled_dir) if mangled_dir else (base / hostname)`
unfoldable pub destination : FilePath → Text → Text → FilePath
destination base hostname mangled_dir =
    if is_empty mangled_dir
    then path_join base hostname
    else path_join (path_join base hostname) mangled_dir

-- `build_destination_dir` of two texts.
unfoldable pub destination_dir : Host → FilePath → Text → Text → Result FilePath
unfolding mangle destination parents
destination_dir host destination_directory hostname directory =
    let mangled_dir = mangle directory in
    let base = host.resolve destination_directory in
    let dst_dir = destination base hostname mangled_dir in
    let resolved = host.resolve dst_dir in
    if not (is_safe_path_segment hostname)
    then err protocol_error
    else if contains 0 mangled_dir
        || (text_eq mangled_dir (codes ".") || text_eq mangled_dir (codes ".."))
    then err protocol_error
    else if not (path_eq resolved base) && not (any (path_eq base) (parents resolved))
    then err protocol_error
    else ok dst_dir

unfoldable pub build_destination_dir : Host → FilePath → Value → Value → Result FilePath
unfolding destination_dir
build_destination_dir host destination_directory hostname directory = elim (as_str hostname) [
  | none ↦ err protocol_error
  | some h ↦ elim (as_str directory) [
    | none ↦ err protocol_error
    | some d ↦ destination_dir host destination_directory h d
  ]
]

mangle-var_log : mangle (codes "/var/log/") ≡ codes "var~log"
unfolding mangle
mangle-var_log = refl

mangle-root : mangle (codes "//") ≡ []
unfolding mangle
mangle-root = refl

-- ===== src/Server/Segments.antt =====
-- The names that a client chooses, joined to a directory: a name that `_is_safe_path_segment` accepts
-- stands right below it, and so does a mangled directory.
use logline.Base.{◌≡◌, refl, true, [], ◌∷◌, ◌++◌, arith, Text, Lacks}
use logline.Base.Parts.{strip, join-parts-Lacks}
use logline.Fs.{FilePath}
use logline.Fs.Join.{IsSegment, path_join, path_join-segment}
use logline.Server.Paths.{is_safe_path_segment, mangle}

abbrev pub IsSafe : Text → Type 0
IsSafe s = is_safe_path_segment s ≡ true

pub IsSafe-IsSegment : (s : Text) → IsSafe s → IsSegment s
unfolding is_safe_path_segment
IsSafe-IsSegment s h = record {
  some_text = ground arith;
  no_dot = ground arith;
  no_dots = ground arith;
  no_slash = ground arith;
}

pub path_join-safe : (p : FilePath) (s : Text) → IsSafe s → path_join p s ≡ p ++ (s ∷ [])
path_join-safe p s h = path_join-segment p s (IsSafe-IsSegment s h)

pub mangle-Lacks : (directory : Text) → Lacks b'/' (mangle directory)
unfolding mangle
mangle-Lacks directory = join-parts-Lacks b'/' b'~' (strip b'/' directory) refl

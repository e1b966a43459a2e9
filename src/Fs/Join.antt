-- ===== src/Fs/Join.antt =====
-- `path / text` of pathlib, with what the file system makes of the dots in it.
use logline.Base.{
  ◌≡◌, false, ◌&&◌, ◌||◌, not, List, [], ◌∷◌, ◌++◌, if◌then◌else◌, Text, text_eq, is_empty, Lacks,
  codes,
}
use logline.Base.Parts.{parts, parts_lacking}
use logline.Fs.{FilePath, parent}

-- One component: nothing and `.` stay, and `..` leads to the parent.
unfoldable pub enter : FilePath → Text → FilePath
enter p c =
    if is_empty c || text_eq c (codes ".")
    then p
    else if text_eq c (codes "..")
    then parent p
    else p ++ (c ∷ [])

unfoldable pub walk : FilePath → List Text → FilePath
walk p [] = p
walk p (c ∷ cs) = walk (enter p c) cs

-- A text that begins with `/` is an absolute path, and replaces the one before it.
unfoldable pub path_join : FilePath → Text → FilePath
unfolding walk enter parts
path_join p s =
    let (c, cs) = parts b'/' s in
    if is_empty c && not (is_empty s) then walk [] (c ∷ cs) else walk p (c ∷ cs)

-- A text that names one entry.
pub record IsSegment (s : Text) : Type 0 where
  pub some_text : is_empty s ≡ false
  pub no_dot : text_eq s (codes ".") ≡ false
  pub no_dots : text_eq s (codes "..") ≡ false
  pub no_slash : Lacks b'/' s

pub path_join-segment : (p : FilePath) (s : Text) → IsSegment s → path_join p s ≡ p ++ (s ∷ [])
unfolding path_join
path_join-segment p s h =
    let one : parts b'/' s ≡ (s, []) = parts_lacking b'/' s h.no_slash in
    simp (one, h.some_text, h.no_dot, h.no_dots)

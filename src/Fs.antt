-- ===== src/Fs.antt =====
-- The file system under the destination directory: directory entries, which name directories or
-- inodes, and the bytes of each inode. Open files go by inode, so they survive a rename.
pub mod Laws
pub mod Outside
pub mod Join
use logline.Base.{
  ℕ, zero, suc, ◌+◌, ◌-◌, ◌≡◌, refl, Bool, true, false, ◌&&◌, Option, none, some, List, [], ◌∷◌,
  ◌++◌, ◌==◌, if◌then◌else◌, take, drop, length, any, Text, Bytes, text_eq,
}

-- An absolute path without symbolic links, as the list of its components.
abbrev pub FilePath : Type 0
FilePath = List Text

unfoldable pub path_eq : FilePath → FilePath → Bool
path_eq [] [] = true
path_eq [] (d ∷ q) = false
path_eq (c ∷ p) [] = false
path_eq (c ∷ p) (d ∷ q) = text_eq c d && path_eq p q

-- `path.parent`: the root is its own parent.
abbrev pub parent : FilePath → FilePath
parent [] = []
parent (c ∷ []) = []
parent (c ∷ d ∷ p) = c ∷ parent (d ∷ p)

-- What stands below `p`, as a path from there; none where `q` is neither `p` nor below it.
unfoldable pub relative_to : FilePath → FilePath → Option FilePath
relative_to [] q = some q
relative_to (c ∷ p) [] = none
relative_to (c ∷ p) (d ∷ q) = if text_eq c d then relative_to p q else none

pub data Node : Type 0 where
  dir : Node
  file : ℕ → Node

abbrev pub Entries : Type 0
Entries = List (FilePath × Node)

pub record Fs : Type 0 where
  pub entries : Entries
  pub content : ℕ → Bytes
  pub next : ℕ

-- An open file: the inode and the position of this descriptor.
pub record Handle : Type 0 where
  pub inode : ℕ
  pub position : ℕ

unfoldable pub find : FilePath → Entries → Option Node
find p [] = none
find p ((q, n) ∷ es) = if path_eq q p then some n else find p es

unfoldable pub remove : FilePath → Entries → Entries
remove p [] = []
remove p ((q, n) ∷ es) = let rest = remove p es in if path_eq q p then rest else (q, n) ∷ rest

abbrev pub put : FilePath → Node → Entries → Entries
put p n es = (p, n) ∷ remove p es

abbrev pub lookup : FilePath → Fs → Option Node
lookup p fs = find p fs.entries

abbrev pub update : ℕ → Bytes → (ℕ → Bytes) → ℕ → Bytes
update i b f j = if i == j then b else f j

abbrev pub is_dir : FilePath → Fs → Bool
is_dir p fs = elim (lookup p fs) [ some dir ↦ true | _ ↦ false ]

abbrev pub exists : FilePath → Fs → Bool
exists p fs = elim (lookup p fs) [ some n ↦ true | none ↦ false ]

-- `path.mkdir()`: none where it raises, since the path exists or its parent is no directory.
unfoldable pub mkdir : FilePath → Fs → Option Fs
mkdir p fs =
    if exists p fs
    then none
    else if is_dir (parent p) fs
    then some (record fs { entries = put p dir fs.entries })
    else none

-- `path.open('rb+')`
pub data Opened : Type 0 where
  opened : Handle → Fs → Opened
  not_found failed : Opened

unfoldable pub open_node : Option Node → Fs → Opened
open_node none fs = not_found
open_node (some dir) fs = failed
open_node (some (file i)) fs = opened (record { inode = i; position = 0 }) fs

unfoldable pub open_existing : FilePath → Fs → Opened
unfolding open_node
open_existing p fs = open_node (lookup p fs) fs

-- `path.open('wb+')`: an existing file is truncated, a missing one is created.
unfoldable pub open_truncate : FilePath → Fs → Opened
open_truncate p fs = elim (lookup p fs) [
  | some (file i) ↦
      opened (record { inode = i; position = 0 }) (record fs { content = update i [] fs.content })
  | some dir ↦ failed
  | none ↦
      if is_dir (parent p) fs
      then opened (record { inode = fs.next; position = 0 })
          (record {
            entries = put p (file fs.next) fs.entries;
            content = update fs.next [] fs.content;
            next = suc fs.next;
          })
      else not_found
]

abbrev pub zeros : ℕ → Bytes
zeros zero = []
zeros (suc n) = 0 ∷ zeros n

-- `n` bytes of `old` from position `k` on become `new`: a gap behind the end reads as zeros.
unfoldable pub overwrite : ℕ → Bytes → Bytes → Bytes
overwrite k new old = take k old ++ (zeros (k - length old) ++ (new ++ drop (k + length new) old))

-- `f.write(data)` followed by `f.flush()`; an empty write leaves a gap alone.
unfoldable pub write : Handle → Bytes → Fs → Handle × Fs
write h [] fs = (h, fs)
write h (b ∷ new) fs = (
  record h { position = h.position + length (b ∷ new) },
  record fs {
    content = update h.inode (overwrite h.position (b ∷ new) (fs.content h.inode)) fs.content;
  },
)

-- The entries after everything at or below `src` moved to `dst`.
unfoldable pub relocate : FilePath → FilePath → Entries → Entries
relocate src dst [] = []
relocate src dst ((q, n) ∷ es) = elim (relative_to src q) [
  | some rest ↦ (dst ++ rest, n) ∷ relocate src dst es
  | none ↦ (q, n) ∷ relocate src dst es
]

-- Is there an entry strictly below `p`?
unfoldable pub has_children : FilePath → Entries → Bool
has_children p [] = false
has_children p ((q, n) ∷ es) = elim (relative_to p q) [
  | some (c ∷ r) ↦ true
  | _ ↦ has_children p es
]

-- By the nodes at `src` and at `dst`.
unfoldable pub rename_node : FilePath → FilePath → Option Node → Option Node → Fs → Option Fs
rename_node src dst none target fs = none
rename_node src dst (some (file i)) (some dir) fs = none
rename_node src dst (some (file i)) target fs =
    if path_eq src dst
    then some fs
    else some (record fs { entries = put dst (file i) (remove src fs.entries) })
rename_node src dst (some dir) none fs = some (record fs { entries = relocate src dst fs.entries })
rename_node src dst (some dir) (some (file j)) fs = none
rename_node src dst (some dir) (some dir) fs =
    if path_eq src dst
    then some fs
    else if has_children dst fs.entries
    then none
    else some (record fs { entries = relocate src dst (remove dst fs.entries) })

-- POSIX `rename(src, dst)` within one directory: none where it raises. A file replaces a file, a
-- directory replaces an empty directory, and a name renamed to itself stays.
unfoldable pub rename : FilePath → FilePath → Fs → Option Fs
unfolding rename_node
rename src dst fs = rename_node src dst (lookup src fs) (lookup dst fs) fs

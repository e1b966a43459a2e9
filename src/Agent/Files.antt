-- ===== src/Agent/Files.antt =====
-- agent/logline_agent/main.py: which files are shipped, and the tasks that watch them.
use logline.Base.{
  ℕ, Bool, true, false, ◌||◌, not, Option, none, some, List, [], ◌∷◌, ltb, ◌==◌, if◌then◌else◌, any,
  Text, text_eq,
}
use logline.Fs.{FilePath, path_eq}

-- What the functions ask of the machine, at each of the three times that the patterns are expanded.
pub record Machine : Type 0 where
  -- `[Path(p).resolve() for p in glob(pattern, recursive=True)]`, with the unresolved parent
  pub glob : ℕ → Text → List (FilePath × FilePath)
  -- `(parent / filename).exists()`
  pub exists_in : FilePath → Text → Bool

unfoldable pub has : FilePath → List FilePath → Bool
has p [] = false
has p (q ∷ qs) = path_eq q p || has p qs

-- `paths.add(p)`
unfoldable pub add : FilePath → List FilePath → List FilePath
add p qs = if has p qs then qs else p ∷ qs

-- The resolved paths of a pattern, added to a set.
unfoldable pub add_all : List (FilePath × FilePath) → List FilePath → List FilePath
unfolding add
add_all [] s = s
add_all ((parent, p) ∷ ps) s = add_all ps (add p s)

unfoldable pub excluded : Machine → ℕ → List Text → List FilePath → List FilePath
unfolding add_all
excluded m time [] s = s
excluded m time (glob_str ∷ globs) s = excluded m time globs (add_all (m.glob time glob_str) s)

-- `any((Path(p).parent / filename).exists() for filename in …)`
unfoldable pub is_guarded : Machine → List Text → FilePath → Bool
is_guarded m names parent = any (m.exists_in parent) names

unfoldable pub add_scanned :
    Machine → List Text → List (FilePath × FilePath) → List FilePath → List FilePath
unfolding add is_guarded
add_scanned m names [] s = s
add_scanned m names ((parent, p) ∷ ps) s =
    add_scanned m names ps (if is_guarded m names parent then s else add p s)

unfoldable pub scanned : Machine → List Text → List Text → List FilePath → List FilePath
unfolding add_scanned
scanned m names [] s = s
scanned m names (glob_str ∷ globs) s =
    scanned m names globs (add_scanned m names (m.glob 1 glob_str) s)

-- `paths - excluded_paths`
unfoldable pub without : List FilePath → List FilePath → List FilePath
without [] xs = []
without (p ∷ ps) xs = let rest = without ps xs in if has p xs then rest else p ∷ rest

text_lt : Text → Text → Bool
text_lt [] [] = false
text_lt [] (d ∷ t) = true
text_lt (c ∷ s) [] = false
text_lt (c ∷ s) (d ∷ t) = if c == d then text_lt s t else ltb c d

-- The order of paths: by their components.
unfoldable pub path_lt : FilePath → FilePath → Bool
unfolding text_lt
path_lt [] [] = false
path_lt [] (d ∷ q) = true
path_lt (c ∷ p) [] = false
path_lt (c ∷ p) (d ∷ q) = if text_eq c d then path_lt p q else text_lt c d

unfoldable pub insert : FilePath → List FilePath → List FilePath
insert p [] = p ∷ []
insert p (q ∷ qs) = let rest = insert p qs in if path_lt q p then q ∷ rest else p ∷ q ∷ qs

-- `sorted(…)`
unfoldable pub sorted : List FilePath → List FilePath
unfolding insert
sorted [] = []
sorted (p ∷ ps) = insert p (sorted ps)

-- The settings that `iter_files` reads.
pub record Globs : Type 0 where
  pub scan_globs : List Text
  pub exclude_globs : List Text
  pub exclude_if_file_present : List Text

unfoldable pub iter_files : Machine → Globs → List FilePath
unfolding excluded scanned without sorted
iter_files m conf =
    let before = excluded m 0 conf.exclude_globs [] in
    let paths = scanned m conf.exclude_if_file_present conf.scan_globs [] in
    let after = excluded m 2 conf.exclude_globs before in sorted (without paths after)

-- `watched_paths`: the tasks by their paths. A task is a number.
pub record Watching : Type 0 where
  pub tasks : List (FilePath × ℕ)
  pub next_task : ℕ

unfoldable pub task_of : FilePath → List (FilePath × ℕ) → Option ℕ
task_of p [] = none
task_of p ((q, t) ∷ ts) = if path_eq q p then some t else task_of p ts

-- `watched_paths[str(p)] = create_task(…)`
unfoldable pub start_task : FilePath → Watching → Watching
start_task p w = record { tasks = (p, w.next_task) ∷ w.tasks; next_task = ℕ.suc w.next_task }

unfoldable pub is_running : (ℕ → Bool) → Option ℕ → Bool
is_running done none = false
is_running done (some t) = not (done t)

-- One round of the loop of `async_main`: a path without a running task gets one.
unfoldable pub watch_all : (ℕ → Bool) → List FilePath → Watching → Watching
unfolding start_task is_running
watch_all done [] w = w
watch_all done (p ∷ ps) w =
    watch_all done ps (if is_running done (task_of p w.tasks) then w else start_task p w)

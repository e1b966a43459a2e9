-- ===== src/Agent/Markers.antt =====
-- agent/logline_agent/marker_watcher.py: the names of lh-logrotate's marker files, and what the
-- watcher learns from them.
use logline.Base.{
  ℕ, zero, suc, Bool, ◌&&◌, ◌||◌, Option, none, some, List, [], ◌∷◌, ◌++◌, leb, ◌==◌, if◌then◌else◌,
  any, Text, text_eq, is_empty, codes,
}
use logline.Host.{Host}

-- `literal` at the beginning of `s`: what follows it.
unfoldable pub after : Text → Text → Option Text
after [] s = some s
after (c ∷ p) [] = none
after (c ∷ p) (d ∷ s) = if c == d then after p s else none

-- `n` characters of a class: those characters and what follows them.
unfoldable pub span : ℕ → (ℕ → Bool) → Text → Option (Text × Text)
span zero p s = some ([], s)
span (suc n) p [] = none
span (suc n) p (c ∷ s) =
    let rest = span n p s in
    if p c then elim rest [ none ↦ none | some (a, b) ↦ some (c ∷ a, b) ] else none

infixl 5 ◌>>=◌
abbrev pub ◌>>=◌ {ℓ κ} : {A : Type ℓ} {B : Type κ} → Option A → (A → Option B) → Option B
none >>= f = none
some a >>= f = f a

-- `\d{8}T\d{6}Z`
unfoldable pub match_iso : Host → Text → Option (Text × Text)
match_iso host s = do
  date ← span 8 host.is_decimal s
  rest ← after (codes "T") date.1
  time ← span 6 host.is_decimal rest
  last ← after (codes "Z") time.1
  some (date.0 ++ (b'T' ∷ (time.0 ++ codes "Z")), last)

unfoldable pub is_hex : ℕ → Bool
is_hex c = (leb b'0' c && leb c b'9') || (leb b'a' c && leb c b'f')

-- `$`: the end, or a newline before the end.
unfoldable pub at_end : Text → Bool
at_end s = is_empty s || text_eq s (codes "\n")

-- `waiting_re.match(name)`: the first group.
unfoldable pub match_waiting : Host → Text → Text → Option Text
unfolding match_iso
match_waiting host basename name = do
  rest ← after (basename ++ codes ".") name
  iso ← match_iso host rest
  last ← after (codes ".lh-logrotate-waiting") iso.1
  if at_end last then some iso.0 else none

-- One of the two endings.
unfoldable pub match_ending : Text → Option (Text × Text)
match_ending s = elim (after (codes "compressed") s) [
  | some rest ↦ some (codes "compressed", rest)
  | none ↦ (do rest ← after (codes "uploaded") s; some (codes "uploaded", rest))
]

-- `done_re.match(name)`: both groups.
unfoldable pub match_done : Host → Text → Text → Option (Text × Text)
unfolding match_iso match_ending is_hex
match_done host basename name = do
  rest ← after (basename ++ codes ".") name
  iso ← match_iso host rest
  dot ← after (codes ".") iso.1
  sha ← span 13 is_hex dot
  mid ← after (codes ".xz.gpg.lh-logrotate-") sha.1
  ending ← match_ending mid
  if at_end ending.1 then some (iso.0, sha.0) else none

abbrev pub Shas : Type 0
Shas = List (Text × Text)

unfoldable pub get : Text → Shas → Option Text
get k [] = none
get k ((j, v) ∷ m) = if text_eq j k then some v else get k m

-- `d.setdefault(k, v)`
unfoldable pub setdefault : Text → Text → Shas → Shas
setdefault k v m = elim (get k m) [ none ↦ m ++ (k, v) ∷ [] | some w ↦ m ]

-- `x in xs`
unfoldable pub member : Text → List Text → Bool
member x xs = any (text_eq x) xs

-- The watcher of one tailed path.
pub record MarkerWatcher : Type 0 where
  pub basename : Text
  pub waiting_isos : List Text
  pub sha_by_iso : Shas

unfoldable pub init : Text → MarkerWatcher
init basename = record { basename = basename; waiting_isos = []; sha_by_iso = [] }

unfoldable pub see_waiting : Option Text → MarkerWatcher → MarkerWatcher
see_waiting none m = m
see_waiting (some iso) m =
    if member iso m.waiting_isos then m else record m { waiting_isos = m.waiting_isos ++ iso ∷ [] }

unfoldable pub see_done : Option (Text × Text) → MarkerWatcher → MarkerWatcher
unfolding setdefault
see_done none m = m
see_done (some (iso, sha13)) m = record m { sha_by_iso = setdefault iso sha13 m.sha_by_iso }

-- One round of the loop in `scan`.
unfoldable pub see : Host → Text → MarkerWatcher → MarkerWatcher
unfolding see_waiting see_done
see host name m =
    see_done (match_done host m.basename name) (see_waiting (match_waiting host m.basename name) m)

unfoldable pub scan_names : Host → List Text → MarkerWatcher → MarkerWatcher
scan_names host [] m = m
scan_names host (name ∷ names) m = scan_names host names (see host name m)

-- `scan()`: the listing is none where `listdir` raises.
unfoldable pub scan : Host → Option (List Text) → MarkerWatcher → MarkerWatcher
unfolding scan_names
scan host none m = m
scan host (some names) m = scan_names host names m

-- The last iso that is not consumed.
unfoldable pub newest : List Text → List Text → Option Text
newest consumed [] = none
newest consumed (iso ∷ isos) = elim (newest consumed isos) [
  | some later ↦ some later
  | none ↦ if member iso consumed then none else some iso
]

-- `newest_unconsumed_waiting`, with the watcher after its scan.
unfoldable pub newest_unconsumed_waiting :
    Host → Option (List Text) → List Text → MarkerWatcher → Option Text × MarkerWatcher
newest_unconsumed_waiting host listing consumed m =
    let m' = scan host listing m in (newest consumed m'.waiting_isos, m')

-- `sha13_for`
unfoldable pub sha13_for :
    Host → Option (List Text) → Text → MarkerWatcher → Option Text × MarkerWatcher
sha13_for host listing iso_dt m = elim (get iso_dt m.sha_by_iso) [
  | some sha13 ↦ (some sha13, m)
  | none ↦ let m' = scan host listing m in (get iso_dt m'.sha_by_iso, m')
]

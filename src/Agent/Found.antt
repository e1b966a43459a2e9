-- ===== src/Agent/Found.antt =====
-- Which paths `iter_files` of agent/logline_agent/main.py gives.
use logline.Base.{
  ℕ, ◌≡◌, refl, ap, ◌∙◌, Bool, true, false, ◌&&◌, ◌||◌, not, List, [], ◌∷◌, any, Text, arith,
  Bool-cases, inl, inr,
}
use logline.Fs.{FilePath, path_eq}
use logline.Fs.Laws.{path_eq_iff}
use logline.Agent.Files.{
  Machine, Globs, has, add, add_all, excluded, is_guarded, add_scanned, scanned, without, insert,
  path_lt, sorted, iter_files,
}

-- Is the path a match of one of the patterns at that time?
unfoldable pub is_match : Machine → ℕ → List Text → FilePath → Bool
is_match m time globs p =
    any (λ glob_str. any (λ match. path_eq match.1 p) (m.glob time glob_str)) globs

-- Is it one in a directory without any of the names?
unfoldable pub is_free_match : Machine → List Text → List Text → FilePath → Bool
is_free_match m names globs p =
    any
      (λ glob_str.
        any (λ match. path_eq match.1 p && not (is_guarded m names match.0)) (m.glob 1 glob_str))
      globs

has-add : (p q : FilePath) (s : List FilePath) → has p (add q s) ≡ (path_eq q p || has p s)
unfolding add has
has-add p q s = elim (Bool-cases (has q s)) [
  | inl seen ↦ rw seen (elim (Bool-cases (path_eq q p)) [
    | inl same ↦ rw (same, ← (path_eq_iff q p).0 same) seen
    | inr other ↦ rw other refl
  ])
  | inr unseen ↦ rw unseen refl
]

or_assoc : (a b c : Bool) → (a || (b || c)) ≡ ((a || b) || c)
or_assoc true b c = refl
or_assoc false b c = refl

or_comm : (a b : Bool) → (a || b) ≡ (b || a)
or_comm a b = ground arith

has-add_all :
    (p : FilePath) (ms : List (FilePath × FilePath)) (s : List FilePath)
    → has p (add_all ms s) ≡ (any (λ match. path_eq match.1 p) ms || has p s)
unfolding add_all
has-add_all p [] s = refl
has-add_all p ((d, q) ∷ ms) s = has-add_all p ms (add q s) ∙ (rw has-add (ground arith))

has-excluded :
    (m : Machine) (time : ℕ) (p : FilePath) (globs : List Text) (s : List FilePath)
    → has p (excluded m time globs s) ≡ (is_match m time globs p || has p s)
unfolding excluded is_match
has-excluded m time p [] s = refl
has-excluded m time p (g ∷ gs) s = has-excluded m time p gs _ ∙ (rw has-add_all (ground arith))

has-add_scanned :
    (m : Machine) (names : List Text) (p : FilePath) (ms : List (FilePath × FilePath))
    (s : List FilePath)
    → has p (add_scanned m names ms s)
      ≡ (any (λ match. path_eq match.1 p && not (is_guarded m names match.0)) ms || has p s)
unfolding add_scanned
has-add_scanned m names p [] s = refl
has-add_scanned m names p ((d, q) ∷ ms) s = elim (Bool-cases (is_guarded m names d)) [
  | inl guarded ↦ rw guarded (has-add_scanned m names p ms s ∙ ground arith)
  | inr free ↦ rw free (has-add_scanned m names p ms (add q s) ∙ (rw has-add (ground arith)))
]

has-scanned :
    (m : Machine) (names : List Text) (p : FilePath) (globs : List Text) (s : List FilePath)
    → has p (scanned m names globs s) ≡ (is_free_match m names globs p || has p s)
unfolding scanned is_free_match
has-scanned m names p [] s = refl
has-scanned m names p (g ∷ gs) s = has-scanned m names p gs _ ∙ (rw has-add_scanned (ground arith))

has-without :
    (p : FilePath) (ps xs : List FilePath) → has p (without ps xs) ≡ (has p ps && not (has p xs))
unfolding without has
has-without p [] xs = refl
has-without p (q ∷ ps) xs = elim (Bool-cases (path_eq q p)) [
  | inl same ↦
      let alike : has p xs ≡ has q xs = rw ((path_eq_iff q p).0 same) refl in
      elim (Bool-cases (has q xs)) [
        | inl dropped ↦ rw (dropped, has-without p ps xs, alike, dropped) (ground arith)
        | inr kept ↦ rw (kept, same, alike, kept) refl
      ]
  | inr other ↦ elim (Bool-cases (has q xs)) [
    | inl dropped ↦ rw (dropped, has-without p ps xs, other) refl
    | inr kept ↦ rw (kept, has-without p ps xs, other) refl
  ]
]

has-insert : (p q : FilePath) (ps : List FilePath) → has p (insert q ps) ≡ (path_eq q p || has p ps)
unfolding insert has
has-insert p q [] = refl
has-insert p q (r ∷ ps) = elim (Bool-cases (path_lt r q)) [
  | inl before ↦ rw (before, has-insert p q ps) (ground arith)
  | inr behind ↦ rw behind refl
]

has-sorted : (p : FilePath) (ps : List FilePath) → has p (sorted ps) ≡ has p ps
unfolding sorted has
has-sorted p [] = refl
has-sorted p (q ∷ ps) = has-insert p q (sorted ps) ∙ ap (λ b. path_eq q p || b) (has-sorted p ps)

-- A path is given where it matches a scanned pattern in a directory without any of the guarding
-- names, and no excluded pattern, neither before nor after the scan.
pub has-iter_files :
    (m : Machine) (conf : Globs) (p : FilePath)
    → has p (iter_files m conf) ≡ (
        is_free_match m conf.exclude_if_file_present conf.scan_globs p
        && not (is_match m 0 conf.exclude_globs p || is_match m 2 conf.exclude_globs p))
unfolding iter_files has
has-iter_files m conf p =
    rw (has-sorted, has-without, has-scanned, has-excluded, has-excluded) (ground arith)

-- ===== src/Fs/Outside.antt =====
-- The entries that are neither a directory nor below it: what changes of the others leaves alone.
use logline.Base.{
  ◌≡◌, refl, Option, none, some, [], ◌∷◌, ◌++◌, arith, text_eq_iff, text_eq_refl, Bool-cases,
  Option-cases, inl, inr, sym, ◌∙◌, append_assoc,
}
use mathlib.Core.Option.{some-injective}
use logline.Fs.{
  FilePath, path_eq, relative_to, Node, dir, file, Entries, Fs, Handle, opened, find, remove, put,
  relocate, rename_node, rename, mkdir, open_truncate,
}
use logline.Fs.Laws.{path_eq_iff}

-- `p` is `base` or stands below it.
abbrev pub IsBelow : FilePath → FilePath → Type 0
IsBelow base p = (rest : FilePath) × (p ≡ base ++ rest)

unfoldable pub outside : FilePath → Entries → Entries
outside base [] = []
outside base ((q, n) ∷ es) =
    let rest = outside base es in elim (relative_to base q) [ none ↦ (q, n) ∷ rest | some r ↦ rest ]

pub relative_to-append : (base r : FilePath) → relative_to base (base ++ r) ≡ some r
unfolding relative_to
relative_to-append [] r = refl
relative_to-append (c ∷ p) r = rw (text_eq_refl c) (relative_to-append p r)

pub relative_to_sound : (s q t : FilePath) → relative_to s q ≡ some t → q ≡ s ++ t
unfolding relative_to
relative_to_sound [] q t h = some-injective q t h
relative_to_sound (c ∷ s) [] t h = cc
relative_to_sound (c ∷ s) (d ∷ q) t h = ground (arith, text_eq_iff c d, relative_to_sound s q t)

pub IsBelow-append :
    (base : FilePath) {p : FilePath} (r : FilePath) → IsBelow base p → IsBelow base (p ++ r)
IsBelow-append base r (s, e) = (s ++ r, rw e (append_assoc base s r))

module _ (base : FilePath) where
  outside_below :
      (p : FilePath) (n : Node) (es : Entries)
      → IsBelow base p
      → outside base ((p, n) ∷ es) ≡ outside base es
  unfolding outside
  outside_below p n es (r, e) =
      let found : relative_to base p ≡ some r = rw e (relative_to-append base r) in
      ground (arith, found)

  outside_cons :
      (q : FilePath) (n : Node) (es fs : Entries)
      → outside base es ≡ outside base fs
      → outside base ((q, n) ∷ es) ≡ outside base ((q, n) ∷ fs)
  unfolding outside
  outside_cons q n es fs h = ground arith

  remove-cons :
      (p q : FilePath) (n : Node) (es : Entries)
      → IsBelow base p
      → outside base (remove p es) ≡ outside base es
      → outside base (remove p ((q, n) ∷ es)) ≡ outside base ((q, n) ∷ es)
  unfolding remove
  remove-cons p q n es h ih = elim (Bool-cases (path_eq q p)) [
    | inl e ↦
        let below : IsBelow base q = rw ((path_eq_iff q p).0 e) h in
        rw e (ih ∙ sym (outside_below q n es below))
    | inr e ↦ rw e (outside_cons q n _ _ ih)
  ]

  outside-remove :
      (p : FilePath) (es : Entries) → IsBelow base p → outside base (remove p es) ≡ outside base es
  outside-remove p [] h = unfold remove in refl
  outside-remove p ((q, n) ∷ es) h = remove-cons p q n es h (outside-remove p es h)

  pub outside-put :
      (p : FilePath) (n : Node) (es : Entries)
      → IsBelow base p
      → outside base (put p n es) ≡ outside base es
  outside-put p n es h = outside_below p n (remove p es) h ∙ outside-remove p es h

  relocate-cons :
      (src dst q : FilePath) (n : Node) (es : Entries)
      → IsBelow base src
      → IsBelow base dst
      → outside base (relocate src dst es) ≡ outside base es
      → outside base (relocate src dst ((q, n) ∷ es)) ≡ outside base ((q, n) ∷ es)
  unfolding relocate
  relocate-cons src dst q n es hs hd ih = elim (Option-cases (relative_to src q)) [
    | inl e ↦ rw (e, relocate) (outside_cons q n _ _ ih)
    | inr (r, e) ↦
        let below : IsBelow base q = rw (relative_to_sound src q r e) (IsBelow-append base r hs) in
        rw (e, relocate)
          (outside_below (dst ++ r) n _ (IsBelow-append base r hd)
            ∙ ih
            ∙ sym (outside_below q n es below))
  ]

  outside-relocate :
      (src dst : FilePath) (es : Entries)
      → IsBelow base src
      → IsBelow base dst
      → outside base (relocate src dst es) ≡ outside base es
  outside-relocate src dst [] hs hd = unfold relocate in refl
  outside-relocate src dst ((q, n) ∷ es) hs hd =
      relocate-cons src dst q n es hs hd (outside-relocate src dst es hs hd)

  -- The calls of the file system, at paths below `base`.
  pub outside-mkdir :
      (p : FilePath) (fs fs' : Fs)
      → IsBelow base p
      → mkdir p fs ≡ some fs'
      → outside base fs'.entries ≡ outside base fs.entries
  unfolding mkdir
  outside-mkdir p fs fs' h e = ground (arith, outside-put p dir fs.entries h)

  pub outside-open_truncate :
      (p : FilePath) (fs fs' : Fs) (f : Handle)
      → IsBelow base p
      → open_truncate p fs ≡ opened f fs'
      → outside base fs'.entries ≡ outside base fs.entries
  unfolding open_truncate
  outside-open_truncate p fs fs' f h e = ground (arith, outside-put p (file fs.next) fs.entries h)

  outside-rename_node :
      (p q : FilePath) (src dst : Option Node) (fs fs' : Fs)
      → IsBelow base p
      → IsBelow base q
      → rename_node p q src dst fs ≡ some fs'
      → outside base fs'.entries ≡ outside base fs.entries
  unfolding rename_node
  outside-rename_node p q none dst fs fs' hp hq e = cc
  outside-rename_node p q (some (file i)) (some dir) fs fs' hp hq e = cc
  outside-rename_node p q (some (file i)) _ fs fs' hp hq e =
      ground
        (arith, outside-put q (file i) (remove p fs.entries) hq, outside-remove p fs.entries hp)
  outside-rename_node p q (some dir) none fs fs' hp hq e =
      ground (arith, outside-relocate p q fs.entries hp hq)
  outside-rename_node p q (some dir) (some (file j)) fs fs' hp hq e = cc
  outside-rename_node p q (some dir) (some dir) fs fs' hp hq e =
      ground
        (arith, outside-relocate p q (remove q fs.entries) hp hq, outside-remove q fs.entries hq)

  pub outside-rename :
      (p q : FilePath) (fs fs' : Fs)
      → IsBelow base p
      → IsBelow base q
      → rename p q fs ≡ some fs'
      → outside base fs'.entries ≡ outside base fs.entries
  unfolding rename
  outside-rename p q fs fs' hp hq e =
      outside-rename_node p q (find p fs.entries) (find q fs.entries) fs fs' hp hq e

-- A path that is not below `base` is found among the entries outside.
pub find-outside :
    (base p : FilePath) (es : Entries)
    → relative_to base p ≡ none
    → find p (outside base es) ≡ find p es
unfolding find outside
find-outside base p [] h = refl
find-outside base p ((q, n) ∷ es) h = elim (Bool-cases (path_eq q p)) [
  | inl e ↦
      let out : relative_to base q ≡ none = rw ((path_eq_iff q p).0 e) h in
      ground (arith, find-outside base p es h)
  | inr e ↦ ground (arith, find-outside base p es h)
]

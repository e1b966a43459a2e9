-- ===== src/Agent/Waiting.antt =====
-- marker_watcher.py: the timestamps of the markers that wait, by the names in the directory.
use logline.Base.{
  ◌≡◌, ◌||◌, ◌++◌, text_eq, text_eq_iff, refl, ap, sym, ◌∙◌, Bool-cases, ◌⊎◌, inl, inr, true, false,
  Option, none, some, List, [], ◌∷◌, Text, arith,
}
use logline.Host.{Host}
use logline.Agent.Markers.{
  MarkerWatcher, see_waiting, see_done, see, match_done, scan_names, match_waiting, member, newest,
  scan,
}

-- The newest unconsumed timestamp is none of the consumed ones.
pub newest_fresh :
    (consumed isos : List Text) (iso : Text)
    → newest consumed isos ≡ some iso
    → member iso consumed ≡ false
unfolding newest
newest_fresh consumed [] iso e = absurd (cc)
newest_fresh consumed (i ∷ isos) iso e = grind (arith, newest_fresh consumed isos iso)

-- It is one of those that are known, and where it is missing all of them are consumed.
pub newest-member :
    (consumed isos : List Text) (iso : Text)
    → newest consumed isos ≡ some iso
    → member iso isos ≡ true
unfolding newest member
newest-member consumed [] iso e = absurd (cc)
newest-member consumed (i ∷ isos) iso e =
    grind (arith, newest-member consumed isos iso, text_eq_iff iso i)

pub newest-none :
    (consumed isos : List Text) (iso : Text)
    → newest consumed isos ≡ none
    → member iso isos ≡ true
    → member iso consumed ≡ true
unfolding newest member
newest-none consumed [] iso e h = absurd (cc)
newest-none consumed (i ∷ isos) iso e h =
    grind (arith, newest-none consumed isos iso, text_eq_iff iso i)

member-append :
    (x y : Text) (isos : List Text) → member x (isos ++ y ∷ []) ≡ member x isos || text_eq x y
unfolding member
member-append x y [] = ground arith
member-append x y (i ∷ isos) = ground (arith, member-append x y isos)

module _ (host : Host) (basename : Text) where
  -- A name of the listing is a marker of the timestamp that waits.
  abbrev pub Marks : Text → List Text → Type 0
  Marks iso [] = ⊥
  Marks iso (name ∷ names) = (match_waiting host basename name ≡ some iso) ⊎ Marks iso names

  -- A marker of it is in one of the listings, or the watcher knows it already.
  abbrev pub Waits : Text → List Text → List (Option (List Text)) → Type 0
  Waits iso isos [] = member iso isos ≡ true
  Waits iso isos (none ∷ listings) = Waits iso isos listings
  Waits iso isos (some names ∷ listings) = Marks iso names ⊎ Waits iso isos listings

  pub Waits-known :
      (iso : Text) (isos : List Text) (listings : List (Option (List Text)))
      → member iso isos ≡ true
      → Waits iso isos listings
  Waits-known iso isos [] h = h
  Waits-known iso isos (none ∷ listings) h = Waits-known iso isos listings h
  Waits-known iso isos (some names ∷ listings) h = inr (Waits-known iso isos listings h)

  -- A timestamp is known, or it waits whatever is known.
  Waits-split :
      (iso : Text) (isos : List Text) (listings : List (Option (List Text)))
      → Waits iso isos listings
      → (member iso isos ≡ true) ⊎ ((others : List Text) → Waits iso others listings)
  Waits-split iso isos [] h = inl h
  Waits-split iso isos (none ∷ listings) h = Waits-split iso isos listings h
  Waits-split iso isos (some names ∷ listings) (inl marks) = inr (λ others. inl marks)
  Waits-split iso isos (some names ∷ listings) (inr h) = elim (Waits-split iso isos listings h) [
    | inl known ↦ inl known
    | inr later ↦ inr (λ others. inr (later others))
  ]

  -- What a scan makes of the timestamps.
  see_waiting-from :
      (o : Option Text) (m : MarkerWatcher) (iso : Text)
      → member iso (see_waiting o m).waiting_isos ≡ true
      → (o ≡ some iso) ⊎ (member iso m.waiting_isos ≡ true)
  unfolding see_waiting
  see_waiting-from none m iso h = inr h
  see_waiting-from (some x) m iso h = elim (Bool-cases (text_eq iso x)) [
    | inl same ↦ inl (ap some (sym ((text_eq_iff iso x).0 same)))
    | inr other ↦ inr (ground (arith, member-append iso x m.waiting_isos))
  ]

  see_waiting-to :
      (o : Option Text) (m : MarkerWatcher) (iso : Text)
      → (o ≡ some iso) ⊎ (member iso m.waiting_isos ≡ true)
      → member iso (see_waiting o m).waiting_isos ≡ true
  unfolding see_waiting
  see_waiting-to none m iso (inl e) = absurd (cc)
  see_waiting-to none m iso (inr h) = h
  see_waiting-to (some x) m iso (inl e) =
      let same : x ≡ iso = cc in
      let here : text_eq iso x ≡ true = (text_eq_iff iso x).1 (sym same) in
      rw (← same) (ground (arith, member-append x x m.waiting_isos, (text_eq_iff x x).1 refl))
  see_waiting-to (some x) m iso (inr h) = ground (arith, member-append iso x m.waiting_isos)

  see_done-same :
      (o : Option (Text × Text)) (m : MarkerWatcher)
      → ((see_done o m).waiting_isos ≡ m.waiting_isos) × ((see_done o m).basename ≡ m.basename)
  unfolding see_done
  see_done-same none m = (refl, refl)
  see_done-same (some x) m = (refl, refl)

  see_waiting-basename :
      (o : Option Text) (m : MarkerWatcher) → (see_waiting o m).basename ≡ m.basename
  unfolding see_waiting
  see_waiting-basename none m = refl
  see_waiting-basename (some x) m = ground arith

  see_same :
      (name : Text) (m : MarkerWatcher)
      → ((see host name m).waiting_isos
          ≡ (see_waiting (match_waiting host m.basename name) m).waiting_isos)
        × ((see host name m).basename ≡ m.basename)
  unfolding see
  see_same name m =
      let o = match_waiting host m.basename name in
      let (isos, base) = see_done-same (match_done host m.basename name) (see_waiting o m) in
      (isos, base ∙ see_waiting-basename o m)

  scan_names-from :
      (names : List Text) (m : MarkerWatcher) (iso : Text)
      → m.basename ≡ basename
      → member iso (scan_names host names m).waiting_isos ≡ true
      → Marks iso names ⊎ (member iso m.waiting_isos ≡ true)
  unfolding scan_names
  scan_names-from [] m iso b h = inr h
  scan_names-from (name ∷ names) m iso b h =
      let (isos, base) = see_same name m in
      elim (scan_names-from names (see host name m) iso (base ∙ b) h) [
        | inl later ↦ inl (inr later)
        | inr here ↦ elim (see_waiting-from _ m iso (ap (member iso) (sym isos) ∙ here)) [
          | inl e ↦ inl (inl (ap (λ x. match_waiting host x name) (sym b) ∙ e))
          | inr known ↦ inr known
        ]
      ]

  scan_names-to :
      (names : List Text) (m : MarkerWatcher) (iso : Text)
      → m.basename ≡ basename
      → Marks iso names ⊎ (member iso m.waiting_isos ≡ true)
      → member iso (scan_names host names m).waiting_isos ≡ true
  unfolding scan_names
  scan_names-to [] m iso b (inl h) = absurd h
  scan_names-to [] m iso b (inr h) = h
  scan_names-to (name ∷ names) m iso b h =
      let (isos, base) = see_same name m in
      let seen =
        λ (k : (match_waiting host m.basename name ≡ some iso)
            ⊎ (member iso m.waiting_isos ≡ true)).
          ap (member iso) isos ∙ see_waiting-to (match_waiting host m.basename name) m iso k in
      scan_names-to names (see host name m) iso (base ∙ b) (elim h [
        | inl marks ↦ elim marks [
          | inl e ↦ inr (seen (inl (ap (λ x. match_waiting host x name) b ∙ e)))
          | inr later ↦ inl later
        ]
        | inr known ↦ inr (seen (inr known))
      ])

  scan_names-basename :
      (names : List Text) (m : MarkerWatcher) → (scan_names host names m).basename ≡ m.basename
  unfolding scan_names
  scan_names-basename [] m = refl
  scan_names-basename (name ∷ names) m =
      scan_names-basename names (see host name m) ∙ (see_same name m).1

  pub scan-basename :
      (listing : Option (List Text)) (m : MarkerWatcher)
      → (scan host listing m).basename ≡ m.basename
  unfolding scan
  scan-basename none m = refl
  scan-basename (some names) m = scan_names-basename names m

  -- What waits before a scan waits after it, and the other way round.
  pub scan-from :
      (listing : Option (List Text)) (listings : List (Option (List Text))) (m : MarkerWatcher)
      (iso : Text)
      → m.basename ≡ basename
      → Waits iso (scan host listing m).waiting_isos listings
      → Waits iso m.waiting_isos (listing ∷ listings)
  unfolding scan
  scan-from none listings m iso b h = h
  scan-from (some names) listings m iso b h = elim (Waits-split iso _ listings h) [
    | inl known ↦ elim (scan_names-from names m iso b known) [
      | inl marks ↦ inl marks
      | inr before ↦ inr (Waits-known iso m.waiting_isos listings before)
    ]
    | inr later ↦ inr (later m.waiting_isos)
  ]

  pub scan-to :
      (listing : Option (List Text)) (listings : List (Option (List Text))) (m : MarkerWatcher)
      (iso : Text)
      → m.basename ≡ basename
      → Waits iso m.waiting_isos (listing ∷ listings)
      → Waits iso (scan host listing m).waiting_isos listings
  unfolding scan
  scan-to none listings m iso b h = h
  scan-to (some names) listings m iso b (inl marks) =
      Waits-known iso _ listings (scan_names-to names m iso b (inl marks))
  scan-to (some names) listings m iso b (inr h) = elim (Waits-split iso m.waiting_isos listings h) [
    | inl known ↦ Waits-known iso _ listings (scan_names-to names m iso b (inr known))
    | inr later ↦ later _
  ]

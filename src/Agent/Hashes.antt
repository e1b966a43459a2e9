-- ===== src/Agent/Hashes.antt =====
-- marker_watcher.py: the hash of a finished segment, once learned, stays.
use logline.Base.{
  ◌≡◌, refl, ap, ◌∙◌, inl, inr, Bool-cases, Option, none, some, List, [], ◌∷◌, ◌++◌, Text, text_eq,
}
use logline.Host.{Host}
use logline.Agent.Markers.{
  Shas, get, setdefault, MarkerWatcher, see_waiting, see_done, see, scan_names, scan, match_waiting,
  sha13_for, member,
}

get-append : (k v : Text) (m n : Shas) → get k m ≡ some v → get k (m ++ n) ≡ some v
unfolding get
get-append k v [] n e = absurd (cc)
get-append k v ((j, u) ∷ m) n e = elim (Bool-cases (text_eq j k)) [
  | inl same ↦ rw same (rw same at e)
  | inr other ↦ rw other (get-append k v m n (rw other at e))
]

get-setdefault : (k v j u : Text) (m : Shas) → get k m ≡ some v → get k (setdefault j u m) ≡ some v
unfolding setdefault
get-setdefault k v j u m e = by_case (get j m)
  where
    by_case : (o : Option Text) → get k (elim o [ none ↦ m ++ (j, u) ∷ [] | some w ↦ m ]) ≡ some v
    by_case none = get-append k v m ((j, u) ∷ []) e
    by_case (some w) = e

see_waiting-shas :
    (o : Option Text) (m : MarkerWatcher) → (see_waiting o m).sha_by_iso ≡ m.sha_by_iso
unfolding see_waiting
see_waiting-shas none m = refl
see_waiting-shas (some iso) m = elim (Bool-cases (member iso m.waiting_isos)) [
  | inl t ↦ rw t
  | inr f ↦ rw f
]

see_done-get :
    (k v : Text) (o : Option (Text × Text)) (m : MarkerWatcher)
    → get k m.sha_by_iso ≡ some v
    → get k (see_done o m).sha_by_iso ≡ some v
unfolding see_done
see_done-get k v none m e = e
see_done-get k v (some (iso, sha13)) m e = get-setdefault k v iso sha13 m.sha_by_iso e

module _ (host : Host) (k v : Text) where
  scan_names-get :
      (names : List Text) (m : MarkerWatcher)
      → get k m.sha_by_iso ≡ some v
      → get k (scan_names host names m).sha_by_iso ≡ some v
  unfolding scan_names see
  scan_names-get [] m e = e
  scan_names-get (name ∷ names) m e = scan_names-get names _ (
      see_done-get k v _ _
        (ap (get k) (see_waiting-shas (match_waiting host m.basename name) m) ∙ e))

  -- A hash that the watcher knows for a timestamp survives every later scan, whatever is then in the
  -- directory, and `sha13_for` gives it without a scan.
  pub scan-known :
      (listing next : Option (List Text)) (m : MarkerWatcher)
      → get k m.sha_by_iso ≡ some v
      → (get k (scan host listing m).sha_by_iso ≡ some v)
        × (sha13_for host next k (scan host listing m) ≡ (some v, scan host listing m))
  unfolding scan sha13_for
  scan-known none next m e = (e, rw (e, sha13_for))
  scan-known (some names) next m e =
      let kept = scan_names-get names m e in (kept, rw (kept, sha13_for))

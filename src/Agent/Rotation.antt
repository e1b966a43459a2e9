-- ===== src/Agent/Rotation.antt =====
-- coordinator.py and marker_watcher.py: a rotation is named by a marker that no earlier one took.
use logline.Base.{
  ◌≡◌, refl, ◌∙◌, ◌⊎◌, inl, inr, Bool, true, false, Option, none, some, List, [], ◌∷◌, Text,
}
use logline.Host.{Host}
use logline.Agent.Markers.{MarkerWatcher, member, newest, newest_unconsumed_waiting, scan}
use logline.Agent.Coordinator.{learn_iso_dt}
use logline.Agent.Waiting.{
  newest_fresh, newest-member, newest-none, Waits, Waits-known, scan-basename, scan-from, scan-to,
}

module _ (host : Host) (now basename : Text) (consumed : List Text) where
  -- How a rotation is named: by a timestamp that waits and was not consumed before; or, where all that
  -- wait were consumed, as an orphan by the clock.
  pub IsNamed : List Text → List (Option (List Text)) → (Text × Bool) × MarkerWatcher → Type 0
  IsNamed isos listings ((iso_dt, is_orphan), m) =
      ((is_orphan ≡ false)
        × (member iso_dt consumed ≡ false)
        × Waits host basename iso_dt isos listings)
      ⊎ ((is_orphan ≡ true)
          × (iso_dt ≡ now)
          × ((iso : Text) → Waits host basename iso isos listings → member iso consumed ≡ true))

  -- One more listing, by what the scan of it found.
  named :
      (listing : Option (List Text)) (listings : List (Option (List Text))) (m : MarkerWatcher)
      (found : Option Text) (later : (Text × Bool) × MarkerWatcher)
      → m.basename ≡ basename
      → newest consumed (scan host listing m).waiting_isos ≡ found
      → (found ≡ none → IsNamed (scan host listing m).waiting_isos listings later)
      → IsNamed m.waiting_isos
          (listing ∷ listings)
          (elim found [ some iso_dt ↦ ((iso_dt, false), scan host listing m) | none ↦ later ])
  unfolding IsNamed
  named listing listings m none later b e h = elim (h refl) [
    | inl (o, fresh, waits) ↦
        inl (o, fresh, scan-from host basename listing listings m later.0.0 b waits)
    | inr (o, clock, all) ↦
        inr (o, clock, λ iso w. all iso (scan-to host basename listing listings m iso b w))
  ]
  named listing listings m (some iso) later b e h =
      let isos = (scan host listing m).waiting_isos in
      inl (
        refl,
        newest_fresh consumed isos iso e,
        scan-from host basename listing listings m iso b
            (Waits-known host basename iso isos listings (newest-member consumed isos iso e)),
      )

  learned :
      (listings : List (Option (List Text))) (m : MarkerWatcher)
      → m.basename ≡ basename
      → ((iso : Text)
          → member iso m.waiting_isos ≡ true
          → listings ≡ []
          → member iso consumed ≡ true)
      → IsNamed m.waiting_isos listings (learn_iso_dt host now listings consumed m)
  unfolding learn_iso_dt newest_unconsumed_waiting IsNamed
  learned [] m b k = inr (refl, refl, λ iso h. k iso h refl)
  learned (listing ∷ listings) m b k =
      let m' = scan host listing m in
      named listing listings m (newest consumed m'.waiting_isos) _ b refl λ none_new.
        learned listings m' (scan-basename host basename listing m ∙ b)
          λ iso known last. newest-none consumed m'.waiting_isos iso none_new known

  -- After at least one listing, a rotation is named by the timestamp of a marker that waits in one of
  -- the listings, or that was seen before, and that no earlier rotation consumed; or it is an orphan
  -- named by the clock, where every timestamp whose marker waits in one of the listings, or was seen
  -- before, was consumed.
  pub learn_iso_dt-IsNamed :
      (listing : Option (List Text)) (listings : List (Option (List Text))) (m : MarkerWatcher)
      → m.basename ≡ basename
      → IsNamed m.waiting_isos
          (listing ∷ listings)
          (learn_iso_dt host now (listing ∷ listings) consumed m)
  learn_iso_dt-IsNamed listing listings m b = learned (listing ∷ listings) m b (λ iso known e. cc)

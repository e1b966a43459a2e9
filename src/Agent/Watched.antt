-- ===== src/Agent/Watched.antt =====
-- The tasks of agent/logline_agent/main.py after a round of the loop.
use logline.Base.{
  ℕ, ◌≡◌, ◌≤◌, refl, ap, ◌∙◌, Bool, true, false, List, [], ◌∷◌, if◌then◌else◌, arith, Bool-cases,
  inl, inr,
}
use logline.Fs.{FilePath, path_eq}
use logline.Fs.Laws.{path_eq_iff, path_eq_refl}
use logline.Agent.Files.{has, Watching, task_of, start_task, is_running, watch_all}

-- Tasks that were not started yet are not done.
abbrev pub IsFuture : (ℕ → Bool) → Watching → Type 0
IsFuture done w = (t : ℕ) → w.next_task ≤ t → done t ≡ false

abbrev pub runs : (ℕ → Bool) → FilePath → Watching → Bool
runs done p w = is_running done (task_of p w.tasks)

module _ (done : ℕ → Bool) where
  step : FilePath → Watching → Watching
  step p w = if is_running done (task_of p w.tasks) then w else start_task p w

  step-IsFuture : (p : FilePath) (w : Watching) → IsFuture done w → IsFuture done (step p w)
  unfolding step start_task
  step-IsFuture p w f = elim (Bool-cases (runs done p w)) [
    | inl running ↦ rw running f
    | inr idle ↦ rw idle (λ t h. f t (omega arith))
  ]

  step-runs : (p : FilePath) (w : Watching) → IsFuture done w → runs done p (step p w) ≡ true
  unfolding step start_task task_of is_running
  step-runs p w f = elim (Bool-cases (runs done p w)) [
    | inl running ↦ rw running running
    | inr idle ↦ rw (idle, path_eq_refl p, f w.next_task (omega arith)) refl
  ]

  -- A running task stays the task of its path.
  step-keeps :
      (p q : FilePath) (w : Watching)
      → runs done q w ≡ true
      → task_of q (step p w).tasks ≡ task_of q w.tasks
  unfolding step start_task task_of
  step-keeps p q w r = elim (Bool-cases (runs done p w)) [
    | inl running ↦ rw running refl
    | inr idle ↦ rw idle (elim (Bool-cases (path_eq p q)) [
      | inl same ↦ absurd (cc (r, idle, (path_eq_iff p q).0 same))
      | inr other ↦ rw other refl
    ])
  ]

  keeps :
      (q : FilePath) (ps : List FilePath) (w : Watching)
      → runs done q w ≡ true
      → task_of q (watch_all done ps w).tasks ≡ task_of q w.tasks
  unfolding watch_all step
  keeps q [] w r = refl
  keeps q (p ∷ ps) w r =
      let same = step-keeps p q w r in keeps q ps (step p w) (ap (is_running done) same ∙ r) ∙ same

  watches :
      (q : FilePath) (ps : List FilePath) (w : Watching)
      → IsFuture done w
      → has q ps ≡ true
      → runs done q (watch_all done ps w) ≡ true
  unfolding watch_all has step
  watches q [] w f h = absurd (cc)
  watches q (p ∷ ps) w f h = elim (Bool-cases (path_eq p q)) [
    | inl same ↦
        let here : runs done q (step p w) ≡ true =
          rw (← (path_eq_iff p q).0 same) (step-runs p w f) in
        ap (is_running done) (keeps q ps (step p w) here) ∙ here
    | inr other ↦ watches q ps (step p w) (step-IsFuture p w f) (ground arith)
  ]

pub record IsWatched (done : ℕ → Bool) (ps : List FilePath) (w v : Watching) : Type 0 where
  pub watched : (p : FilePath) → has p ps ≡ true → runs done p v ≡ true
  pub undisturbed : (p : FilePath) → runs done p w ≡ true → task_of p v.tasks ≡ task_of p w.tasks

-- A round of the loop leaves every path that was found with a task that is not done, and a task that
-- was not done stays the task of its path, where no task that was not started yet is done.
pub watch_all-IsWatched :
    (done : ℕ → Bool) (ps : List FilePath) (w : Watching)
    → IsFuture done w
    → IsWatched done ps w (watch_all done ps w)
watch_all-IsWatched done ps w f = record {
  watched = λ p h. watches done p ps w f h;
  undisturbed = λ p r. keeps done p ps w r;
}

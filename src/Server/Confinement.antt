-- ===== src/Server/Confinement.antt =====
-- A connection, whoever its client is, changes no entry outside the destination directory.
use logline.Base.{
  ◌≡◌, refl, sym, ap, ◌∙◌, Bool-cases, inl, inr, Bool, true, false, none, text_eq, is_empty, codes,
  [], ◌∷◌, ◌++◌, append-nil, arith, Text,
}
use logline.Json.{Value}
use logline.Fs
use logline.Fs.{FilePath, Fs, Handle, parent, relative_to, path_eq, write}
use logline.Fs.Laws.{write-entries}
use logline.Fs.Outside.{
  IsBelow, IsBelow-append, outside, outside-mkdir, outside-open_truncate, outside-rename,
  find-outside,
}
use logline.Fs.Join.{IsSegment, path_join, path_join-segment}
use logline.Host.{Host}
use logline.Server.World.{Event, active_connection_inc, ok, World, modify}
use logline.Server.World.Keeps.{IsStable, Keeps, keeps_rules}
use logline.Server.Telemetry.{record_event, record_connection, active_connections}
use logline.Server.Paths.{mangle, destination, destination_dir, build_destination_dir}
use logline.Server.Segments.{IsSafe, path_join-safe, mangle-Lacks}
use logline.Server.Auth.{Configuration}
use logline.Server.Handle.{try_client, outcome, finish, handle_client}
use logline.Server.Allows.{Allows}
use logline.Server.Allows.Client.{Keeps-try_client}

parent-append : (p : FilePath) (c : Text) → parent (p ++ (c ∷ [])) ≡ p
parent-append [] c = refl
parent-append (d ∷ []) c = refl
parent-append (d ∷ e ∷ p) c = ap (λ r. d ∷ r) (parent-append (e ∷ p) c)

IsBelow-self : (base : FilePath) → IsBelow base base
IsBelow-self base = ([], sym (append-nil base))

abbrev pub IsPlace : FilePath → FilePath → Type 0
IsPlace base d =
    IsBelow base d
    × IsBelow base (parent d)
    × ((c : Text) → IsSafe c → IsBelow base (path_join d c))

-- The directory, its parent and its children are below the destination directory.
child-IsPlace : (base p : FilePath) (c : Text) → IsBelow base p → IsPlace base (p ++ (c ∷ []))
child-IsPlace base p c b = (
  IsBelow-append base (c ∷ []) b,
  rw (parent-append p c) b,
  λ d safe.
      rw (path_join-safe (p ++ (c ∷ [])) d safe)
        (IsBelow-append base (d ∷ []) (IsBelow-append base (c ∷ []) b)),
)

destination-IsPlace :
    (base : FilePath) (h m : Text)
    → IsSafe h
    → (is_empty m ≡ false → IsSegment m)
    → IsPlace base (destination base h m)
unfolding destination
destination-IsPlace base h [] sh sm =
    rw (path_join-safe base h sh) (child-IsPlace base base h (IsBelow-self base))
destination-IsPlace base h (c ∷ m) sh sm =
    rw (path_join-safe base h sh, path_join-segment (base ++ (h ∷ [])) (c ∷ m) (sm refl))
      (child-IsPlace base (base ++ (h ∷ [])) (c ∷ m)
        (IsBelow-append base (h ∷ []) (IsBelow-self base)))

-- What an accepted directory and host name are like.
pub record IsChosen (host : Host) (dest d : FilePath) (hostname directory : Text) : Type 0 where
  pub placed : d ≡ destination (host.resolve dest) hostname (mangle directory)
  pub safe : IsSafe hostname
  pub no_dot : text_eq (mangle directory) (codes ".") ≡ false
  pub no_dots : text_eq (mangle directory) (codes "..") ≡ false

-- The accepted directory lies where `destination` puts it, and its names are no dots.
pub chosen :
    (host : Host) (dest d : FilePath) (hostname directory : Text)
    → destination_dir host dest hostname directory ≡ ok d
    → IsChosen host dest d hostname directory
unfolding destination_dir
chosen host dest d hostname directory e = record {
  placed = ground arith;
  safe = ground arith;
  no_dot = ground arith;
  no_dots = ground arith;
}

pub build-eq :
    (host : Host) (dest d : FilePath) (hostname directory : Value)
    → build_destination_dir host dest hostname directory ≡ ok d
    → IsPlace (host.resolve dest) d
unfolding build_destination_dir
build-eq host dest d (Value.str h) (Value.str m) e =
    let k = chosen host dest d h m e in
    rw k.placed (
      destination-IsPlace (host.resolve dest) h (mangle m) k.safe λ n. record {
        some_text = n;
        no_dot = k.no_dot;
        no_dots = k.no_dots;
        no_slash = mangle-Lacks m;
      })
build-eq host dest d (Value.str h) _ e = cc
build-eq host dest d _ _ e = cc

module _ (base : FilePath) where
  pub record IsConfined (u v : World) : Type 0 where
    pub outside_same : outside base v.fs.entries ≡ outside base u.fs.entries

  confined : {u v : World} → outside base v.fs.entries ≡ outside base u.fs.entries → IsConfined u v
  confined e = record { outside_same = e }

  IsConfined-stable : IsStable IsConfined
  IsConfined-stable = record {
    same = λ w. confined refl;
    compose = λ u v w h k. confined (k.outside_same ∙ h.outside_same);
  }

  pub IsConfined-Allows : Allows IsConfined (IsBelow base)
  IsConfined-Allows = record {
    quiet = record {
      stable = IsConfined-stable;
      reading = λ w i k e. confined refl;
      sending = λ w o. confined refl;
      measuring = λ w e h on. confined refl;
    };
    syncing = λ w s. confined refl;
    creating = λ w p b h fs e. confined (outside-open_truncate base p w.fs fs h b e);
    renaming = λ w p q a b fs e. confined (outside-rename base p q w.fs fs a b e);
    making = λ w p b fs e. confined (outside-mkdir base p w.fs fs b e);
    writing = λ w h b. confined (ap (outside base) (write-entries h b w.fs));
  }

  record_event-IsConfined : (e : Event) → Keeps IsConfined (record_event e)
  unfolding record_event modify
  record_event-IsConfined e = record {
    at = λ w. elim (Bool-cases w.metrics_enabled) [
      | inl on ↦ confined (simp on)
      | inr off ↦ confined (simp off)
    ];
  }

  close-IsConfined : Keeps IsConfined (modify (λ w. record w { closed = true }))
  unfolding modify
  close-IsConfined = record { at = λ w. confined refl }

  finish-IsConfined : (t : Text) → Keeps IsConfined (finish t)
  unfolding finish record_connection active_connections
  finish-IsConfined t =
      search (keeps_rules, record_event-IsConfined, close-IsConfined, IsConfined-stable) depth 8

module _ (host : Host) (conf : Configuration) where
  handle_client-IsConfined :
      (late : Bool) (w : World)
      → IsConfined (host.resolve conf.destination_directory) w (handle_client host conf late w).1
  unfolding handle_client active_connections
  handle_client-IsConfined late w =
      let base = host.resolve conf.destination_directory in
      let stable = IsConfined-stable base in
      let begun = record_event active_connection_inc w in
      let run = try_client host conf late begun.1 in
      let places = λ (a b : Value) (d : FilePath). build-eq host conf.destination_directory d a b in
      let k = Keeps-try_client (IsConfined-Allows base) host conf places late in
      stable.compose w begun.1 _ ((record_event-IsConfined base active_connection_inc).at w) (
        stable.compose begun.1 run.1 _ (k.at begun.1)
          ((finish-IsConfined base (outcome run.0)).at run.1))

  -- Whatever a client sends, admitted or not, no name outside the configured destination directory
  -- is created, removed or made to stand for something else by its connection.
  pub handle_client-confined :
      (late : Bool) (w : World) (p : FilePath)
      → relative_to (host.resolve conf.destination_directory) p ≡ none
      → Fs.lookup p (handle_client host conf late w).1.fs ≡ Fs.lookup p w.fs
  handle_client-confined late w p h =
      let base = host.resolve conf.destination_directory in
      let c = handle_client-IsConfined late w in
      sym (find-outside base p (handle_client host conf late w).1.fs.entries h)
      ∙ ap (Fs.find p) c.outside_same
      ∙ find-outside base p w.fs.entries h

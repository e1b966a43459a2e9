-- ===== src/Server/Mangled.antt =====
-- Which source directories share a destination: `build_destination_dir` of
-- server/logline_server/main.py.
use logline.Base.{
  ℕ, ◌≡◌, refl, sym, ap, ◌∙◌, ◌↔◌, false, Bool-cases, inl, inr, List, [], ◌∷◌, ◌++◌, append_assoc,
  ◌==◌, if◌then◌else◌, arith, Text, is_empty, contains, Lacks,
}
use logline.Base.Parts.{lstrip, rstrip, strip, parts, join}
use logline.Fs.{FilePath}
use logline.Fs.Join.{IsSegment, path_join, path_join-segment}
use logline.Host.{Host}
use logline.Server.World.{ok}
use logline.Server.Paths.{mangle, destination, destination_dir}
use logline.Server.Confinement.{chosen}
use logline.Server.Segments.{IsSafe, path_join-safe, mangle-Lacks}

-- `s.replace(c, d)` for two characters.
abbrev pub replace : ℕ → ℕ → Text → Text
replace c d [] = []
replace c d (x ∷ s) = (if x == c then d else x) ∷ replace c d s

join-cons : (d x : ℕ) (p : Text) (ps : List Text) → join d (x ∷ p) ps ≡ x ∷ join d p ps
unfolding join
join-cons d x p [] = refl
join-cons d x p (q ∷ ps) = refl

join-parts : (c d : ℕ) (s : Text) → (let (p, ps) = parts c s in join d p ps) ≡ replace c d s
unfolding parts join
join-parts c d [] = refl
join-parts c d (x ∷ s) = elim (Bool-cases (x == c)) [
  | inl same ↦ rw same (ap (λ t. d ∷ t) (join-parts c d s))
  | inr other ↦
      rw other (join-cons d x (parts c s).0 (parts c s).1 ∙ ap (λ t. x ∷ t) (join-parts c d s))
]

-- The mangled directory is the directory without its slashes at both ends, each other slash a `~`.
mangle-replace : (directory : Text) → mangle directory ≡ replace b'/' b'~' (strip b'/' directory)
unfolding mangle
mangle-replace directory = join-parts b'/' b'~' (strip b'/' directory)

replace_injective :
    (c d : ℕ) (s t : Text) → Lacks d s → Lacks d t → replace c d s ≡ replace c d t → s ≡ t
unfolding contains
replace_injective c d [] [] hs ht e = refl
replace_injective c d [] (y ∷ t) hs ht e = cc
replace_injective c d (x ∷ s) [] hs ht e = cc
replace_injective c d (x ∷ s) (y ∷ t) hs ht e = ground (arith, replace_injective c d s t)

Lacks-lstrip : (c d : ℕ) (s : Text) → Lacks d s → Lacks d (lstrip c s)
unfolding contains lstrip
Lacks-lstrip c d [] h = refl
Lacks-lstrip c d (x ∷ s) h = ground (arith, Lacks-lstrip c d s)

Lacks-rstrip : (c d : ℕ) (s : Text) → Lacks d s → Lacks d (rstrip c s)
unfolding contains rstrip
Lacks-rstrip c d [] h = refl
Lacks-rstrip c d (x ∷ s) h = ground (arith, Lacks-rstrip c d s)

Lacks-strip : (c d : ℕ) (s : Text) → Lacks d s → Lacks d (strip c s)
unfolding strip
Lacks-strip c d s h = Lacks-rstrip c d (lstrip c s) (Lacks-lstrip c d s h)

-- The names below the base: that of the host and, where there is one, that of the directory.
abbrev names : Text → Text → FilePath
names h [] = h ∷ []
names h (c ∷ m) = h ∷ (c ∷ m) ∷ []

destination-names :
    (base : FilePath) (h m : Text)
    → IsSafe h
    → (is_empty m ≡ false → IsSegment m)
    → destination base h m ≡ base ++ names h m
unfolding destination
destination-names base h [] safe seg = path_join-safe base h safe
destination-names base h (c ∷ m) safe seg =
    ap (λ p. path_join p (c ∷ m)) (path_join-safe base h safe)
    ∙ (path_join-segment (base ++ (h ∷ [])) (c ∷ m) (seg refl) ∙ append_assoc base (h ∷ []) _)

names_injective : (h h' m m' : Text) → names h m ≡ names h' m' → (h ≡ h') × (m ≡ m')
names_injective h h' [] [] e = (cc, refl)
names_injective h h' [] (c ∷ m') e = cc
names_injective h h' (c ∷ m) [] e = cc
names_injective h h' (c ∷ m) (d ∷ m') e = (cc, cc)

append_cancel : (base p q : FilePath) → base ++ p ≡ base ++ q → p ≡ q
append_cancel [] p q e = e
append_cancel (c ∷ base) p q e = append_cancel base p q (cc)

module _ (host : Host) (dest : FilePath) where
  accepted-names :
      (hostname directory : Text) (d : FilePath)
      → destination_dir host dest hostname directory ≡ ok d
      → d ≡ host.resolve dest ++ names hostname (mangle directory)
  accepted-names hostname directory d e =
      let k = chosen host dest d hostname directory e in
      k.placed
      ∙ destination-names (host.resolve dest) hostname (mangle directory) k.safe λ n. record {
        some_text = n;
        no_dot = k.no_dot;
        no_dots = k.no_dots;
        no_slash = mangle-Lacks directory;
      }

  -- Two source directories without a `~` in their names are mapped to one destination exactly when they
  -- are of one host and are the same up to the slashes at their ends.
  pub destination_dir-shared :
      (hostname hostname' directory directory' : Text) (d d' : FilePath)
      → destination_dir host dest hostname directory ≡ ok d
      → destination_dir host dest hostname' directory' ≡ ok d'
      → Lacks b'~' directory
      → Lacks b'~' directory'
      → (d ≡ d') ↔ ((hostname ≡ hostname') × (strip b'/' directory ≡ strip b'/' directory'))
  destination_dir-shared hostname hostname' directory directory' d d' e e' l l' = (
    (λ same.
        let (hosts, mangled) =
          names_injective hostname hostname' (mangle directory) (mangle directory') (
            append_cancel (host.resolve dest) _ _ (
              sym (accepted-names hostname directory d e)
              ∙ (same ∙ accepted-names hostname' directory' d' e'))) in
        (
          hosts,
          replace_injective b'/' b'~' (strip b'/' directory) (strip b'/' directory')
              (Lacks-strip b'/' b'~' directory l) (Lacks-strip b'/' b'~' directory' l')
              (sym (mangle-replace directory) ∙ (mangled ∙ mangle-replace directory')),
        )),
    (λ h.
        accepted-names hostname directory d e
        ∙ (ap (λ x. host.resolve dest ++ names x (mangle directory)) h.0
            ∙ (ap (λ x. host.resolve dest ++ names hostname' x)
                  (mangle-replace directory
                    ∙ (ap (replace b'/' b'~') h.1 ∙ sym (mangle-replace directory')))
                ∙ sym (accepted-names hostname' directory' d' e')))),
  )

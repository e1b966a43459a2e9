-- ===== src/Base/Parts.antt =====
-- `str.strip`, `str.split` and `str.join` with one character.
use logline.Base.{
  ℕ, ◌≡◌, refl, false, ◌&&◌, List, [], ◌∷◌, ◌++◌, ◌==◌, if◌then◌else◌, arith, Bool-cases, inl, inr,
  Text, is_empty, contains, Lacks, contains-append,
}

-- `s.lstrip(c)`, and `s.rstrip(c)`.
unfoldable pub lstrip : ℕ → Text → Text
lstrip c [] = []
lstrip c (d ∷ s) = let rest = lstrip c s in if d == c then rest else d ∷ s

unfoldable pub rstrip : ℕ → Text → Text
rstrip c [] = []
rstrip c (d ∷ s) = let rest = rstrip c s in if d == c && is_empty rest then [] else d ∷ rest

unfoldable pub strip : ℕ → Text → Text
unfolding lstrip rstrip
strip c s = rstrip c (lstrip c s)

-- `s.split(c)`: the part that the text begins with, and the parts behind it.
unfoldable pub parts : ℕ → Text → Text × List Text
parts c [] = ([], [])
parts c (d ∷ s) = let (p, ps) = parts c s in if d == c then ([], p ∷ ps) else (d ∷ p, ps)

-- `c.join(ps)` of a first part and the others.
unfoldable pub join : ℕ → Text → List Text → Text
join c p [] = p
join c p (q ∷ ps) = p ++ (c ∷ join c q ps)

abbrev AllLack : ℕ → List Text → Type 0
AllLack c [] = Unit {0}
AllLack c (p ∷ ps) = Lacks c p × AllLack c ps

-- No part holds the character.
parts-Lacks : (c : ℕ) (s : Text) → Lacks c (parts c s).0 × AllLack c (parts c s).1
unfolding parts contains
parts-Lacks c [] = (refl, tt)
parts-Lacks c (d ∷ s) = elim (Bool-cases (d == c)) [
  | inl same ↦ rw same (refl, parts-Lacks c s)
  | inr other ↦ rw (other, other) (parts-Lacks c s)
]

-- A text without the character is its one part.
pub parts_lacking : (c : ℕ) (s : Text) → Lacks c s → parts c s ≡ (s, [])
unfolding parts contains
parts_lacking c [] h = refl
parts_lacking c (d ∷ s) h = ground (arith, parts_lacking c s)

join-Lacks :
    (c d : ℕ) (p : Text) (ps : List Text)
    → (d == c) ≡ false
    → Lacks c p
    → AllLack c ps
    → Lacks c (join d p ps)
unfolding join contains
join-Lacks c d p [] n h hs = h
join-Lacks c d p (q ∷ ps) n h hs =
    rw (contains-append c p (d ∷ join d q ps)) (ground (arith, join-Lacks c d q ps n hs.0 hs.1))

-- Joined with another character, the parts lack the one that parted them.
pub join-parts-Lacks :
    (c d : ℕ) (s : Text) → (d == c) ≡ false → Lacks c (let (p, ps) = parts c s in join d p ps)
join-parts-Lacks c d s n =
    join-Lacks c d (parts c s).0 (parts c s).1 n (parts-Lacks c s).0 (parts-Lacks c s).1

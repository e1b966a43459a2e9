-- ===== src/Base/Words.antt =====
-- Python's `s.split()`: the words of a text between runs of white space.
use logline.Base.{
  ℕ, ◌≡◌, refl, Bool, true, ◌&&◌, ◌||◌, not, List, [], ◌∷◌, ◌++◌, arith, leb, ◌==◌, if◌then◌else◌,
  all, Text, codes,
}

-- `str.isspace` on ASCII.
unfoldable pub is_space : ℕ → Bool
is_space c = c == 32 || (leb 9 c && leb c 13) || (leb 28 c && leb c 31)

push : Text → List Text → List Text
push [] ws = ws
push (c ∷ w) ws = (c ∷ w) ∷ ws

-- The word that the text begins with, and the words behind it.
spans : Text → Text × List Text
spans [] = ([], [])
spans (c ∷ s) = let (w, ws) = spans s in if is_space c then ([], push w ws) else (c ∷ w, ws)

unfoldable pub split : Text → List Text
unfolding push spans is_space
split s = let (w, ws) = spans s in push w ws

-- A word has no white space in it.
abbrev pub IsWord : Text → Type 0
IsWord w = all (λ c. not (is_space c)) w ≡ true

spans-word :
    (w rest : Text) (c : ℕ)
    → IsWord w
    → is_space c ≡ true
    → spans (w ++ (c ∷ rest)) ≡ (w, split rest)
unfolding spans split
spans-word [] rest c h e = ground arith
spans-word (d ∷ w) rest c h e = ground (arith, spans-word w rest c)

-- The first word of a text that begins with a word and white space.
pub split-word :
    (c d : ℕ) (w rest : Text)
    → IsWord (c ∷ w)
    → is_space d ≡ true
    → split ((c ∷ w) ++ (d ∷ rest)) ≡ (c ∷ w) ∷ split rest
split-word c d w rest h e =
    let spanned : spans ((c ∷ w) ++ (d ∷ rest)) ≡ (c ∷ w, split rest) =
      spans-word (c ∷ w) rest d h e in
    unfold split in rw spanned

split-line : split (codes "data 37  44\n") ≡ codes "data" ∷ codes "37" ∷ codes "44" ∷ []
unfolding split
split-line = refl

-- ===== src/Wire/Lines.antt =====
-- Command lines: the words of a line come back from the split, and the line from the stream.
use logline.Base.{
  ℕ, ◌<◌, ◌≡◌, refl, Bool, true, ◌&&◌, not, [], ◌∷◌, ◌++◌, arith, ltb, ◌==◌, length, all, Bytes,
  Text, some,
}
use logline.Base.Decimal.{is_digit, format, all-format}
use logline.Base.Encoding.{ascii}
use logline.Base.Words.{is_space, split, split-word}
use logline.Server.Stream.{split_line, line_length}

-- A letter of a command line: ASCII, and no white space.
unfoldable pub is_letter : ℕ → Bool
is_letter c = ltb c 128 && not (is_space c)

module _ (p q : ℕ → Bool) (h : (c : ℕ) → p c ≡ true → q c ≡ true) where
  pub all_weaken : (s : Text) → all p s ≡ true → all q s ≡ true
  all_weaken [] a = refl
  all_weaken (c ∷ s) a = ground (arith, h c, all_weaken s)

pub all-append :
    (p : ℕ → Bool) (s t : Text) → all p s ≡ true → all p t ≡ true → all p (s ++ t) ≡ true
all-append p [] t a b = b
all-append p (c ∷ s) t a b = ground (arith, all-append p s t)

digit_letter : (c : ℕ) → is_digit c ≡ true → is_letter c ≡ true
unfolding is_digit is_letter is_space
digit_letter c h = ground arith

letter_word : (c : ℕ) → is_letter c ≡ true → not (is_space c) ≡ true
unfolding is_letter is_space
letter_word c h = ground arith

pub letter_ascii : (c : ℕ) → is_letter c ≡ true → ltb c 128 ≡ true
unfolding is_letter is_space
letter_ascii c h = ground arith

pub letters-format : (n : ℕ) → all is_letter (format n) ≡ true
letters-format n = all_weaken is_digit is_letter digit_letter (format n) (all-format n)

-- A character that may stand in a line before its end.
pub is_inline : ℕ → Bool
is_inline c = ltb c 128 && not (c == 10)

letter_inline : (c : ℕ) → is_letter c ≡ true → is_inline c ≡ true
unfolding is_letter is_inline is_space
letter_inline c h = ground arith

pub inline : (s : Text) → all is_letter s ≡ true → all is_inline s ≡ true
inline s h = all_weaken is_letter is_inline letter_inline s h

-- The stream gives the line with its newline, and what follows it.
pub split_line-append :
    (l rest : Bytes)
    → all is_inline l ≡ true
    → split_line (l ++ (10 ∷ rest)) ≡ (l ++ (10 ∷ []), rest)
unfolding split_line is_inline
split_line-append [] rest h = refl
split_line-append (c ∷ l) rest h = ground (arith, split_line-append l rest)

pub line_length-append :
    (l rest : Bytes) → all is_inline l ≡ true → line_length (l ++ (10 ∷ rest)) ≡ length l
unfolding line_length is_inline
line_length-append [] rest h = refl
line_length-append (c ∷ l) rest h = ground (arith, line_length-append l rest)

inline_ascii : (c : ℕ) → is_inline c ≡ true → ltb c 128 ≡ true
unfolding is_inline
inline_ascii c h = ground arith

pub ascii-line :
    (l : Bytes) → all is_inline l ≡ true → ascii (l ++ (10 ∷ [])) ≡ some (l ++ (10 ∷ []))
unfolding ascii
ascii-line l h =
    let a : all (λ c. ltb c 128) (l ++ (10 ∷ [])) ≡ true =
      all-append _ l (10 ∷ []) (all_weaken is_inline _ inline_ascii l h) refl in
    rw a

-- A word that is not empty is the first of the words.
pub split-letters :
    (s rest : Text) (d : ℕ)
    → 0 < length s
    → all is_letter s ≡ true
    → is_space d ≡ true
    → split (s ++ (d ∷ rest)) ≡ s ∷ split rest
split-letters [] rest d l h e = absurd (omega arith)
split-letters (c ∷ w) rest d l h e =
    split-word c d w rest (all_weaken is_letter _ letter_word (c ∷ w) h) e

pub inline-append :
    (s t : Text)
    → all is_letter s ≡ true
    → all is_inline t ≡ true
    → all is_inline (s ++ (32 ∷ t)) ≡ true
unfolding is_inline
inline-append s t hs ht = all-append is_inline s (32 ∷ t) (inline s hs) (space_inline t ht)
  where
    space_inline : (t : Text) → all is_inline t ≡ true → all is_inline (32 ∷ t) ≡ true
    space_inline t h = h

pub space_32 : is_space 32 ≡ true
unfolding is_space
space_32 = refl

pub space_10 : is_space 10 ≡ true
unfolding is_space
space_10 = refl

pub split-nil : split [] ≡ []
unfolding split
split-nil = refl

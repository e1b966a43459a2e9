-- ===== src/Agent/Masked.antt =====
-- The masking of tokens in agent/logline_agent/client.py.
use logline.Base.{
  ℕ, suc, ◌-◌, ◌≤◌, ◌<◌, ◌≡◌, refl, ap, ◌∙◌, true, false, Option, none, some, [], ◌∷◌, ◌++◌,
  append_assoc, arith, leb, ◌==◌, length, length-append, take, drop, Text, contains, codes,
}
use logline.Agent.Markers.{after}
use logline.Agent.Secrets.{
  spaces, to_quote, masked, key, after_spaces, masked_token, match_secret, sub, obfuscate_secrets,
}
use logline.Agent.Rounds.{sub-enough}

after-append : (p s : Text) → after p (p ++ s) ≡ some s
unfolding after
after-append [] s = refl
after-append (c ∷ p) s = let here : (c == c) ≡ true = ground arith in rw here (after-append p s)

to_quote-append : (t r : Text) → contains b'"' t ≡ false → to_quote (t ++ b'"' ∷ r) ≡ some (t, r)
unfolding to_quote contains
to_quote-append [] r h = refl
to_quote-append (c ∷ t) r h =
    let other : (c == b'"') ≡ false = ground arith in
    let free : contains b'"' t ≡ false = ground arith in rw (other, to_quote-append t r free) refl

-- A token as `json.dumps` writes it.
abbrev pub secret : Text → Text → Text
secret token rest = key ++ (codes " \"" ++ (token ++ b'"' ∷ rest))

abbrev pub mask : Text → Text
mask token = take 2 token ++ (codes "..." ++ drop (length token - 2) token)

match_secret-steps :
    (s r w r' t rest m : Text)
    → after key s ≡ some r
    → after_spaces (spaces r) ≡ some (w, r')
    → to_quote r' ≡ some (t, rest)
    → masked t ≡ some m
    → match_secret s ≡ some ((key ++ (w ++ codes "\"")) ++ (m ++ codes "\""), rest)
unfolding match_secret masked_token
match_secret-steps s r w r' t rest m a b c d =
    of_key (after key s) a
    ∙ (of_spaces (after_spaces (spaces r)) b ∙ (ap (masked_token head) c ∙ of_mask (masked t) d))
  where
    head : Text
    head = key ++ (w ++ codes "\"")

    following : Option (Text × Text) → Option (Text × Text)
    following o = elim o [
      | none ↦ none
      | some (w, r') ↦ masked_token (key ++ (w ++ codes "\"")) (to_quote r')
    ]

    of_key :
        (o : Option Text)
        → o ≡ some r
        → (elim o [ none ↦ none | some r ↦ following (after_spaces (spaces r)) ])
          ≡ following (after_spaces (spaces r))
    of_key none e = absurd (cc)
    of_key (some r₁) e = let same : r₁ ≡ r = cc in rw same refl

    of_spaces :
        (o : Option (Text × Text))
        → o ≡ some (w, r')
        → following o ≡ masked_token head (to_quote r')
    of_spaces none e = absurd (cc)
    of_spaces (some (w₁, r₁)) e =
        let same_w : w₁ ≡ w = cc in let same_r : r₁ ≡ r' = cc in rw (same_w, same_r) refl

    of_mask :
        (o : Option Text)
        → o ≡ some m
        → ◌≡◌ {A = Option (Text × Text)}
            (elim o [ none ↦ none | some m ↦ some (head ++ (m ++ codes "\""), rest) ])
            (some (head ++ (m ++ codes "\""), rest))
    of_mask none e = absurd (cc)
    of_mask (some m₁) e = let same : m₁ ≡ m = cc in rw same refl

match_secret-secret :
    (t r : Text)
    → contains b'"' t ≡ false
    → 5 ≤ length t
    → match_secret (secret t r) ≡ some (key ++ (codes " \"" ++ (mask t ++ codes "\"")), r)
unfolding spaces after_spaces masked
match_secret-secret t r h l =
    let long : leb 5 (length t) ≡ true = ground arith in
    match_secret-steps (secret t r) (codes " \"" ++ (t ++ b'"' ∷ r)) (codes " ") (t ++ b'"' ∷ r) t r
      (mask t) (after-append key (codes " \"" ++ (t ++ b'"' ∷ r))) refl (to_quote-append t r h)
      (rw long refl)

-- No match begins within a text that stands before another.
abbrev pub Skips : Text → Text → Type 0
Skips s [] = Unit {0}
Skips s (c ∷ p) = (match_secret (c ∷ (p ++ s)) ≡ none) × Skips s p

obfuscate-skip :
    (c : ℕ) (s : Text)
    → match_secret (c ∷ s) ≡ none
    → obfuscate_secrets (c ∷ s) ≡ c ∷ obfuscate_secrets s
unfolding obfuscate_secrets sub
obfuscate-skip c s e = go (match_secret (c ∷ s)) e
  where
    go :
        (o : Option (Text × Text))
        → o ≡ none
        → (elim o [ none ↦ c ∷ sub (suc (length s)) s | some (m, r) ↦ m ++ sub (suc (length s)) r ])
          ≡ c ∷ sub (suc (length s)) s
    go none e = refl
    go (some x) e = absurd (cc)

obfuscate-match :
    (c : ℕ) (s m r : Text)
    → match_secret (c ∷ s) ≡ some (m, r)
    → length r < suc (length s)
    → obfuscate_secrets (c ∷ s) ≡ m ++ obfuscate_secrets r
unfolding obfuscate_secrets sub
obfuscate-match c s m r e h =
    go (match_secret (c ∷ s)) e
    ∙ ap (λ t. m ++ t) (sub-enough (suc (length s)) (suc (length r)) r h (omega arith))
  where
    go :
        (o : Option (Text × Text))
        → o ≡ some (m, r)
        → (elim o [
          | none ↦ c ∷ sub (suc (length s)) s
          | some (m', r') ↦ m' ++ sub (suc (length s)) r'
        ])
          ≡ m ++ sub (suc (length s)) r
    go none e = absurd (cc)
    go (some (m', r')) e =
        let same_m : m' ≡ m = cc in let same_r : r' ≡ r = cc in rw (same_m, same_r) refl

obfuscate-prefix : (p s : Text) → Skips s p → obfuscate_secrets (p ++ s) ≡ p ++ obfuscate_secrets s
obfuscate-prefix [] s k = refl
obfuscate-prefix (c ∷ p) s (here, later) =
    obfuscate-skip c (p ++ s) here ∙ ap (λ t. c ∷ t) (obfuscate-prefix p s later)

-- Of a token of five characters or more, without a quote, all but the first and the last two are
-- replaced in what is logged, and what follows it is treated alike: where no match begins before it.
pub obfuscate_secrets-secret :
    (p token rest : Text)
    → Skips (secret token rest) p
    → contains b'"' token ≡ false
    → 5 ≤ length token
    → obfuscate_secrets (p ++ secret token rest) ≡ p ++ secret (mask token) (obfuscate_secrets rest)
obfuscate_secrets-secret p token rest k h l =
    obfuscate-prefix p (secret token rest) k
    ∙ ap (λ t. p ++ t)
        (obfuscate-match _ _ _ rest (match_secret-secret token rest h l)
            (omega (arith, length-append token (b'"' ∷ rest)))
          ∙ ap (λ t. key ++ (codes " \"" ++ t))
              (append_assoc (mask token) (codes "\"") (obfuscate_secrets rest)))

-- ===== src/Agent/Rounds.antt =====
-- `re.sub` in `obfuscate_secrets` of agent/logline_agent/client.py: its matches and its rounds.
use logline.Base.{
  ℕ, zero, suc, ◌≤◌, ◌<◌, ◌≡◌, refl, ap, Option, none, some, [], ◌∷◌, ◌++◌, arith, ◌==◌, length,
  Text, codes, Bool-cases, inl, inr,
}
use logline.Agent.Markers.{after}
use logline.Agent.Secrets.{
  spaces, to_quote, masked, key, after_spaces, masked_token, match_secret, sub,
}

-- What follows a match is shorter than the text.
abbrev Leaves : ℕ → Option (Text × Text) → Type 0
Leaves n none = Unit {0}
Leaves n (some (t, r)) = length r < n

abbrev LeavesAtMost : ℕ → Option Text → Type 0
LeavesAtMost n none = Unit {0}
LeavesAtMost n (some r) = length r ≤ n

LeavesAtMost-weaken : (n m : ℕ) (o : Option Text) → n ≤ m → LeavesAtMost n o → LeavesAtMost m o
LeavesAtMost-weaken n m none h l = tt
LeavesAtMost-weaken n m (some r) h l = omega (arith, l)

Leaves-weaken : (n m : ℕ) (o : Option (Text × Text)) → n ≤ m → Leaves n o → Leaves m o
Leaves-weaken n m none h l = tt
Leaves-weaken n m (some (t, r)) h l = omega (arith, l)

after-shorter : (p s : Text) → LeavesAtMost (length s) (after p s)
unfolding after
after-shorter [] s = omega arith
after-shorter (c ∷ p) [] = tt
after-shorter (c ∷ p) (d ∷ s) = elim (Bool-cases (c == d)) [
  | inl same ↦
      rw same (LeavesAtMost-weaken (length s) _ (after p s) (omega arith) (after-shorter p s))
  | inr other ↦ rw other tt
]

spaces-shorter : (s : Text) → length (spaces s).1 ≤ length s
unfolding spaces
spaces-shorter [] = omega arith
spaces-shorter (c ∷ s) = ground (arith, spaces-shorter s)

prolonged :
    (n c : ℕ) (o : Option (Text × Text))
    → Leaves n o
    → Leaves (suc n) (elim o [ none ↦ none | some (t, r) ↦ some (c ∷ t, r) ])
prolonged n c none l = tt
prolonged n c (some (t, r)) l = omega (arith, l)

to_quote-shorter : (s : Text) → Leaves (length s) (to_quote s)
unfolding to_quote
to_quote-shorter [] = tt
to_quote-shorter (c ∷ s) = elim (Bool-cases (c == b'"')) [
  | inl quote ↦ rw quote (omega arith)
  | inr other ↦ rw other (prolonged (length s) c (to_quote s) (to_quote-shorter s))
]

after_spaces-shorter : (w r : Text) → Leaves (suc (length r)) (after_spaces (w, r))
unfolding after_spaces
after_spaces-shorter [] r = tt
after_spaces-shorter (c ∷ w) [] = tt
after_spaces-shorter (c ∷ w) (d ∷ r) = elim (Bool-cases (d == b'"')) [
  | inl quote ↦ rw quote (omega arith)
  | inr other ↦ rw other tt
]

masked_token-shorter :
    (n : ℕ) (head : Text) (o : Option (Text × Text)) → Leaves n o → Leaves n (masked_token head o)
unfolding masked_token
masked_token-shorter n head none l = tt
masked_token-shorter n head (some (t, r)) l = of_mask (masked t)
  where
    of_mask :
        (o : Option Text)
        → Leaves n (elim o [ none ↦ none | some m ↦ some (head ++ (m ++ codes "\""), r) ])
    of_mask none = tt
    of_mask (some m) = l

match_secret-shorter : (s : Text) → Leaves (length s) (match_secret s)
unfolding match_secret
match_secret-shorter s = found (after key s) (after-shorter key s)
  where
    quoted :
        (n : ℕ) (o : Option (Text × Text))
        → Leaves (suc n) o
        → Leaves n (elim o [
          | none ↦ none
          | some (w, r') ↦ masked_token (key ++ (w ++ codes "\"")) (to_quote r')
        ])
    quoted n none l = tt
    quoted n (some (w, r')) l =
        masked_token-shorter n (key ++ (w ++ codes "\"")) (to_quote r')
          (Leaves-weaken (length r') n (to_quote r') (omega (arith, l)) (to_quote-shorter r'))

    found :
        (o : Option Text)
        → LeavesAtMost (length s) o
        → Leaves (length s) (elim o [
          | none ↦ none
          | some r ↦ elim (after_spaces (spaces r)) [
            | none ↦ none
            | some (w, r') ↦ masked_token (key ++ (w ++ codes "\"")) (to_quote r')
          ]
        ])
    found none l = tt
    found (some r) l = quoted (length s) (after_spaces (spaces r)) (
        Leaves-weaken (suc (length (spaces r).1)) (suc (length s)) (after_spaces (spaces r))
          (omega (arith, l, spaces-shorter r)) (after_spaces-shorter (spaces r).0 (spaces r).1))

-- Rounds that are more than the characters give the same text.
pub sub-enough : (n k : ℕ) (s : Text) → length s < n → length s < k → sub n s ≡ sub k s
unfolding sub
sub-enough zero k s h l = absurd (omega arith)
sub-enough (suc n) zero s h l = absurd (omega arith)
sub-enough (suc n) (suc k) [] h l = refl
sub-enough (suc n) (suc k) (c ∷ s) h l =
    found (match_secret (c ∷ s)) (match_secret-shorter (c ∷ s))
      (λ r f. sub-enough n k r (omega (arith, f)) (omega (arith, f)))
  where
    found :
        (o : Option (Text × Text))
        → Leaves (length (c ∷ s)) o
        → ((r : Text) → length r < length (c ∷ s) → sub n r ≡ sub k r)
        → (elim o [ none ↦ c ∷ sub n s | some (m, r) ↦ m ++ sub n r ])
          ≡ (elim o [ none ↦ c ∷ sub k s | some (m, r) ↦ m ++ sub k r ])
    found none f e = ap (λ t. c ∷ t) (e s (omega arith))
    found (some (m, r)) f e = ap (λ t. m ++ t) (e r f)

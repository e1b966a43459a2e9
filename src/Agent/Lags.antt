-- ===== src/Agent/Lags.antt =====
-- What the gauge of agent/logline_agent/telemetry.py observes.
use logline.Base.{
  ◌≤◌, ◌⊎◌, Option, none, ap, ℕ, ◌≡◌, refl, sym, ◌∙◌, true, false, ◌||◌, some, List, [], ◌∷◌, ◌==◌,
  leb, any, all, arith, Bool-cases, inl, inr,
}
use logline.Agent.Telemetry.{Telemetry, known, largest, observe, observe_shipping_lag}

record IsLargest (ls : List ℕ) (n : ℕ) : Type 0 where
  found : any (λ l. l == n) ls ≡ true
  bound : all (λ l. leb l n) ls ≡ true

grows : (lag : ℕ) (ls : List ℕ) → leb lag (largest lag ls) ≡ true
unfolding largest
grows lag [] = ground arith
grows lag (l ∷ ls) = elim (Bool-cases (leb lag l)) [
  | inl below ↦ rw below (ground (arith, grows l ls))
  | inr above ↦ rw above (grows lag ls)
]

rises : (lag l : ℕ) (ls : List ℕ) → leb lag l ≡ true → largest lag (l ∷ ls) ≡ largest l ls
unfolding largest
rises lag l ls h = rw h refl

stays : (lag l : ℕ) (ls : List ℕ) → leb lag l ≡ false → largest lag (l ∷ ls) ≡ largest lag ls
unfolding largest
stays lag l ls h = rw h refl

-- For the largest `m` of a lag and others.
module _ (m : ℕ) where
  lag-bound : (lag : ℕ) (ls : List ℕ) → largest lag ls ≡ m → leb lag m ≡ true
  lag-bound lag ls e = rw (← e) (grows lag ls)

  bounds : (lag : ℕ) (ls : List ℕ) → largest lag ls ≡ m → all (λ l. leb l m) ls ≡ true
  bounds lag [] e = refl
  bounds lag (l ∷ ls) e = elim (Bool-cases (leb lag l)) [
    | inl below ↦ let e' = sym (rises lag l ls below) ∙ e in rw (lag-bound l ls e') (bounds l ls e')
    | inr above ↦
        let e' = sym (stays lag l ls above) ∙ e in
        ground (arith, lag-bound lag ls e', bounds lag ls e')
  ]

  is_there :
      (lag : ℕ) (ls : List ℕ) → largest lag ls ≡ m → ((lag == m) || any (λ l. l == m) ls) ≡ true
  unfolding largest
  is_there lag [] e = ground arith
  is_there lag (l ∷ ls) e = elim (Bool-cases (leb lag l)) [
    | inl below ↦ let e' = sym (rises lag l ls below) ∙ e in ground (arith, is_there l ls e')
    | inr above ↦ let e' = sym (stays lag l ls above) ∙ e in ground (arith, is_there lag ls e')
  ]

observe-IsLargest : (ls : List ℕ) (n : ℕ) → observe ls ≡ some n → IsLargest ls n
unfolding observe
observe-IsLargest [] n e = absurd (cc)
observe-IsLargest (lag ∷ ls) n e =
    let top : largest lag ls ≡ n = cc in
    record {
      found = is_there n lag ls top;
      bound = rw (lag-bound n lag ls top) (bounds n lag ls top);
    }

-- A source reports the lag.
abbrev pub Reports : ℕ → List (ℕ × Option ℕ) → Type 0
Reports n [] = ⊥
Reports n ((k, lag) ∷ m) = (lag ≡ some n) ⊎ Reports n m

-- What is observed, by what the sources report: nothing where none of them reports, and else a lag
-- that one of them reports, which none exceeds.
abbrev pub Observes : List (ℕ × Option ℕ) → Option ℕ → Type 0
Observes sources none = (l : ℕ) → ¬ Reports l sources
Observes sources (some n) = Reports n sources × ((l : ℕ) → Reports l sources → l ≤ n)

known-Reports : (m : List (ℕ × Option ℕ)) (l : ℕ) → Reports l m → any (λ x. x == l) (known m) ≡ true
unfolding known
known-Reports [] l h = absurd h
known-Reports ((k, none) ∷ m) l (inl e) = absurd (cc)
known-Reports ((k, none) ∷ m) l (inr h) = known-Reports m l h
known-Reports ((k, some lag) ∷ m) l (inl e) = let same : lag ≡ l = cc in ground arith
known-Reports ((k, some lag) ∷ m) l (inr h) = ground (arith, known-Reports m l h)

Reports-known : (m : List (ℕ × Option ℕ)) (l : ℕ) → any (λ x. x == l) (known m) ≡ true → Reports l m
unfolding known
Reports-known [] l h = absurd (cc)
Reports-known ((k, none) ∷ m) l h = inr (Reports-known m l h)
Reports-known ((k, some lag) ∷ m) l h = elim (Bool-cases (lag == l)) [
  | inl same ↦ inl (ap some (ground arith))
  | inr other ↦ inr (Reports-known m l (ground arith))
]

all-any :
    (ls : List ℕ) (n l : ℕ) → all (λ x. leb x n) ls ≡ true → any (λ x. x == l) ls ≡ true → l ≤ n
all-any [] n l h e = absurd (cc)
all-any (x ∷ ls) n l h e = elim (Bool-cases (x == l)) [
  | inl same ↦ ground arith
  | inr other ↦ all-any ls n l (ground arith) (ground arith)
]

observed : (m : List (ℕ × Option ℕ)) (ls : List ℕ) → known m ≡ ls → Observes m (observe ls)
unfolding observe
observed m [] e = λ l h. let there = known-Reports m l h in absurd (cc)
observed m (lag ∷ ls) e =
    let n = largest lag ls in
    let top = observe-IsLargest (lag ∷ ls) n refl in
    (
      Reports-known m n (ap (any (λ x. x == n)) e ∙ top.found),
      λ l h.
          all-any (lag ∷ ls) n l top.bound (sym (ap (any (λ x. x == l)) e) ∙ known-Reports m l h),
    )

-- The gauge observes nothing exactly where no segment reports a lag, and else a lag that one of them
-- reports, such that none reports a larger one.
pub observe_shipping_lag-Observes :
    (t : Telemetry) → Observes t.lag_sources (observe_shipping_lag t)
unfolding observe_shipping_lag
observe_shipping_lag-Observes t = observed t.lag_sources (known t.lag_sources) refl

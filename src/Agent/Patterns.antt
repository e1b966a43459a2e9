-- ===== src/Agent/Patterns.antt =====
-- The names that the two patterns of agent/logline_agent/marker_watcher.py match.
pub mod Done
mod Tests
use logline.Base.{
  ℕ, zero, suc, ◌≡◌, refl, sym, ap, ◌∙◌, ◌↔◌, ◌⊎◌, inl, inr, Bool, true, false, ◌||◌, ◌&&◌,
  Bool-cases, Option, none, some, List, [], ◌∷◌, ◌++◌, append_assoc, append-nil, ◌==◌,
  if◌then◌else◌, length, all, arith, Text, text_eq, text_eq_iff, is_empty, codes,
}
use logline.Host.{Host}
use logline.Agent.Markers.{
  after, span, ◌>>=◌, match_iso, is_hex, at_end, match_waiting, match_ending, match_done,
}

-- A chain of matches that gives something has given something at its first step.
pub bind-some :
    {A B : Type 0} (m : Option A) (f : A → Option B) (b : B)
    → (m >>= f) ≡ some b
    → (a : A) × (m ≡ some a) × (f a ≡ some b)
bind-some none f b h = absurd (cc)
bind-some (some a) f b h = (a, refl, h)

pub after-append : (p s : Text) → after p (p ++ s) ≡ some s
unfolding after
after-append [] s = refl
after-append (c ∷ p) s = ground (arith, after-append p s)

pub after-some : (p t s : Text) → after p t ≡ some s → t ≡ p ++ s
unfolding after
after-some [] t s h = cc
after-some (c ∷ p) [] s h = cc
after-some (c ∷ p) (d ∷ t) s h = ground (arith, after-some p t s)

-- So many characters of a class.
pub record IsSpan (n : ℕ) (p : ℕ → Bool) (s : Text) : Type 0 where
  pub count : length s ≡ n
  pub class : all p s ≡ true

pub span-append :
    (n : ℕ) (p : ℕ → Bool) (a b : Text)
    → length a ≡ n
    → all p a ≡ true
    → span n p (a ++ b) ≡ some (a, b)
unfolding span
span-append zero p [] b e h = refl
span-append zero p (c ∷ a) b e h = absurd (omega arith)
span-append (suc n) p [] b e h = absurd (omega arith)
span-append (suc n) p (c ∷ a) b e h = ground (arith, span-append n p a b)

abbrev pub Spanned : ℕ → (ℕ → Bool) → Text → Text → Text → Type 0
Spanned n p t a b = (t ≡ a ++ b) × (length a ≡ n) × (all p a ≡ true)

span-step :
    (n : ℕ) (p : ℕ → Bool) (c : ℕ) (t a b : Text) (o : Option (Text × Text))
    → ((a' b' : Text) → o ≡ some (a', b') → Spanned n p t a' b')
    → let more : Option (Text × Text) = elim o [
      | none ↦ none
      | some (a', b') ↦ some (c ∷ a', b')
    ] in
      (if p c then more else none) ≡ some (a, b) → Spanned (suc n) p (c ∷ t) a b
span-step n p c t a b none ih h = absurd (ground arith)
span-step n p c t a b (some (a', b')) ih h = ground (arith, ih a' b' refl)

pub span-some : (n : ℕ) (p : ℕ → Bool) (t a b : Text) → span n p t ≡ some (a, b) → Spanned n p t a b
unfolding span
span-some zero p t a b h = ground arith
span-some (suc n) p [] a b h = absurd (cc)
span-some (suc n) p (c ∷ t) a b h =
    span-step n p c t a b (span n p t) (λ a' b' e. span-some n p t a' b' e) h

-- `\d{8}T\d{6}Z`
pub record IsIso (host : Host) (iso : Text) : Type 0 where
  pub date : Text
  pub time : Text
  pub days : IsSpan 8 host.is_decimal date
  pub seconds : IsSpan 6 host.is_decimal time
  pub whole : iso ≡ date ++ (b'T' ∷ (time ++ codes "Z"))

abbrev iso_of : Text → Text → Text
iso_of date time = date ++ (b'T' ∷ (time ++ codes "Z"))

iso_of-append : (date time s : Text) → iso_of date time ++ s ≡ date ++ (b'T' ∷ (time ++ (b'Z' ∷ s)))
iso_of-append date time s = simp append_assoc

pub match_iso-append :
    (host : Host) (iso s : Text) → IsIso host iso → match_iso host (iso ++ s) ≡ some (iso, s)
unfolding match_iso after
match_iso-append host iso s h =
    let shape : iso ++ s ≡ h.date ++ (b'T' ∷ (h.time ++ (b'Z' ∷ s))) =
      ap (λ x. x ++ s) h.whole ∙ iso_of-append h.date h.time s in
    ap (match_iso host) shape
    ∙ simp (
      span-append 8 host.is_decimal h.date (b'T' ∷ (h.time ++ (b'Z' ∷ s))) h.days.count
          h.days.class,
      span-append 6 host.is_decimal h.time (b'Z' ∷ s) h.seconds.count h.seconds.class,
      h.whole,
    )

pub match_iso-some :
    (host : Host) (t iso s : Text)
    → match_iso host t ≡ some (iso, s)
    → (t ≡ iso ++ s) × IsIso host iso
unfolding match_iso
match_iso-some host t iso s h =
    let (date, e, h₁) = bind-some (span 8 host.is_decimal t) _ (iso, s) h in
    let (rest, f, h₂) = bind-some (after (codes "T") date.1) _ (iso, s) h₁ in
    let (time, g, h₃) = bind-some (span 6 host.is_decimal rest) _ (iso, s) h₂ in
    let (last, k, h₄) = bind-some (after (codes "Z") time.1) _ (iso, s) h₃ in
    let (days, count, class) = span-some 8 host.is_decimal t date.0 date.1 e in
    let (seconds, count', class') = span-some 6 host.is_decimal rest time.0 time.1 g in
    let found : iso_of date.0 time.0 ≡ iso = cc in
    let left : last ≡ s = cc in
    (
      days
          ∙ (ap (λ x. date.0 ++ x) (after-some (codes "T") date.1 rest f)
              ∙ (ap (λ x. date.0 ++ (b'T' ∷ x)) seconds
                  ∙ (ap (λ x. date.0 ++ (b'T' ∷ (time.0 ++ x)))
                        (after-some (codes "Z") time.1 last k)
                      ∙ (sym (iso_of-append date.0 time.0 last)
                          ∙ (ap (λ x. x ++ last) found ∙ ap (λ x. iso ++ x) left))))),
      record {
        date = date.0;
        time = time.0;
        days = record { count = count; class = class };
        seconds = record { count = count'; class = class' };
        whole = sym found;
      },
    )

-- `$`
at_end_iff : (s : Text) → (at_end s ≡ true) ↔ ((s ≡ []) ⊎ (s ≡ codes "\n"))
unfolding at_end
at_end_iff [] = (λ h. inl refl, λ h. refl)
at_end_iff (c ∷ s) = ground (arith, text_eq_iff (c ∷ s) (codes "\n"))

abbrev pub Ended : Text → Text → Type 0
Ended name s = (name ≡ s) ⊎ (name ≡ s ++ codes "\n")

pub ended : (name s last : Text) → name ≡ s ++ last → at_end last ≡ true → Ended name s
ended name s last e h = elim ((at_end_iff last).0 h) [
  | inl nothing ↦ inl (e ∙ (ap (λ x. s ++ x) nothing ∙ append-nil s))
  | inr newline ↦ inr (e ∙ ap (λ x. s ++ x) newline)
]

pub if-some :
    {A : Type 0} (b : Bool) (x y : A) → (if b then some x else none) ≡ some y → (b ≡ true) × (x ≡ y)
if-some true x y h = (refl, cc)
if-some false x y h = cc

-- The name of a marker that waits.
abbrev pub waiting_name : Text → Text → Text
waiting_name basename iso = (basename ++ codes ".") ++ (iso ++ codes ".lh-logrotate-waiting")

module _ (host : Host) (basename name iso : Text) where
  match_waiting-some :
      match_waiting host basename name ≡ some iso
      → IsIso host iso × Ended name (waiting_name basename iso)
  unfolding match_waiting
  match_waiting-some h =
      let (rest, e, h₁) = bind-some (after (basename ++ codes ".") name) _ iso h in
      let (found, f, h₂) = bind-some (match_iso host rest) _ iso h₁ in
      let (last, g, h₃) = bind-some (after (codes ".lh-logrotate-waiting") found.1) _ iso h₂ in
      let (at, same) = if-some (at_end last) found.0 iso h₃ in
      let (split, is_iso) = match_iso-some host rest found.0 found.1 f in
      let whole : name ≡ waiting_name basename found.0 ++ last =
        after-some (basename ++ codes ".") name rest e
        ∙ (ap (λ x. (basename ++ codes ".") ++ x)
              (split ∙ ap (λ x. found.0 ++ x) (after-some (codes ".lh-logrotate-waiting") _ last g))
            ∙ simp append_assoc) in
      rw (← same) (is_iso, ended name (waiting_name basename found.0) last whole at)

  match_waiting-ended :
      (last : Text)
      → IsIso host iso
      → at_end last ≡ true
      → match_waiting host basename (waiting_name basename iso ++ last) ≡ some iso
  unfolding match_waiting after
  match_waiting-ended last h e =
      let behind : Text = codes ".lh-logrotate-waiting" ++ last in
      let shape : waiting_name basename iso ++ last ≡ (basename ++ codes ".") ++ (iso ++ behind) =
        simp append_assoc in
      ap (match_waiting host basename) shape
      ∙ simp (
        after-append (basename ++ codes ".") (iso ++ behind),
        match_iso-append host iso behind h,
        e,
      )

-- A text that stands before the end, or before a newline there.
pub Ended-cases :
    (P : Text → Type 0) (name s : Text)
    → ((last : Text) → at_end last ≡ true → P (s ++ last))
    → Ended name s
    → P name
unfolding at_end text_eq
Ended-cases P name s h (inl e) = rw (e, ← append-nil s) (h [] refl)
Ended-cases P name s h (inr e) = rw e (h (codes "\n") refl)

-- The name of a marker for a rotation that waits, or that name with a newline behind it.
pub record IsWaiting (host : Host) (basename name iso : Text) : Type 0 where
  pub iso_dt : IsIso host iso
  pub shape : Ended name (waiting_name basename iso)

-- A name is taken for a waiting marker of a file, with some date, exactly when it is the file's name, a
-- date of eight digits, `T`, six digits and `Z`, and the suffix, joined by dots, up to a newline at its
-- end.
pub match_waiting_iff :
    (host : Host) (basename name iso : Text)
    → (match_waiting host basename name ≡ some iso) ↔ IsWaiting host basename name iso
match_waiting_iff host basename name iso = (
  (λ h.
      let (is_iso, shape) = match_waiting-some host basename name iso h in
      record { iso_dt = is_iso; shape = shape }),
  (λ w.
      Ended-cases (λ x. match_waiting host basename x ≡ some iso) name (waiting_name basename iso)
        (λ last e. match_waiting-ended host basename name iso last w.iso_dt e) w.shape),
)

-- ===== src/Link/Triple.antt =====
-- Conditions on the bytes of the inodes before and after an action: `Q` where it returns, `E` where it
-- raises.
use logline.Base.{ℕ, ◌≡◌, refl, Bool, true, false, if◌then◌else◌, Bytes}
use logline.Server.World.{Error, Result, ok, err, World, Action, pure, raise, continue, ◌>>=◌}
use logline.Server.World.Keeps.{Keeps}
use logline.Link.Content.{IsSameContent}

abbrev pub Contents : Type 0
Contents = ℕ → Bytes

module _ {A : Type 0} where
  abbrev pub After : (A → Contents → Type 0) → (Contents → Type 0) → Result A → Contents → Type 0
  After Q E (ok a) c = Q a c
  After Q E (err e) c = E c

  pub record Triple (P : Contents → Type 0) (m : Action A) (Q : A → Contents → Type 0)
      (E : Contents → Type 0) : Type 0 where
    pub at : (w : World) → P w.fs.content → After Q E (m w).0 (m w).1.fs.content

  after_same :
      (P : Contents → Type 0) (r : Result A) (c d : Contents) → d ≡ c → P c → After (λ _. P) P r d
  after_same P (ok a) c d e p = rw e p
  after_same P (err x) c d e p = rw e p

  -- An action that leaves the bytes alone keeps every condition on them.
  pub Triple-same :
      (P : Contents → Type 0) (m : Action A) → Keeps IsSameContent m → Triple P m (λ _. P) P
  Triple-same P m k = record { at = λ w p. after_same P (m w).0 _ _ (k.at w).content p }

  pub Triple-pure :
      (P : Contents → Type 0) (a : A) (Q : A → Contents → Type 0) (E : Contents → Type 0)
      → ((c : Contents) → P c → Q a c)
      → Triple P (pure a) Q E
  unfolding pure
  Triple-pure P a Q E h = record { at = λ w p. h w.fs.content p }

  pub Triple-raise :
      (P : Contents → Type 0) (e : Error) (Q : A → Contents → Type 0) (E : Contents → Type 0)
      → ((c : Contents) → P c → E c)
      → Triple P (raise e) Q E
  unfolding raise
  Triple-raise P e Q E h = record { at = λ w p. h w.fs.content p }

  pub Triple-if :
      (P : Contents → Type 0) (b : Bool) (m n : Action A) (Q : A → Contents → Type 0)
      (E : Contents → Type 0)
      → (b ≡ true → Triple P m Q E)
      → (b ≡ false → Triple P n Q E)
      → Triple P (if b then m else n) Q E
  Triple-if P true m n Q E h k = h refl
  Triple-if P false m n Q E h k = k refl

  after_weaken :
      (Q Q' : A → Contents → Type 0) (E E' : Contents → Type 0)
      → ((a : A) (c : Contents) → Q a c → Q' a c)
      → ((c : Contents) → E c → E' c)
      → (r : Result A) (c : Contents) → After Q E r c
      → After Q' E' r c
  after_weaken Q Q' E E' h k (ok a) c q = h a c q
  after_weaken Q Q' E E' h k (err e) c q = k c q

  pub Triple-weaken :
      (P P' : Contents → Type 0) (m : Action A) (Q Q' : A → Contents → Type 0)
      (E E' : Contents → Type 0)
      → ((c : Contents) → P' c → P c)
      → ((a : A) (c : Contents) → Q a c → Q' a c)
      → ((c : Contents) → E c → E' c)
      → Triple P m Q E
      → Triple P' m Q' E'
  Triple-weaken P P' m Q Q' E E' g h k t = record {
    at = λ w p. after_weaken Q Q' E E' h k (m w).0 _ (t.at w (g _ p));
  }

module _ {A B : Type 0} (P : Contents → Type 0) (Q : A → Contents → Type 0)
    (Q' : B → Contents → Type 0) (E : Contents → Type 0) where
  continue_after :
      (f : A → Action B)
      → ((a : A) → Triple (Q a) (f a) Q' E)
      → (r : Result A) (v : World) → After Q E r v.fs.content
      → After Q' E (continue r f v).0 (continue r f v).1.fs.content
  continue_after f tf (ok a) v p = (tf a).at v p
  continue_after f tf (err e) v p = p

  pub Triple-bind :
      (m : Action A) (f : A → Action B)
      → Triple P m Q E
      → ((a : A) → Triple (Q a) (f a) Q' E)
      → Triple P (m >>= f) Q' E
  unfolding ◌>>=◌
  Triple-bind m f tm tf = record { at = λ w p. continue_after f tf (m w).0 (m w).1 (tm.at w p) }

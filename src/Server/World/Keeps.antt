-- ===== src/Server/World/Keeps.antt =====
-- Relations that an action keeps between the worlds before and after it, whether it returns or
-- raises: one rule for each way to build an action.
use logline.Base.{◌≡◌, refl, Bool, true, false, Option, none, some, if◌then◌else◌}
use logline.Fs.{Fs}
use logline.Server.World.{
  Error, Result, ok, err, World, Action, pure, raise, or_raise, gets, commit, update_fs, unless,
  ◌>>=◌, continue,
}

-- A reflexive and transitive relation on worlds.
pub record IsStable (R : World → World → Type 0) : Type 0 where
  pub same : (w : World) → R w w
  pub compose : (u v w : World) → R u v → R v w → R u w

pub record Keeps {A : Type 0} (R : World → World → Type 0) (m : Action A) : Type 0 where
  pub at : (w : World) → R w (m w).1

module _ {A : Type 0} {R : World → World → Type 0} (stable : IsStable R) where
  pub Keeps-pure : (a : A) → Keeps R (pure a)
  unfolding pure
  Keeps-pure a = record { at = λ w. stable.same w }

  pub Keeps-raise : (e : Error) → Keeps R (raise {A = A} e)
  unfolding raise
  Keeps-raise e = record { at = λ w. stable.same w }

  pub Keeps-or_raise : (e : Error) (o : Option A) → Keeps R (or_raise e o)
  unfolding or_raise
  Keeps-or_raise e none = record { at = λ w. stable.same w }
  Keeps-or_raise e (some a) = record { at = λ w. stable.same w }

  pub Keeps-gets : (f : World → A) → Keeps R (gets f)
  unfolding gets
  Keeps-gets f = record { at = λ w. stable.same w }

module _ {R : World → World → Type 0} (stable : IsStable R) where
  pub Keeps-unless : (b : Bool) (e : Error) → Keeps R (unless b e)
  unfolding unless
  Keeps-unless true e = record { at = λ w. stable.same w }
  Keeps-unless false e = record { at = λ w. stable.same w }

module _ {R : World → World → Type 0} (stable : IsStable R) where
  commit-keeps :
      (w : World) (o : Option Fs)
      → ((fs : Fs) → o ≡ some fs → R w (record w { fs = fs }))
      → R w (commit o w).1
  unfolding commit
  commit-keeps w none h = stable.same w
  commit-keeps w (some fs) h = h fs refl

  pub Keeps-update_fs :
      (f : Fs → Option Fs)
      → ((w : World) (fs : Fs) → f w.fs ≡ some fs → R w (record w { fs = fs }))
      → Keeps R (update_fs f)
  unfolding update_fs
  Keeps-update_fs f h = record { at = λ w. commit-keeps w (f w.fs) (h w) }

module _ {A : Type 0} {R : World → World → Type 0} where
  pub Keeps-if : (b : Bool) (m n : Action A) → Keeps R m → Keeps R n → Keeps R (if b then m else n)
  Keeps-if true m n km kn = km
  Keeps-if false m n km kn = kn

module _ {A B : Type 0} {R : World → World → Type 0} (stable : IsStable R) where
  continue-keeps :
      (f : A → Action B)
      → ((a : A) → Keeps R (f a))
      → (u v : World) (r : Result A) → R u v
      → R u (continue r f v).1
  continue-keeps f kf u v (ok a) h = stable.compose u v (f a v).1 h ((kf a).at v)
  continue-keeps f kf u v (err e) h = h

  pub Keeps-bind :
      (m : Action A) (f : A → Action B) → Keeps R m → ((a : A) → Keeps R (f a)) → Keeps R (m >>= f)
  unfolding ◌>>=◌
  Keeps-bind m f km kf = record {
    at = λ w. let (r, w') = m w in continue-keeps f kf w w' r (km.at w);
  }

pub ruleset keeps_rules =
    (Keeps-pure, Keeps-raise, Keeps-or_raise, Keeps-gets, Keeps-unless, Keeps-if, Keeps-bind)

-- ===== src/Server/World/Gives.antt =====
-- An action that keeps a relation and, where it returns, gives a value with a property.
use logline.Base.{Bool, true, false, if◌then◌else◌}
use logline.Server.World.{Error, Result, ok, err, World, Action, pure, raise, continue, ◌>>=◌}
use logline.Server.World.Keeps.{IsStable, Keeps}

abbrev pub Returned : {A : Type 0} → (A → Type 0) → Result A → Type 0
Returned P (ok a) = P a
Returned P (err e) = Unit

pub record Gives {A : Type 0} (R : World → World → Type 0) (P : A → Type 0) (m : Action A)
    : Type 0 where
  pub keeps : Keeps R m
  pub gives : (w : World) → Returned P (m w).0

anything : {A : Type 0} (r : Result A) → Returned (λ (a : A). Unit {0}) r
anything (ok a) = tt
anything (err e) = tt

module _ {A : Type 0} {R : World → World → Type 0} where
  pub Gives-of_Keeps : {m : Action A} → Keeps R m → Gives R (λ (a : A). Unit {0}) m
  Gives-of_Keeps {m} km = record { keeps = km; gives = λ w. anything (m w).0 }

  pub Gives-pure : (P : A → Type 0) (a : A) → IsStable R → P a → Gives R P (pure a)
  unfolding pure
  Gives-pure P a stable h = record { keeps = record { at = λ w. stable.same w }; gives = λ w. h }

  pub Gives-raise : (P : A → Type 0) (e : Error) → IsStable R → Gives R P (raise e)
  unfolding raise
  Gives-raise P e stable = record { keeps = record { at = λ w. stable.same w }; gives = λ w. tt }

  pub Gives-if :
      (P : A → Type 0) (b : Bool) (m n : Action A)
      → Gives R P m
      → Gives R P n
      → Gives R P (if b then m else n)
  Gives-if P true m n gm gn = gm
  Gives-if P false m n gm gn = gn

module _ {A B : Type 0} {R : World → World → Type 0} (P : A → Type 0) (Q : B → Type 0) where
  continue-keeps :
      (f : A → Action B)
      → IsStable R
      → ((a : A) → P a → Gives R Q (f a))
      → (u v : World) (r : Result A) → Returned P r
      → R u v
      → R u (continue r f v).1
  continue-keeps f stable gf u v (ok a) p h = stable.compose u v (f a v).1 h ((gf a p).keeps.at v)
  continue-keeps f stable gf u v (err e) p h = h

  continue-Gives :
      (f : A → Action B)
      → ((a : A) → P a → Gives R Q (f a))
      → (v : World) (r : Result A) → Returned P r
      → Returned Q (continue r f v).0
  continue-Gives f gf v (ok a) p = (gf a p).gives v
  continue-Gives f gf v (err e) p = tt

  pub Gives-bind :
      (m : Action A) (f : A → Action B)
      → IsStable R
      → Gives R P m
      → ((a : A) → P a → Gives R Q (f a))
      → Gives R Q (m >>= f)
  unfolding ◌>>=◌
  Gives-bind m f stable gm gf = record {
    keeps = record {
      at = λ w. let (r, w') = m w in continue-keeps f stable gf w w' r (gm.gives w) (gm.keeps.at w);
    };
    gives = λ w. let (r, w') = m w in continue-Gives f gf w' r (gm.gives w);
  }

-- After an action of which only the relation matters.
module _ {A B : Type 0} {R : World → World → Type 0} (Q : B → Type 0) where
  pub Gives-then :
      (m : Action A) (f : A → Action B)
      → IsStable R
      → Keeps R m
      → ((a : A) → Gives R Q (f a))
      → Gives R Q (m >>= f)
  Gives-then m f stable km gf =
      Gives-bind (λ (a : A). Unit {0}) Q m f stable (Gives-of_Keeps km) (λ a p. gf a)

-- ===== src/Agent/Network/Keeps.antt =====
-- Predicates of the surroundings that an action of a segment keeps, however it ends: one rule for
-- each way to build an action.
use logline.Base.{Bool, true, false, Option, none, some, if◌then◌else◌}
use logline.Agent.Network.{
  Segment, Outcome, done, end_segment, failed, unfinished, Act, pure, raise, gets, call, asks,
  modify, continue, ◌>>=◌,
}

module _ {S : Type 0} (I : S → Type 0) where
  pub record Keeps {A : Type 0} (m : Act S A) : Type 0 where
    pub at : (g : Segment) (s : S) → I s → I (m g s).1.1

  module _ {A : Type 0} where
    pub Keeps-pure : (a : A) → Keeps (pure a)
    unfolding pure
    Keeps-pure a = record { at = λ g s i. i }

    pub Keeps-raise : (o : Outcome A) → Keeps (raise o)
    unfolding raise
    Keeps-raise o = record { at = λ g s i. i }

    pub Keeps-gets : (f : Segment → A) → Keeps (gets f)
    unfolding gets
    Keeps-gets f = record { at = λ g s i. i }

    pub Keeps-asks : (f : S → A) → Keeps (asks f)
    unfolding asks
    Keeps-asks f = record { at = λ g s i. i }

    pub Keeps-call : (f : S → A × S) → ((s : S) → I s → I (f s).1) → Keeps (call f)
    unfolding call
    Keeps-call f h = record { at = λ g s i. h s i }

    pub Keeps-if : (b : Bool) (m n : Act S A) → Keeps m → Keeps n → Keeps (if b then m else n)
    Keeps-if true m n km kn = km
    Keeps-if false m n km kn = kn

    pub Keeps-option :
        {B : Type 0} (o : Option B) (f : B → Act S A) (n : Act S A)
        → ((b : B) → Keeps (f b))
        → Keeps n
        → Keeps (elim o [ some b ↦ f b | none ↦ n ])
    Keeps-option none f n kf kn = kn
    Keeps-option (some b) f n kf kn = kf b

  pub Keeps-modify : (f : Segment → Segment) → Keeps (modify f)
  unfolding modify
  Keeps-modify f = record { at = λ g s i. i }

  module _ {A B : Type 0} where
    continue-kept :
        (o : Outcome A) (f : A → Act S B) (g : Segment) (s : S)
        → ((a : A) → Keeps (f a))
        → I s
        → I (continue o f g s).1.1
    unfolding continue
    continue-kept (done a) f g s k i = (k a).at g s i
    continue-kept end_segment f g s k i = i
    continue-kept failed f g s k i = i
    continue-kept unfinished f g s k i = i

    pub Keeps-bind :
        (m : Act S A) (f : A → Act S B) → Keeps m → ((a : A) → Keeps (f a)) → Keeps (m >>= f)
    unfolding ◌>>=◌
    Keeps-bind m f km kf = record {
      at = λ g s i. continue-kept (m g s).0 f (m g s).1.0 (m g s).1.1 kf (km.at g s i);
    }

pub ruleset keeps_rules =
    (Keeps-pure, Keeps-raise, Keeps-gets, Keeps-asks, Keeps-modify, Keeps-if, Keeps-bind)

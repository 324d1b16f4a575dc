-- ===== src/Prelude/Effect/Settles.antt =====
-- Actions that do not run out of fuel, one rule for each way to build an action.
use frrpc.Prelude.{◌≡◌}
use mathlib.Core.Path.{refl, ◌≡◌}
use mathlib.Core.Logic.{◌≢◌}
use mathlib.Core.Bool.{Bool, true, false}
use mathlib.Core.Option.{Option, none, some}
use frrpc.Prelude.Tests.{if◌then◌else◌}
use frrpc.Prelude.Outcome.{Outcome, ok, refused, fault, exhausted, or_fault, or_refuse}
use frrpc.Prelude.Effect.{
  Effect, pure, refuse, lift, gets, modify, refuse_if, returns, continue, ◌>>=◌,
}

pub record Settled {A : Type 0} (o : Outcome A) : Type 0 where
  pub ends : o ≢ exhausted

pub record Settles {S A : Type 0} (m : Effect S A) : Type 0 where
  pub at : (s : S) → (m s).0 ≢ exhausted

module _ {A : Type 0} where
  pub or_fault-Settled : (o : Option A) → Settled (or_fault o)
  or_fault-Settled none = record { ends = λ e. cc }
  or_fault-Settled (some a) = record { ends = λ e. cc }

  pub or_refuse-Settled : (o : Option A) → Settled (or_refuse o)
  or_refuse-Settled none = record { ends = λ e. cc }
  or_refuse-Settled (some a) = record { ends = λ e. cc }

module _ {S A : Type 0} where
  pub Settles-pure : (a : A) → Settles (pure {S = S} a)
  unfolding pure
  Settles-pure a = record { at = λ s e. cc }

  pub Settles-refuse : Settles (refuse {S = S} {A = A})
  unfolding refuse
  Settles-refuse = record { at = λ s e. cc }

  pub Settles-lift : (o : Outcome A) → Settled o → Settles (lift {S = S} o)
  unfolding lift
  Settles-lift o h = record { at = λ s. h.ends }

  pub Settles-gets : (f : S → A) → Settles (gets f)
  unfolding gets
  Settles-gets f = record { at = λ s e. cc }

  pub Settles-if :
      (b : Bool) (m n : Effect S A)
      → (b ≡ true → Settles m)
      → (b ≡ false → Settles n)
      → Settles (if b then m else n)
  Settles-if true m n hm hn = hm refl
  Settles-if false m n hm hn = hn refl

module _ {S : Type 0} where
  pub Settles-modify : (f : S → S) → Settles (modify f)
  unfolding modify
  Settles-modify f = record { at = λ s e. cc }

  pub Settles-refuse_if : (b : Bool) → Settles (refuse_if {S = S} b)
  unfolding refuse_if
  Settles-refuse_if true = record { at = λ s e. cc }
  Settles-refuse_if false = record { at = λ s e. cc }

  pub Settles-returns : (b : Bool) → Settles (returns {S = S} b)
  unfolding returns
  Settles-returns true = record { at = λ s e. cc }
  Settles-returns false = record { at = λ s e. cc }

module _ {S A B : Type 0} where
  continue-Settles :
      (r : Outcome A) (f : A → Effect S B) (s : S)
      → r ≢ exhausted
      → ((a : A) → Settles (f a))
      → (continue r f s).0 ≢ exhausted
  continue-Settles (ok a) f s h k = (k a).at s
  continue-Settles refused f s h k = λ e. cc
  continue-Settles fault f s h k = λ e. cc
  continue-Settles exhausted f s h k = absurd (h refl)

  pub Settles-bind :
      (m : Effect S A) (f : A → Effect S B)
      → Settles m
      → ((a : A) → Settles (f a))
      → Settles (m >>= f)
  unfolding ◌>>=◌
  Settles-bind m f hm hf = record {
    at = λ s. let (r, s') = m s in continue-Settles r f s' (hm.at s) hf;
  }

module _ {S A B : Type 0} where
  -- A value may be used together with where it comes from.
  pub Settles-lift-bind :
      (o : Outcome A) (f : A → Effect S B)
      → Settled o
      → ((a : A) → o ≡ ok a → Settles (f a))
      → Settles (lift o >>= f)
  unfolding ◌>>=◌ lift
  Settles-lift-bind (ok a) f h k = record { at = (k a refl).at }
  Settles-lift-bind refused f h k = record { at = λ s e. cc }
  Settles-lift-bind fault f h k = record { at = λ s e. cc }
  Settles-lift-bind exhausted f h k = absurd (h.ends refl)

pub ruleset settles_rules = (
  or_fault-Settled, or_refuse-Settled, Settles-pure, Settles-refuse, Settles-lift, Settles-gets,
  Settles-if, Settles-modify, Settles-refuse_if, Settles-returns, Settles-bind,
)

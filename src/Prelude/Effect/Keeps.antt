-- ===== src/Prelude/Effect/Keeps.antt =====
-- What holds of the state before an action and after it, wherever the action ends, one rule for each
-- way to build an action.
use mathlib.Core.Bool.{Bool, true, false}
use frrpc.Prelude.Tests.{if◌then◌else◌}
use frrpc.Prelude.Outcome.{Outcome}
use frrpc.Prelude.Effect.{Effect, pure, refuse, lift, gets, modify, refuse_if, returns, ◌>>=◌}
use frrpc.Prelude.Effect.Steps.{bind-step}

pub record Keeps {S A : Type 0} (P : S → Type 0) (m : Effect S A) : Type 0 where
  pub at : (s : S) → P s → P (m s).1

module _ {S : Type 0} (P : S → Type 0) where
  pub Keeps-pure : {A : Type 0} (a : A) → Keeps P (pure a)
  unfolding pure
  Keeps-pure a = record { at = λ s h. h }

  pub Keeps-refuse : {A : Type 0} → Keeps P (refuse {S = S} {A = A})
  unfolding refuse
  Keeps-refuse = record { at = λ s h. h }

  pub Keeps-lift : {A : Type 0} (o : Outcome A) → Keeps P (lift o)
  unfolding lift
  Keeps-lift o = record { at = λ s h. h }

  pub Keeps-gets : {A : Type 0} (f : S → A) → Keeps P (gets f)
  unfolding gets
  Keeps-gets f = record { at = λ s h. h }

  pub Keeps-modify : (f : S → S) → ((s : S) → P s → P (f s)) → Keeps P (modify f)
  unfolding modify
  Keeps-modify f k = record { at = k }

  pub Keeps-refuse_if : (b : Bool) → Keeps P (refuse_if b)
  unfolding refuse_if
  Keeps-refuse_if true = record { at = λ s h. h }
  Keeps-refuse_if false = record { at = λ s h. h }

  pub Keeps-returns : (b : Bool) → Keeps P (returns b)
  unfolding returns
  Keeps-returns true = record { at = λ s h. h }
  Keeps-returns false = record { at = λ s h. h }

  pub Keeps-if :
      {A : Type 0} (b : Bool) (m n : Effect S A)
      → Keeps P m
      → Keeps P n
      → Keeps P (if b then m else n)
  Keeps-if true m n hm hn = hm
  Keeps-if false m n hm hn = hn

  pub Keeps-bind :
      {A B : Type 0} (m : Effect S A) (f : A → Effect S B)
      → Keeps P m
      → ((a : A) → Keeps P (f a))
      → Keeps P (m >>= f)
  Keeps-bind m f hm hf = record {
    at = λ s h. bind-step P m f s (hm.at s h) (λ a e. (hf a).at (m s).1 (hm.at s h));
  }

pub ruleset keeps_rules = (
  Keeps-pure, Keeps-refuse, Keeps-lift, Keeps-gets, Keeps-modify, Keeps-refuse_if, Keeps-returns,
  Keeps-if, Keeps-bind,
)

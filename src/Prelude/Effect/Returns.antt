-- ===== src/Prelude/Effect/Returns.antt =====
-- What holds of the value that an action returns, one rule for each way to build the action.
use mathlib.Core.Path.{◌≡◌, refl, subst}
use mathlib.Core.Bool.{Bool, true, false}
use frrpc.Prelude.Tests.{if◌then◌else◌}
use frrpc.Prelude.Outcome.{Outcome, ok, refused, fault, exhausted}
use frrpc.Prelude.Effect.{Effect, pure, refuse, lift, continue, ◌>>=◌}

-- Where the action returns a value, the value is so.
pub record Returns {S A : Type 0} (P : A → Type 0) (m : Effect S A) : Type 0 where
  pub value : (s : S) (a : A) → (m s).0 ≡ ok a → P a

module _ {S A B : Type 0} (P : A → Type 0) (Q : B → Type 0) where
  continue_value :
      (o : Outcome A) (f : A → Effect S B) (s : S) (b : B)
      → ((a : A) → o ≡ ok a → P a)
      → ((a : A) → P a → Returns Q (f a))
      → (continue o f s).0 ≡ ok b
      → Q b
  continue_value (ok a) f s b h k e = (k a (h a refl)).value s b e
  continue_value refused f s b h k e = absurd (cc)
  continue_value fault f s b h k e = absurd (cc)
  continue_value exhausted f s b h k e = absurd (cc)

  -- What follows knows what was returned.
  pub Returns-then :
      (m : Effect S A) (f : A → Effect S B)
      → Returns P m
      → ((a : A) → P a → Returns Q (f a))
      → Returns Q (m >>= f)
  unfolding ◌>>=◌
  Returns-then m f h k = record {
    value = λ s b e. continue_value (m s).0 f (m s).1 b (h.value s) k e;
  }

module _ {S A : Type 0} (P : A → Type 0) where
  pub Returns-pure : (a : A) → P a → Returns {S = S} P (pure a)
  unfolding pure
  Returns-pure a h = record { value = λ s b e. subst P (cc) h }

  pub Returns-refuse : Returns {S = S} P refuse
  unfolding refuse
  Returns-refuse = record { value = λ s b e. absurd (cc) }

  pub Returns-exhausted : Returns {S = S} P (lift exhausted)
  unfolding lift
  Returns-exhausted = record { value = λ s b e. absurd (cc) }

  pub Returns-if :
      (b : Bool) (m n : Effect S A)
      → (b ≡ true → Returns P m)
      → (b ≡ false → Returns P n)
      → Returns P (if b then m else n)
  Returns-if true m n hm hn = hm refl
  Returns-if false m n hm hn = hn refl

pub Returns-bind :
    {S A B : Type 0} (P : B → Type 0) (m : Effect S A) (f : A → Effect S B)
    → ((a : A) → Returns P (f a))
    → Returns P (m >>= f)
Returns-bind {A} P m f h =
    Returns-then (λ a. Unit {0}) P m f (record { value = λ s a e. tt }) (λ a u. h a)

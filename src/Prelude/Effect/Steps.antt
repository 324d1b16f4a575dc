-- ===== src/Prelude/Effect/Steps.antt =====
-- What holds of the state that a chain of actions leaves, wherever it ends.
use mathlib.Core.Path.{◌≡◌, refl}
use frrpc.Prelude.Outcome.{Outcome, ok, refused, fault, exhausted}
use frrpc.Prelude.Effect.{Effect, continue, ◌>>=◌, pure}

module _ {S A B : Type 0} (P : S → Type 0) where
  continue-step :
      (o : Outcome A) (f : A → Effect S B) (s : S)
      → P s
      → ((a : A) → o ≡ ok a → P (f a s).1)
      → P (continue o f s).1
  continue-step (ok a) f s h k = k a refl
  continue-step refused f s h k = h
  continue-step fault f s h k = h
  continue-step exhausted f s h k = h

  -- The second action starts where the first has left off.
  pub bind-step :
      (m : Effect S A) (f : A → Effect S B) (s : S)
      → P (m s).1
      → ((a : A) → (m s).0 ≡ ok a → P (f a (m s).1).1)
      → P ((m >>= f) s).1
  unfolding ◌>>=◌
  bind-step m f s h k = continue-step (m s).0 f (m s).1 h k

-- Chains that do the same.
continue_same :
    {S A B : Type 0} (o : Outcome A) (f g : A → Effect S B) (s : S)
    → ((a : A) → f a s ≡ g a s)
    → continue o f s ≡ continue o g s
continue_same (ok a) f g s h = h a
continue_same refused f g s h = refl
continue_same fault f g s h = refl
continue_same exhausted f g s h = refl

pub bind_same :
    {S A B : Type 0} (m : Effect S A) (f g : A → Effect S B) (s : S)
    → ((a : A) → f a (m s).1 ≡ g a (m s).1)
    → (m >>= f) s ≡ (m >>= g) s
unfolding ◌>>=◌
bind_same m f g s h = continue_same (m s).0 f g (m s).1 h

continue-pure : {S A : Type 0} (o : Outcome A) (s : S) → continue o (λ a. pure a) s ≡ (o, s)
unfolding pure
continue-pure (ok a) s = refl
continue-pure refused s = refl
continue-pure fault s = refl
continue-pure exhausted s = refl

pub bind-pure : {S A : Type 0} (m : Effect S A) (s : S) → (m >>= λ a. pure a) s ≡ m s
unfolding ◌>>=◌
bind-pure m s = continue-pure (m s).0 (m s).1

pub bind_from :
    {S A B : Type 0} (m n : Effect S A) (f : A → Effect S B) (s : S)
    → m s ≡ n s
    → (m >>= f) s ≡ (n >>= f) s
unfolding ◌>>=◌
bind_from m n f s h = rw h refl

-- The second action goes on from where the first ends.
pub bind-ok :
    {S A B : Type 0} (m : Effect S A) (f : A → Effect S B) (s t : S) (a : A)
    → m s ≡ (ok a, t)
    → (m >>= f) s ≡ f a t
unfolding ◌>>=◌
bind-ok m f s t a h = rw h refl

-- ===== src/Prelude/Effect.antt =====
-- Methods that change an object. What was written stays written when the method returns false, so
-- the state comes back beside every outcome.
pub mod Settles
pub mod Steps
pub mod Returns
pub mod Keeps
use mathlib.Core.Bool.{Bool, true, false}
use frrpc.Prelude.Outcome.{Outcome, ok, refused, fault, exhausted}

abbrev pub Effect : Type 0 → Type 0 → Type 0
Effect S A = S → Outcome A × S

module _ {S A : Type 0} where
  pub pure : A → Effect S A
  pure a s = (ok a, s)

  pub refuse : Effect S A
  refuse s = (refused, s)

  pub lift : Outcome A → Effect S A
  lift o s = (o, s)

  pub gets : (S → A) → Effect S A
  gets f s = (ok (f s), s)

pub modify : {S : Type 0} → (S → S) → Effect S (Unit {0})
modify f s = (ok tt, f s)

-- `if(b) { return false; }`
pub refuse_if : {S : Type 0} → Bool → Effect S (Unit {0})
refuse_if true s = (refused, s)
refuse_if false s = (ok tt, s)

-- A method that returns a bool as its last word.
pub returns : {S : Type 0} → Bool → Effect S (Unit {0})
returns true s = (ok tt, s)
returns false s = (refused, s)

abbrev continue : {S A B : Type 0} → Outcome A → (A → Effect S B) → Effect S B
continue (ok a) f s = f a s
continue refused f s = (refused, s)
continue fault f s = (fault, s)
continue exhausted f s = (exhausted, s)

infixl 5 ◌>>=◌ ◌>>◌
-- Opening this opens the actions above too.
unfoldable pub ◌>>=◌ : {S A B : Type 0} → Effect S A → (A → Effect S B) → Effect S B
unfolding pure refuse lift gets modify refuse_if returns
◌>>=◌ m f s = let (r, s') = m s in continue r f s'

abbrev pub ◌>>◌ : {S A B : Type 0} → Effect S A → Effect S B → Effect S B
m >> k = m >>= λ _. k

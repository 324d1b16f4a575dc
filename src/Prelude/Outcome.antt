-- ===== src/Prelude/Outcome.antt =====
-- What a call of the program comes to: it returns a value, it returns false or a null pointer
-- (`refused`), or it aborts, its behaviour is undefined or it never returns (`fault`): a failed
-- assertion, a read outside of a buffer, a null pointer that is followed, a lock of a mutex that the
-- thread holds. `exhausted` is no behaviour of the program: the fuel of a loop ran out, or the list
-- of what happens to it.
use mathlib.Core.Option.{Option, none, some}
use mathlib.Core.Path.{◌≡◌, refl}
use mathlib.Core.Logic.{◌⊎◌, inl, inr}

pub data Outcome {ℓ} (A : Type ℓ) : Type ℓ where
  ok : A → Outcome A
  refused : Outcome A
  fault : Outcome A
  exhausted : Outcome A

infixl 5 ◌>>=◌
abbrev pub ◌>>=◌ {ℓ κ} : {A : Type ℓ} {B : Type κ} → Outcome A → (A → Outcome B) → Outcome B
ok a >>= f = f a
refused >>= f = refused
fault >>= f = fault
exhausted >>= f = exhausted

abbrev pub or_fault {ℓ} : {A : Type ℓ} → Option A → Outcome A
or_fault none = fault
or_fault (some a) = ok a

abbrev pub or_refuse {ℓ} : {A : Type ℓ} → Option A → Outcome A
or_refuse none = refused
or_refuse (some a) = ok a

abbrev pub to_option {ℓ} : {A : Type ℓ} → Outcome A → Option A
to_option (ok a) = some a
to_option refused = none
to_option fault = none
to_option exhausted = none

-- A call returns a value, or it does not, and then nothing after it is run.
pub ok-cases {ℓ} : {A : Type ℓ} (o : Outcome A) → ((a : A) × (o ≡ ok a)) ⊎ (to_option o ≡ none)
ok-cases (ok a) = inl (a, refl)
ok-cases refused = inr refl
ok-cases fault = inr refl
ok-cases exhausted = inr refl

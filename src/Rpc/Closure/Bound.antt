-- ===== src/Rpc/Closure/Bound.antt =====
-- Functions of several arguments, and the arguments that are bound to them.
use frrpc.Prelude.{◌≡◌, refl, List, [], ◌∷◌}

abbrev pub Fun : List (Type 0) → Type 0 → Type 0
Fun [] R = R
Fun (A ∷ types) R = A → Fun types R

abbrev pub Args : List (Type 0) → Type 0
Args [] = Unit
Args (A ∷ types) = A × Args types

-- `function_(arg1_, arg2_)` and its like.
unfoldable pub apply : {R : Type 0} → (types : List (Type 0)) → Fun types R → Args types → R
apply [] f args = f
apply (A ∷ types) f args = apply types (f args.0) args.1

-- The function that takes the arguments one by one.
unfoldable pub curry : {R : Type 0} → (types : List (Type 0)) → (Args types → R) → Fun types R
curry [] f = f tt
curry (A ∷ types) f = λ a. curry types (λ args. f (a, args))

pub apply-curry :
    {R : Type 0}
    → (types : List (Type 0)) (f : Args types → R) (args : Args types)
    → apply types (curry types f) args ≡ f args
unfolding apply curry
apply-curry [] f args = refl
apply-curry (A ∷ types) f args = apply-curry types (λ rest. f (args.0, rest)) args.1

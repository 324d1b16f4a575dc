-- ===== src/Rpc/Closure/Functions.antt =====
-- The classes FunctionClosure0 to FunctionClosure10 of src/rpc/closure.h, and what makes them.
use frrpc.Prelude.{[], ◌∷◌}
use frrpc.Rpc.Closure.{FunctionClosure, FunctionFactory, new_callback, new_permanent_callback}

abbrev pub FunctionClosure0 : Type 0 → Type 0
FunctionClosure0 S = FunctionClosure S []

abbrev pub new_callback0 : (S : Type 0) → FunctionFactory S []
new_callback0 S = new_callback S []

abbrev pub new_permanent_callback0 : (S : Type 0) → FunctionFactory S []
new_permanent_callback0 S = new_permanent_callback S []

abbrev pub FunctionClosure1 : Type 0 → Type 0 → Type 0
FunctionClosure1 S A1 = FunctionClosure S (A1 ∷ [])

abbrev pub new_callback1 : (S A1 : Type 0) → FunctionFactory S (A1 ∷ [])
new_callback1 S A1 = new_callback S (A1 ∷ [])

abbrev pub new_permanent_callback1 : (S A1 : Type 0) → FunctionFactory S (A1 ∷ [])
new_permanent_callback1 S A1 = new_permanent_callback S (A1 ∷ [])

abbrev pub FunctionClosure2 : Type 0 → Type 0 → Type 0 → Type 0
FunctionClosure2 S A1 A2 = FunctionClosure S (A1 ∷ A2 ∷ [])

abbrev pub new_callback2 : (S A1 A2 : Type 0) → FunctionFactory S (A1 ∷ A2 ∷ [])
new_callback2 S A1 A2 = new_callback S (A1 ∷ A2 ∷ [])

abbrev pub new_permanent_callback2 : (S A1 A2 : Type 0) → FunctionFactory S (A1 ∷ A2 ∷ [])
new_permanent_callback2 S A1 A2 = new_permanent_callback S (A1 ∷ A2 ∷ [])

abbrev pub FunctionClosure3 : Type 0 → Type 0 → Type 0 → Type 0 → Type 0
FunctionClosure3 S A1 A2 A3 = FunctionClosure S (A1 ∷ A2 ∷ A3 ∷ [])

abbrev pub new_callback3 : (S A1 A2 A3 : Type 0) → FunctionFactory S (A1 ∷ A2 ∷ A3 ∷ [])
new_callback3 S A1 A2 A3 = new_callback S (A1 ∷ A2 ∷ A3 ∷ [])

abbrev pub new_permanent_callback3 : (S A1 A2 A3 : Type 0) → FunctionFactory S (A1 ∷ A2 ∷ A3 ∷ [])
new_permanent_callback3 S A1 A2 A3 = new_permanent_callback S (A1 ∷ A2 ∷ A3 ∷ [])

abbrev pub FunctionClosure4 : Type 0 → Type 0 → Type 0 → Type 0 → Type 0 → Type 0
FunctionClosure4 S A1 A2 A3 A4 = FunctionClosure S (A1 ∷ A2 ∷ A3 ∷ A4 ∷ [])

abbrev pub new_callback4 : (S A1 A2 A3 A4 : Type 0) → FunctionFactory S (A1 ∷ A2 ∷ A3 ∷ A4 ∷ [])
new_callback4 S A1 A2 A3 A4 = new_callback S (A1 ∷ A2 ∷ A3 ∷ A4 ∷ [])

abbrev pub new_permanent_callback4 :
    (S A1 A2 A3 A4 : Type 0) → FunctionFactory S (A1 ∷ A2 ∷ A3 ∷ A4 ∷ [])
new_permanent_callback4 S A1 A2 A3 A4 = new_permanent_callback S (A1 ∷ A2 ∷ A3 ∷ A4 ∷ [])

abbrev pub FunctionClosure5 : Type 0 → Type 0 → Type 0 → Type 0 → Type 0 → Type 0 → Type 0
FunctionClosure5 S A1 A2 A3 A4 A5 = FunctionClosure S (A1 ∷ A2 ∷ A3 ∷ A4 ∷ A5 ∷ [])

abbrev pub new_callback5 :
    (S A1 A2 A3 A4 A5 : Type 0) → FunctionFactory S (A1 ∷ A2 ∷ A3 ∷ A4 ∷ A5 ∷ [])
new_callback5 S A1 A2 A3 A4 A5 = new_callback S (A1 ∷ A2 ∷ A3 ∷ A4 ∷ A5 ∷ [])

abbrev pub new_permanent_callback5 :
    (S A1 A2 A3 A4 A5 : Type 0) → FunctionFactory S (A1 ∷ A2 ∷ A3 ∷ A4 ∷ A5 ∷ [])
new_permanent_callback5 S A1 A2 A3 A4 A5 = new_permanent_callback S (A1 ∷ A2 ∷ A3 ∷ A4 ∷ A5 ∷ [])

abbrev pub FunctionClosure6 : Type 0 → Type 0 → Type 0 → Type 0 → Type 0 → Type 0 → Type 0 → Type 0
FunctionClosure6 S A1 A2 A3 A4 A5 A6 = FunctionClosure S (A1 ∷ A2 ∷ A3 ∷ A4 ∷ A5 ∷ A6 ∷ [])

abbrev pub new_callback6 :
    (S A1 A2 A3 A4 A5 A6 : Type 0) → FunctionFactory S (A1 ∷ A2 ∷ A3 ∷ A4 ∷ A5 ∷ A6 ∷ [])
new_callback6 S A1 A2 A3 A4 A5 A6 = new_callback S (A1 ∷ A2 ∷ A3 ∷ A4 ∷ A5 ∷ A6 ∷ [])

abbrev pub new_permanent_callback6 :
    (S A1 A2 A3 A4 A5 A6 : Type 0) → FunctionFactory S (A1 ∷ A2 ∷ A3 ∷ A4 ∷ A5 ∷ A6 ∷ [])
new_permanent_callback6 S A1 A2 A3 A4 A5 A6 =
    new_permanent_callback S (A1 ∷ A2 ∷ A3 ∷ A4 ∷ A5 ∷ A6 ∷ [])

abbrev pub FunctionClosure7 :
    Type 0 → Type 0 → Type 0 → Type 0 → Type 0 → Type 0 → Type 0 → Type 0 → Type 0
FunctionClosure7 S A1 A2 A3 A4 A5 A6 A7 = FunctionClosure S (A1 ∷ A2 ∷ A3 ∷ A4 ∷ A5 ∷ A6 ∷ A7 ∷ [])

abbrev pub new_callback7 :
    (S A1 A2 A3 A4 A5 A6 A7 : Type 0) → FunctionFactory S (A1 ∷ A2 ∷ A3 ∷ A4 ∷ A5 ∷ A6 ∷ A7 ∷ [])
new_callback7 S A1 A2 A3 A4 A5 A6 A7 = new_callback S (A1 ∷ A2 ∷ A3 ∷ A4 ∷ A5 ∷ A6 ∷ A7 ∷ [])

abbrev pub new_permanent_callback7 :
    (S A1 A2 A3 A4 A5 A6 A7 : Type 0) → FunctionFactory S (A1 ∷ A2 ∷ A3 ∷ A4 ∷ A5 ∷ A6 ∷ A7 ∷ [])
new_permanent_callback7 S A1 A2 A3 A4 A5 A6 A7 =
    new_permanent_callback S (A1 ∷ A2 ∷ A3 ∷ A4 ∷ A5 ∷ A6 ∷ A7 ∷ [])

abbrev pub FunctionClosure8 :
    Type 0 → Type 0 → Type 0 → Type 0 → Type 0 → Type 0 → Type 0 → Type 0 → Type 0 → Type 0
FunctionClosure8 S A1 A2 A3 A4 A5 A6 A7 A8 =
    FunctionClosure S (A1 ∷ A2 ∷ A3 ∷ A4 ∷ A5 ∷ A6 ∷ A7 ∷ A8 ∷ [])

abbrev pub new_callback8 :
    (S A1 A2 A3 A4 A5 A6 A7 A8 : Type 0)
    → FunctionFactory S (A1 ∷ A2 ∷ A3 ∷ A4 ∷ A5 ∷ A6 ∷ A7 ∷ A8 ∷ [])
new_callback8 S A1 A2 A3 A4 A5 A6 A7 A8 =
    new_callback S (A1 ∷ A2 ∷ A3 ∷ A4 ∷ A5 ∷ A6 ∷ A7 ∷ A8 ∷ [])

abbrev pub new_permanent_callback8 :
    (S A1 A2 A3 A4 A5 A6 A7 A8 : Type 0)
    → FunctionFactory S (A1 ∷ A2 ∷ A3 ∷ A4 ∷ A5 ∷ A6 ∷ A7 ∷ A8 ∷ [])
new_permanent_callback8 S A1 A2 A3 A4 A5 A6 A7 A8 =
    new_permanent_callback S (A1 ∷ A2 ∷ A3 ∷ A4 ∷ A5 ∷ A6 ∷ A7 ∷ A8 ∷ [])

abbrev pub FunctionClosure9 :
    Type 0 → Type 0 → Type 0 → Type 0 → Type 0 → Type 0 → Type 0 → Type 0 → Type 0 → Type 0 → Type 0
FunctionClosure9 S A1 A2 A3 A4 A5 A6 A7 A8 A9 =
    FunctionClosure S (A1 ∷ A2 ∷ A3 ∷ A4 ∷ A5 ∷ A6 ∷ A7 ∷ A8 ∷ A9 ∷ [])

abbrev pub new_callback9 :
    (S A1 A2 A3 A4 A5 A6 A7 A8 A9 : Type 0)
    → FunctionFactory S (A1 ∷ A2 ∷ A3 ∷ A4 ∷ A5 ∷ A6 ∷ A7 ∷ A8 ∷ A9 ∷ [])
new_callback9 S A1 A2 A3 A4 A5 A6 A7 A8 A9 =
    new_callback S (A1 ∷ A2 ∷ A3 ∷ A4 ∷ A5 ∷ A6 ∷ A7 ∷ A8 ∷ A9 ∷ [])

abbrev pub new_permanent_callback9 :
    (S A1 A2 A3 A4 A5 A6 A7 A8 A9 : Type 0)
    → FunctionFactory S (A1 ∷ A2 ∷ A3 ∷ A4 ∷ A5 ∷ A6 ∷ A7 ∷ A8 ∷ A9 ∷ [])
new_permanent_callback9 S A1 A2 A3 A4 A5 A6 A7 A8 A9 =
    new_permanent_callback S (A1 ∷ A2 ∷ A3 ∷ A4 ∷ A5 ∷ A6 ∷ A7 ∷ A8 ∷ A9 ∷ [])

abbrev pub FunctionClosure10 :
    Type 0
    → Type 0
    → Type 0
    → Type 0
    → Type 0
    → Type 0
    → Type 0
    → Type 0
    → Type 0
    → Type 0
    → Type 0
    → Type 0
FunctionClosure10 S A1 A2 A3 A4 A5 A6 A7 A8 A9 A10 =
    FunctionClosure S (A1 ∷ A2 ∷ A3 ∷ A4 ∷ A5 ∷ A6 ∷ A7 ∷ A8 ∷ A9 ∷ A10 ∷ [])

abbrev pub new_callback10 :
    (S A1 A2 A3 A4 A5 A6 A7 A8 A9 A10 : Type 0)
    → FunctionFactory S (A1 ∷ A2 ∷ A3 ∷ A4 ∷ A5 ∷ A6 ∷ A7 ∷ A8 ∷ A9 ∷ A10 ∷ [])
new_callback10 S A1 A2 A3 A4 A5 A6 A7 A8 A9 A10 =
    new_callback S (A1 ∷ A2 ∷ A3 ∷ A4 ∷ A5 ∷ A6 ∷ A7 ∷ A8 ∷ A9 ∷ A10 ∷ [])

abbrev pub new_permanent_callback10 :
    (S A1 A2 A3 A4 A5 A6 A7 A8 A9 A10 : Type 0)
    → FunctionFactory S (A1 ∷ A2 ∷ A3 ∷ A4 ∷ A5 ∷ A6 ∷ A7 ∷ A8 ∷ A9 ∷ A10 ∷ [])
new_permanent_callback10 S A1 A2 A3 A4 A5 A6 A7 A8 A9 A10 =
    new_permanent_callback S (A1 ∷ A2 ∷ A3 ∷ A4 ∷ A5 ∷ A6 ∷ A7 ∷ A8 ∷ A9 ∷ A10 ∷ [])

-- ===== src/Rpc/Closure/Methods.antt =====
-- The classes MethodClosure0 to MethodClosure10 of src/rpc/closure.h, and what makes them.
use frrpc.Prelude.{[], ◌∷◌}
use frrpc.Rpc.Closure.{
  MethodClosure, MethodFactory, new_method_callback, new_permanent_method_callback,
}

abbrev pub MethodClosure0 : Type 0 → Type 0 → Type 0
MethodClosure0 S Object = MethodClosure S Object []

abbrev pub new_method_callback0 : (S Object : Type 0) → MethodFactory S Object []
new_method_callback0 S Object = new_method_callback S Object []

abbrev pub new_permanent_method_callback0 : (S Object : Type 0) → MethodFactory S Object []
new_permanent_method_callback0 S Object = new_permanent_method_callback S Object []

abbrev pub MethodClosure1 : Type 0 → Type 0 → Type 0 → Type 0
MethodClosure1 S Object A1 = MethodClosure S Object (A1 ∷ [])

abbrev pub new_method_callback1 : (S Object A1 : Type 0) → MethodFactory S Object (A1 ∷ [])
new_method_callback1 S Object A1 = new_method_callback S Object (A1 ∷ [])

abbrev pub new_permanent_method_callback1 :
    (S Object A1 : Type 0) → MethodFactory S Object (A1 ∷ [])
new_permanent_method_callback1 S Object A1 = new_permanent_method_callback S Object (A1 ∷ [])

abbrev pub MethodClosure2 : Type 0 → Type 0 → Type 0 → Type 0 → Type 0
MethodClosure2 S Object A1 A2 = MethodClosure S Object (A1 ∷ A2 ∷ [])

abbrev pub new_method_callback2 : (S Object A1 A2 : Type 0) → MethodFactory S Object (A1 ∷ A2 ∷ [])
new_method_callback2 S Object A1 A2 = new_method_callback S Object (A1 ∷ A2 ∷ [])

abbrev pub new_permanent_method_callback2 :
    (S Object A1 A2 : Type 0) → MethodFactory S Object (A1 ∷ A2 ∷ [])
new_permanent_method_callback2 S Object A1 A2 =
    new_permanent_method_callback S Object (A1 ∷ A2 ∷ [])

abbrev pub MethodClosure3 : Type 0 → Type 0 → Type 0 → Type 0 → Type 0 → Type 0
MethodClosure3 S Object A1 A2 A3 = MethodClosure S Object (A1 ∷ A2 ∷ A3 ∷ [])

abbrev pub new_method_callback3 :
    (S Object A1 A2 A3 : Type 0) → MethodFactory S Object (A1 ∷ A2 ∷ A3 ∷ [])
new_method_callback3 S Object A1 A2 A3 = new_method_callback S Object (A1 ∷ A2 ∷ A3 ∷ [])

abbrev pub new_permanent_method_callback3 :
    (S Object A1 A2 A3 : Type 0) → MethodFactory S Object (A1 ∷ A2 ∷ A3 ∷ [])
new_permanent_method_callback3 S Object A1 A2 A3 =
    new_permanent_method_callback S Object (A1 ∷ A2 ∷ A3 ∷ [])

abbrev pub MethodClosure4 : Type 0 → Type 0 → Type 0 → Type 0 → Type 0 → Type 0 → Type 0
MethodClosure4 S Object A1 A2 A3 A4 = MethodClosure S Object (A1 ∷ A2 ∷ A3 ∷ A4 ∷ [])

abbrev pub new_method_callback4 :
    (S Object A1 A2 A3 A4 : Type 0) → MethodFactory S Object (A1 ∷ A2 ∷ A3 ∷ A4 ∷ [])
new_method_callback4 S Object A1 A2 A3 A4 = new_method_callback S Object (A1 ∷ A2 ∷ A3 ∷ A4 ∷ [])

abbrev pub new_permanent_method_callback4 :
    (S Object A1 A2 A3 A4 : Type 0) → MethodFactory S Object (A1 ∷ A2 ∷ A3 ∷ A4 ∷ [])
new_permanent_method_callback4 S Object A1 A2 A3 A4 =
    new_permanent_method_callback S Object (A1 ∷ A2 ∷ A3 ∷ A4 ∷ [])

abbrev pub MethodClosure5 : Type 0 → Type 0 → Type 0 → Type 0 → Type 0 → Type 0 → Type 0 → Type 0
MethodClosure5 S Object A1 A2 A3 A4 A5 = MethodClosure S Object (A1 ∷ A2 ∷ A3 ∷ A4 ∷ A5 ∷ [])

abbrev pub new_method_callback5 :
    (S Object A1 A2 A3 A4 A5 : Type 0) → MethodFactory S Object (A1 ∷ A2 ∷ A3 ∷ A4 ∷ A5 ∷ [])
new_method_callback5 S Object A1 A2 A3 A4 A5 =
    new_method_callback S Object (A1 ∷ A2 ∷ A3 ∷ A4 ∷ A5 ∷ [])

abbrev pub new_permanent_method_callback5 :
    (S Object A1 A2 A3 A4 A5 : Type 0) → MethodFactory S Object (A1 ∷ A2 ∷ A3 ∷ A4 ∷ A5 ∷ [])
new_permanent_method_callback5 S Object A1 A2 A3 A4 A5 =
    new_permanent_method_callback S Object (A1 ∷ A2 ∷ A3 ∷ A4 ∷ A5 ∷ [])

abbrev pub MethodClosure6 :
    Type 0 → Type 0 → Type 0 → Type 0 → Type 0 → Type 0 → Type 0 → Type 0 → Type 0
MethodClosure6 S Object A1 A2 A3 A4 A5 A6 =
    MethodClosure S Object (A1 ∷ A2 ∷ A3 ∷ A4 ∷ A5 ∷ A6 ∷ [])

abbrev pub new_method_callback6 :
    (S Object A1 A2 A3 A4 A5 A6 : Type 0)
    → MethodFactory S Object (A1 ∷ A2 ∷ A3 ∷ A4 ∷ A5 ∷ A6 ∷ [])
new_method_callback6 S Object A1 A2 A3 A4 A5 A6 =
    new_method_callback S Object (A1 ∷ A2 ∷ A3 ∷ A4 ∷ A5 ∷ A6 ∷ [])

abbrev pub new_permanent_method_callback6 :
    (S Object A1 A2 A3 A4 A5 A6 : Type 0)
    → MethodFactory S Object (A1 ∷ A2 ∷ A3 ∷ A4 ∷ A5 ∷ A6 ∷ [])
new_permanent_method_callback6 S Object A1 A2 A3 A4 A5 A6 =
    new_permanent_method_callback S Object (A1 ∷ A2 ∷ A3 ∷ A4 ∷ A5 ∷ A6 ∷ [])

abbrev pub MethodClosure7 :
    Type 0 → Type 0 → Type 0 → Type 0 → Type 0 → Type 0 → Type 0 → Type 0 → Type 0 → Type 0
MethodClosure7 S Object A1 A2 A3 A4 A5 A6 A7 =
    MethodClosure S Object (A1 ∷ A2 ∷ A3 ∷ A4 ∷ A5 ∷ A6 ∷ A7 ∷ [])

abbrev pub new_method_callback7 :
    (S Object A1 A2 A3 A4 A5 A6 A7 : Type 0)
    → MethodFactory S Object (A1 ∷ A2 ∷ A3 ∷ A4 ∷ A5 ∷ A6 ∷ A7 ∷ [])
new_method_callback7 S Object A1 A2 A3 A4 A5 A6 A7 =
    new_method_callback S Object (A1 ∷ A2 ∷ A3 ∷ A4 ∷ A5 ∷ A6 ∷ A7 ∷ [])

abbrev pub new_permanent_method_callback7 :
    (S Object A1 A2 A3 A4 A5 A6 A7 : Type 0)
    → MethodFactory S Object (A1 ∷ A2 ∷ A3 ∷ A4 ∷ A5 ∷ A6 ∷ A7 ∷ [])
new_permanent_method_callback7 S Object A1 A2 A3 A4 A5 A6 A7 =
    new_permanent_method_callback S Object (A1 ∷ A2 ∷ A3 ∷ A4 ∷ A5 ∷ A6 ∷ A7 ∷ [])

abbrev pub MethodClosure8 :
    Type 0 → Type 0 → Type 0 → Type 0 → Type 0 → Type 0 → Type 0 → Type 0 → Type 0 → Type 0 → Type 0
MethodClosure8 S Object A1 A2 A3 A4 A5 A6 A7 A8 =
    MethodClosure S Object (A1 ∷ A2 ∷ A3 ∷ A4 ∷ A5 ∷ A6 ∷ A7 ∷ A8 ∷ [])

abbrev pub new_method_callback8 :
    (S Object A1 A2 A3 A4 A5 A6 A7 A8 : Type 0)
    → MethodFactory S Object (A1 ∷ A2 ∷ A3 ∷ A4 ∷ A5 ∷ A6 ∷ A7 ∷ A8 ∷ [])
new_method_callback8 S Object A1 A2 A3 A4 A5 A6 A7 A8 =
    new_method_callback S Object (A1 ∷ A2 ∷ A3 ∷ A4 ∷ A5 ∷ A6 ∷ A7 ∷ A8 ∷ [])

abbrev pub new_permanent_method_callback8 :
    (S Object A1 A2 A3 A4 A5 A6 A7 A8 : Type 0)
    → MethodFactory S Object (A1 ∷ A2 ∷ A3 ∷ A4 ∷ A5 ∷ A6 ∷ A7 ∷ A8 ∷ [])
new_permanent_method_callback8 S Object A1 A2 A3 A4 A5 A6 A7 A8 =
    new_permanent_method_callback S Object (A1 ∷ A2 ∷ A3 ∷ A4 ∷ A5 ∷ A6 ∷ A7 ∷ A8 ∷ [])

abbrev pub MethodClosure9 :
    Type 0
    → Type 0
    → Type 0
    → Type 0
    → Type 0
    → Type 0
    → Type 0
    → Type 0
    → Type 0
    → Type 0
    → Type 0
    → Type 0
MethodClosure9 S Object A1 A2 A3 A4 A5 A6 A7 A8 A9 =
    MethodClosure S Object (A1 ∷ A2 ∷ A3 ∷ A4 ∷ A5 ∷ A6 ∷ A7 ∷ A8 ∷ A9 ∷ [])

abbrev pub new_method_callback9 :
    (S Object A1 A2 A3 A4 A5 A6 A7 A8 A9 : Type 0)
    → MethodFactory S Object (A1 ∷ A2 ∷ A3 ∷ A4 ∷ A5 ∷ A6 ∷ A7 ∷ A8 ∷ A9 ∷ [])
new_method_callback9 S Object A1 A2 A3 A4 A5 A6 A7 A8 A9 =
    new_method_callback S Object (A1 ∷ A2 ∷ A3 ∷ A4 ∷ A5 ∷ A6 ∷ A7 ∷ A8 ∷ A9 ∷ [])

abbrev pub new_permanent_method_callback9 :
    (S Object A1 A2 A3 A4 A5 A6 A7 A8 A9 : Type 0)
    → MethodFactory S Object (A1 ∷ A2 ∷ A3 ∷ A4 ∷ A5 ∷ A6 ∷ A7 ∷ A8 ∷ A9 ∷ [])
new_permanent_method_callback9 S Object A1 A2 A3 A4 A5 A6 A7 A8 A9 =
    new_permanent_method_callback S Object (A1 ∷ A2 ∷ A3 ∷ A4 ∷ A5 ∷ A6 ∷ A7 ∷ A8 ∷ A9 ∷ [])

abbrev pub MethodClosure10 :
    Type 0
    → Type 0
    → Type 0
    → Type 0
    → Type 0
    → Type 0
    → Type 0
    → Type 0
    → Type 0
    → Type 0
    → Type 0
    → Type 0
    → Type 0
MethodClosure10 S Object A1 A2 A3 A4 A5 A6 A7 A8 A9 A10 =
    MethodClosure S Object (A1 ∷ A2 ∷ A3 ∷ A4 ∷ A5 ∷ A6 ∷ A7 ∷ A8 ∷ A9 ∷ A10 ∷ [])

abbrev pub new_method_callback10 :
    (S Object A1 A2 A3 A4 A5 A6 A7 A8 A9 A10 : Type 0)
    → MethodFactory S Object (A1 ∷ A2 ∷ A3 ∷ A4 ∷ A5 ∷ A6 ∷ A7 ∷ A8 ∷ A9 ∷ A10 ∷ [])
new_method_callback10 S Object A1 A2 A3 A4 A5 A6 A7 A8 A9 A10 =
    new_method_callback S Object (A1 ∷ A2 ∷ A3 ∷ A4 ∷ A5 ∷ A6 ∷ A7 ∷ A8 ∷ A9 ∷ A10 ∷ [])

abbrev pub new_permanent_method_callback10 :
    (S Object A1 A2 A3 A4 A5 A6 A7 A8 A9 A10 : Type 0)
    → MethodFactory S Object (A1 ∷ A2 ∷ A3 ∷ A4 ∷ A5 ∷ A6 ∷ A7 ∷ A8 ∷ A9 ∷ A10 ∷ [])
new_permanent_method_callback10 S Object A1 A2 A3 A4 A5 A6 A7 A8 A9 A10 =
    new_permanent_method_callback S Object (A1 ∷ A2 ∷ A3 ∷ A4 ∷ A5 ∷ A6 ∷ A7 ∷ A8 ∷ A9 ∷ A10 ∷ [])

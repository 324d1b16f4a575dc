-- ===== src/Rpc/Closure.antt =====
-- The closures of src/rpc/closure.h, for any number of arguments. Functions and Methods have the
-- classes and the overloads of NewCallback and NewPermanentCallback with their numbers of arguments.
pub mod Bound
pub mod Life
pub mod Functions
pub mod Methods
use frrpc.Prelude.{ℕ, suc, Bool, true, false, List, [], ◌∷◌, ◌≡◌, ◌==◌, ◌&&◌, not, if◌then◌else◌}
use frrpc.Prelude.Outcome.{ok, fault}
use frrpc.Prelude.Effect.{Effect, pure, ◌>>=◌, ◌>>◌}
use frrpc.Rpc.Closure.Bound.{Fun, Args, apply, curry}

-- The memory of the program: the addresses of the closures that exist, and everything else.
pub record Memory (S : Type 0) : Type 0 where
  pub closures : List ℕ
  pub next : ℕ
  pub others : S

abbrev pub Run : Type 0 → Type 0
Run S = Effect (Memory S) Unit

abbrev pub exists : ℕ → List ℕ → Bool
exists this [] = false
exists this (address ∷ closures) = if address == this then true else exists this closures

abbrev pub without : ℕ → List ℕ → List ℕ
without this [] = []
without this (address ∷ closures) =
    if address == this then without this closures else address ∷ without this closures

-- A pointer to an object, with the object, whose members are never written.
pub record Pointer (C : Type 0) : Type 0 where
  pub address : ℕ
  pub object : C

module _ {S : Type 0} where
  -- Reading a member of the object at an address.
  unfoldable pub read : {A : Type 0} → ℕ → A → Effect (Memory S) A
  read this member memory =
      if exists this memory.closures then (ok member, memory) else (fault, memory)

  -- `delete this`
  unfoldable pub delete_this : ℕ → Run S
  delete_this this memory =
      if exists this memory.closures
      then (ok tt, record memory { closures = without this memory.closures })
      else (fault, memory)

  -- `new`
  unfoldable pub new_object : {C : Type 0} → C → Effect (Memory S) (Pointer C)
  new_object object memory = (
    ok (record { address = memory.next; object = object }),
    record memory { closures = memory.next ∷ memory.closures; next = suc memory.next },
  )

pub record FunctionClosure (S : Type 0) (types : List (Type 0)) : Type 0 where
  pub function : Fun types (Run S)
  pub self_deleting : Bool
  pub args : Args types

pub record MethodClosure (S Object : Type 0) (types : List (Type 0)) : Type 0 where
  pub object : Object
  pub method : Object → Fun types (Run S)
  pub self_deleting : Bool
  pub args : Args types

module _ {S : Type 0} where
  -- `if (needs_delete) delete this;`
  unfoldable pub delete_if : Bool → ℕ → Run S
  unfolding delete_this
  delete_if needs_delete this = if needs_delete then delete_this this else pure tt

  -- `Run` of a closure over a function.
  unfoldable pub run_function : {types : List (Type 0)} → Pointer (FunctionClosure S types) → Run S
  unfolding read delete_if apply
  run_function {types = types} this = do
    needs_delete ← read this.address this.object.self_deleting
    apply types this.object.function this.object.args
    delete_if needs_delete this.address

  -- `Run` of a closure over a method.
  unfoldable pub run_method :
      {Object : Type 0} {types : List (Type 0)} → Pointer (MethodClosure S Object types) → Run S
  unfolding read delete_if apply
  run_method {types = types} this = do
    needs_delete ← read this.address this.object.self_deleting
    apply types (this.object.method this.object.object) this.object.args
    delete_if needs_delete this.address

-- The overloads for the same types of arguments.
abbrev pub FunctionFactory : Type 0 → List (Type 0) → Type 0
FunctionFactory S types =
    Fun types (Run S) → Fun types (Effect (Memory S) (Pointer (FunctionClosure S types)))

abbrev pub MethodFactory : Type 0 → Type 0 → List (Type 0) → Type 0
MethodFactory S Object types =
    Object
    → (Object → Fun types (Run S))
    → Fun types (Effect (Memory S) (Pointer (MethodClosure S Object types)))

-- `new FunctionClosure2<Arg1, Arg2>(function, self_deleting, arg1, arg2)` and its like.
abbrev function_closure : Bool → (S : Type 0) (types : List (Type 0)) → FunctionFactory S types
function_closure self_deleting S types function = curry types (λ args.
    new_object (record { function = function; self_deleting = self_deleting; args = args }))

abbrev method_closure :
    Bool → (S Object : Type 0) (types : List (Type 0)) → MethodFactory S Object types
method_closure self_deleting S Object types object method = curry types (λ args.
    new_object
      (record { object = object; method = method; self_deleting = self_deleting; args = args }))

-- `NewCallback` and `NewPermanentCallback`, of a function and of a method.
abbrev pub new_callback : (S : Type 0) (types : List (Type 0)) → FunctionFactory S types
new_callback = function_closure true

abbrev pub new_permanent_callback : (S : Type 0) (types : List (Type 0)) → FunctionFactory S types
new_permanent_callback = function_closure false

abbrev pub new_method_callback :
    (S Object : Type 0) (types : List (Type 0)) → MethodFactory S Object types
new_method_callback = method_closure true

abbrev pub new_permanent_method_callback :
    (S Object : Type 0) (types : List (Type 0)) → MethodFactory S Object types
new_permanent_method_callback = method_closure false

-- ===== src/Rpc/Closure/Life.antt =====
-- What running a closure does: the call of its function, and how long it exists.
use frrpc.Prelude.{ℕ, suc, Bool, true, false, ◌≡◌, List, [], ◌∷◌, arith, refl, ◌∙◌}
use frrpc.Prelude.Outcome.{ok, fault}
use frrpc.Prelude.Effect.{◌>>=◌, ◌>>◌}
use frrpc.Prelude.Effect.Steps.{bind-pure, bind-ok}
use frrpc.Rpc.Closure.Bound.{Args, apply, curry, apply-curry}
use frrpc.Rpc.Closure.{
  Memory, Run, read, delete_this, delete_if, new_object, run_function, run_method, new_callback,
  new_permanent_callback, new_permanent_method_callback, exists, without,
}

exists-without : (this : ℕ) (closures : List ℕ) → exists this (without this closures) ≡ false
exists-without this [] = refl
exists-without this (address ∷ closures) = ground (arith, exists-without this closures)

-- The memory once a closure was made.
abbrev pub made_in : {S : Type 0} → Memory S → Memory S
made_in memory = record memory { closures = memory.next ∷ memory.closures; next = suc memory.next }

abbrev pub deleted_from : {S : Type 0} → ℕ → Memory S → Memory S
deleted_from this memory = record memory { closures = without this memory.closures }

module _ {S : Type 0} (f : Run S) (this : ℕ) where
  -- What `Run` does, whatever is called.
  abbrev Runs : Bool → Run S
  Runs self_deleting = do needs_delete ← read this self_deleting; f; delete_if needs_delete this

  permanent-runs :
      (memory : Memory S) → exists this memory.closures ≡ true → Runs false memory ≡ f memory
  unfolding ◌>>=◌ read delete_if
  permanent-runs memory h = rw h (bind-pure f memory)

  once-runs :
      (memory after : Memory S)
      → exists this memory.closures ≡ true
      → f memory ≡ (ok tt, after)
      → exists this after.closures ≡ true
      → Runs true memory ≡ (ok tt, deleted_from this after)
  unfolding ◌>>=◌ read delete_if delete_this
  once-runs memory after h e still = rw (h, e, still) refl

  deleted-runs :
      (self_deleting : Bool) (memory : Memory S)
      → exists this memory.closures ≡ false
      → Runs self_deleting memory ≡ (fault, memory)
  unfolding ◌>>=◌ read
  deleted-runs self_deleting memory h = rw h refl

made-exists : {S : Type 0} (memory : Memory S) → exists memory.next (made_in memory).closures ≡ true
made-exists memory = ground arith

deleted-exists :
    {S : Type 0} (this : ℕ) (memory : Memory S)
    → exists this (deleted_from this memory).closures ≡ false
deleted-exists this memory = exists-without this memory.closures

module _ {S : Type 0} (types : List (Type 0)) where
  -- A closure that NewPermanentCallback made, over a function or a method, and that is run, does
  -- with the memory what the function does that is called with the bound arguments in their order,
  -- and nothing more: it does not read the closure after the call, which may have deleted it.
  pub permanent_run_is_call :
      {Object : Type 0} (f : Args types → Run S) (object : Object)
      (method : Object → Args types → Run S) (args : Args types) (memory : Memory S)
      → ((apply types (new_permanent_callback S types (curry types f)) args >>= run_function) memory
          ≡ f args (made_in memory))
        × ((apply types
                  (new_permanent_method_callback S Object types object
                    (λ o. curry types (method o)))
                  args
                >>= run_method)
              memory
            ≡ method object args (made_in memory))
  unfolding ◌>>=◌ new_object run_function run_method
  permanent_run_is_call f object method args memory = (
    rw (apply-curry types _ args, apply-curry types f args)
        (permanent-runs (f args) memory.next (made_in memory) (made-exists memory)),
    rw (apply-curry types _ args, apply-curry types (method object) args)
        (permanent-runs (method object args) memory.next (made_in memory) (made-exists memory)),
  )

  -- A closure that NewCallback made over a function, which returns when it is called with the bound
  -- arguments in their order and does not delete the closure: the first run of the closure calls the
  -- function with these arguments and deletes the closure then, and a second run follows a pointer
  -- to a deleted object.
  pub callback_runs_once :
      (f : Args types → Run S) (args : Args types) (memory after : Memory S)
      → f args (made_in memory) ≡ (ok tt, after)
      → exists memory.next after.closures ≡ true
      → ((apply types (new_callback S types (curry types f)) args >>= run_function) memory
          ≡ (ok tt, deleted_from memory.next after))
        × ((apply types (new_callback S types (curry types f)) args >>= λ callback.
                run_function callback >> run_function callback)
              memory
            ≡ (fault, deleted_from memory.next after))
  unfolding ◌>>=◌ new_object run_function
  callback_runs_once f args memory after called still =
      let this = memory.next in
      let once = once-runs (f args) this (made_in memory) after (made-exists memory) called still in
      rw (apply-curry types _ args, apply-curry types f args)
        (
          once,
          bind-ok (Runs (f args) this true) (λ x. Runs (f args) this true) (made_in memory)
                (deleted_from this after) tt once
              ∙ deleted-runs (f args) this true (deleted_from this after)
                  (deleted-exists this after),
        )

-- ===== src/Tests/Closure.antt =====
-- Closures over functions that note their arguments.
use frrpc.Prelude.{ℕ, ◌≡◌, refl, List, [], ◌∷◌}
use frrpc.Prelude.Outcome.{ok, fault}
use frrpc.Prelude.Effect.{◌>>=◌, ◌>>◌}
use frrpc.Rpc.Closure.Bound.{Args, apply, curry}
use frrpc.Rpc.Closure.{
  Memory, Run, new_object, run_function, run_method, new_callback, new_permanent_callback,
  new_permanent_method_callback,
}
use frrpc.Rpc.Closure.Functions.{new_callback3, new_callback10}
use frrpc.Rpc.Closure.Methods.{new_permanent_method_callback2}
use frrpc.Rpc.Closure.Life.{permanent_run_is_call, callback_runs_once}

abbrev nothing_noted : Memory (List ℕ)
nothing_noted = record { closures = []; next = 4; others = [] }

abbrev note : List ℕ → Run (List ℕ)
note numbers memory = (ok tt, record memory { others = numbers })

abbrev note_three : ℕ → ℕ → ℕ → Run (List ℕ)
note_three a b c = note (a ∷ b ∷ c ∷ [])

abbrev note_ten : ℕ → ℕ → ℕ → ℕ → ℕ → ℕ → ℕ → ℕ → ℕ → ℕ → Run (List ℕ)
note_ten a b c d e f g h i j = note (a ∷ b ∷ c ∷ d ∷ e ∷ f ∷ g ∷ h ∷ i ∷ j ∷ [])

three_in_order :
    (new_callback3 (List ℕ) ℕ ℕ ℕ note_three 1 2 3 >>= run_function) nothing_noted
    ≡ (ok tt, record { closures = []; next = 5; others = 1 ∷ 2 ∷ 3 ∷ [] })
unfolding ◌>>=◌ run_function curry new_object
three_in_order = refl

ten_in_order :
    (new_callback10 (List ℕ) ℕ ℕ ℕ ℕ ℕ ℕ ℕ ℕ ℕ ℕ note_ten 1 2 3 4 5 6 7 8 9 10 >>= run_function)
      nothing_noted
    ≡ (
      ok tt,
      record { closures = []; next = 5; others = 1 ∷ 2 ∷ 3 ∷ 4 ∷ 5 ∷ 6 ∷ 7 ∷ 8 ∷ 9 ∷ 10 ∷ [] },
    )
unfolding ◌>>=◌ run_function curry new_object
ten_in_order = refl

method_stays :
    (new_permanent_method_callback2 (List ℕ) ℕ ℕ ℕ 9 note_three 1 2 >>= λ callback.
    run_method callback >> run_method callback)
      nothing_noted
    ≡ (ok tt, record { closures = 4 ∷ []; next = 5; others = 9 ∷ 1 ∷ 2 ∷ [] })
unfolding ◌>>=◌ run_method curry new_object
method_stays = refl

-- A function that deletes the closure at 4.
abbrev delete_four : Args (ℕ ∷ []) → Run (List ℕ)
delete_four args memory = (ok tt, record memory { closures = []; others = args.0 ∷ [] })

permanent_run_is_call_example :
    ((apply (ℕ ∷ []) (new_permanent_callback (List ℕ) (ℕ ∷ []) (curry (ℕ ∷ []) delete_four)) (7, tt)
          >>= run_function)
        nothing_noted
      ≡ (ok tt, record { closures = []; next = 5; others = 7 ∷ [] }))
    × ((apply
              (ℕ ∷ [])
              (new_permanent_method_callback
                (List ℕ)
                ℕ
                (ℕ ∷ [])
                9
                (λ o. curry (ℕ ∷ []) (λ args. note (o ∷ args.0 ∷ []))))
              (7, tt)
            >>= run_method)
          nothing_noted
        ≡ (ok tt, record { closures = 4 ∷ []; next = 5; others = 9 ∷ 7 ∷ [] }))
permanent_run_is_call_example =
    permanent_run_is_call (ℕ ∷ []) delete_four 9 (λ o args. note (o ∷ args.0 ∷ [])) (7, tt)
      nothing_noted

abbrev note_two : Args (ℕ ∷ ℕ ∷ []) → Run (List ℕ)
note_two args = note (args.0 ∷ args.1.0 ∷ [])

callback_runs_once_example :
    ((apply
            (ℕ ∷ ℕ ∷ [])
            (new_callback (List ℕ) (ℕ ∷ ℕ ∷ []) (curry (ℕ ∷ ℕ ∷ []) note_two))
            (7, (8, tt))
          >>= run_function)
        nothing_noted
      ≡ (ok tt, record { closures = []; next = 5; others = 7 ∷ 8 ∷ [] }))
    × ((apply
              (ℕ ∷ ℕ ∷ [])
              (new_callback (List ℕ) (ℕ ∷ ℕ ∷ []) (curry (ℕ ∷ ℕ ∷ []) note_two))
              (7, (8, tt))
            >>= λ callback. run_function callback >> run_function callback)
          nothing_noted
        ≡ (fault, record { closures = []; next = 5; others = 7 ∷ 8 ∷ [] }))
callback_runs_once_example =
    callback_runs_once (ℕ ∷ ℕ ∷ []) note_two (7, (8, tt)) nothing_noted
      (record { closures = 4 ∷ []; next = 5; others = 7 ∷ 8 ∷ [] }) refl refl

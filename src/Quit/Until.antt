-- ===== src/Quit/Until.antt =====
-- When the loops that wait for the wish to quit come to their end.
use frrpc.Prelude.{ℕ, Bool, true, false, List, [], ◌∷◌, ◌==◌, if◌then◌else◌, ◌||◌, ◌≡◌, refl, arith}
use frrpc.Prelude.Outcome.{ok, fault, exhausted}
use frrpc.Prelude.Effect.{◌>>=◌}
use frrpc.Quit.{
  SigHandler, sig_dfl, sig_ign, sig_err, function, is_error, QuitFlag, new_flag, sigint,
  ask_to_quit, signal_handle, check_register, register_quit_signal, once, is_asked_to_quit, deliver,
  wait_for_quit, run_until_quit,
}

abbrev pub interrupted : List ℕ → Bool
interrupted [] = false
interrupted (sign ∷ signs) = sign == sigint || interrupted signs

abbrev pub ever_interrupted : List (List ℕ) → Bool
ever_interrupted [] = false
ever_interrupted (signs ∷ sleeps) = interrupted signs || ever_interrupted sleeps

-- The check aborts for the error alone: its second branch is never taken.
pub check_register_lem :
    (ret : SigHandler) → check_register ret ≡ (if is_error ret then fault else ok tt)
unfolding check_register
check_register_lem sig_dfl = refl
check_register_lem sig_ign = refl
check_register_lem sig_err = refl
check_register_lem (function f) = refl

pub deliver_lem :
    (signs : List ℕ) (flag : QuitFlag)
    → deliver signal_handle signs flag ≡ record flag { quit = flag.quit || interrupted signs }
unfolding deliver signal_handle ask_to_quit
deliver_lem [] flag = ground arith
deliver_lem (sign ∷ signs) flag =
    ground (arith, deliver_lem signs flag, deliver_lem signs (record flag { quit = true }))

abbrev registered_flag : Bool → QuitFlag
registered_flag quit = record { quit = quit; registered = true }

-- Once the handler is registered.
wait_registered :
    (ret : SigHandler) (sleeps : List (List ℕ)) (quit : Bool)
    → (wait_for_quit (is_asked_to_quit ret) signal_handle sleeps (registered_flag quit)).0
      ≡ (if quit || ever_interrupted sleeps then ok tt else exhausted)
unfolding wait_for_quit is_asked_to_quit once ◌>>=◌
wait_registered ret [] true = refl
wait_registered ret [] false = refl
wait_registered ret (signs ∷ sleeps) true = refl
wait_registered ret (signs ∷ sleeps) false = ground (
  arith,
  deliver_lem signs (registered_flag false),
  wait_registered ret sleeps (interrupted signs),
)

-- A server that waits to quit: it aborts at once where the handler cannot be registered. Else it
-- goes on to stop exactly if SIGINT is among the signals of its sleeps.
pub run_until_quit_lem :
    (ret : SigHandler) (sleeps : List (List ℕ))
    → (run_until_quit ret sleeps new_flag).0
      ≡ (if is_error ret then fault else (if ever_interrupted sleeps then ok tt else exhausted))
unfolding run_until_quit wait_for_quit is_asked_to_quit once register_quit_signal ◌>>=◌
run_until_quit_lem ret [] = ground (arith, check_register_lem ret)
run_until_quit_lem ret (signs ∷ sleeps) = ground (
  arith,
  check_register_lem ret,
  deliver_lem signs (registered_flag false),
  wait_registered ret sleeps (interrupted signs),
)

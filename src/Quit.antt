-- ===== src/Quit.antt =====
-- The wish to quit: src/rpc/frrpc_function.cpp, and `RunUntilQuit` of src/rpc/server.cpp. The signals
-- of each sleep of a loop are a list; a signal before the handler is registered is not shown.
pub mod Until
pub mod Main
pub mod Exit
use frrpc.Prelude.{ℕ, Bool, true, false, List, [], ◌∷◌, ◌==◌, if◌then◌else◌, ◌||◌, not}
use frrpc.Prelude.Outcome.{Outcome, ok, fault, exhausted}
use frrpc.Prelude.Effect.{Effect, pure, lift, gets, modify, ◌>>=◌, ◌>>◌}

-- What `signal` returns: one of its constants, or the function that was registered before.
pub data SigHandler : Type 0 where
  sig_dfl : SigHandler
  sig_ign : SigHandler
  sig_err : SigHandler
  function : ℕ → SigHandler

abbrev pub is_default : SigHandler → Bool
is_default sig_dfl = true
is_default sig_ign = false
is_default sig_err = false
is_default (function f) = false

abbrev pub is_ignored : SigHandler → Bool
is_ignored sig_ign = true
is_ignored sig_dfl = false
is_ignored sig_err = false
is_ignored (function f) = false

abbrev pub is_error : SigHandler → Bool
is_error sig_err = true
is_error sig_dfl = false
is_error sig_ign = false
is_error (function f) = false

-- The flag, and the state of the `pthread_once_t`.
pub record QuitFlag : Type 0 where
  pub quit : Bool
  pub registered : Bool

abbrev pub new_flag : QuitFlag
new_flag = record { quit = false; registered = false }

abbrev pub sigint : ℕ
sigint = 2

unfoldable pub ask_to_quit : QuitFlag → QuitFlag
ask_to_quit flag = record flag { quit = true }

unfoldable pub signal_handle : ℕ → QuitFlag → QuitFlag
unfolding ask_to_quit
signal_handle sign flag = if sign == sigint then ask_to_quit flag else flag

-- `fault` is `abort`.
unfoldable pub check_register : SigHandler → Outcome (Unit {0})
check_register ret =
    if not (is_default ret) || not (is_ignored ret)
    then (if is_error ret then fault else ok tt)
    else fault

-- `ret` is what `signal` returns here.
unfoldable pub register_quit_signal : SigHandler → Effect QuitFlag (Unit {0})
unfolding check_register
register_quit_signal ret = lift (check_register ret)

-- `pthread_once` of a function.
unfoldable pub once : Effect QuitFlag (Unit {0}) → Effect QuitFlag (Unit {0})
once routine = do
  done_before ← gets (λ flag. flag.registered)
  if done_before then pure tt else (do modify (λ flag. record flag { registered = true }); routine)

unfoldable pub is_asked_to_quit : SigHandler → Effect QuitFlag Bool
unfolding once register_quit_signal
is_asked_to_quit ret = do once (register_quit_signal ret); gets (λ flag. flag.quit)

unfoldable pub deliver : (ℕ → QuitFlag → QuitFlag) → List ℕ → QuitFlag → QuitFlag
deliver handle [] flag = flag
deliver handle (sign ∷ signs) flag = deliver handle signs (handle sign flag)

-- `while(!asked) { sleep }`, with the signals of each sleep; it is `exhausted` where the sleeps that
-- are listed are over and the loop is not.
unfoldable pub wait_for_quit :
    Effect QuitFlag Bool → (ℕ → QuitFlag → QuitFlag) → List (List ℕ) → Effect QuitFlag (Unit {0})
wait_for_quit asked handle [] = do quit ← asked; if quit then pure tt else lift exhausted
wait_for_quit asked handle (signs ∷ sleeps) = do
  quit ← asked
  if quit then pure tt else (do modify (deliver handle signs); wait_for_quit asked handle sleeps)

-- The loop of `RunUntilQuit`; it then calls `Stop`.
unfoldable pub run_until_quit : SigHandler → List (List ℕ) → Effect QuitFlag (Unit {0})
unfolding wait_for_quit is_asked_to_quit signal_handle deliver
run_until_quit ret sleeps = wait_for_quit (is_asked_to_quit ret) signal_handle sleeps

-- ===== src/Quit/Main.antt =====
-- The gateway's program: src/route/main.cpp, which has its own copy of the wish to quit. The settings
-- of the log are left out.
use frrpc.Prelude.{ℕ, Bool, true, String, List, [], ◌∷◌, ◌++◌, ◌==◌, if◌then◌else◌, ◌||◌, not}
use frrpc.Prelude.Int.{ℤ, pos, negsuc}
use frrpc.Prelude.Outcome.{fault, ok}
use frrpc.Prelude.Effect.{Effect, pure, lift, gets, modify, ◌>>◌}
use frrpc.Quit.{
  SigHandler, is_default, is_ignored, is_error, QuitFlag, new_flag, sigint, once, wait_for_quit,
}

unfoldable pub ask_to_quit : QuitFlag → QuitFlag
ask_to_quit flag = record flag { quit = true }

unfoldable pub signal_handle : ℕ → QuitFlag → QuitFlag
unfolding ask_to_quit
signal_handle sign flag = if sign == sigint then ask_to_quit flag else flag

-- `fault` is `abort`.
unfoldable pub register_quit_signal : SigHandler → Effect QuitFlag (Unit {0})
register_quit_signal ret = lift (
    if not (is_default ret) || not (is_ignored ret)
    then (if is_error ret then fault else ok tt)
    else fault)

unfoldable pub is_asked_to_quit : SigHandler → Effect QuitFlag Bool
unfolding once register_quit_signal
is_asked_to_quit ret = do once (register_quit_signal ret); gets (λ flag. flag.quit)

-- `SingleIniCfg` of frpublic: whether a file is read, and what it then says.
pub record IniCfg : Type 0 where
  pub init_file : String → Bool
  pub get_string : String → String → String
  pub get_int : String → String → ℕ

-- What was done with the gateway: it was started at an address and a port, and stopped.
pub data Call : Type 0 where
  start : String → ℕ → Call
  stop : Call

pub record Program : Type 0 where
  pub flag : QuitFlag
  pub calls : List Call

abbrev pub new_program : Program
new_program = record { flag = new_flag; calls = [] }

-- The first argument after the program's name, or a default.
unfoldable pub ini_path : List String → String
ini_path [] = "./route.ini"
ini_path (path ∷ args) = path

abbrev pub note_call : Call → Program → Program
note_call c program = record program { calls = program.calls ++ c ∷ [] }

-- The loop of `main`.
unfoldable pub sleep_until_quit : SigHandler → List (List ℕ) → Effect Program (Unit {0})
unfolding wait_for_quit
sleep_until_quit ret sleeps program =
    let (result, flag) = wait_for_quit (is_asked_to_quit ret) signal_handle sleeps program.flag in
    (result, record program { flag = flag })

-- `starts` is what `RpcRoute::Start` returns for an address and a port.
unfoldable pub main :
    IniCfg → (String → ℕ → Bool) → SigHandler → List String → List (List ℕ) → Effect Program ℤ
unfolding sleep_until_quit ini_path
main ini starts ret args sleeps =
    if not (ini.init_file (ini_path args)) then pure (negsuc 0) else (do
      let ip = ini.get_string "network" "ip"
      let port = ini.get_int "network" "port"
      modify (note_call (start ip port))
      if not (starts ip port)
          then pure (negsuc 0)
          else (do sleep_until_quit ret sleeps; modify (note_call stop); pure (pos 0)))

-- ===== src/Quit/Exit.antt =====
-- How the gateway's program ends.
use frrpc.Prelude.{ℕ, Bool, true, false, String, List, [], ◌∷◌, if◌then◌else◌, ◌&&◌, ◌+◌}
use frrpc.Prelude.Int.{ℤ, pos, negsuc}
use frrpc.Prelude.Outcome.{Outcome, ok, fault, exhausted}
use frrpc.Quit
use frrpc.Quit.{SigHandler, is_error, QuitFlag}
use frrpc.Quit.Until.{ever_interrupted}
use frrpc.Quit.Main.{Call, IniCfg, start, stop, ini_path}

module _ (ini : IniCfg) (starts : String → ℕ → Bool) where
  abbrev pub begins : List String → Bool
  begins args =
      ini.init_file (ini_path args)
      && starts (ini.get_string "network" "ip") (ini.get_int "network" "port")

  -- What the program returns, described by its circumstances.
  abbrev pub outcome : SigHandler → List String → List (List ℕ) → Outcome ℤ
  outcome ret args sleeps =
      if begins args
      then (if is_error ret
          then fault
          else (if ever_interrupted sleeps then ok (pos 0) else exhausted))
      else ok (negsuc 0)

  abbrev pub is_stop : Call → Bool
  is_stop stop = true
  is_stop (start ip port) = false

  abbrev pub stops : List Call → ℕ
  stops [] = 0
  stops (c ∷ cs) = (if is_stop c then 1 else 0) + stops cs

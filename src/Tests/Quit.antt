-- ===== src/Tests/Quit.antt =====
-- The gateway's program, told to quit in its second sleep.
use frrpc.Prelude.{ℕ, Bool, true, false, String, List, [], ◌∷◌, ◌≡◌, refl}
use frrpc.Prelude.Int.{pos, negsuc}
use frrpc.Prelude.Outcome.{ok}
use frrpc.Quit.{SigHandler, new_flag, run_until_quit}
use frrpc.Quit.Main.{IniCfg, Call, new_program, main}

abbrev settings : IniCfg
settings = record {
  init_file = λ path. true;
  get_string = λ part key. "127.0.0.1";
  get_int = λ part key. 12100;
}

abbrev starting : String → ℕ → Bool
starting ip port = true

abbrev sleeps : List (List ℕ)
sleeps = [] ∷ (15 ∷ 2 ∷ []) ∷ [] ∷ []

main_returns :
    (main settings starting SigHandler.sig_dfl ("route.ini" ∷ []) sleeps new_program).0 ≡ ok (pos 0)
unfolding main frrpc.Prelude.Effect.◌>>=◌ frrpc.Quit.Main.is_asked_to_quit frrpc.Quit.deliver
    frrpc.Quit.Main.signal_handle
main_returns = refl

main_fails :
    (main settings (λ ip port. false) SigHandler.sig_dfl [] sleeps new_program).0 ≡ ok (negsuc 0)
unfolding main frrpc.Prelude.Effect.◌>>=◌
main_fails = refl

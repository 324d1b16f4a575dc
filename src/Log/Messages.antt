-- ===== src/Log/Messages.antt =====
-- The message log after any calls of the log's functions.
use frrpc.Prelude.{
  ℕ, Bool, true, false, String, List, [], ◌∷◌, none, some, if◌then◌else◌, ◌≡◌, refl, arith,
}
use frrpc.Prelude.Outcome.{ok, fault}
use frrpc.Json.Library.{JsonLibrary}
use frrpc.Json.{Message, c_str}
use frrpc.Json.Names.{Distinct}
use frrpc.Json.Plain.{is_plain, members_of, pb_to_json_lem}
use frrpc.Log.{
  LogLevel, Log, new_log, open_msg_log, open_log, close_log, close_msg_log, message_text, msg_debug,
}

pub data LogCall : Type 0 where
  opens_log : String → LogLevel → ℕ → LogCall
  closes_log : LogCall
  opens_msg_log : LogCall
  closes_msg_log : LogCall

pub after_call : LogCall → Log → Log
unfolding open_log close_log open_msg_log close_msg_log
after_call (opens_log path log_level size) log = open_log path log_level size log
after_call closes_log log = close_log log
after_call opens_msg_log log = open_msg_log log
after_call closes_msg_log log = close_msg_log log

pub after_calls : List LogCall → Log → Log
after_calls [] log = log
after_calls (c ∷ cs) log = after_calls cs (after_call c log)

-- Whether the last of the calls that touch the message log opened it.
pub last_opened : Bool → List LogCall → Bool
last_opened b [] = b
last_opened b (opens_log path log_level size ∷ cs) = last_opened true cs
last_opened b (closes_log ∷ cs) = last_opened b cs
last_opened b (opens_msg_log ∷ cs) = last_opened true cs
last_opened b (closes_msg_log ∷ cs) = last_opened false cs

is_open-after_calls :
    (cs : List LogCall) (log : Log)
    → (after_calls cs log).is_open_msg_log ≡ last_opened log.is_open_msg_log cs
unfolding after_calls after_call last_opened
is_open-after_calls [] log = refl
is_open-after_calls (opens_log path log_level size ∷ cs) log =
    is_open-after_calls cs (after_call (opens_log path log_level size) log)
is_open-after_calls (closes_log ∷ cs) log = is_open-after_calls cs (after_call closes_log log)
is_open-after_calls (opens_msg_log ∷ cs) log = is_open-after_calls cs (after_call opens_msg_log log)
is_open-after_calls (closes_msg_log ∷ cs) log =
    is_open-after_calls cs (after_call closes_msg_log log)

module _ (json : JsonLibrary) (byte_size : Message → ℕ) where
  -- Logging a message whose fields have distinct names, after any calls of the log's functions:
  -- where the last of those that touch the message log closed it, or there is none, nothing is
  -- written; `CloseLog` does not touch it. Where the last opened it, the text of a plain message is
  -- written, and for every other message an assertion fails.
  pub msg_debug_lem :
      (cs : List LogCall) (message : Message)
      → Distinct message
      → msg_debug json byte_size (some message) (after_calls cs new_log) ≡ (
          if last_opened false cs
          then (if is_plain json byte_size message
              then ok (some (c_str (json.accept (json.object (members_of json byte_size message)))))
              else fault)
          else ok none)
  unfolding msg_debug message_text
  msg_debug_lem cs message d =
      ground (arith, is_open-after_calls cs new_log, pb_to_json_lem json byte_size message d)

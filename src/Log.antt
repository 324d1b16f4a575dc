-- ===== src/Log.antt =====
-- The switches of the log: src/rpc/frrpc_log.{h,cpp}, and its macros for messages. What frpublic's
-- log server does is left out but for the calls that it gets.
pub mod Messages
use frrpc.Prelude.{
  ℕ, ◌*◌, Bool, true, false, String, List, [], ◌∷◌, ◌++◌, Option, none, some, if◌then◌else◌,
}
use frrpc.Prelude.Outcome.{Outcome, ok, ◌>>=◌}
use frrpc.Json.Library.{JsonLibrary}
use frrpc.Json.{Message, pb_to_json}

abbrev pub log_key : String
log_key = "frrpc"

abbrev pub msg_log_key : String
msg_log_key = "rpc_msg"

-- `eLogLevel_Info`, or a level of the caller's.
pub data LogLevel : Type 0 where
  info : LogLevel
  level : ℕ → LogLevel

-- A call of `SingleLogServer`.
pub data ServerCall : Type 0 where
  init_log : String → ℕ → ServerCall
  set_log_level : String → LogLevel → ServerCall

pub record Log : Type 0 where
  pub is_open_log : Bool
  pub is_open_msg_log : Bool
  pub calls : List ServerCall

abbrev pub new_log : Log
new_log = record { is_open_log = false; is_open_msg_log = false; calls = [] }

unfoldable pub open_msg_log : Log → Log
open_msg_log log = record log {
  is_open_msg_log = true;
  calls = log.calls ++ set_log_level msg_log_key info ∷ [];
}

unfoldable pub open_log : String → LogLevel → ℕ → Log → Log
unfolding open_msg_log
open_log log_path log_level file_size log = open_msg_log (record log {
  is_open_log = true;
  calls = log.calls ++ (init_log log_path file_size ∷ set_log_level log_key log_level ∷ []);
})

unfoldable pub close_log : Log → Log
close_log log = record log { is_open_log = false }

unfoldable pub close_msg_log : Log → Log
close_msg_log log = record log { is_open_msg_log = false }

-- The text of a message in the macros, where `none` is a null pointer, and the line that is written.
module _ (json : JsonLibrary) (byte_size : Message → ℕ) where
  unfoldable pub message_text : Option Message → Outcome (List ℕ)
  message_text none = ok (b'n' ∷ b'u' ∷ b'l' ∷ b'l' ∷ [])
  message_text (some message) = pb_to_json json byte_size message

  -- `MSG_DEBUG_FORMAT` with a message; `none` says that nothing is written.
  unfoldable pub msg_debug : Option Message → Log → Outcome (Option (List ℕ))
  unfolding message_text
  msg_debug message log =
      if log.is_open_msg_log then (do line ← message_text message; ok (some line)) else ok none

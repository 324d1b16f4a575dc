-- ===== src/Rpc/Channel/Parse.antt =====
-- The parsing threads of `Channel::InitThreads` of src/rpc/channel.cpp: what one does with the
-- packets that it has fetched.
pub mod Answers
pub mod Stray
use frrpc.Prelude.{ℕ, suc, Bool, List, [], ◌∷◌, ◌++◌, Option, none, some, if◌then◌else◌}
use frrpc.Prelude.Outcome.{Outcome, ok, refused, fault, exhausted}
use frrpc.Prelude.Effect.{Effect, pure, ◌>>=◌, ◌>>◌}
use frrpc.Wire.Packet.{RpcPacket}
use frrpc.Net.Base.{LockQueue}
use frrpc.Rpc.Channel.{Channel, ChannelCallback}
use frrpc.Rpc.Channel.Requests.{clear_timeout_request}
use frrpc.Rpc.Channel.Registry.{parse_packet}

-- What `net_event_cb_` is called with.
abbrev pub told : Option ℕ → List ℕ
told none = []
told (some event) = event ∷ []

-- A packet that is refused is logged, and the next one is taken.
abbrev pub parse_next : Outcome (Option ℕ) → Effect Channel (List ℕ)
parse_next (ok event) channel = (ok (told event), channel)
parse_next refused channel = (ok [], channel)
parse_next fault channel = (fault, channel)
parse_next exhausted channel = (exhausted, channel)

module _ (queues : LockQueue ChannelCallback) where
  unfoldable pub parse_or_log : RpcPacket → Effect Channel (List ℕ)
  unfolding parse_packet
  parse_or_log packet channel =
      let (done, after) = parse_packet queues packet channel in parse_next done after

  -- The answers of `run_thread_` before each packet. The events that the application was told, in
  -- order, and what is left in the thread's own queue.
  unfoldable pub parse_queue :
      (ℕ → Bool) → List RpcPacket → Effect Channel (List ℕ × List RpcPacket)
  unfolding parse_or_log
  parse_queue run_thread [] = pure ([], [])
  parse_queue run_thread (packet ∷ queue) =
      let rest = parse_queue (λ n. run_thread (suc n)) queue in
      if run_thread 0
      then (do events ← parse_or_log packet; others ← rest; pure (events ++ others.0, others.1))
      else pure ([], packet ∷ queue)

  -- One round over the packets that are in the thread's queue.
  unfoldable pub parse_round :
      (ℕ → Bool) → ℕ → List RpcPacket → Effect Channel (List ℕ × List RpcPacket)
  unfolding parse_queue
  parse_round run_thread cur_time queue = do
    parsed ← parse_queue run_thread queue
    clear_timeout_request queues cur_time
    pure parsed

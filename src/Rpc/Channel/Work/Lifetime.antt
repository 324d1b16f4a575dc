-- ===== src/Rpc/Channel/Work/Lifetime.antt =====
-- The life of a channel's callbacks, whatever happens to the channel.
use frrpc.Prelude.{
  ℕ, Bool, false, ◌==◌, if◌then◌else◌, arith, ◌≡◌, List, [], ◌∷◌, Option, some, nat_key, map,
  String,
}
use frrpc.Prelude.Outcome.{ok}
use frrpc.Prelude.Map.{lookup, erase, lookup-erase}
use frrpc.Wire.External.{Codec, External}
use frrpc.Wire.Packet.{RpcPacket}
use frrpc.Net.Base.{LockQueue, Answers}
use frrpc.Rpc.Channel.{Channel, ChannelCallback}
use frrpc.Rpc.Channel.Requests.{
  do_request_packet, cancel_request, clear_timeout_request, call_method,
}
use frrpc.Rpc.Channel.Registry.{do_register_packet}
use frrpc.Rpc.Channel.Work.{async_request, work, destroy}
use frrpc.Rpc.Channel.Work.Owned.{holders, Owns, IsOwned, Moves-IsOwned, cntl_of, response_of}
use frrpc.Rpc.Channel.Work.Kept.{
  do_request_packet-Moves, cancel_request-Moves, clear_timeout_request-Moves,
}
use frrpc.Rpc.Channel.Work.Calls.{call_method-IsOwned, IsFree}
use frrpc.Rpc.Channel.Work.Taken.{do_register_packet-IsOwned, async_request-IsOwned}
use frrpc.Rpc.Channel.Work.Deal.{called_by, work_lem, destroy_lem}

-- What the application and the threads of a channel do.
pub data ChannelEvent (M : Type 0) : Type 0 where
  calls : String → ℕ → ℕ → M → Option ℕ → Option ℕ → ℕ → ChannelEvent M
  calls_async : String → ℕ → M → ℕ → ℕ → ChannelEvent M
  responds : RpcPacket → ChannelEvent M
  notifies : RpcPacket → ChannelEvent M
  checks : ℕ → ChannelEvent M
  cancels : ℕ → ChannelEvent M
  works : ℕ → ChannelEvent M
  lets_go : ℕ → ℕ → ChannelEvent M

-- A caller destroys a controller and a response of its own.
abbrev pub let_go : ℕ → ℕ → Channel → Channel
let_go cntl response channel = record channel {
  controllers = erase cntl channel.controllers;
  responses = erase response channel.responses;
}

let_go-Owns :
    {of : ChannelCallback → ℕ} {stored : Channel → ℕ → Bool} (cntl response gone : ℕ)
    (channel : Channel)
    → ((address : ℕ)
        → stored (let_go cntl response channel) address
          ≡ (if gone == address then false else stored channel address))
    → holders of gone channel ≡ 0
    → Owns of stored channel
    → Owns of stored (let_go cntl response channel)
unfolding holders
let_go-Owns {of = of} cntl response gone channel erased free h = record {
  once = λ a. h.once a;
  exists = λ a p. ground (arith, erased a, h.exists a);
  below = λ a p. ground (arith, erased a, h.below a);
}

let_go-IsOwned :
    (cntl response : ℕ) (channel : Channel)
    → holders cntl_of cntl channel ≡ 0
    → holders response_of response channel ≡ 0
    → IsOwned channel
    → IsOwned (let_go cntl response channel)
let_go-IsOwned cntl response channel free unread h = record {
  cntls =
      let_go-Owns cntl response cntl channel
        (λ a. ground (arith, lookup-erase cntl a channel.controllers)) free h.cntls;
  responses =
      let_go-Owns cntl response response channel
        (λ a. ground (arith, lookup-erase response a channel.responses)) unread h.responses;
}

module _ {M : Type 0} (queues : LockQueue ChannelCallback) (ext : External) (answers : Answers)
    (codec : Codec M) where
  abbrev pub after_event : ChannelEvent M → Channel → Channel
  after_event (calls service_name method_index cntl request response closure cur_time) channel =
      (call_method ext answers codec service_name method_index (some cntl) request response closure
        cur_time channel).1
  after_event (calls_async service_name method_index request function cur_time) channel =
      (async_request ext answers codec service_name method_index request function cur_time
        channel).1
  after_event (responds packet) channel = (do_request_packet queues packet channel).1
  after_event (notifies packet) channel = (do_register_packet queues packet channel).1
  after_event (checks now) channel = (clear_timeout_request queues now channel).1
  after_event (cancels id) channel = (cancel_request id channel).1
  after_event (works n) channel = (work queues n channel).1
  after_event (lets_go cntl response) channel = let_go cntl response channel

  abbrev pub after_events : List (ChannelEvent M) → Channel → Channel
  after_events [] channel = channel
  after_events (event ∷ events) channel = after_events events (after_event event channel)

  -- A call comes with a controller and a response that no callback has, and the response exists; a
  -- caller destroys only what no callback has.
  abbrev pub IsFair : ChannelEvent M → Channel → Type 0
  IsFair (calls service_name method_index cntl request response closure cur_time) channel =
      (holders cntl_of cntl channel ≡ 0) × IsFree response channel
  IsFair (calls_async service_name method_index request function cur_time) channel = Unit
  IsFair (responds packet) channel = Unit
  IsFair (notifies packet) channel = Unit
  IsFair (checks now) channel = Unit
  IsFair (cancels id) channel = Unit
  IsFair (works n) channel = Unit
  IsFair (lets_go cntl response) channel =
      (holders cntl_of cntl channel ≡ 0) × (holders response_of response channel ≡ 0)

  abbrev pub AllFair : List (ChannelEvent M) → Channel → Type 0
  AllFair [] channel = Unit
  AllFair (event ∷ events) channel =
      IsFair event channel × AllFair events (after_event event channel)

  after_event-IsOwned :
      (event : ChannelEvent M) (channel : Channel)
      → IsFair event channel
      → IsOwned channel
      → IsOwned (after_event event channel)
  after_event-IsOwned (calls service_name method_index cntl request response closure cur_time)
        channel fair h =
      call_method-IsOwned ext answers codec service_name method_index request response closure
        cur_time cntl channel fair.0 fair.1 h
  after_event-IsOwned (calls_async service_name method_index request function cur_time) channel fair
        h =
      async_request-IsOwned ext answers codec service_name method_index request function cur_time
        channel h
  after_event-IsOwned (responds packet) channel fair h =
      Moves-IsOwned (do_request_packet-Moves queues packet channel) h
  after_event-IsOwned (notifies packet) channel fair h =
      do_register_packet-IsOwned queues packet channel h
  after_event-IsOwned (checks now) channel fair h =
      Moves-IsOwned (clear_timeout_request-Moves queues now channel) h
  after_event-IsOwned (cancels id) channel fair h =
      Moves-IsOwned (cancel_request-Moves queues id channel) h
  after_event-IsOwned (works n) channel fair h = (work_lem queues n channel h).1
  after_event-IsOwned (lets_go cntl response) channel fair h =
      let_go-IsOwned cntl response channel fair.0 fair.1 h

  -- In an owned channel every controller and every response is had by one callback at most, pending
  -- or queued, and exists as long as one has it; and nothing stands at an address that is still to
  -- be given out. An owned channel stays owned, whatever calls, asynchronous calls, responses,
  -- notices, checks for timeouts, cancellations and rounds of the work threads follow one another,
  -- where a call comes with a controller and a response that no callback has, and with a response
  -- that exists, and where the callers destroy controllers and responses of theirs that no callback
  -- has.
  pub after_events-IsOwned :
      (events : List (ChannelEvent M)) (channel : Channel)
      → AllFair events channel
      → IsOwned channel
      → IsOwned (after_events events channel)
  after_events-IsOwned [] channel fair h = h
  after_events-IsOwned (event ∷ events) channel fair h =
      after_events-IsOwned events (after_event event channel) fair.1
        (after_event-IsOwned event channel fair.0 h)

  -- In a channel that starts with every controller and response had by one callback at most, and
  -- existing then, events follow where each call comes with a controller and a response that no
  -- callback has, and with a response that exists, and where callers destroy only what no callback
  -- has. A callback is called and deleted in one step. Then a round of a work thread follows no
  -- dangling pointer to a controller or a response and deletes none twice: it comes to its end, and
  -- each callback that it takes from the front of the queue wakes its thread or runs its closure, as
  -- its controller says. So does the destructor of the channel with the pending callbacks.
  pub lifetime_is_safe :
      (events : List (ChannelEvent M)) (n : ℕ) (channel : Channel)
      → AllFair events channel
      → IsOwned channel
      → ((work queues n (after_events events channel)).0
          ≡ ok (
              map
                (called_by (λ address. lookup address (after_events events channel).controllers))
                (queues.pop (after_events events channel).already_callback_queue n).0))
        × ((destroy (after_events events channel)).0 ≡ ok tt)
  lifetime_is_safe events n channel fair h =
      let owned = after_events-IsOwned events channel fair h in
      (
        (work_lem queues n (after_events events channel) owned).0,
        destroy_lem (after_events events channel) owned,
      )

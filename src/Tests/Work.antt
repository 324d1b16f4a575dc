-- ===== src/Tests/Work.antt =====
-- A channel whose calls are answered, and whose callbacks are run.
use frrpc.Prelude.{ℕ, ◌≡◌, refl, arith, none, some, List, [], ◌∷◌, false, true, map, nat_key}
use frrpc.Prelude.Outcome.{ok, fault}
use frrpc.Prelude.Map.{lookup}
use frrpc.Wire.Packet.{RpcPacket, event_method}
use frrpc.Rpc.Controller.{new_channel_controller, set_failed}
use frrpc.Rpc.Channel.{Channel, new_channel, new_option}
use frrpc.Rpc.Channel.Requests.{do_request_packet, send_request, new_channel_callback}
use frrpc.Rpc.Channel.Registry.{woken}
use frrpc.Rpc.Channel.Work.{work, destroy}
use frrpc.Rpc.Channel.Work.Owned.{IsOwned, holders, count_queued, count_pending}
use frrpc.Rpc.Channel.Work.Deal.{called_by}
use frrpc.Rpc.Channel.Work.Lifetime.{
  ChannelEvent, after_events, AllFair, lifetime_is_safe, after_events-IsOwned,
}
use frrpc.Rpc.Channel.Work.Wakeup.{woken_before_wait}
use frrpc.Tests.Data.{sample, fifo, all_sent, bytes_codec, call_meta, call_body}

-- A controller for an asynchronous call is at 1, one for a synchronous call at 2.
abbrev quiet : Channel
quiet =
    record (new_channel (new_option 0)
      ((1, new_channel_controller true false) ∷ (2, new_channel_controller true true) ∷ []) 20) {
        init_success = true;
        responses = (11, []) ∷ (12, []) ∷ [];
      }

quiet-IsOwned : IsOwned quiet
unfolding holders count_queued count_pending lookup
quiet-IsOwned = record {
  cntls = record {
    once = λ a. omega arith;
    exists = λ a p. absurd (omega arith);
    below = λ a p. ground arith;
  };
  responses = record {
    once = λ a. omega arith;
    exists = λ a p. absurd (omega arith);
    below = λ a p. ground arith;
  };
}

abbrev answer : ℕ → RpcPacket
answer id = record {
  link_id = 0;
  net_event = event_method;
  rpc_meta = record call_meta { rpc_request_meta = record { request_id = id } };
  binary = some (8 ∷ []);
}

abbrev events : List (ChannelEvent (List ℕ))
events =
    ChannelEvent.calls "echo" 0 1 call_body (some 11) (some 77) 100
    ∷ ChannelEvent.calls_async "echo" 0 call_body 78 100
    ∷ ChannelEvent.responds (answer 1)
    ∷ ChannelEvent.responds (answer 2)
    ∷ ChannelEvent.lets_go 2 12
    ∷ []

events_are_fair : AllFair fifo sample all_sent bytes_codec events quiet
unfolding holders count_queued count_pending lookup do_request_packet frrpc.Prelude.Effect.◌>>=◌
    frrpc.Rpc.Channel.Work.async_request frrpc.Rpc.Channel.Requests.call_method
    frrpc.Prelude.Map.contains frrpc.Net.ChannelNet.send frrpc.Net.Base.client_send
    frrpc.Prelude.Map.insert frrpc.Prelude.Map.update frrpc.Rpc.Controller.failed
    frrpc.Prelude.Map.erase
events_are_fair = ((refl, (refl, refl)), (tt, (tt, (tt, ((refl, refl), tt)))))

after_events-IsOwned_example : IsOwned (after_events fifo sample all_sent bytes_codec events quiet)
after_events-IsOwned_example =
    after_events-IsOwned fifo sample all_sent bytes_codec events quiet events_are_fair quiet-IsOwned

-- Two callbacks with controllers of their own and one response between them: the second deletion of
-- the response is undefined behaviour.
abbrev shared : Channel
shared = record quiet {
  controllers =
      (1, new_channel_controller true false) ∷ (3, new_channel_controller true false) ∷ [];
  already_callback_queue =
      new_channel_callback none 1 11 false ∷ new_channel_callback none 3 11 false ∷ [];
}

shared_response_faults : (work fifo 5 shared).0 ≡ fault
unfolding work frrpc.Prelude.Effect.◌>>=◌ lookup frrpc.Prelude.Map.erase
shared_response_faults = refl

lifetime_is_safe_example :
    ((work fifo 5 (after_events fifo sample all_sent bytes_codec events quiet)).0
      ≡ ok (
          map
            (called_by (λ address.
              lookup address
                (after_events fifo sample all_sent bytes_codec events quiet).controllers))
            (fifo.pop
              (after_events fifo sample all_sent bytes_codec events quiet).already_callback_queue
              5).0))
    × ((destroy (after_events fifo sample all_sent bytes_codec events quiet)).0 ≡ ok tt)
lifetime_is_safe_example =
    lifetime_is_safe fifo sample all_sent bytes_codec events 5 quiet events_are_fair quiet-IsOwned

abbrev waiting : Channel
waiting =
    (send_request sample all_sent bytes_codec "echo" 0 (some 2) call_body (some 12) none quiet).1

waiting_sent :
    send_request sample all_sent bytes_codec "echo" 0 (some 2) call_body (some 12) none quiet
    ≡ (ok tt, waiting)
unfolding send_request frrpc.Prelude.Effect.◌>>=◌ frrpc.Rpc.Channel.get_controller lookup
    frrpc.Prelude.Map.contains frrpc.Net.ChannelNet.send frrpc.Net.Base.client_send
waiting_sent = refl

waiting_id : waiting.request_id ≡ 1
unfolding send_request frrpc.Prelude.Effect.◌>>=◌ frrpc.Rpc.Channel.get_controller lookup
    frrpc.Prelude.Map.contains frrpc.Net.ChannelNet.send frrpc.Net.Base.client_send
waiting_id = refl

woken_before_wait_example :
    ((work fifo 5 (do_request_packet fifo (answer 1) waiting).1).0 ≡ ok (woken ∷ []))
    × (lookup waiting.request_id
          (work fifo 5 (do_request_packet fifo (answer 1) waiting).1).1.request_callback
        ≡ none)
    × ((work fifo 5 (do_request_packet fifo (answer 1) waiting).1).1.already_callback_queue ≡ [])
    × (lookup 2 (work fifo 5 (do_request_packet fifo (answer 1) waiting).1).1.controllers
        ≡ some (
            set_failed ""
              (record (new_channel_controller true true) { request_id = waiting.request_id })))
    × (lookup 12 (work fifo 5 (do_request_packet fifo (answer 1) waiting).1).1.responses
        ≡ some (8 ∷ []))
unfolding lookup send_request frrpc.Prelude.Effect.◌>>=◌ frrpc.Rpc.Channel.get_controller
    frrpc.Prelude.Map.contains frrpc.Net.ChannelNet.send frrpc.Net.Base.client_send
woken_before_wait_example =
    woken_before_wait fifo sample all_sent bytes_codec "echo" 0 2 12 5 call_body none quiet waiting
      (new_channel_controller true true) (answer 1) (8 ∷ []) [] refl refl refl refl waiting_sent
      refl (omega (arith, waiting_id)) refl refl refl

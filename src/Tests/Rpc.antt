-- ===== src/Tests/Rpc.antt =====
-- A channel that calls, and what arrives for it.
use frrpc.Prelude.{
  ℕ, suc, ◌+◌, ◌≡◌, ◌≢◌, refl, arith, none, some, String, Option, List, [], ◌∷◌, ◌++◌, false, true,
  length, if◌then◌else◌, inl, inr, nat_key, ◌==◌, string_key,
}
use frrpc.Prelude.Outcome.{ok, fault}
use frrpc.Prelude.Map.{lookup}
use frrpc.Wire.Packet.{RpcPacket, event_method}
use frrpc.Rpc.Controller.{new_channel_controller, set_failed}
use frrpc.Rpc.Channel.{
  Channel, ChannelCallback, CallbackInfo, new_channel, new_option, convert_method_key,
}
use frrpc.Rpc.Channel.Requests.{
  call_method, send_request, note_timeout, do_request_packet, clear_timeout_request,
  new_channel_callback,
}
use frrpc.Rpc.Channel.Requests.Responses.{call_is_answered}
use frrpc.Rpc.Channel.Requests.Timeouts.{
  IsLinked, timeouts_cleared, later_than, expired_ids, is_among,
}
use frrpc.Rpc.Channel.Requests.Interleaved.{first_call_has_no_timeout}
use frrpc.Rpc.Channel.Registry.{register_callback, do_register_packet}
use frrpc.Rpc.Channel.Registry.Registered.{second_registration_deadlocks, registered_is_called}
use frrpc.Tests.Data.{sample, fifo, all_sent, bytes_codec, call_meta, call_body}

-- Its controllers are at 1 and 2.
abbrev channel : Channel
channel =
    record (new_channel (new_option 0)
      ((1, new_channel_controller true false) ∷ (2, new_channel_controller true false) ∷ []) 20) {
        init_success = true;
        responses = (11, []) ∷ (12, []) ∷ [];
      }

abbrev called : Channel
called =
    (call_method sample all_sent bytes_codec "echo" 0 (some 1) call_body (some 11) (some 77) 100
      channel).1

call_succeeds :
    call_method sample all_sent bytes_codec "echo" 0
      (some 1)
      call_body
      (some 11)
      (some 77)
      100
      channel
    ≡ (ok tt, called)
unfolding call_method frrpc.Prelude.Effect.◌>>=◌ frrpc.Rpc.Channel.get_controller lookup
    frrpc.Prelude.Map.contains frrpc.Net.ChannelNet.send frrpc.Net.Base.client_send
call_succeeds = refl

abbrev response : RpcPacket
response = record {
  link_id = 0;
  net_event = event_method;
  rpc_meta = record call_meta { rpc_request_meta = record { request_id = 1 } };
  binary = some (8 ∷ []);
}

answered : (do_request_packet fifo response called).0 ≡ ok tt
unfolding lookup call_method frrpc.Prelude.Effect.◌>>=◌ frrpc.Rpc.Channel.get_controller
    frrpc.Prelude.Map.contains frrpc.Net.ChannelNet.send frrpc.Net.Base.client_send
answered =
    (call_is_answered fifo sample all_sent bytes_codec "echo" 0 1 11 100 call_body (some 77) channel
      called (new_channel_controller true false) response (8 ∷ []) [] refl refl call_succeeds refl
      (omega arith) refl refl).0

called-IsLinked : IsLinked called
unfolding call_method frrpc.Prelude.Effect.◌>>=◌ frrpc.Rpc.Channel.get_controller lookup
    frrpc.Prelude.Map.contains frrpc.Net.ChannelNet.send frrpc.Net.Base.client_send
    frrpc.Prelude.Map.insert frrpc.Prelude.Map.update
called-IsLinked = record { linked = λ id callback e. ground arith }

timeouts_cleared_example :
    ((clear_timeout_request fifo 1100 called).0 ≡ ok tt)
    × ((clear_timeout_request fifo 1100 called).1.timeout_events
        ≡ later_than 1100 called.timeout_events)
    × ((k : ℕ)
        → lookup k (clear_timeout_request fifo 1100 called).1.request_callback ≡ (
            if is_among k (expired_ids 1100 called.timeout_events)
            then none
            else lookup k called.request_callback))
unfolding call_method frrpc.Prelude.Effect.◌>>=◌ frrpc.Rpc.Channel.get_controller lookup
    frrpc.Prelude.Map.contains frrpc.Net.ChannelNet.send frrpc.Net.Base.client_send
timeouts_cleared_example = timeouts_cleared fifo 1100 called called-IsLinked (tt, tt)

abbrev one : Channel
one =
    (send_request sample all_sent bytes_codec "echo" 0 (some 1) call_body (some 11) (some 77)
      channel).1

abbrev two : Channel
two =
    (send_request sample all_sent bytes_codec "echo" 0 (some 2) call_body (some 12) (some 78) one).1

first_sent :
    send_request sample all_sent bytes_codec "echo" 0 (some 1) call_body (some 11) (some 77) channel
    ≡ (ok tt, one)
unfolding send_request frrpc.Prelude.Effect.◌>>=◌ frrpc.Rpc.Channel.get_controller lookup
    frrpc.Prelude.Map.contains frrpc.Net.ChannelNet.send frrpc.Net.Base.client_send
first_sent = refl

second_sent :
    send_request sample all_sent bytes_codec "echo" 0 (some 2) call_body (some 12) (some 78) one
    ≡ (ok tt, two)
unfolding send_request frrpc.Prelude.Effect.◌>>=◌ frrpc.Rpc.Channel.get_controller lookup
    frrpc.Prelude.Map.contains frrpc.Net.ChannelNet.send frrpc.Net.Base.client_send
    frrpc.Prelude.Map.update frrpc.Prelude.Map.insert
second_sent = refl

first_call_has_no_timeout_example :
    ((note_timeout sample all_sent bytes_codec 101
        (note_timeout sample all_sent bytes_codec 100 two).1).1.timeout_events
      ≡ channel.timeout_events
        ++ record { timeout = 100 + two.option.request_timeout; request_id = two.request_id }
          ∷ record { timeout = 101 + two.option.request_timeout; request_id = two.request_id }
          ∷ [])
    × (one.request_id ≢ two.request_id)
first_call_has_no_timeout_example =
    first_call_has_no_timeout sample all_sent bytes_codec "echo" "echo" 0 0 100 101 (some 1)
      (some 2) (some 11) (some 12) (some 77) (some 78) call_body call_body channel one two
      first_sent second_sent

abbrev info : CallbackInfo
info = record { service_name = "echo"; method_name = "notify"; function = 88 }

abbrev notice : RpcPacket
notice = record response {
  rpc_meta = record call_meta { rpc_request_meta = record { request_id = 0 } };
}

abbrev listening : Channel
listening = (register_callback (convert_method_key "echo" 0) (some info) channel).1

registered :
    register_callback (convert_method_key "echo" 0) (some info) channel ≡ (ok tt, listening)
unfolding register_callback frrpc.Prelude.Effect.◌>>=◌ frrpc.Prelude.Map.contains
registered = refl

second_registration_deadlocks_example :
    (register_callback (convert_method_key "echo" 0) (some info) listening).0 ≡ fault
second_registration_deadlocks_example =
    second_registration_deadlocks (convert_method_key "echo" 0) info info channel listening
      registered

nothing_there : lookup listening.fresh listening.controllers ≡ none
unfolding lookup register_callback frrpc.Prelude.Effect.◌>>=◌ frrpc.Prelude.Map.contains
nothing_there = refl

registered_is_called_example :
    ((do_register_packet fifo notice listening).0 ≡ ok tt)
    × ((do_register_packet fifo notice listening).1.already_callback_queue
        ≡ listening.already_callback_queue
          ++ new_channel_callback (some 88) listening.fresh (suc listening.fresh) false ∷ [])
    × (lookup listening.fresh (do_register_packet fifo notice listening).1.controllers
        ≡ some (set_failed "" (new_channel_controller true false)))
    × (lookup (suc listening.fresh) (do_register_packet fifo notice listening).1.responses
        ≡ some (8 ∷ []))
registered_is_called_example =
    registered_is_called fifo info channel listening notice (8 ∷ []) registered nothing_there refl

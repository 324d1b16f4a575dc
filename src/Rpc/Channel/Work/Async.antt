-- ===== src/Rpc/Channel/Work/Async.antt =====
-- An asynchronous call from its start to the deletion of its objects.
use frrpc.Prelude.{
  ℕ, suc, ◌≡◌, ◌<◌, ◌^◌, ◌∙◌, ap, arith, true, false, none, some, String, [], ◌∷◌, ◌++◌, nat_key,
  refl,
}
use frrpc.Prelude.Outcome.{ok}
use frrpc.Prelude.Effect.{◌>>=◌, Effect, pure}
use frrpc.Prelude.Effect.Steps.{bind-ok}
use frrpc.Prelude.Map.{
  lookup, insert, keep_old, lookup-insert, lookup-update, lookup-erase, beq_self,
}
use frrpc.Wire.Bytes.{Bytes}
use frrpc.Wire.Packet.{RpcPacket}
use frrpc.Wire.External.{Codec, External}
use frrpc.Net.Base.{Answers, LockQueue}
use frrpc.Rpc.Controller.{ChannelController, new_channel_controller, failed, set_failed}
use frrpc.Rpc.Channel.{Channel, ChannelCallback, get_controller, get_response}
use frrpc.Rpc.Channel.Requests.{call_method, do_request_packet, new_channel_callback, as_int}
use frrpc.Rpc.Channel.Requests.Responses.{call_is_pending, answer_at, as_int-small}
use frrpc.Rpc.Channel.Registry.{ran, call}
use frrpc.Rpc.Channel.Work.{async_request, deal, delete_callback, ignore}

-- The channel with the new controller and the new response of an asynchronous call.
abbrev pub prepared : Channel → Channel
prepared channel = record channel {
  controllers = insert channel.fresh (new_channel_controller true false) channel.controllers;
  responses = insert (suc channel.fresh) [] channel.responses;
  fresh = suc (suc channel.fresh);
}

-- The callback of an asynchronous call that starts from this channel.
abbrev pub async_callback : ℕ → Channel → ChannelCallback
async_callback function channel =
    new_channel_callback (some function) channel.fresh (suc channel.fresh) false

prepared-found :
    (channel : Channel)
    → lookup channel.fresh channel.controllers ≡ none
    → lookup channel.fresh (prepared channel).controllers ≡ some (new_channel_controller true false)
prepared-found channel new = ground (
  arith,
  beq_self channel.fresh,
  lookup-insert channel.fresh channel.fresh (new_channel_controller true false) channel.controllers,
)

prepared-response :
    (channel : Channel)
    → lookup (suc channel.fresh) (prepared channel).responses
      ≡ some (keep_old (lookup (suc channel.fresh) channel.responses) [])
prepared-response channel = ground (
  arith,
  beq_self (suc channel.fresh),
  lookup-insert (suc channel.fresh) (suc channel.fresh) [] channel.responses,
)

-- What the work thread does with a callback that is not waited for.
deal_async :
    (callback : ChannelCallback) (function : ℕ) (cntl : ChannelController) (body : Bytes)
    (channel : Channel)
    → callback.callback ≡ some function
    → lookup callback.cntl channel.controllers ≡ some cntl
    → lookup callback.response channel.responses ≡ some body
    → cntl.is_sync ≡ false
    → ((deal callback channel).0 ≡ ok (ran function))
      × (lookup callback.cntl (deal callback channel).1.controllers ≡ none)
      × (lookup callback.response (deal callback channel).1.responses ≡ none)
unfolding call deal delete_callback get_controller get_response ◌>>=◌
deal_async callback function cntl body channel runs found placed async = (
  ground arith,
  ground
      (arith, beq_self callback.cntl, lookup-erase callback.cntl callback.cntl channel.controllers),
  ground (
    arith,
    beq_self callback.response,
    lookup-erase callback.response callback.response channel.responses,
  ),
)

ignore_lem :
    (method : Effect Channel Unit) (channel after : Channel)
    → method channel ≡ (ok tt, after)
    → ignore method channel ≡ (ok tt, after)
unfolding ignore
ignore_lem method channel after h = rw h refl

module _ {M : Type 0} (queues : LockQueue ChannelCallback) (ext : External) (answers : Answers)
    (codec : Codec M) where
  -- The channel once the packet was taken and the callback was dealt with.
  abbrev pub ended : ℕ → Channel → RpcPacket → Channel → Channel
  ended function channel packet after =
      (deal (async_callback function channel) (do_request_packet queues packet after).1).1

  -- An asynchronous call, whose objects get a free address, is sent, and its id is below 2^31; a
  -- packet with this id, no error and a body arrives. Then AsyncRequest gives the address of the
  -- new controller; once the packet is taken, the call's callback is queued behind what waits and
  -- the body is in the new response; and the work thread, when it deals with the callback, runs the
  -- function and leaves neither the controller nor the response behind.
  pub async_request_ends :
      (service_name : String) (method_index function cur_time : ℕ) (request : M)
      (channel after : Channel) (packet : RpcPacket) (body : Bytes)
      → lookup channel.fresh channel.controllers ≡ none
      → call_method ext answers codec service_name method_index
          (some channel.fresh)
          request
          (some (suc channel.fresh))
          (some function)
          cur_time
          (prepared channel)
        ≡ (ok tt, after)
      → packet.rpc_meta.rpc_request_meta.request_id ≡ after.request_id
      → after.request_id < 2 ^ 31
      → packet.rpc_meta.rpc_response_meta.error ≡ ""
      → packet.binary ≡ some body
      → (async_request ext answers codec service_name method_index request function cur_time channel
          ≡ (ok channel.fresh, after))
        × ((do_request_packet queues packet after).1.already_callback_queue
            ≡ after.already_callback_queue ++ async_callback function channel ∷ [])
        × (lookup (suc channel.fresh) (do_request_packet queues packet after).1.responses
            ≡ some body)
        × ((deal (async_callback function channel) (do_request_packet queues packet after).1).0
            ≡ ok (ran function))
        × (lookup channel.fresh (ended function channel packet after).controllers ≡ none)
        × (lookup (suc channel.fresh) (ended function channel packet after).responses ≡ none)
  unfolding async_request failed set_failed ◌>>=◌
  async_request_ends service_name method_index function cur_time request channel after packet body
        new called same small no_error has_body =
      let (p, q, r) =
        call_is_pending queues ext answers codec service_name method_index channel.fresh
          (suc channel.fresh) cur_time request (some function) (prepared channel) after
          (new_channel_controller true false) (prepared-found channel new) called in
      let placed = ap (λ m. lookup (suc channel.fresh) m) r ∙ prepared-response channel in
      let e =
        answer_at queues packet after (async_callback function channel)
          (record (new_channel_controller true false) { request_id = after.request_id }) body
          (keep_old (lookup (suc channel.fresh) channel.responses) [])
          (ap (λ id. lookup id after.request_callback)
              (ap as_int same ∙ as_int-small queues after.request_id small)
            ∙ q)
          p placed (ap failed no_error) has_body in
      let cntl =
        set_failed packet.rpc_meta.rpc_response_meta.error
          (record (new_channel_controller true false) { request_id = after.request_id }) in
      let found =
        ap (λ r. lookup channel.fresh r.1.controllers) e
        ∙ ground (
          arith,
          beq_self channel.fresh,
          lookup-update channel.fresh channel.fresh cntl after.controllers,
          p,
        ) in
      let written =
        ap (λ r. lookup (suc channel.fresh) r.1.responses) e
        ∙ ground (
          arith,
          beq_self (suc channel.fresh),
          placed,
          lookup-update (suc channel.fresh) (suc channel.fresh) body after.responses,
        ) in
      let dealt =
        deal_async (async_callback function channel) function cntl body
          (do_request_packet queues packet after).1 refl found written refl in
      (
        bind-ok
            (ignore (
              call_method ext answers codec service_name method_index (some channel.fresh) request
                (some (suc channel.fresh)) (some function) cur_time))
            (λ x. pure channel.fresh) (prepared channel) after tt
            (ignore_lem
              (call_method ext answers codec service_name method_index (some channel.fresh) request
                (some (suc channel.fresh)) (some function) cur_time)
              (prepared channel) after called),
        ap (λ r. r.1.already_callback_queue) e ∙ queues.push-append _ _,
        written,
        dealt.0,
        dealt.1,
        dealt.2,
      )

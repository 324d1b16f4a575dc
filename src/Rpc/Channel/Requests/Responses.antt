-- ===== src/Rpc/Channel/Requests/Responses.antt =====
-- Which requests are answered: `DoRequestPacket` after `CallMethod` and after `CancelRequest`.
use frrpc.Wire.External.{External}
use frrpc.Wire.Packet.{RpcPacket}
use frrpc.Rpc.Controller.{failed}
use frrpc.Rpc.Channel.Requests.{
  do_request_packet, cancel_request, as_int, Codec, call_method, send_request, note_timeout,
  new_channel_callback, finish,
}
use frrpc.Rpc.Channel.{
  ChannelCallback, get_controller, get_response, Channel, ChannelController, Bytes, put_response,
  put_controller, set_failed,
}
use frrpc.Net.Base.{LockQueue, Answers}
use frrpc.Prelude.{
  ℕ, ◌≡◌, none, arith, nat_key, String, Option, some, ◌+◌, ◌%◌, ◌^◌, ◌<◌, ◌++◌, ◌∷◌, [], false, ap,
  ◌∙◌,
}
use frrpc.Prelude.Effect.{◌>>=◌}
use frrpc.Prelude.Outcome.{ok, refused}
use frrpc.Prelude.Map.{
  lookup, lookup-erase, lookup-update, lookup-insert, contains, erase, beq_self,
}

module _ (queues : LockQueue ChannelCallback) where
  pub unknown_is_refused :
      (packet : RpcPacket) (channel : Channel)
      → lookup (as_int packet.rpc_meta.rpc_request_meta.request_id) channel.request_callback ≡ none
      → do_request_packet queues packet channel ≡ (refused, channel)
  unfolding do_request_packet ◌>>=◌
  unknown_is_refused packet channel h = ground arith

  taken_is_gone :
      (packet : RpcPacket) (channel : Channel)
      → (do_request_packet queues packet channel).0 ≡ ok tt
      → (do_request_packet queues packet channel).1.request_callback
        ≡ erase (as_int packet.rpc_meta.rpc_request_meta.request_id) channel.request_callback
  unfolding do_request_packet get_controller get_response ◌>>=◌
  taken_is_gone packet channel h = ground arith

  -- Once a response was taken, another response to the same request is refused, and it changes
  -- nothing.
  pub answered_once :
      (packet again : RpcPacket) (channel : Channel)
      → (do_request_packet queues packet channel).0 ≡ ok tt
      → again.rpc_meta.rpc_request_meta.request_id ≡ packet.rpc_meta.rpc_request_meta.request_id
      → do_request_packet queues again (do_request_packet queues packet channel).1
        ≡ (refused, (do_request_packet queues packet channel).1)
  answered_once packet again channel h same = unknown_is_refused again _ (
      ground (
        arith,
        taken_is_gone packet channel h,
        beq_self (as_int packet.rpc_meta.rpc_request_meta.request_id),
        lookup-erase (as_int packet.rpc_meta.rpc_request_meta.request_id)
            (as_int packet.rpc_meta.rpc_request_meta.request_id) channel.request_callback,
      ))

  -- After `CancelRequest` of an id, a response that is looked up under this id is refused, and it
  -- changes nothing.
  pub cancelled_is_not_answered :
      (packet : RpcPacket) (request_id : ℕ) (channel : Channel)
      → as_int packet.rpc_meta.rpc_request_meta.request_id ≡ request_id
      → do_request_packet queues packet (cancel_request request_id channel).1
        ≡ (refused, (cancel_request request_id channel).1)
  unfolding cancel_request contains
  cancelled_is_not_answered packet request_id channel same = unknown_is_refused packet _ (
      ground
        (arith, beq_self request_id, lookup-erase request_id request_id channel.request_callback))

  pub as_int-small : (id : ℕ) → id < 2 ^ 31 → as_int id ≡ id
  as_int-small id small = ground arith

  pub answer_at :
      (packet : RpcPacket) (channel : Channel) (callback : ChannelCallback) (c : ChannelController)
      (body old : Bytes)
      → lookup (as_int packet.rpc_meta.rpc_request_meta.request_id) channel.request_callback
        ≡ some callback
      → lookup callback.cntl channel.controllers ≡ some c
      → lookup callback.response channel.responses ≡ some old
      → failed packet.rpc_meta.rpc_response_meta.error ≡ false
      → packet.binary ≡ some body
      → do_request_packet queues packet channel ≡ (
        ok tt,
        finish queues (as_int packet.rpc_meta.rpc_request_meta.request_id) callback (
            put_response callback.response body (
              put_controller callback.cntl
                (set_failed packet.rpc_meta.rpc_response_meta.error c)
                channel)),
      )
  unfolding do_request_packet get_controller get_response ◌>>=◌
  answer_at packet channel callback c body old pending linked there fine has_body = ground arith

  module _ {M : Type 0} (ext : External) (answers : Answers) (codec : Codec M) where
    -- A call that comes back true has made its request pending, with a controller that exists.
    pub call_is_pending :
        (service_name : String) (method_index cntl response cur_time : ℕ) (request : M)
        (closure : Option ℕ) (channel after : Channel) (c : ChannelController)
        → lookup cntl channel.controllers ≡ some c
        → call_method ext answers codec service_name method_index
            (some cntl)
            request
            (some response)
            closure
            cur_time
            channel
          ≡ (ok tt, after)
        → (lookup cntl after.controllers ≡ some (record c { request_id = after.request_id }))
          × (lookup after.request_id after.request_callback
              ≡ some (new_channel_callback closure cntl response c.is_sync))
          × (after.responses ≡ channel.responses)
    unfolding call_method send_request note_timeout get_controller contains ◌>>=◌
    call_is_pending service_name method_index cntl response cur_time request closure channel after c
          found h =
        ground (
          arith,
          beq_self cntl,
          beq_self ((channel.request_id + 1) % 2 ^ 64),
          lookup-update cntl cntl (record c { request_id = (channel.request_id + 1) % 2 ^ 64 })
              channel.controllers,
          lookup-insert ((channel.request_id + 1) % 2 ^ 64) ((channel.request_id + 1) % 2 ^ 64)
              (new_channel_callback closure cntl response c.is_sync) channel.request_callback,
        )

    -- A call with a controller and a response that exist came back true, and its id is below 2^31.
    -- Then a packet with this id, no error and a body is taken: the call's own closure, controller
    -- and response are put behind what waits, and the body is parsed into the call's response.
    pub call_is_answered :
        (service_name : String) (method_index cntl response cur_time : ℕ) (request : M)
        (closure : Option ℕ) (channel after : Channel) (c : ChannelController) (packet : RpcPacket)
        (body old : Bytes)
        → lookup cntl channel.controllers ≡ some c
        → lookup response channel.responses ≡ some old
        → call_method ext answers codec service_name method_index
            (some cntl)
            request
            (some response)
            closure
            cur_time
            channel
          ≡ (ok tt, after)
        → packet.rpc_meta.rpc_request_meta.request_id ≡ after.request_id
        → after.request_id < 2 ^ 31
        → packet.rpc_meta.rpc_response_meta.error ≡ ""
        → packet.binary ≡ some body
        → ((do_request_packet queues packet after).0 ≡ ok tt)
          × ((do_request_packet queues packet after).1.already_callback_queue
              ≡ after.already_callback_queue
                ++ new_channel_callback closure cntl response c.is_sync ∷ [])
          × (lookup response (do_request_packet queues packet after).1.responses ≡ some body)
    unfolding failed
    call_is_answered service_name method_index cntl response cur_time request closure channel after
          c packet body old found there h same small no_error has_body =
        let (p, q, r) =
          call_is_pending service_name method_index cntl response cur_time request closure channel
            after c found h in
        let e =
          answer_at packet after (new_channel_callback closure cntl response c.is_sync)
            (record c { request_id = after.request_id }) body old
            (ap (λ id. lookup id after.request_callback)
                (ap as_int same ∙ as_int-small after.request_id small)
              ∙ q)
            p (ap (λ m. lookup response m) r ∙ there) (ap failed no_error) has_body in
        (
          ap (λ r. r.0) e,
          ap (λ r. r.1.already_callback_queue) e ∙ queues.push-append _ _,
          ap (λ r. lookup response r.1.responses) e
              ∙ ground (
                arith,
                beq_self response,
                lookup-update response response body after.responses,
                ap (λ m. lookup response m) r,
                there,
              ),
        )

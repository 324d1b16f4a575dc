-- ===== src/Rpc/Channel/Work/Wakeup.antt =====
-- A synchronous call: `CallMethod` waits after it has sent its request, and a work thread wakes it.
use frrpc.Prelude.{
  ℕ, ◌≡◌, none, arith, nat_key, refl, String, Option, some, ◌+◌, ◌%◌, ◌^◌, ◌<◌, ◌++◌, ◌∷◌, [], true,
  ap, ◌∙◌,
}
use frrpc.Prelude.Effect.{◌>>=◌}
use frrpc.Prelude.Outcome.{ok}
use frrpc.Prelude.Map.{lookup, lookup-update, lookup-insert, lookup-erase, contains, beq_self}
use frrpc.Wire.Bytes.{Bytes}
use frrpc.Wire.External.{External, Codec}
use frrpc.Wire.Packet.{RpcPacket}
use frrpc.Net.Base.{LockQueue, Answers}
use frrpc.Rpc.Controller.{ChannelController, failed, set_failed}
use frrpc.Rpc.Channel.{Channel, ChannelCallback, get_controller, put_controller, put_response}
use frrpc.Rpc.Channel.Requests.{
  do_request_packet, send_request, as_int, new_channel_callback, finish,
}
use frrpc.Rpc.Channel.Requests.Responses.{answer_at, as_int-small}
use frrpc.Rpc.Channel.Registry.{woken, call}
use frrpc.Rpc.Channel.Work.{work, deal, deal_all, delete_callback}

module _ (queues : LockQueue ChannelCallback) where
  work_one :
      (n : ℕ) (channel : Channel) (callback : ChannelCallback) (c : ChannelController)
      → channel.already_callback_queue ≡ callback ∷ []
      → (queues.pop (callback ∷ []) n).0 ≡ callback ∷ []
      → lookup callback.cntl channel.controllers ≡ some c
      → c.is_sync ≡ true
      → work queues n channel ≡ (ok (woken ∷ []), record channel { already_callback_queue = [] })
  unfolding work deal deal_all delete_callback call get_controller ◌>>=◌
  work_one n channel callback c queue taken found sync =
      ground (arith, queues.pop-append (callback ∷ []) n)

module _ {M : Type 0} (queues : LockQueue ChannelCallback) (ext : External) (answers : Answers)
    (codec : Codec M) where
  sent_is_pending :
      (service_name : String) (method_index cntl response : ℕ) (request : M) (closure : Option ℕ)
      (channel one : Channel) (c : ChannelController)
      → lookup cntl channel.controllers ≡ some c
      → send_request ext answers codec service_name method_index
          (some cntl)
          request
          (some response)
          closure
          channel
        ≡ (ok tt, one)
      → (lookup cntl one.controllers ≡ some (record c { request_id = one.request_id }))
        × (lookup one.request_id one.request_callback
            ≡ some (new_channel_callback closure cntl response c.is_sync))
        × (one.already_callback_queue ≡ channel.already_callback_queue)
        × (one.responses ≡ channel.responses)
  unfolding send_request get_controller contains ◌>>=◌
  sent_is_pending service_name method_index cntl response request closure channel one c found h =
      ground (
        arith,
        beq_self cntl,
        beq_self ((channel.request_id + 1) % 2 ^ 64),
        lookup-update cntl cntl (record c { request_id = (channel.request_id + 1) % 2 ^ 64 })
            channel.controllers,
        lookup-insert ((channel.request_id + 1) % 2 ^ 64) ((channel.request_id + 1) % 2 ^ 64)
            (new_channel_callback closure cntl response c.is_sync) channel.request_callback,
      )

  -- A synchronous call, whose controller and response exist, has sent its request and does not wait
  -- yet. Its answer, with an id below 2^31, no error and a body, is taken, and a work thread takes
  -- the callback from the queue, which was empty before. Then the work thread notifies the call; no
  -- request is pending under its id any more and no callback is in the queue; the caller's
  -- controller and response are still there, with the body in the response.
  pub woken_before_wait :
      (service_name : String) (method_index cntl response n : ℕ) (request : M) (closure : Option ℕ)
      (channel one : Channel) (c : ChannelController) (packet : RpcPacket) (body old : Bytes)
      → lookup cntl channel.controllers ≡ some c
      → lookup response channel.responses ≡ some old
      → c.is_sync ≡ true
      → channel.already_callback_queue ≡ []
      → send_request ext answers codec service_name method_index
          (some cntl)
          request
          (some response)
          closure
          channel
        ≡ (ok tt, one)
      → packet.rpc_meta.rpc_request_meta.request_id ≡ one.request_id
      → one.request_id < 2 ^ 31
      → packet.rpc_meta.rpc_response_meta.error ≡ ""
      → packet.binary ≡ some body
      → (queues.pop (new_channel_callback closure cntl response true ∷ []) n).0
        ≡ new_channel_callback closure cntl response true ∷ []
      → ((work queues n (do_request_packet queues packet one).1).0 ≡ ok (woken ∷ []))
        × (lookup one.request_id
              (work queues n (do_request_packet queues packet one).1).1.request_callback
            ≡ none)
        × ((work queues n (do_request_packet queues packet one).1).1.already_callback_queue ≡ [])
        × (lookup cntl (work queues n (do_request_packet queues packet one).1).1.controllers
            ≡ some (set_failed "" (record c { request_id = one.request_id })))
        × (lookup response (work queues n (do_request_packet queues packet one).1).1.responses
            ≡ some body)
  unfolding failed set_failed
  woken_before_wait service_name method_index cntl response n request closure channel one c packet
        body old found placed sync empty h same small no_error has_body taken =
      let (p, q, r, s) =
        sent_is_pending service_name method_index cntl response request closure channel one c found
          h in
      let id = as_int packet.rpc_meta.rpc_request_meta.request_id in
      let callback = new_channel_callback closure cntl response true in
      let cntl' : ChannelController = record c { request_id = one.request_id } in
      let id_same : id ≡ one.request_id =
        ap as_int same ∙ as_int-small queues one.request_id small in
      let pending : lookup id one.request_callback ≡ some callback =
        ap (λ k. lookup k one.request_callback) id_same
        ∙ q
        ∙ ap (λ b. some (new_channel_callback closure cntl response b)) sync in
      let error = packet.rpc_meta.rpc_response_meta.error in
      let two : Channel =
        finish queues id callback
          (put_response response body (put_controller cntl (set_failed error cntl') one)) in
      let answered =
        answer_at queues packet one callback cntl' body old pending p
          (ap (λ m. lookup response m) s ∙ placed) (ap failed no_error) has_body in
      let queue : two.already_callback_queue ≡ callback ∷ [] =
        queues.push-append one.already_callback_queue callback
        ∙ ap (λ xs. xs ++ callback ∷ []) (r ∙ empty) in
      let there : lookup cntl two.controllers ≡ some (set_failed error cntl') =
        ground (
          arith,
          lookup-update cntl cntl (set_failed error cntl') one.controllers,
          beq_self cntl,
        ) in
      let e = work_one queues n two callback (set_failed error cntl') queue taken there sync in
      let written : lookup response two.responses ≡ some body =
        ground (
          arith,
          lookup-update response response body one.responses,
          beq_self response,
          s,
          placed,
        ) in
      rw (answered, e)
        (
          refl,
          ground (arith, lookup-erase id one.request_id one.request_callback, beq_self id, id_same),
          refl,
          there ∙ ap (λ text. some (set_failed text cntl')) no_error,
          written,
        )

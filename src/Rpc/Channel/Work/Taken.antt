-- ===== src/Rpc/Channel/Work/Taken.antt =====
-- The operations of a channel that make the objects of their callback.
use frrpc.Prelude.{
  ℕ, Bool, refl, ◌∙◌, ◌≤◌, suc, ◌≡◌, true, false, [], ◌∷◌, some, nat_key, arith, Option-cases, inl,
  inr, String, string_key,
}
use frrpc.Prelude.Effect.{pure, ◌>>=◌}
use frrpc.Prelude.Effect.Steps.{bind-step}
use frrpc.Prelude.Map.{lookup, insert, lookup-insert}
use frrpc.Wire.External.{Codec, External}
use frrpc.Wire.Packet.{RpcPacket}
use frrpc.Net.Base.{LockQueue, Answers}
use frrpc.Rpc.Controller.{ChannelController, set_failed, new_channel_controller}
use frrpc.Rpc.Channel.{Channel, ChannelCallback, convert_method_key, put_response}
use frrpc.Rpc.Channel.Requests.{call_method}
use frrpc.Rpc.Channel.Registry.{do_register_packet, build_callback}
use frrpc.Rpc.Channel.Work.{async_request, ignore}
use frrpc.Rpc.Channel.Work.Owned.{
  count_queued, holders, count_queued-append, Owns, IsOwned, cntl_of, response_of, has_controller,
  has_response, Moves-IsOwned,
}
use frrpc.Rpc.Channel.Work.Kept.{put_response-Moves}
use frrpc.Rpc.Channel.Work.Calls.{call_method-IsOwned}

-- No callback has an object at an address that is still to be given out.
fresh-free :
    {of : ChannelCallback → ℕ} {stored : Channel → ℕ → Bool} (channel : Channel) (address : ℕ)
    → channel.fresh ≤ address
    → Owns of stored channel
    → holders of address channel ≡ 0
fresh-free channel address new h = ground (arith, h.exists address, h.below address)

-- The objects of a new call are made.
abbrev grown : ChannelController → Channel → Channel
grown cntl channel = record channel {
  controllers = insert channel.fresh cntl channel.controllers;
  responses = insert (suc channel.fresh) [] channel.responses;
  fresh = suc (suc channel.fresh);
}

grown-IsOwned :
    (cntl : ChannelController) (channel : Channel) → IsOwned channel → IsOwned (grown cntl channel)
unfolding holders
grown-IsOwned cntl channel h =
    let in_controllers = λ (a : ℕ). lookup-insert channel.fresh a cntl channel.controllers in
    let in_responses = λ (a : ℕ). lookup-insert (suc channel.fresh) a [] channel.responses in
    record {
      cntls = record {
        once = h.cntls.once;
        exists = λ a p. ground (arith, in_controllers a, h.cntls.exists a);
        below = λ a p. ground (arith, in_controllers a, h.cntls.below a);
      };
      responses = record {
        once = h.responses.once;
        exists = λ a p. ground (arith, in_responses a, h.responses.exists a);
        below = λ a p. ground (arith, in_responses a, h.responses.below a);
      };
    }

grown-cntl :
    (cntl : ChannelController) (channel : Channel)
    → IsOwned channel
    → (holders cntl_of channel.fresh (grown cntl channel) ≡ 0)
      × (has_controller (grown cntl channel) channel.fresh ≡ true)
unfolding holders
grown-cntl cntl channel h = (
  fresh-free channel channel.fresh (omega arith) h.cntls,
  ground (arith, lookup-insert channel.fresh channel.fresh cntl channel.controllers),
)

grown-response :
    (cntl : ChannelController) (channel : Channel)
    → IsOwned channel
    → (holders response_of (suc channel.fresh) (grown cntl channel) ≡ 0)
      × (has_response (grown cntl channel) (suc channel.fresh) ≡ true)
unfolding holders
grown-response cntl channel h = (
  fresh-free channel (suc channel.fresh) (omega arith) h.responses,
  ground (arith, lookup-insert (suc channel.fresh) (suc channel.fresh) [] channel.responses),
)

queue-Owns :
    {of : ChannelCallback → ℕ} {stored : Channel → ℕ → Bool} (queues : LockQueue ChannelCallback)
    (callback : ChannelCallback) (channel after : Channel)
    → after ≡ record channel {
      already_callback_queue = queues.push channel.already_callback_queue callback;
    }
    → ((address : ℕ) → stored after address ≡ stored channel address)
    → holders of (of callback) channel ≡ 0
    → stored channel (of callback) ≡ true
    → Owns of stored channel
    → Owns of stored after
unfolding holders count_queued
queue-Owns {of = of} queues callback channel after moved same free there h =
    let pushed =
      λ (a : ℕ). count_queued-append of a channel.already_callback_queue (callback ∷ []) in
    let e = queues.push-append channel.already_callback_queue callback in
    record {
      once = λ a. ground (arith, moved, pushed a, e, h.once a);
      exists = λ a p. ground (arith, moved, pushed a, e, same a, h.exists a);
      below = λ a p. ground (arith, moved, same a, h.below a);
    }

queue-IsOwned :
    (queues : LockQueue ChannelCallback) (callback : ChannelCallback) (channel : Channel)
    → holders cntl_of callback.cntl channel ≡ 0
    → has_controller channel callback.cntl ≡ true
    → holders response_of callback.response channel ≡ 0
    → has_response channel callback.response ≡ true
    → IsOwned channel
    → IsOwned (record channel {
      already_callback_queue = queues.push channel.already_callback_queue callback;
    })
queue-IsOwned queues callback channel free there unread placed h = record {
  cntls = queue-Owns queues callback channel _ refl (λ a. refl) free there h.cntls;
  responses = queue-Owns queues callback channel _ refl (λ a. refl) unread placed h.responses;
}

pub do_register_packet-IsOwned :
    (queues : LockQueue ChannelCallback) (packet : RpcPacket) (channel : Channel)
    → IsOwned channel
    → IsOwned (do_register_packet queues packet channel).1
unfolding do_register_packet build_callback holders ◌>>=◌
do_register_packet-IsOwned queues packet channel h =
    let key = convert_method_key packet.rpc_meta.service_name packet.rpc_meta.method_index in
    let cntl =
      set_failed packet.rpc_meta.rpc_response_meta.error (new_channel_controller true false) in
    elim (Option-cases (lookup key channel.register_callback)) [
      | inl unknown ↦ rw unknown h
      | inr (info, known) ↦ (elim (Option-cases packet.binary) [
        | inl empty ↦ rw (known, empty) h
        | inr (bytes, body) ↦
            (let written = put_response-Moves (suc channel.fresh) bytes (grown cntl channel) in
              let made = grown-cntl cntl channel h in
              let read = grown-response cntl channel h in
              rw (known, body)
                (queue-IsOwned queues
                  (record {
                    callback = some info.function;
                    cntl = channel.fresh;
                    response = suc channel.fresh;
                    sync_condition = false;
                  })
                  (put_response (suc channel.fresh) bytes (grown cntl channel)) made.0 made.1 read.0
                  (written.kept (suc channel.fresh) ∙ read.1)
                  (Moves-IsOwned written (grown-IsOwned cntl channel h))))
      ])
    ]

module _ {M : Type 0} (ext : External) (answers : Answers) (codec : Codec M) where
  pub async_request-IsOwned :
      (service_name : String) (method_index : ℕ) (request : M) (function cur_time : ℕ)
      (channel : Channel)
      → IsOwned channel
      → IsOwned
          (async_request ext answers codec service_name method_index request function cur_time
            channel).1
  unfolding async_request ignore ◌>>=◌
  async_request-IsOwned service_name method_index request function cur_time channel h =
      let ready = grown (new_channel_controller true false) channel in
      let called =
        call_method-IsOwned ext answers codec service_name method_index request
          (some (suc channel.fresh)) (some function) cur_time channel.fresh ready
          (grown-cntl _ channel h).0 (grown-response _ channel h) (grown-IsOwned _ channel h) in
      bind-step IsOwned
        (ignore (
          call_method ext answers codec service_name method_index (some channel.fresh) request
            (some (suc channel.fresh)) (some function) cur_time))
        (λ u. pure channel.fresh) ready called (λ u e. called)

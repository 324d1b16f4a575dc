-- ===== src/Rpc/Channel/Registry/Registered.antt =====
-- What becomes of a registered callback.
use frrpc.Prelude.{
  suc, ◌≡◌, String, some, none, true, false, ◌++◌, ◌∷◌, [], arith, string_key, nat_key,
}
use frrpc.Prelude.Effect.{◌>>=◌}
use frrpc.Prelude.Outcome.{ok, fault}
use frrpc.Prelude.Map.{lookup, contains, lookup-insert, lookup-update-insert, beq_self}
use frrpc.Wire.Bytes.{Bytes}
use frrpc.Wire.Packet.{RpcPacket}
use frrpc.Net.Base.{LockQueue}
use frrpc.Rpc.Controller.{set_failed, new_channel_controller}
use frrpc.Rpc.Channel.{Channel, ChannelCallback, CallbackInfo, convert_method_key}
use frrpc.Rpc.Channel.Requests.{new_channel_callback}
use frrpc.Rpc.Channel.Registry.{register_callback, del_callback, build_callback, do_register_packet}

register-found :
    (key : String) (info : CallbackInfo) (channel after : Channel)
    → register_callback key (some info) channel ≡ (ok tt, after)
    → lookup key after.register_callback ≡ some info
unfolding register_callback del_callback contains ◌>>=◌
register-found key info channel after h =
    ground (arith, beq_self key, lookup-insert key key info channel.register_callback)

-- After a callback was registered for a key, the registration of another one for this key blocks:
-- the thread locks a mutex that it holds.
pub second_registration_deadlocks :
    (key : String) (first second : CallbackInfo) (channel after : Channel)
    → register_callback key (some first) channel ≡ (ok tt, after)
    → (register_callback key (some second) after).0 ≡ fault
unfolding register_callback del_callback contains ◌>>=◌
second_registration_deadlocks key first second channel after h =
    ground (arith, register-found key first channel after h, beq_self key)

module _ (queues : LockQueue ChannelCallback) where
  -- A callback was registered for a method, and a packet for this method with a body arrives,
  -- which answers no request; the address of the new controller is free. Then a closure over the
  -- registered function, a new controller and a new response is put behind what waits; the
  -- controller has the packet's error, and the body is parsed into the response.
  pub registered_is_called :
      (info : CallbackInfo) (channel after : Channel) (packet : RpcPacket) (body : Bytes)
      → register_callback
          (convert_method_key packet.rpc_meta.service_name packet.rpc_meta.method_index)
          (some info)
          channel
        ≡ (ok tt, after)
      → lookup after.fresh after.controllers ≡ none
      → packet.binary ≡ some body
      → ((do_register_packet queues packet after).0 ≡ ok tt)
        × ((do_register_packet queues packet after).1.already_callback_queue
            ≡ after.already_callback_queue
              ++ new_channel_callback (some info.function) after.fresh (suc after.fresh) false ∷ [])
        × (lookup after.fresh (do_register_packet queues packet after).1.controllers
            ≡ some (
                set_failed packet.rpc_meta.rpc_response_meta.error
                  (new_channel_controller true false)))
        × (lookup (suc after.fresh) (do_register_packet queues packet after).1.responses
            ≡ some body)
  unfolding do_register_packet build_callback ◌>>=◌
  registered_is_called info channel after packet body h new has_body =
      let key = convert_method_key packet.rpc_meta.service_name packet.rpc_meta.method_index in
      let found = register-found key info channel after h in
      (
        ground arith,
        ground (
          arith,
          queues.push-append after.already_callback_queue
              (new_channel_callback (some info.function) after.fresh (suc after.fresh) false),
        ),
        ground (
          arith,
          beq_self after.fresh,
          lookup-insert after.fresh after.fresh
              (set_failed packet.rpc_meta.rpc_response_meta.error
                (new_channel_controller true false))
              after.controllers,
        ),
        ground (
          arith,
          beq_self (suc after.fresh),
          lookup-update-insert (suc after.fresh) (suc after.fresh) body [] after.responses,
        ),
      )

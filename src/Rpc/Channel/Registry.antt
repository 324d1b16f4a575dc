-- ===== src/Rpc/Channel/Registry.antt =====
-- The callbacks that are registered for a method, and what the threads of a channel do:
-- `RegisterCallback`, `DelCallback`, `DoRegisterPacket` and `InitThreads` of src/rpc/channel.{h,cpp},
-- `BuildCallback` and `Call` of src/rpc/callback.{h,cpp}.
pub mod Registered
use frrpc.Prelude.{
  ℕ, suc, Bool, true, false, String, Option, none, some, ◌==◌, not, if◌then◌else◌, nat_key,
  string_key,
}
use frrpc.Prelude.Outcome.{ok, fault, or_fault, or_refuse}
use frrpc.Prelude.Effect.{Effect, pure, lift, gets, modify, refuse_if, ◌>>=◌, ◌>>◌}
use frrpc.Prelude.Map.{lookup, contains, insert, erase}
use frrpc.Wire.Packet.{RpcPacket, event_method}
use frrpc.Net.Base.{LockQueue}
use frrpc.Rpc.Controller.{request_id_null, set_failed, new_channel_controller, ChannelController}
use frrpc.Rpc.Channel.{
  Channel, ChannelCallback, CallbackInfo, make_response, put_response, convert_method_key,
}
use frrpc.Rpc.Channel.Requests.{do_request_packet}

-- `DelCallback`; `held` says that the thread holds the mutex that it locks.
unfoldable pub del_callback : Bool → String → Effect Channel Bool
del_callback held key = do
  lift (if held then fault else ok tt)
  found ← gets (λ channel. contains key channel.register_callback)
  modify (λ channel. record channel { register_callback = erase key channel.register_callback })
  pure found

unfoldable pub register_callback : String → Option CallbackInfo → Effect Channel (Unit {0})
unfolding del_callback
register_callback key callback_info = do
  started ← gets (λ channel. channel.init_success)
  refuse_if (not started)
  info ← lift (or_refuse callback_info)
  exists ← gets (λ channel. contains key channel.register_callback)
  if exists then (do deleted ← del_callback true key; refuse_if (not deleted)) else pure tt
  modify
      (λ channel. record channel { register_callback = insert key info channel.register_callback })

-- `BuildCallback`: a new controller, a new response and a closure over both.
unfoldable pub build_callback : CallbackInfo → RpcPacket → Effect Channel ChannelCallback
build_callback info packet = do
  let error = packet.rpc_meta.rpc_response_meta.error
  address ← gets (λ channel. channel.fresh)
  bytes ← lift (or_fault packet.binary)
  modify (λ channel. record channel {
    controllers =
        insert address (set_failed error (new_channel_controller true false)) channel.controllers;
    fresh = suc (suc address);
  })
  modify (make_response (suc address))
  modify (put_response (suc address) bytes)
  pure (record {
    callback = some info.function;
    cntl = address;
    response = suc address;
    sync_condition = false;
  })

module _ (queues : LockQueue ChannelCallback) where
  unfoldable pub do_register_packet : RpcPacket → Effect Channel (Unit {0})
  unfolding build_callback
  do_register_packet packet = do
    let key = convert_method_key packet.rpc_meta.service_name packet.rpc_meta.method_index
    registered ← gets (λ channel. lookup key channel.register_callback)
    info ← lift (or_refuse registered)
    callback ← build_callback info packet
    modify (λ channel. record channel {
      already_callback_queue = queues.push channel.already_callback_queue callback;
    })

  -- What the parsing thread does with a packet: the event that it hands to the application, if any.
  unfoldable pub parse_packet : RpcPacket → Effect Channel (Option ℕ)
  unfolding do_register_packet
  parse_packet packet =
      if packet.net_event == event_method
      then (if not (packet.rpc_meta.rpc_request_meta.request_id == request_id_null)
          then (do do_request_packet queues packet; pure none)
          else (do do_register_packet packet; pure none))
      else pure (some packet.net_event)

-- What `Call` does: it wakes the thread that waits, or it runs the closure, if there is one.
pub data Called : Type 0 where
  woken : Called
  ran : ℕ → Called
  nothing : Called

unfoldable pub call : ChannelCallback → ChannelController → Called
call callback cntl =
    if cntl.is_sync
    then woken
    else elim callback.callback [ none ↦ nothing | some closure ↦ ran closure ]

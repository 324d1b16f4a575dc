-- ===== src/Rpc/Channel/Work.antt =====
-- The end of a callback: the work threads of `InitThreads` and the destructor of src/rpc/channel.cpp,
-- the destructor of `ChannelCallback` of src/rpc/callback.cpp; `AsyncRequest` of src/rpc/channel.h,
-- whose objects end that way.
pub mod Owned
pub mod Deal
pub mod Kept
pub mod Calls
pub mod Taken
pub mod Lifetime
pub mod Wakeup
pub mod Async
use frrpc.Prelude.{
  ℕ, zero, suc, ◌+◌, Bool, true, false, String, List, [], ◌∷◌, Option, none, some, if◌then◌else◌,
  nat_key,
}
use frrpc.Prelude.Outcome.{Outcome, ok, refused, fault, exhausted}
use frrpc.Prelude.Effect.{Effect, pure, lift, gets, modify, ◌>>=◌, ◌>>◌}
use frrpc.Prelude.Map.{Map, insert, erase}
use frrpc.Wire.External.{Codec, External}
use frrpc.Net.Base.{Answers, LockQueue}
use frrpc.Net.ChannelNet
use frrpc.Rpc.Controller.{new_channel_controller}
use frrpc.Rpc.Channel.{Channel, ChannelCallback, get_controller, get_response, stop}
use frrpc.Rpc.Channel.Requests.{call_method}
use frrpc.Rpc.Channel.Registry.{Called, call}

-- `~ChannelCallback`, of one with a controller and a response.
unfoldable pub delete_callback : ChannelCallback → Effect Channel (Unit {0})
unfolding get_controller get_response
delete_callback callback = do
  cntl ← get_controller callback.cntl
  if cntl.is_sync then pure tt else (do
    modify (λ channel. record channel { controllers = erase callback.cntl channel.controllers })
    get_response callback.response
    modify (λ channel. record channel { responses = erase callback.response channel.responses }))

-- `callback->Call()`, and the callback is deleted.
unfoldable pub deal : ChannelCallback → Effect Channel Called
unfolding delete_callback
deal callback = do
  cntl ← get_controller callback.cntl
  let what = call callback cntl
  delete_callback callback
  pure what

unfoldable pub deal_all : List ChannelCallback → Effect Channel (List Called)
unfolding deal
deal_all [] = pure []
deal_all (callback ∷ callbacks) = do
  what ← deal callback
  rest ← deal_all callbacks
  pure (what ∷ rest)

-- A round of a work thread while the channel runs.
module _ (queues : LockQueue ChannelCallback) where
  unfoldable pub work : ℕ → Effect Channel (List Called)
  unfolding deal_all
  work deal_msg_num_once = do
    queue ← gets (λ channel. channel.already_callback_queue)
    let popped = queues.pop queue deal_msg_num_once
    modify (λ channel. record channel { already_callback_queue = popped.1 })
    deal_all popped.0

-- The pending callbacks, one after the other.
unfoldable pub delete_all : Map ℕ ChannelCallback → Effect Channel (Unit {0})
unfolding delete_callback
delete_all [] = pure tt
delete_all ((id, callback) ∷ pending) = do delete_callback callback; delete_all pending

-- `~Channel`: the pointers in the map become null; what waits in the queue is not deleted.
unfoldable pub destroy : Effect Channel (Unit {0})
unfolding delete_all stop
destroy = do
  modify stop
  pending ← gets (λ channel. channel.request_callback)
  modify (λ channel. record channel { request_callback = [] })
  delete_all pending
  modify (λ channel. record channel { register_callback = [] })

-- `CallMethod` returns nothing, so that its caller goes on.
unfoldable pub ignore : Effect Channel (Unit {0}) → Effect Channel (Unit {0})
ignore method channel =
    let (result, channel') = method channel in
    (
      elim result [ ok a ↦ ok tt | refused ↦ ok tt | fault ↦ fault | exhausted ↦ exhausted ],
      channel',
    )

module _ {M : Type 0} (ext : External) (answers : Answers) (codec : Codec M) where
  -- `AsyncRequest`: the address of the new controller. The new response stands next to it.
  unfoldable pub async_request : String → ℕ → M → ℕ → ℕ → Effect Channel ℕ
  unfolding ignore
  async_request service_name method_index request function cur_time = do
    address ← gets (λ channel. channel.fresh)
    modify (λ channel. record channel {
      controllers = insert address (new_channel_controller true false) channel.controllers;
      responses = insert (suc address) [] channel.responses;
      fresh = suc (suc address);
    })
    ignore (
        call_method ext answers codec service_name method_index (some address) request
          (some (suc address)) (some function) cur_time)
    pure address

  -- `RegisterService` of a channel that has its connection.
  unfoldable pub register_service : String → String → Effect Channel Bool
  register_service service_name service_addr channel =
      let (done, client) =
        ChannelNet.register_service ext answers service_name service_addr channel.client in
      (ok done, record channel { client = client })

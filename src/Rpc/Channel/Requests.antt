-- ===== src/Rpc/Channel/Requests.antt =====
-- The requests of a channel: `CallMethod`, `DoRequestPacket`, `ClearTimeoutRequest` and
-- `CancelRequest` of src/rpc/channel.cpp, and `StartCancel` of src/rpc/controller.cpp.
pub mod Responses
pub mod Timeouts
pub mod Interleaved
use frrpc.Prelude.{
  ℕ, ◌+◌, ◌-◌, ◌%◌, ◌^◌, Bool, true, false, not, ◌&&◌, List, [], ◌∷◌, Option, none, some, ltb,
  if◌then◌else◌, ◌==◌, is_some, nat_key, String, ◌++◌,
}
use frrpc.Prelude.Outcome.{ok, fault, or_fault, or_refuse}
use frrpc.Prelude.Effect.{Effect, pure, lift, gets, modify, refuse_if, ◌>>=◌, ◌>>◌}
use frrpc.Prelude.Map.{lookup, contains, insert, erase}
use frrpc.Wire.Messages.{RpcMeta, empty_meta}
use frrpc.Wire.External.{Codec, External}
use frrpc.Wire.Packet.{RpcPacket}
use frrpc.Net.Base.{Answers, LockQueue}
use frrpc.Net.ChannelNet
use frrpc.Rpc.Controller.{request_id_null, failed, set_failed}
use frrpc.Rpc.Channel.{
  Channel, ChannelCallback, RequestTimeoutEvent, get_controller, put_controller, get_response,
  put_response,
}

-- `int request_id = ...`, looked up among ids of type `uint64_t`.
abbrev pub as_int : ℕ → ℕ
as_int id = let low = id % 2 ^ 32 in if ltb low (2 ^ 31) then low else low + (2 ^ 64 - 2 ^ 32)

module _ (queues : LockQueue ChannelCallback) where
  -- The callback waits for its turn, and is no longer found.
  abbrev pub finish : ℕ → ChannelCallback → Channel → Channel
  finish request_id callback channel = record channel {
    already_callback_queue = queues.push channel.already_callback_queue callback;
    request_callback = erase request_id channel.request_callback;
  }

  unfoldable pub do_request_packet : RpcPacket → Effect Channel (Unit {0})
  unfolding get_controller get_response
  do_request_packet packet = do
    let request_id = as_int packet.rpc_meta.rpc_request_meta.request_id
    let error = packet.rpc_meta.rpc_response_meta.error
    pending ← gets (λ channel. lookup request_id channel.request_callback)
    callback ← lift (or_refuse pending)
    cntl ← get_controller callback.cntl
    modify (put_controller callback.cntl (set_failed error cntl))
    if failed error then pure tt else (do
      bytes ← lift (or_fault packet.binary)
      get_response callback.response
      modify (put_response callback.response bytes))
    modify (finish request_id callback)

  unfoldable pub expire : ℕ → Option ChannelCallback → Effect Channel (Unit {0})
  unfolding get_controller
  expire request_id none = pure tt
  expire request_id (some callback) = do
    cntl ← get_controller callback.cntl
    modify (put_controller callback.cntl (set_failed "request timeout" cntl))
    modify (finish request_id callback)

  -- The loop, from the first of the events that are left.
  unfoldable pub clear_events : ℕ → List RequestTimeoutEvent → Effect Channel (Unit {0})
  unfolding expire
  clear_events cur_time [] = pure tt
  clear_events cur_time (event ∷ events) = if ltb cur_time event.timeout then pure tt else (do
    pending ← gets (λ channel. lookup event.request_id channel.request_callback)
    expire event.request_id pending
    modify (λ channel. record channel { timeout_events = events })
    clear_events cur_time events)

  unfoldable pub clear_timeout_request : ℕ → Effect Channel (Unit {0})
  unfolding clear_events
  clear_timeout_request cur_time = do
    events ← gets (λ channel. channel.timeout_events)
    clear_events cur_time events

unfoldable pub cancel_request : ℕ → Effect Channel Bool
cancel_request request_id channel =
    if contains request_id channel.request_callback
    then (ok true, record channel { request_callback = erase request_id channel.request_callback })
    else (ok false, channel)

-- `StartCancel`: the closure that is run, if one is.
unfoldable pub start_cancel : ℕ → Effect Channel (Option ℕ)
unfolding get_controller
start_cancel address = do
  cntl ← get_controller address
  if cntl.has_channel then pure tt else lift fault
  modify (put_controller address (record cntl { is_cancel = true }))
  cancelled ← cancel_request cntl.request_id
  if cancelled && not (cntl.request_id == request_id_null)
      then (do
        modify (
            put_controller address (record cntl { is_cancel = true; request_id = request_id_null }))
        pure cntl.callback)
      else pure none

abbrev pub request_meta : String → ℕ → ℕ → ℕ → RpcMeta
request_meta service_name method_index request_id compress_type = record empty_meta {
  service_name = service_name;
  method_index = method_index;
  rpc_request_meta = record { request_id = request_id };
  compress_type = compress_type;
}

abbrev pub new_channel_callback : Option ℕ → ℕ → ℕ → Bool → ChannelCallback
new_channel_callback done cntl response is_sync = record {
  callback = done;
  cntl = cntl;
  response = response;
  sync_condition = is_sync;
}

module _ {M : Type 0} (ext : External) (answers : Answers) (codec : Codec M) where
  -- `CallMethod` up to the line that notes the timeout.
  unfoldable pub send_request :
      String → ℕ → Option ℕ → M → Option ℕ → Option ℕ → Effect Channel (Unit {0})
  send_request service_name method_index cntl request response done = do
    started ← gets (λ channel. channel.init_success)
    refuse_if (not started)
    response_address ← lift (or_refuse response)
    cntl_address ← lift (or_refuse cntl)
    channel_cntl ← get_controller cntl_address
    refuse_if (not channel_cntl.is_sync && not (is_some done))
    modify (λ channel. record channel { request_id = (channel.request_id + 1) % 2 ^ 64 })
    request_id ← gets (λ channel. channel.request_id)
    modify (put_controller cntl_address (record channel_cntl { request_id = request_id }))
    repeated ← gets (λ channel. contains request_id channel.request_callback)
    refuse_if repeated
    let callback = new_channel_callback done cntl_address response_address channel_cntl.is_sync
    modify (λ channel. record channel {
      request_callback = insert request_id callback channel.request_callback;
    })
    compress_type ← gets (λ channel. channel.option.compress_type)
    let meta = request_meta service_name method_index request_id compress_type
    client ← gets (λ channel. channel.client)
    let sent = ChannelNet.send ext answers codec meta request client
    modify (λ channel. record channel { client = sent.1 })
    refuse_if (not sent.0)

  -- The line that notes the timeout reads the counter of the channel again.
  unfoldable pub note_timeout : ℕ → Effect Channel (Unit {0})
  note_timeout cur_time = modify (λ channel. record channel {
    timeout_events =
        channel.timeout_events
        ++ record {
          timeout = cur_time + channel.option.request_timeout;
          request_id = channel.request_id;
        }
          ∷ [];
  })

  -- `CallMethod` with no other call in between; a synchronous call then waits.
  unfoldable pub call_method :
      String → ℕ → Option ℕ → M → Option ℕ → Option ℕ → ℕ → Effect Channel (Unit {0})
  unfolding send_request note_timeout
  call_method service_name method_index cntl request response done cur_time = do
    send_request service_name method_index cntl request response done
    note_timeout cur_time

-- ===== src/System/Calls.antt =====
-- A call of a channel that goes through: what `CallMethod` leaves behind.
use frrpc.Prelude.{
  ℕ, ◌+◌, ◌%◌, ◌^◌, ◌≡◌, arith, true, false, not, ◌&&◌, is_some, some, none, Option, String, [],
  ◌∷◌, ◌++◌, nat_key,
}
use frrpc.Prelude.Outcome.{ok}
use frrpc.Prelude.Effect.{◌>>=◌}
use frrpc.Prelude.Map.{lookup, contains}
use frrpc.Wire.Bytes.{Bytes}
use frrpc.Wire.Messages.{RpcMeta}
use frrpc.Wire.External.{Codec, External}
use frrpc.Net.Base.{Answers}
use frrpc.Net.ChannelNet
use frrpc.Rpc.Controller.{ChannelController}
use frrpc.Rpc.Channel.{Channel, get_controller}
use frrpc.Rpc.Channel.Requests.{call_method, send_request, note_timeout, request_meta}

abbrev pub next_id : Channel → ℕ
next_id channel = (channel.request_id + 1) % 2 ^ 64

-- The meta of the channel's next call.
abbrev pub call_meta : String → ℕ → Channel → RpcMeta
call_meta service_name method_index channel =
    request_meta service_name method_index (next_id channel) channel.option.compress_type

-- The channel can make a call with this controller and this response, which exist.
pub record CanCall (channel : Channel) (cntl response : ℕ) (closure : Option ℕ) : Type 0 where
  pub controller : ChannelController
  pub old : Bytes
  pub started : channel.init_success ≡ true
  pub found : lookup cntl channel.controllers ≡ some controller
  pub placed : lookup response channel.responses ≡ some old
  pub can_end : (not controller.is_sync && not (is_some closure)) ≡ false
  pub unused : lookup (next_id channel) channel.request_callback ≡ none

module _ {M : Type 0} (ext : External) (answers : Answers) (codec : Codec M) where
  pub call_goes :
      (service_name : String) (method_index cntl response cur_time : ℕ) (request : M)
      (closure : Option ℕ) (channel : Channel) (packet : Bytes)
      → (h : CanCall channel cntl response closure)
      → ChannelNet.send ext answers codec
          (call_meta service_name method_index channel)
          request
          channel.client
        ≡ (true, channel.client ++ some packet ∷ [])
      → (call_method ext answers codec service_name method_index
            (some cntl)
            request
            (some response)
            closure
            cur_time
            channel
          ≡ (
            ok tt,
            (call_method ext answers codec service_name method_index
                (some cntl)
                request
                (some response)
                closure
                cur_time
                channel).1,
          ))
        × ((call_method ext answers codec service_name method_index
              (some cntl)
              request
              (some response)
              closure
              cur_time
              channel).1.request_id
            ≡ next_id channel)
        × ((call_method ext answers codec service_name method_index
              (some cntl)
              request
              (some response)
              closure
              cur_time
              channel).1.client
            ≡ channel.client ++ some packet ∷ [])
        × ((call_method ext answers codec service_name method_index
              (some cntl)
              request
              (some response)
              closure
              cur_time
              channel).1.already_callback_queue
            ≡ channel.already_callback_queue)
  unfolding call_method send_request note_timeout get_controller contains ◌>>=◌
  call_goes service_name method_index cntl response cur_time request closure channel packet h sent =
      (
        ground (arith, h.started, h.found, h.can_end, h.unused),
        ground (arith, h.started, h.found, h.can_end, h.unused),
        ground (arith, h.started, h.found, h.can_end, h.unused),
        ground (arith, h.started, h.found, h.can_end, h.unused),
      )

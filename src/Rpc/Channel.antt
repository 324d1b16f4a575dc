-- ===== src/Rpc/Channel.antt =====
-- `Channel` of src/rpc/channel.{h,cpp} and `ChannelCallback`, `CallbackInfo` of
-- src/rpc/callback.{h,cpp}: the objects. Controllers and responses are objects of the caller that
-- the channel reaches by pointers: they are in stores, by their address, and to reach one that is
-- not there is a fault. A response is shown by
-- the bytes that were last parsed into it. Closures are known by their number.
pub mod Requests
pub mod Registry
pub mod Work
pub mod Parse
use frrpc.Prelude.{
  ℕ, zero, suc, ◌/◌, ◌%◌, Bool, true, false, String, List, [], ◌∷◌, Option, none, some, ltb,
  if◌then◌else◌, nat_key,
}
use Prim.Native.String.{◌++◌ as append}
use frrpc.Prelude.Outcome.{or_fault}
use frrpc.Prelude.Effect.{Effect, lift, gets, modify, ◌>>=◌}
use frrpc.Prelude.Map.{Map, lookup, insert, erase, update}
use frrpc.Wire.Bytes.{Bytes}
use frrpc.Net.Base.{Client, LockQueue}
use frrpc.Rpc.Controller.{ChannelController, new_channel_controller, set_failed}

-- `sync_condition` is by whether it is a null pointer.
pub record ChannelCallback : Type 0 where
  pub callback : Option ℕ
  pub cntl : ℕ
  pub response : ℕ
  pub sync_condition : Bool

-- What is registered for a method: `function` is the code that is bound into the closure.
pub record CallbackInfo : Type 0 where
  pub service_name : String
  pub method_name : String
  pub function : ℕ

pub record RequestTimeoutEvent : Type 0 where
  pub timeout : ℕ
  pub request_id : ℕ

pub record ChannelOption : Type 0 where
  pub compress_type : ℕ
  pub request_timeout : ℕ

abbrev pub new_option : ℕ → ChannelOption
new_option compress_type = record { compress_type = compress_type; request_timeout = 1000 }

-- `fresh` is an address at which no object is yet.
pub record Channel : Type 0 where
  pub init_success : Bool
  pub option : ChannelOption
  pub client : Client
  pub request_id : ℕ
  pub request_callback : Map ℕ ChannelCallback
  pub register_callback : Map String CallbackInfo
  pub already_callback_queue : List ChannelCallback
  pub timeout_events : List RequestTimeoutEvent
  pub controllers : Map ℕ ChannelController
  pub responses : Map ℕ Bytes
  pub fresh : ℕ

-- The constructor, in a program that has these objects.
abbrev pub new_channel : ChannelOption → Map ℕ ChannelController → ℕ → Channel
new_channel option controllers fresh = record {
  init_success = false;
  option = option;
  client = [];
  request_id = 0;
  request_callback = [];
  register_callback = [];
  already_callback_queue = [];
  timeout_events = [];
  controllers = controllers;
  responses = [];
  fresh = fresh;
}

-- `StartRoute`: what `RpcChannel_Route::Start` returned.
unfoldable pub start_route : Bool → Channel → Channel
start_route started channel = record channel { init_success = started; client = [] }

unfoldable pub stop : Channel → Channel
stop channel = record channel { init_success = false }

unfoldable pub get_controller : ℕ → Effect Channel ChannelController
get_controller address = do
  cntl ← gets (λ channel. lookup address channel.controllers)
  lift (or_fault cntl)

abbrev pub put_controller : ℕ → ChannelController → Channel → Channel
put_controller address cntl channel = record channel {
  controllers = update address cntl channel.controllers;
}

unfoldable pub get_response : ℕ → Effect Channel Bytes
get_response address = do
  response ← gets (λ channel. lookup address channel.responses)
  lift (or_fault response)

abbrev pub put_response : ℕ → Bytes → Channel → Channel
put_response address bytes channel = record channel {
  responses = update address bytes channel.responses;
}

-- A new response with nothing in it.
abbrev pub make_response : ℕ → Channel → Channel
make_response address channel = record channel { responses = insert address [] channel.responses }

abbrev pub digit : ℕ → String
digit zero = "0"
digit (suc zero) = "1"
digit (suc (suc zero)) = "2"
digit (suc (suc (suc zero))) = "3"
digit (suc (suc (suc (suc zero)))) = "4"
digit (suc (suc (suc (suc (suc zero))))) = "5"
digit (suc (suc (suc (suc (suc (suc zero)))))) = "6"
digit (suc (suc (suc (suc (suc (suc (suc zero))))))) = "7"
digit (suc (suc (suc (suc (suc (suc (suc (suc zero)))))))) = "8"
digit (suc (suc (suc (suc (suc (suc (suc (suc (suc n))))))))) = "9"

-- `std::to_string`; a number has no more digits than it counts.
unfoldable pub to_string_within : ℕ → ℕ → String
to_string_within zero n = digit n
to_string_within (suc fuel) n =
    let rest = to_string_within fuel (n / 10) in
    if ltb n 10 then digit n else append rest (digit (n % 10))

unfoldable pub convert_method_key : String → ℕ → String
unfolding to_string_within
convert_method_key service_name method_index =
    append service_name (append "." (to_string_within method_index method_index))

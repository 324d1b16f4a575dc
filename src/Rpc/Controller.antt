-- ===== src/Rpc/Controller.antt =====
-- The controllers of src/rpc/controller.{h,cpp}. A closure is known by its number, and a channel
-- controller's channel by whether it is a null pointer.
use frrpc.Prelude.{ℕ, Bool, false, String, Option, none, not}
use text.Mathlib.Text.{◌==◌ as same}

abbrev pub request_id_null : ℕ
request_id_null = 0

abbrev pub link_id_null : ℕ
link_id_null = 0

pub record ChannelController : Type 0 where
  pub error : String
  pub is_cancel : Bool
  pub is_sync : Bool
  pub request_id : ℕ
  pub has_channel : Bool
  pub callback : Option ℕ

abbrev pub new_channel_controller : Bool → Bool → ChannelController
new_channel_controller has_channel is_sync = record {
  error = "";
  is_cancel = false;
  is_sync = is_sync;
  request_id = request_id_null;
  has_channel = has_channel;
  callback = none;
}

-- `Failed` of a controller with this error text
unfoldable pub failed : String → Bool
failed error = not (same error "")

unfoldable pub set_failed : String → ChannelController → ChannelController
set_failed reason cntl = record cntl { error = reason }

unfoldable pub notify_on_cancel : Option ℕ → ChannelController → ChannelController
notify_on_cancel callback cntl = record cntl { callback = callback }

pub record ServerController : Type 0 where
  pub error : String
  pub link_id : ℕ

abbrev pub new_server_controller : ServerController
new_server_controller = record { error = ""; link_id = link_id_null }

unfoldable pub reset_server : ServerController → ServerController
reset_server cntl = record cntl { error = ""; link_id = link_id_null }

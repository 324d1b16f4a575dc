-- ===== src/Wire/Messages.antt =====
-- The messages of src/pb/{net,frrpc,route}.proto, by their accessors. Enumerations are numbers: the
-- syntax is proto3, where an unknown value is kept. Sockets and the other int32 fields are numbers
-- that the program only passes on and compares.
use frrpc.Prelude.{ℕ, Bool, false, String, List, []}
use frrpc.Wire.Bytes.{Bytes}

pub record NetInfo : Type 0 where
  pub net_type : ℕ
  pub net_binary : Bytes

pub record RpcRequestMeta : Type 0 where
  pub request_id : ℕ

pub record RpcResponseMeta : Type 0 where
  pub error : String
  pub failed : Bool

pub record RpcMeta : Type 0 where
  pub service_name : String
  pub method_index : ℕ
  pub rpc_request_meta : RpcRequestMeta
  pub rpc_response_meta : RpcResponseMeta
  pub compress_type : ℕ

pub record RouteNetInfo : Type 0 where
  pub is_channel_packet : Bool
  pub service_name : String
  pub target_sockets : List ℕ
  pub source_socket : ℕ

pub record RouteCmdRequest : Type 0 where
  pub cmd : ℕ
  pub request_binary : Bytes

pub record RouteCmdResponse : Type 0 where
  pub cmd : ℕ

pub record ChannelServiceRegister : Type 0 where
  pub service_name : String
  pub service_addr : String

pub record ServerDisconnectChannel : Type 0 where
  pub channel_socket : List ℕ

pub record RouteServiceInfo : Type 0 where
  pub name : String
  pub addr : String

pub record RouteNotify : Type 0 where
  pub type : ℕ
  pub bytes : Bytes

pub record NotifyDisconnect : Type 0 where
  pub socket : ℕ

abbrev pub net_type_route : ℕ
net_type_route = 0x1

abbrev pub net_type_special : ℕ
net_type_special = 0xEF

abbrev pub net_type_route_cmd : ℕ
net_type_route_cmd = 0xF1

abbrev pub net_type_heart : ℕ
net_type_heart = 0xF2

abbrev pub net_type_route_notify : ℕ
net_type_route_notify = 0xF4

abbrev pub cmd_channel_service_register : ℕ
cmd_channel_service_register = 1

abbrev pub cmd_server_disconnect_channel : ℕ
cmd_server_disconnect_channel = 2

abbrev pub cmd_server_service_register : ℕ
cmd_server_service_register = 3

abbrev pub cmd_server_service_cancel : ℕ
cmd_server_service_cancel = 4

abbrev pub notify_type_disconnect : ℕ
notify_type_disconnect = 1

-- Messages as they are constructed.
abbrev pub empty_net_info : NetInfo
empty_net_info = record { net_type = 0; net_binary = [] }

abbrev pub empty_meta : RpcMeta
empty_meta = record {
  service_name = "";
  method_index = 0;
  rpc_request_meta = record { request_id = 0 };
  rpc_response_meta = record { error = ""; failed = false };
  compress_type = 0;
}

abbrev pub empty_route_net_info : RouteNetInfo
empty_route_net_info = record {
  is_channel_packet = false;
  service_name = "";
  target_sockets = [];
  source_socket = 0;
}

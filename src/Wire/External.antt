-- ===== src/Wire/External.antt =====
-- What the program takes from elsewhere: the protobuf runtime and frpublic's `BinaryMemory`.
use frrpc.Prelude.{ℕ, ◌++◌, Option, some, ◌≡◌, length}
use frrpc.Wire.Bytes.{Bytes, le_bytes}
use frrpc.Wire.Messages.{
  NetInfo, RpcMeta, RouteNetInfo, RouteCmdRequest, RouteCmdResponse, ChannelServiceRegister,
  ServerDisconnectChannel, RouteServiceInfo, RouteNotify, NotifyDisconnect,
}

-- `SerializeToArray` or `SerializeToString`, `ByteSize` and `ParseFromArray` or `ParseFromString`
-- of a message type: what is serialized has the size that `ByteSize` says, and parses back.
pub record Codec (M : Type 0) : Type 0 where
  pub serialize : M → Option Bytes
  pub byte_size : M → ℕ
  pub parse : Bytes → Option M
  pub byte_size-serialize : (m : M) (bs : Bytes) → serialize m ≡ some bs → byte_size m ≡ length bs
  pub parse-serialize : (m : M) (bs : Bytes) → serialize m ≡ some bs → parse bs ≡ some m

-- `add` is `BinaryMemory::add`, and a write into the room that `CopyMemoryFromOut` makes;
-- `push_number w` is `PushNumberToBinaryMemory` of a number of `w` bytes. Both write at the end.
pub record External : Type 0 where
  pub net_info : Codec NetInfo
  pub rpc_meta : Codec RpcMeta
  pub route_net_info : Codec RouteNetInfo
  pub cmd_request : Codec RouteCmdRequest
  pub cmd_response : Codec RouteCmdResponse
  pub service_register : Codec ChannelServiceRegister
  pub disconnect_channel : Codec ServerDisconnectChannel
  pub service_info : Codec RouteServiceInfo
  pub route_notify : Codec RouteNotify
  pub notify_disconnect : Codec NotifyDisconnect
  pub add : Bytes → Bytes → Bytes
  pub push_number : ℕ → ℕ → Bytes → Bytes
  pub add-append : (memory bs : Bytes) → add memory bs ≡ memory ++ bs
  pub push_number-append :
      (w n : ℕ) (memory : Bytes) → push_number w n memory ≡ memory ++ le_bytes w n

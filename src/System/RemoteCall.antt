-- ===== src/System/RemoteCall.antt =====
-- A remote call: what a channel gets is what the service's method gives.
pub mod Way
pub mod WayBack
pub mod Returned
use frrpc.Prelude.{
  ℕ, suc, ◌+◌, ◌^◌, ◌<◌, ◌≡◌, ◌≢◌, some, String, [], ◌∷◌, length, get_elem?, string_key, nat_key,
}
use frrpc.Prelude.Outcome.{ok}
use frrpc.Prelude.Map.{lookup}
use frrpc.Wire.Bytes.{Bytes}
use frrpc.Wire.Messages.{RpcMeta}
use frrpc.Wire.External.{Codec, External}
use frrpc.Wire.Packet.{RpcPacket}
use frrpc.Net.LinkId.{build_link_id}
use frrpc.Net.Base.{Client, net_packet_max_size}
use frrpc.Net.ServerRoute.{RpcServerRoute}
use frrpc.Route.State.{RpcRoute}
use frrpc.Route.Services.{get_server_socket}
use frrpc.Rpc.Server.{Service}
use frrpc.EndToEnd.{to_service, to_channel, routed}
use frrpc.System.{Platform, Places, System, sent_by}
use frrpc.System.Calls.{next_id}

-- A message serializes to bytes that are not empty, and so do the parts around it, and the packet
-- stays below 4096 bytes, on its way from the channel at a socket to the gateway and further on.
pub record CallFits {M : Type 0} (ext : External) (codec : Codec M) (socket : ℕ) (meta : RpcMeta)
    (body : M) : Type 0 where
  pub sent_binary : Bytes
  pub sent_net : Bytes
  pub relayed_binary : Bytes
  pub relayed_net : Bytes
  pub meta_bytes : Bytes
  pub first : ℕ
  pub others : Bytes
  pub sent : ext.route_net_info.serialize (to_service meta) ≡ some sent_binary
  pub sent_as : ext.net_info.serialize (routed sent_binary) ≡ some sent_net
  pub relayed :
      ext.route_net_info.serialize (record (to_service meta) { source_socket = socket })
      ≡ some relayed_binary
  pub relayed_as : ext.net_info.serialize (routed relayed_binary) ≡ some relayed_net
  pub meta_as : ext.rpc_meta.serialize meta ≡ some meta_bytes
  pub body_as : codec.serialize body ≡ some (first ∷ others)
  pub some_net : 0 < length sent_net
  pub some_relayed : 0 < length relayed_net
  pub some_meta : 0 < length meta_bytes
  pub fits : 4 + length sent_net + length meta_bytes + suc (length others) < net_packet_max_size
  pub relayed_fits :
      4 + length relayed_net + length meta_bytes + suc (length others) < net_packet_max_size

-- The same of a message on its way from the server to the channel at a socket.
pub record AnswerFits {M : Type 0} (ext : External) (codec : Codec M) (socket : ℕ) (meta : RpcMeta)
    (body : M) : Type 0 where
  pub sent_binary : Bytes
  pub sent_net : Bytes
  pub meta_bytes : Bytes
  pub first : ℕ
  pub others : Bytes
  pub sent : ext.route_net_info.serialize (to_channel socket) ≡ some sent_binary
  pub sent_as : ext.net_info.serialize (routed sent_binary) ≡ some sent_net
  pub meta_as : ext.rpc_meta.serialize meta ≡ some meta_bytes
  pub body_as : codec.serialize body ≡ some (first ∷ others)
  pub some_net : 0 < length sent_net
  pub some_meta : 0 < length meta_bytes
  pub fits : 4 + length sent_net + length meta_bytes + suc (length others) < net_packet_max_size

module _ {Request Response : Type 0} (p : Platform Request Response) (places : Places) where
  -- Nothing is on its way.
  pub record IsQuiet (system : System Request Response) : Type 0 where
    pub channel_done : length system.channel.client ≡ system.from_channel
    pub server_done : length (sent_by p places system.server.rpc_net) ≡ system.from_server
    pub gateway_done : length system.gateway.net_server ≡ system.from_gateway
    pub channel_idle : system.channel_received.packet_queue ≡ []
    pub server_idle : system.server_received.packet_queue ≡ []

  -- The gateway sends calls of the service from the channel to the server, which is connected to
  -- the gateway and has the method; frnet and the queues do their work, and the numbers fit.
  pub record CanServe (service_name : String) (method_index n : ℕ)
      (system : System Request Response) : Type 0 where
    pub found : RpcRoute
    pub net : RpcServerRoute
    pub client : Client
    pub service : Service Request Response
    pub routes :
        get_server_socket places.channel_socket service_name system.gateway
        ≡ (ok places.server_socket, found)
    pub connected : system.server.rpc_net ≡ some net
    pub has_client : get_elem? net.route_client_list places.route_id ≡ some client
    pub known : lookup service_name system.server.name_2service ≡ some service
    pub method : method_index < service.method_count
    pub apart : places.channel_socket ≢ places.server_socket
    pub room : places.channel_socket < 10 ^ net.route_length
    pub linked : build_link_id net.route_length places.route_id places.channel_socket ≢ 0
    pub numbered : next_id system.channel ≢ 0
    pub small : next_id system.channel < 2 ^ 31
    pub takes : (packet : RpcPacket) → (p.packets.pop (packet ∷ []) n).0 ≡ packet ∷ []

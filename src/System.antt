-- ===== src/System.antt =====
-- A channel, a gateway and a server that are connected: what each end has sent is handed to the
-- other, in order. One channel and one server are at the gateway; a packet of the gateway for any
-- other socket is carried out of sight. frnet hands packets over one by one.
pub mod Relay
pub mod Calls
pub mod Ends
pub mod Arrivals
pub mod RemoteCall
use frrpc.Prelude.{
  ℕ, suc, true, false, String, List, [], ◌∷◌, Option, none, some, if◌then◌else◌, get_elem?, ◌==◌,
}
use frrpc.Wire.Bytes.{Bytes}
use frrpc.Wire.External.{Codec, External}
use frrpc.Wire.Packet.{RpcPacket}
use frrpc.Route.State.{Network, RpcRoute, NetCall, send}
use frrpc.Route.Receive.{on_receive}
use frrpc.Net.Base.{LockQueue, Client, Answers, Received, fetch_message_queue}
use frrpc.Net.ChannelNet
use frrpc.Net.ServerClient
use frrpc.Net.ServerRoute.{RpcServerRoute}
use frrpc.Rpc.Channel.{Channel, ChannelCallback}
use frrpc.Rpc.Channel.Requests.{call_method}
use frrpc.Rpc.Channel.Parse.{parse_queue}
use frrpc.Rpc.Server.{Server}
use frrpc.Rpc.Server.Requests.Loop.{serve_queue}

-- What the program runs on: protobuf, frnet and frtemplate.
pub record Platform (Request Response : Type 0) : Type 0 where
  pub ext : External
  pub network : Network
  pub answers : Answers
  pub ok_code : ℕ
  pub packets : LockQueue RpcPacket
  pub callbacks : LockQueue ChannelCallback
  pub requests : Codec Request
  pub responses : Codec Response

-- The sockets of the channel and of the server at the gateway, and the gateway's number at the
-- server.
pub record Places : Type 0 where
  pub channel_socket : ℕ
  pub server_socket : ℕ
  pub route_id : ℕ

-- The three numbers count what was handed over: of the channel's packets, of the server's packets
-- for this gateway, and of the gateway's calls.
pub record System (Request Response : Type 0) : Type 0 where
  pub channel : Channel
  pub channel_received : Received
  pub gateway : RpcRoute
  pub server : Server Request Response
  pub server_received : Received
  pub from_channel : ℕ
  pub from_server : ℕ
  pub from_gateway : ℕ

-- What happens, one after the other. A call has the method, the addresses of its controller and its
-- response, the request, the closure and the time.
pub data Action (Request : Type 0) : Type 0 where
  calls : String → ℕ → ℕ → ℕ → Request → Option ℕ → ℕ → Action Request
  channel_packet_goes : Action Request
  server_packet_goes : Action Request
  gateway_packet_goes : Action Request
  serves : ℕ → Action Request
  parses : ℕ → Action Request

module _ {Request Response : Type 0} (p : Platform Request Response) (places : Places) where
  -- The gateway gets a packet, if there is one, from a socket.
  unfoldable pub to_gateway : ℕ → Option (Option Bytes) → RpcRoute → RpcRoute
  to_gateway socket (some (some bytes)) gateway =
      (on_receive p.ext p.network socket bytes 0 gateway).1
  to_gateway socket _ gateway = gateway

  -- A call of the gateway's `net_server_` takes effect at the end that it is for.
  unfoldable pub to_channel : Option NetCall → Received → Received
  to_channel (some (send socket (some bytes))) received =
      if socket == places.channel_socket
      then (ChannelNet.on_receive p.ext p.packets bytes (record received { read_size = 0 })).1
      else received
  to_channel _ received = received

  unfoldable pub to_server : ℕ → Option NetCall → Received → Received
  to_server route_length (some (send socket (some bytes))) received =
      if socket == places.server_socket
      then (ServerClient.on_receive p.ext p.packets route_length places.route_id bytes
          (record received { read_size = 0 })).1
      else received
  to_server route_length _ received = received

  -- A number of things handed over, after one more if there was one.
  abbrev pub counted : {A : Type 0} → Option A → ℕ → ℕ
  counted none n = n
  counted (some a) n = suc n

  abbrev pub route_length_of : Option RpcServerRoute → ℕ
  route_length_of none = 0
  route_length_of (some net) = net.route_length

  -- What the server has sent to the gateway.
  abbrev pub sent_by : Option RpcServerRoute → Client
  sent_by none = []
  sent_by (some net) = elim (get_elem? net.route_client_list places.route_id) [
    | none ↦ []
    | some client ↦ client
  ]

  abbrev pub step : Action Request → System Request Response → System Request Response
  step (calls service_name method_index cntl response request closure cur_time) system =
      record system {
        channel =
            (call_method p.ext p.answers p.requests service_name method_index (some cntl) request
              (some response) closure cur_time system.channel).1;
      }
  step channel_packet_goes system = record system {
    gateway =
        to_gateway places.channel_socket (get_elem? system.channel.client system.from_channel)
          system.gateway;
    from_channel =
        counted (get_elem? system.channel.client system.from_channel) system.from_channel;
  }
  step server_packet_goes system = record system {
    gateway =
        to_gateway places.server_socket
          (get_elem? (sent_by system.server.rpc_net) system.from_server) system.gateway;
    from_server =
        counted (get_elem? (sent_by system.server.rpc_net) system.from_server) system.from_server;
  }
  step gateway_packet_goes system = record system {
    channel_received =
        to_channel (get_elem? system.gateway.net_server system.from_gateway)
          system.channel_received;
    server_received =
        to_server (route_length_of system.server.rpc_net)
          (get_elem? system.gateway.net_server system.from_gateway) system.server_received;
    from_gateway =
        counted (get_elem? system.gateway.net_server system.from_gateway) system.from_gateway;
  }
  step (serves n) system =
      let (own, rest) = fetch_message_queue p.packets system.server_received.packet_queue n [] in
      record system {
        server =
            (serve_queue p.ext p.answers p.ok_code p.responses (λ i. false) own system.server).1;
        server_received = record system.server_received { packet_queue = rest };
      }
  step (parses n) system =
      let (own, rest) = fetch_message_queue p.packets system.channel_received.packet_queue n [] in
      record system {
        channel = (parse_queue p.callbacks (λ i. true) own system.channel).1;
        channel_received = record system.channel_received { packet_queue = rest };
      }

  abbrev pub run : List (Action Request) → System Request Response → System Request Response
  run [] system = system
  run (action ∷ actions) system = run actions (step action system)

-- ===== src/EndToEnd.antt =====
-- A call and its answer on their way: `RpcChannel_Route::Send`, the gateway's `RouteProcess`,
-- `OnReceive` of a server, `RpcServer_Route_Client::Send`, the gateway again, and `OnReceive` of the
-- channel.
pub mod HeartBeat
use frrpc.Prelude.{ℕ, ◌+◌, ◌<◌, ◌^◌, ◌≡◌, refl, true, some, [], ◌∷◌, ◌++◌, arith, length, sym, ap}
use mathlib.Core.List.{append-nil}
use frrpc.Prelude.Outcome.{ok}
use frrpc.Wire.Bytes.{Bytes}
use frrpc.Wire.Messages.{NetInfo, RpcMeta, RouteNetInfo, empty_route_net_info, net_type_route}
use frrpc.Wire.External.{Codec, External}
use frrpc.Wire.Packet.{RpcPacket, event_method, new_packet}
use frrpc.Wire.Layout.{framed, rpc_part, length-rpc_part, build_from_message-framed}
use frrpc.Wire.RoundTrip.{filled}
use frrpc.Route.State.{Network, RpcRoute, NetCall}
use frrpc.Route.Services.{get_server_socket}
use frrpc.Route.Process.{route_process}
use frrpc.Route.Process.Delivery.{
  with_calls, sends, channel_packet_delivered, server_packet_delivered,
}
use frrpc.Net.LinkId.Codec.{link_id_roundtrip}
use frrpc.Net.LinkId.{build_link_id}
use frrpc.Net.Base.{LockQueue, Client, Answers, client_send, Received, net_packet_max_size}
use frrpc.Net.ChannelNet
use frrpc.Net.ChannelNet.Queued.{answer_is_queued}
use frrpc.Net.ServerClient
use frrpc.Net.ServerClient.Queued.{call_is_queued}

-- What a channel says to the gateway, and what the gateway makes of it.
abbrev pub to_service : RpcMeta → RouteNetInfo
to_service meta = record empty_route_net_info {
  is_channel_packet = true;
  service_name = meta.service_name;
}

-- What a server says to the gateway.
abbrev pub to_channel : ℕ → RouteNetInfo
to_channel socket = record empty_route_net_info { target_sockets = socket ∷ [] }

abbrev pub routed : Bytes → NetInfo
routed net_binary = record { net_type = net_type_route; net_binary = net_binary }

module _ (ext : External) (network : Network) (answers : Answers)
    (queues : LockQueue RpcPacket) where
  pub channel_sends :
      {M : Type 0} (codec : Codec M) (meta : RpcMeta) (body : M) (client : Client)
      (sent_binary sent_net meta_bytes body_bytes : Bytes)
      → ext.route_net_info.serialize (to_service meta) ≡ some sent_binary
      → ext.net_info.serialize (routed sent_binary) ≡ some sent_net
      → ext.rpc_meta.serialize meta ≡ some meta_bytes
      → codec.serialize body ≡ some body_bytes
      → 4 + length sent_net + length meta_bytes + length body_bytes < net_packet_max_size
      → ChannelNet.send ext answers codec meta body client ≡ (
        answers client (some (framed sent_net (rpc_part meta_bytes body_bytes))),
        client ++ some (framed sent_net (rpc_part meta_bytes body_bytes)) ∷ [],
      )
  unfolding ChannelNet.send client_send
  channel_sends codec meta body client sent_binary sent_net meta_bytes body_bytes s sn sm sb f =
      ground (
        arith,
        s,
        build_from_message-framed ext codec (routed sent_binary) meta body sent_net meta_bytes
            body_bytes sn sm sb (omega arith) (omega arith) (omega arith),
      )

  pub server_sends :
      {M : Type 0} (codec : Codec M) (meta : RpcMeta) (body : M) (client : Client)
      (sent_binary sent_net meta_bytes body_bytes : Bytes) (socket route_length route_id : ℕ)
      → socket < 10 ^ route_length
      → ext.route_net_info.serialize (to_channel socket) ≡ some sent_binary
      → ext.net_info.serialize (routed sent_binary) ≡ some sent_net
      → ext.rpc_meta.serialize meta ≡ some meta_bytes
      → codec.serialize body ≡ some body_bytes
      → 4 + length sent_net + length meta_bytes + length body_bytes < net_packet_max_size
      → (ServerClient.send ext answers route_length route_id codec
          (build_link_id route_length route_id socket ∷ [])
          meta
          body
          client)
        ≡ (
          answers client (some (framed sent_net (rpc_part meta_bytes body_bytes))),
          client ++ some (framed sent_net (rpc_part meta_bytes body_bytes)) ∷ [],
        )
  unfolding ServerClient.send ServerClient.target_sockets ServerClient.send_route_net_info
      client_send
  server_sends codec meta body client sent_binary sent_net meta_bytes body_bytes socket route_length
        route_id lt s sn sm sb f =
      let (p, q) = link_id_roundtrip route_length route_id socket in
      rw (p.1 lt, q.1 lt)
        (ground (
          arith,
          s,
          build_from_message-framed ext codec (routed sent_binary) meta body sent_net meta_bytes
              body_bytes sn sm sb (omega arith) (omega arith) (omega arith),
        ))

  -- A call from end to end. Where the messages serialize, the packets stay below 4096 bytes and the
  -- body is not empty, the channel sends one packet; the gateway, which gets it from a socket, sends
  -- one packet to the socket that it finds for the channel and the service; and the server that
  -- gets that one queues one call, with the channel's meta and body, and a link id that is made of
  -- the gateway's number and the channel's socket.
  pub call_arrives :
      {M : Type 0} (codec : Codec M) (meta : RpcMeta) (body : M) (client : Client)
      (sent_binary sent_net relayed_binary relayed_net meta_bytes : Bytes) (b : ℕ) (bs : Bytes)
      (socket target route_length route_id : ℕ) (route found : RpcRoute) (state : Received)
      → ext.route_net_info.serialize (to_service meta) ≡ some sent_binary
      → ext.net_info.serialize (routed sent_binary) ≡ some sent_net
      → ext.route_net_info.serialize (record (to_service meta) { source_socket = socket })
        ≡ some relayed_binary
      → ext.net_info.serialize (routed relayed_binary) ≡ some relayed_net
      → ext.rpc_meta.serialize meta ≡ some meta_bytes
      → codec.serialize body ≡ some (b ∷ bs)
      → 4 + length sent_net + length meta_bytes + length (b ∷ bs) < net_packet_max_size
      → 4 + length relayed_net + length meta_bytes + length (b ∷ bs) < net_packet_max_size
      → 0 < length relayed_net
      → 0 < length meta_bytes
      → get_server_socket socket meta.service_name route ≡ (ok target, found)
      → state.read_size ≡ 0
      → ((ChannelNet.send ext answers codec meta body client).1
          ≡ client ++ some (framed sent_net (rpc_part meta_bytes (b ∷ bs))) ∷ [])
        × (route_process ext network socket
              (framed sent_net (rpc_part meta_bytes (b ∷ bs)))
              0
              (routed sent_binary)
              route
            ≡ (
              ok tt,
              with_calls found (
                  NetCall.send target (some (framed relayed_net (rpc_part meta_bytes (b ∷ bs))))
                  ∷ []),
            ))
        × (ServerClient.on_receive ext queues route_length route_id
              (framed relayed_net (rpc_part meta_bytes (b ∷ bs)))
              state
            ≡ (
              ok tt,
              record {
                packet_queue = queues.push state.packet_queue (record {
                  link_id = build_link_id route_length route_id socket;
                  net_event = event_method;
                  rpc_meta = meta;
                  binary = some (b ∷ bs);
                });
                read_size = length (framed relayed_net (rpc_part meta_bytes (b ∷ bs)));
              },
            ))
  call_arrives codec meta body client sent_binary sent_net relayed_binary relayed_net meta_bytes b
        bs socket target route_length route_id route found state s sn r rn sm sb f f' pr pm g
        fresh =
      (
        ap (λ r. r.1)
            (channel_sends codec meta body client sent_binary sent_net meta_bytes (b ∷ bs) s sn sm
              sb f),
        channel_packet_delivered ext network (framed sent_net (rpc_part meta_bytes (b ∷ bs))) 0
            sent_net (rpc_part meta_bytes (b ∷ bs)) []
            (record {
              at = sym (simp append-nil);
              net_fits = omega arith;
              fits = omega (arith, length-rpc_part meta_bytes (b ∷ bs));
            })
            socket (routed sent_binary) (to_service meta) relayed_binary relayed_net route target
            found (ext.route_net_info.parse-serialize _ _ s) refl r rn (omega arith)
            (omega (arith, length-rpc_part meta_bytes (b ∷ bs))) g,
        call_is_queued ext queues route_length route_id (routed relayed_binary)
            (record (to_service meta) { source_socket = socket }) meta relayed_net meta_bytes refl
            rn (ext.route_net_info.parse-serialize _ _ r) sm pr pm b bs state f' fresh,
      )

  -- An answer from end to end. Where the messages serialize, the packet stays below 4096 bytes, and
  -- the socket has no more digits than the link ids leave room for, the server that answers the link
  -- id of a channel's socket sends one packet; the gateway sends it on, as it is, to this socket
  -- alone; and the channel queues one packet with the server's meta and body.
  pub answer_arrives :
      {M : Type 0} (codec : Codec M) (meta : RpcMeta) (body : M) (client : Client)
      (sent_binary sent_net meta_bytes body_bytes : Bytes)
      (service socket route_length route_id : ℕ) (route : RpcRoute) (state : Received)
      → socket < 10 ^ route_length
      → ext.route_net_info.serialize (to_channel socket) ≡ some sent_binary
      → ext.net_info.serialize (routed sent_binary) ≡ some sent_net
      → ext.rpc_meta.serialize meta ≡ some meta_bytes
      → codec.serialize body ≡ some body_bytes
      → 4 + length sent_net + length meta_bytes + length body_bytes < net_packet_max_size
      → 0 < length sent_net
      → 0 < length meta_bytes
      → state.read_size ≡ 0
      → ((ServerClient.send ext answers route_length route_id codec
            (build_link_id route_length route_id socket ∷ [])
            meta
            body
            client).1
          ≡ client ++ some (framed sent_net (rpc_part meta_bytes body_bytes)) ∷ [])
        × (route_process ext network service
              (framed sent_net (rpc_part meta_bytes body_bytes))
              0
              (routed sent_binary)
              route
            ≡ (
              ok tt,
              with_calls route
                  (sends (socket ∷ []) (some (framed sent_net (rpc_part meta_bytes body_bytes)))),
            ))
        × (ChannelNet.on_receive ext queues (framed sent_net (rpc_part meta_bytes body_bytes)) state
            ≡ (
              ok tt,
              record {
                packet_queue =
                    queues.push state.packet_queue
                      (filled meta body_bytes (new_packet 0 event_method));
                read_size = length (framed sent_net (rpc_part meta_bytes body_bytes));
              },
            ))
  answer_arrives codec meta body client sent_binary sent_net meta_bytes body_bytes service socket
        route_length route_id route state lt s sn sm sb f pn pm fresh =
      (
        ap (λ r. r.1)
            (server_sends codec meta body client sent_binary sent_net meta_bytes body_bytes socket
              route_length route_id lt s sn sm sb f),
        server_packet_delivered ext network (framed sent_net (rpc_part meta_bytes body_bytes)) 0
            sent_net (rpc_part meta_bytes body_bytes) []
            (record {
              at = sym (simp append-nil);
              net_fits = omega arith;
              fits = omega (arith, length-rpc_part meta_bytes body_bytes);
            })
            service (routed sent_binary) (to_channel socket) route
            (ext.route_net_info.parse-serialize _ _ s) refl,
        answer_is_queued ext queues (routed sent_binary) meta sent_net meta_bytes refl sn sm pn pm
            body_bytes state f fresh,
      )

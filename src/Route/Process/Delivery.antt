-- ===== src/Route/Process/Delivery.antt =====
-- What `RouteProcess` sends, and where.
use mathlib.Core.List.{append-nil, append_assoc}
use mathlib.Core.Path.{subst}
use frrpc.Prelude.{
  sym, Bool, if◌then◌else◌, ℕ, ◌+◌, ◌^◌, ◌<◌, ◌≡◌, arith, true, false, List, [], ◌∷◌, ◌++◌, some,
  Option, String, ◌∙◌, length, map, if◌then◌else◌,
}
use frrpc.Prelude.Outcome.{ok, refused}
use frrpc.Prelude.Effect.{◌>>=◌}
use frrpc.Wire.Bytes.{Bytes}
use frrpc.Wire.Messages.{NetInfo, RouteNetInfo, ServerDisconnectChannel}
use frrpc.Wire.External.{External}
use frrpc.Wire.Layout.{framed}
use frrpc.Route.State.{Network, RpcRoute, NetCall, send, disconnect, send_to, disconnect_socket}
use frrpc.Route.Services.{get_server_socket, is_service_socket}
use frrpc.Route.Forward.Relay.{IsAt, build_send_packet_at, whole_packet_at}
use frrpc.Route.Process.{
  send_all, route_process, disconnect_all, server_disconnect_channel, process_channel_packet,
  process_server_packet,
}

-- The calls that hand one packet to each of some sockets.
unfoldable pub sends : List ℕ → Option Bytes → List NetCall
sends [] packet = []
sends (s ∷ sockets) packet = send s packet ∷ sends sockets packet

abbrev pub with_calls : RpcRoute → List NetCall → RpcRoute
with_calls route calls = record route { net_server = route.net_server ++ calls }

module _ (ext : External) (network : Network) where
  send_all_lem :
      (sockets : List ℕ) (packet : Option Bytes) (route : RpcRoute)
      → send_all ext network sockets packet route ≡ (ok tt, with_calls route (sends sockets packet))
  unfolding send_all sends send_to ◌>>=◌
  send_all_lem [] packet route = simp append-nil
  send_all_lem (s ∷ sockets) packet route =
      send_all_lem sockets packet (with_calls route (send s packet ∷ [])) ∙ simp append_assoc

  -- The gateway looks a service up without a call of the network.
  pub net_server-get :
      (channel : ℕ) (name : String) (route : RpcRoute)
      → (get_server_socket channel name route).1.net_server ≡ route.net_server
  unfolding get_server_socket
  net_server-get channel name route = ground arith

  module _ (binary : Bytes) (offset : ℕ) (net rest ys : Bytes)
      (h : IsAt binary offset net rest ys) where
    -- A packet of the layout stands at the offset, and its net info says that a server sent it.
    -- Then the gateway sends it, as it is, to each of the sockets that it names, in their order.
    pub server_packet_delivered :
        (socket : ℕ) (info : NetInfo) (rni : RouteNetInfo) (route : RpcRoute)
        → ext.route_net_info.parse info.net_binary ≡ some rni
        → rni.is_channel_packet ≡ false
        → route_process ext network socket binary offset info route
          ≡ (ok tt, with_calls route (sends rni.target_sockets (some (framed net rest))))
    unfolding route_process process_server_packet ◌>>=◌
    server_packet_delivered socket info rni route p c =
        rw (p, route_process)
          (rw (c, route_process)
            (rw (whole_packet_at binary offset net rest ys h, route_process)
              (send_all_lem rni.target_sockets (some (framed net rest)) route)))

    channel_part :
        (socket : ℕ) (info : NetInfo) (rni : RouteNetInfo) (net_binary net' : Bytes)
        (route : RpcRoute) (target : ℕ) (found : RpcRoute)
        → ext.route_net_info.serialize (record rni { source_socket = socket }) ≡ some net_binary
        → ext.net_info.serialize (record info { net_binary = net_binary }) ≡ some net'
        → length net' < 2 ^ 16
        → 2 + length net' + length rest < 2 ^ 32
        → get_server_socket socket rni.service_name route ≡ (ok target, found)
        → process_channel_packet ext network socket binary offset info rni route
          ≡ (ok tt, with_calls found (send target (some (framed net' rest)) ∷ []))
    unfolding process_channel_packet send_all send_to ◌>>=◌
    channel_part socket info rni net_binary net' route target found s s' f f' g =
        rw (s, process_channel_packet)
          (rw (g, process_channel_packet)
            (rw (
              build_send_packet_at binary offset net rest ys h ext
                  (record info { net_binary = net_binary }) net' s' f f',
              process_channel_packet,
            )))

    -- A packet of the layout stands at the offset, its net info says that a channel sent it, and
    -- the net info with the channel's socket as its source serializes and fits the size fields.
    -- Then the gateway sends one packet, to the socket that `GetServerSocket` finds for the
    -- channel and the service that the packet names: it has the new net info, and what follows is
    -- as it was.
    pub channel_packet_delivered :
        (socket : ℕ) (info : NetInfo) (rni : RouteNetInfo) (net_binary net' : Bytes)
        (route : RpcRoute) (target : ℕ) (found : RpcRoute)
        → ext.route_net_info.parse info.net_binary ≡ some rni
        → rni.is_channel_packet ≡ true
        → ext.route_net_info.serialize (record rni { source_socket = socket }) ≡ some net_binary
        → ext.net_info.serialize (record info { net_binary = net_binary }) ≡ some net'
        → length net' < 2 ^ 16
        → 2 + length net' + length rest < 2 ^ 32
        → get_server_socket socket rni.service_name route ≡ (ok target, found)
        → route_process ext network socket binary offset info route
          ≡ (ok tt, with_calls found (send target (some (framed net' rest)) ∷ []))
    unfolding route_process process_server_packet ◌>>=◌
    channel_packet_delivered socket info rni net_binary net' route target found p c s s' f f' g =
        let part = channel_part socket info rni net_binary net' route target found s s' f f' g in
        rw (p, route_process)
          (subst
            (λ (b : Bool).
              (if b
                  then process_channel_packet ext network socket binary offset info rni
                  else process_server_packet ext network binary offset rni)
                route
              ≡ (ok tt, with_calls found (send target (some (framed net' rest)) ∷ [])))
            (sym c) part)

  disconnect_all_lem :
      (sockets : List ℕ) (route : RpcRoute)
      → disconnect_all ext network sockets route
        ≡ (ok tt, with_calls route (map disconnect sockets))
  unfolding disconnect_all disconnect_socket ◌>>=◌
  disconnect_all_lem [] route = simp append-nil
  disconnect_all_lem (s ∷ sockets) route =
      disconnect_all_lem sockets (with_calls route (disconnect s ∷ [])) ∙ simp append_assoc

  -- A request to disconnect channels that parses is carried out in full for the socket of a
  -- service, and refused without any call for every other socket.
  pub server_disconnect_channel_lem :
      (socket : ℕ) (binary : Bytes) (request : ServerDisconnectChannel) (route : RpcRoute)
      → ext.disconnect_channel.parse binary ≡ some request
      → server_disconnect_channel ext network socket binary route ≡ (
          if is_service_socket route socket
          then (ok tt, with_calls route (map disconnect request.channel_socket))
          else (refused, route))
  unfolding server_disconnect_channel ◌>>=◌
  server_disconnect_channel_lem socket binary request route p =
      ground (arith, p, disconnect_all_lem request.channel_socket route)

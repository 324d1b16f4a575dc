-- ===== src/Route/Receive/Served.antt =====
-- The registered services through every callback of frnet, in src/route/route.cpp.
use frrpc.Prelude.{ℕ, zero, suc, List, [], ◌∷◌, Option, String, string_key}
use frrpc.Prelude.Effect.Keeps.{Keeps, Keeps-bind, keeps_rules, Keeps-modify}
use frrpc.Wire.Bytes.{Bytes}
use frrpc.Wire.Messages.{NetInfo, RouteNetInfo}
use frrpc.Wire.External.{External}
use frrpc.Route.State.{Network, RpcRoute, send_to, disconnect_socket}
use frrpc.Route.Services.{bind_channel}
use frrpc.Route.Services.Held.{
  IsServed, add_service-IsServed, delete_service-IsServed, find_service_socket-IsServed,
  get_server_socket-IsServed,
}
use frrpc.Route.Process.{
  send_all, process_channel_packet, process_server_packet, route_process, heart_process,
  disconnect_all, command_process,
}
use frrpc.Route.Receive.{dispatch, receive_loop, on_receive}

bind_channel-IsServed :
    (channel : ℕ) (name : String) (server : ℕ) (route : RpcRoute)
    → IsServed route
    → IsServed (bind_channel channel name server route)
unfolding bind_channel
bind_channel-IsServed channel name server route h = record { entries = h.entries }

module _ (ext : External) (network : Network) where
  send_to-IsServed :
      (socket : ℕ) (packet : Option Bytes) → Keeps IsServed (send_to network socket packet)
  unfolding send_to
  send_to-IsServed socket packet = record { at = λ route h. record { entries = h.entries } }

  disconnect_socket-IsServed : (socket : ℕ) → Keeps IsServed (disconnect_socket socket)
  unfolding disconnect_socket
  disconnect_socket-IsServed socket = record { at = λ route h. record { entries = h.entries } }

  ruleset parts = (
    keeps_rules, add_service-IsServed, delete_service-IsServed, find_service_socket-IsServed,
    get_server_socket-IsServed, bind_channel-IsServed, send_to-IsServed, disconnect_socket-IsServed,
  )

  send_all-IsServed :
      (sockets : List ℕ) (packet : Option Bytes)
      → Keeps IsServed (send_all ext network sockets packet)
  unfolding send_all
  send_all-IsServed [] packet = search parts
  send_all-IsServed (s ∷ sockets) packet =
      Keeps-bind IsServed _ _ (send_to-IsServed s packet) (λ _. send_all-IsServed sockets packet)

  pub disconnect_all-IsServed :
      (sockets : List ℕ) → Keeps IsServed (disconnect_all ext network sockets)
  unfolding disconnect_all
  disconnect_all-IsServed [] = search parts
  disconnect_all-IsServed (s ∷ sockets) =
      Keeps-bind IsServed _ _ (disconnect_socket-IsServed s) (λ _. disconnect_all-IsServed sockets)

  process_channel_packet-IsServed :
      (socket : ℕ) (binary : Bytes) (offset : ℕ) (info : NetInfo) (route_info : RouteNetInfo)
      → Keeps IsServed (process_channel_packet ext network socket binary offset info route_info)
  unfolding process_channel_packet
  process_channel_packet-IsServed socket binary offset info route_info =
      search (parts, send_all-IsServed) depth 9

  process_server_packet-IsServed :
      (binary : Bytes) (offset : ℕ) (route_info : RouteNetInfo)
      → Keeps IsServed (process_server_packet ext network binary offset route_info)
  unfolding process_server_packet
  process_server_packet-IsServed binary offset route_info =
      search (parts, send_all-IsServed) depth 9

  route_process-IsServed :
      (socket : ℕ) (binary : Bytes) (offset : ℕ) (info : NetInfo)
      → Keeps IsServed (route_process ext network socket binary offset info)
  unfolding route_process
  route_process-IsServed socket binary offset info =
      search (parts, process_channel_packet-IsServed, process_server_packet-IsServed) depth 9

  heart_process-IsServed :
      (socket : ℕ) (binary : Bytes) (offset : ℕ)
      → Keeps IsServed (heart_process ext network socket binary offset)
  unfolding heart_process
  heart_process-IsServed socket binary offset = search parts

  command_process-IsServed :
      (socket : ℕ) (info : NetInfo) → Keeps IsServed (command_process ext network socket info)
  unfolding command_process
  command_process-IsServed socket info = search (parts, disconnect_all-IsServed) depth 12

  dispatch-IsServed :
      (socket : ℕ) (binary : Bytes) (offset : ℕ) (info : NetInfo)
      → Keeps IsServed (dispatch ext network socket binary offset info)
  unfolding dispatch
  dispatch-IsServed socket binary offset info =
      search (parts, route_process-IsServed, command_process-IsServed, heart_process-IsServed)

  receive_loop-IsServed :
      (fuel socket : ℕ) (binary : Bytes) (cur_offset : ℕ)
      → Keeps IsServed (receive_loop ext network fuel socket binary cur_offset)
  unfolding receive_loop
  receive_loop-IsServed zero socket binary cur_offset = search parts
  receive_loop-IsServed (suc fuel) socket binary cur_offset =
      search (parts, dispatch-IsServed, receive_loop-IsServed fuel) depth 10

  pub on_receive-IsServed :
      (socket : ℕ) (binary : Bytes) (read_size : ℕ)
      → Keeps IsServed (on_receive ext network socket binary read_size)
  unfolding on_receive
  on_receive-IsServed socket binary read_size =
      Keeps-bind IsServed _ _ (Keeps-modify IsServed _ (λ route h. record { entries = h.entries }))
        (λ u. search (parts, receive_loop-IsServed) depth 8)

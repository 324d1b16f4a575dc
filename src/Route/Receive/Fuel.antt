-- ===== src/Route/Receive/Fuel.antt =====
-- The fuel of the loop of `OnReceive` in src/route/route.cpp.
use frrpc.Prelude.{
  ℕ, zero, suc, ◌+◌, ◌-◌, ◌<◌, ◌≢◌, arith, List, [], ◌∷◌, Option, String, length, ltb, ◌≡◌, true,
}
use frrpc.Prelude.Outcome.{exhausted}
use frrpc.Prelude.Effect.Settles.{Settled, Settles, settles_rules, Settles-bind}
use frrpc.Wire.Bytes.{Bytes}
use frrpc.Wire.Messages.{NetInfo, RouteNetInfo}
use frrpc.Wire.External.{External}
use frrpc.Route.State.{Network, RpcRoute, send_to, disconnect_socket}
use frrpc.Route.Services.{add_service, delete_service, find_service_socket, get_server_socket}
use frrpc.Route.Forward.{get_net_info, build_send_packet, whole_packet}
use frrpc.Route.Process.{
  send_all, process_channel_packet, process_server_packet, route_process, heart_process,
  disconnect_all, command_process,
}
use frrpc.Route.Receive.{dispatch, receive_loop, on_receive}

-- A packet takes its size and five bytes at least.
shrinks :
    (n cur size fuel : ℕ)
    → n - cur < suc fuel
    → ltb 4 (n - cur) ≡ true
    → n - (cur + (size + 4)) < fuel
shrinks n cur size fuel h e = ground arith

get_server_socket-Settles : (channel : ℕ) (name : String) → Settles (get_server_socket channel name)
unfolding get_server_socket
get_server_socket-Settles channel name = record { at = λ s. grind arith }

find_service_socket-Settles : (name addr : String) → Settles (find_service_socket name addr)
unfolding find_service_socket
find_service_socket-Settles name addr = record { at = λ s. grind arith }

add_service-Settles : (socket : ℕ) (name addr : String) → Settles (add_service socket name addr)
unfolding add_service
add_service-Settles socket name addr = record { at = λ s. ground arith }

delete_service-Settles : (socket : ℕ) → Settles (delete_service socket)
unfolding delete_service
delete_service-Settles socket = record { at = λ s. ground arith }

whole_packet-Settled : (binary : Bytes) (offset : ℕ) → Settled (whole_packet binary offset)
unfolding whole_packet
whole_packet-Settled binary offset = record { ends = grind arith }

module _ (ext : External) (network : Network) where
  get_net_info-Settled : (binary : Bytes) (offset : ℕ) → Settled (get_net_info ext binary offset)
  unfolding get_net_info
  get_net_info-Settled binary offset = record { ends = grind arith }

  build_send_packet-Settled :
      (binary : Bytes) (offset : ℕ) (info : NetInfo)
      → Settled (build_send_packet ext binary offset info)
  unfolding build_send_packet
  build_send_packet-Settled binary offset info = record { ends = grind arith }

  send_to-Settles : (socket : ℕ) (packet : Option Bytes) → Settles (send_to network socket packet)
  unfolding send_to
  send_to-Settles socket packet = record { at = λ s e. cc }

  disconnect_socket-Settles : (socket : ℕ) → Settles (disconnect_socket socket)
  unfolding disconnect_socket
  disconnect_socket-Settles socket = record { at = λ s e. cc }

  ruleset parts = (
    settles_rules, get_server_socket-Settles, find_service_socket-Settles, add_service-Settles,
    delete_service-Settles, whole_packet-Settled, get_net_info-Settled, build_send_packet-Settled,
    send_to-Settles, disconnect_socket-Settles,
  )

  send_all-Settles :
      (sockets : List ℕ) (packet : Option Bytes) → Settles (send_all ext network sockets packet)
  unfolding send_all
  send_all-Settles [] packet = search parts
  send_all-Settles (s ∷ sockets) packet =
      Settles-bind _ _ (send_to-Settles s packet) (λ _. send_all-Settles sockets packet)

  disconnect_all-Settles : (sockets : List ℕ) → Settles (disconnect_all ext network sockets)
  unfolding disconnect_all
  disconnect_all-Settles [] = search parts
  disconnect_all-Settles (s ∷ sockets) =
      Settles-bind _ _ (disconnect_socket-Settles s) (λ _. disconnect_all-Settles sockets)

  process_channel_packet-Settles :
      (socket : ℕ) (binary : Bytes) (offset : ℕ) (info : NetInfo) (route_info : RouteNetInfo)
      → Settles (process_channel_packet ext network socket binary offset info route_info)
  unfolding process_channel_packet
  process_channel_packet-Settles socket binary offset info route_info =
      search (parts, send_all-Settles) depth 9

  process_server_packet-Settles :
      (binary : Bytes) (offset : ℕ) (route_info : RouteNetInfo)
      → Settles (process_server_packet ext network binary offset route_info)
  unfolding process_server_packet
  process_server_packet-Settles binary offset route_info = search (parts, send_all-Settles) depth 9

  route_process-Settles :
      (socket : ℕ) (binary : Bytes) (offset : ℕ) (info : NetInfo)
      → Settles (route_process ext network socket binary offset info)
  unfolding route_process
  route_process-Settles socket binary offset info =
      search (parts, process_channel_packet-Settles, process_server_packet-Settles) depth 9

  heart_process-Settles :
      (socket : ℕ) (binary : Bytes) (offset : ℕ)
      → Settles (heart_process ext network socket binary offset)
  unfolding heart_process
  heart_process-Settles socket binary offset = search parts

  command_process-Settles :
      (socket : ℕ) (info : NetInfo) → Settles (command_process ext network socket info)
  unfolding command_process
  command_process-Settles socket info = search (parts, disconnect_all-Settles) depth 12

  dispatch-Settles :
      (socket : ℕ) (binary : Bytes) (offset : ℕ) (info : NetInfo)
      → Settles (dispatch ext network socket binary offset info)
  unfolding dispatch
  dispatch-Settles socket binary offset info =
      search (parts, route_process-Settles, command_process-Settles, heart_process-Settles)

  receive_loop-Settles :
      (fuel socket : ℕ) (binary : Bytes) (cur_offset : ℕ)
      → length binary - cur_offset < fuel
      → Settles (receive_loop ext network fuel socket binary cur_offset)
  unfolding receive_loop
  receive_loop-Settles zero socket binary cur_offset h = elim h [ ]
  receive_loop-Settles (suc fuel) socket binary cur_offset h =
      search (parts, dispatch-Settles, receive_loop-Settles fuel, shrinks) depth 10

  receive_loop_all :
      (socket : ℕ) (binary : Bytes)
      → Settles (receive_loop ext network (suc (length binary)) socket binary 0)
  receive_loop_all socket binary = receive_loop-Settles _ socket binary 0 (omega arith)

  on_receive_effect :
      (socket : ℕ) (binary : Bytes) (read_size : ℕ)
      → Settles (on_receive ext network socket binary read_size)
  unfolding on_receive
  on_receive_effect socket binary read_size = search (parts, receive_loop_all) depth 8

  -- Whatever arrives at the gateway, the loop of `OnReceive` ends before its fuel does.
  pub on_receive-Settles :
      (socket : ℕ) (binary : Bytes) (read_size : ℕ) (route : RpcRoute)
      → (on_receive ext network socket binary read_size route).0 ≢ exhausted
  on_receive-Settles socket binary read_size = (on_receive_effect socket binary read_size).at

-- ===== src/Route/Process.antt =====
-- `RouteProcess`, `CommandProcess`, `HeartProcess` of src/route/route.cpp and the commands.
pub mod Delivery
use frrpc.Prelude.{ℕ, List, ◌∷◌, some, if◌then◌else◌, not, ◌==◌, Option, []}
use frrpc.Prelude.Outcome.{or_refuse}
use frrpc.Prelude.Effect.{Effect, pure, refuse, lift, gets, modify, refuse_if, returns, ◌>>=◌, ◌>>◌}
use frrpc.Wire.Bytes.{Bytes}
use frrpc.Wire.Messages.{
  NetInfo, RouteNetInfo, cmd_channel_service_register, cmd_server_disconnect_channel,
  cmd_server_service_register, cmd_server_service_cancel,
}
use frrpc.Wire.External.{External}
use frrpc.Route.ServiceInfos.{socket_null}
use frrpc.Route.State.{Network, RpcRoute, send_to, disconnect_socket}
use frrpc.Route.Services.{
  is_service_socket, add_service, delete_service, find_service_socket, get_server_socket,
  bind_channel,
}
use frrpc.Route.Forward.{build_send_packet, whole_packet}

module _ (ext : External) (network : Network) where
  -- A failure is only logged.
  unfoldable pub send_all : List ℕ → Option Bytes → Effect RpcRoute (Unit {0})
  send_all [] packet = pure tt
  send_all (socket ∷ sockets) packet = do send_to network socket packet; send_all sockets packet

  unfoldable pub process_channel_packet :
      ℕ → Bytes → ℕ → NetInfo → RouteNetInfo → Effect RpcRoute (Unit {0})
  unfolding send_all
  process_channel_packet socket binary offset net_info route_net_info = do
    net_binary ← lift (
        or_refuse (ext.route_net_info.serialize (record route_net_info { source_socket = socket })))
    target ← get_server_socket socket route_net_info.service_name
    packet ←
        lift (build_send_packet ext binary offset (record net_info { net_binary = net_binary }))
    send_all (target ∷ []) packet

  unfoldable pub process_server_packet : Bytes → ℕ → RouteNetInfo → Effect RpcRoute (Unit {0})
  unfolding send_all
  process_server_packet binary offset route_net_info = do
    packet ← lift (whole_packet binary offset)
    send_all route_net_info.target_sockets (some packet)

  unfoldable pub route_process : ℕ → Bytes → ℕ → NetInfo → Effect RpcRoute (Unit {0})
  route_process socket binary offset net_info = do
    route_net_info ← lift (or_refuse (ext.route_net_info.parse net_info.net_binary))
    if route_net_info.is_channel_packet
        then process_channel_packet socket binary offset net_info route_net_info
        else process_server_packet binary offset route_net_info

  unfoldable pub heart_process : ℕ → Bytes → ℕ → Effect RpcRoute (Unit {0})
  heart_process socket binary offset = do
    packet ← lift (whole_packet binary offset)
    sent ← send_to network socket (some packet)
    returns sent

  unfoldable pub server_service_register : ℕ → Bytes → Effect RpcRoute (Unit {0})
  server_service_register socket binary = do
    info ← lift (or_refuse (ext.service_info.parse binary))
    add_service socket info.name info.addr

  unfoldable pub server_service_cancel : ℕ → Bytes → Effect RpcRoute (Unit {0})
  server_service_cancel socket binary = delete_service socket

  unfoldable pub disconnect_all : List ℕ → Effect RpcRoute (Unit {0})
  disconnect_all [] = pure tt
  disconnect_all (socket ∷ sockets) = do disconnect_socket socket; disconnect_all sockets

  unfoldable pub server_disconnect_channel : ℕ → Bytes → Effect RpcRoute (Unit {0})
  unfolding disconnect_all
  server_disconnect_channel socket binary = do
    request ← lift (or_refuse (ext.disconnect_channel.parse binary))
    is_service ← gets (λ route. is_service_socket route socket)
    refuse_if (not is_service)
    disconnect_all request.channel_socket

  unfoldable pub channel_service_register_cmd : ℕ → Bytes → Effect RpcRoute (Unit {0})
  channel_service_register_cmd socket binary = do
    request ← lift (or_refuse (ext.service_register.parse binary))
    server ← find_service_socket request.service_name request.service_addr
    refuse_if (server == socket_null)
    modify (bind_channel socket request.service_name server)

  unfoldable pub command_process : ℕ → NetInfo → Effect RpcRoute (Unit {0})
  unfolding server_service_register server_service_cancel server_disconnect_channel
      channel_service_register_cmd
  command_process socket net_info = do
    request ← lift (or_refuse (ext.cmd_request.parse net_info.net_binary))
    if request.cmd == cmd_server_service_register
        then server_service_register socket request.request_binary
        else if request.cmd == cmd_server_service_cancel
        then server_service_cancel socket request.request_binary
        else if request.cmd == cmd_server_disconnect_channel
        then server_disconnect_channel socket request.request_binary
        else if request.cmd == cmd_channel_service_register
        then channel_service_register_cmd socket request.request_binary
        else refuse

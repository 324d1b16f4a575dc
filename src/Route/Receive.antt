-- ===== src/Route/Receive.antt =====
-- The callbacks of frnet: `OnReceive`, `OnConnect`, `OnDisconnect` and `OnClose` of
-- src/route/route.cpp.
pub mod Fuel
pub mod Packets
pub mod Bounds
pub mod Served
pub mod Events
use frrpc.Prelude.Map.{erase}
use frrpc.Prelude.{
  none, some, zero, ℕ, ◌*◌, if◌then◌else◌, Option, suc, [], Bool, ◌==◌, length, nat_key, ltb, ◌-◌,
  leb, ◌+◌,
}
use frrpc.Prelude.Outcome.{exhausted, or_fault}
use frrpc.Prelude.Effect.{Effect, pure, refuse, lift, modify, refuse_if, ◌>>=◌, ◌>>◌}
use frrpc.Wire.Bytes.{Bytes, read}
use frrpc.Wire.Messages.{NetInfo, net_type_route, net_type_route_cmd, net_type_heart}
use frrpc.Wire.External.{External}
use frrpc.Heart.{add_socket, del_socket, update_socket, run_server, stop_heart_check}
use frrpc.Route.State.{Network, RpcRoute}
use frrpc.Route.Services.{is_service_socket, delete_service}
use frrpc.Route.Forward.{get_net_info}
use frrpc.Route.Process.{route_process, command_process, heart_process}

abbrev pub net_packet_max_size : ℕ
net_packet_max_size = 4 * 1024

module _ (ext : External) (network : Network) where
  unfoldable pub dispatch : ℕ → Bytes → ℕ → NetInfo → Effect RpcRoute (Unit {0})
  dispatch socket binary offset net_info =
      if net_info.net_type == net_type_route
      then route_process ext network socket binary offset net_info
      else if net_info.net_type == net_type_route_cmd
      then command_process ext network socket net_info
      else if net_info.net_type == net_type_heart
      then heart_process ext network socket binary offset
      else refuse

  -- The loop at `cur_offset`. `none` is the return of true before `read_size` is set.
  unfoldable pub receive_loop : ℕ → ℕ → Bytes → ℕ → Effect RpcRoute (Option ℕ)
  receive_loop zero socket binary cur_offset = lift exhausted
  receive_loop (suc fuel) socket binary cur_offset =
      if ltb 4 (length binary - cur_offset)
      then (do
        size ← lift (or_fault (read 4 cur_offset binary))
        refuse_if (leb net_packet_max_size size)
        refuse_if (size == 0)
        if ltb (length binary - cur_offset) (size + 4) then pure none else (do
          net_info ← lift (get_net_info ext binary cur_offset)
          dispatch socket binary cur_offset net_info
          receive_loop fuel socket binary (cur_offset + (size + 4))))
      else pure (some cur_offset)

  abbrev pub size_or_old : ℕ → Option ℕ → ℕ
  size_or_old read_size none = read_size
  size_or_old read_size (some n) = n

  -- The result is `read_size`, which the caller hands in. A round takes 5 bytes at least.
  unfoldable pub on_receive : ℕ → Bytes → ℕ → Effect RpcRoute ℕ
  unfolding receive_loop
  on_receive socket binary read_size = do
    modify (λ route. record route { rpc_heart = update_socket socket route.rpc_heart })
    end ← receive_loop (suc (length binary)) socket binary 0
    pure (size_or_old read_size end)

unfoldable pub on_connect : ℕ → RpcRoute → RpcRoute
on_connect socket route = record route { rpc_heart = add_socket socket route.rpc_heart }

-- The two calls of the lambda work on copies of the event maps, and `SendEventNotice_Disconnect`
-- only returns true.
unfoldable pub on_disconnect : ℕ → RpcRoute → RpcRoute
on_disconnect socket route =
    let heard = record route { rpc_heart = del_socket socket route.rpc_heart } in
    if is_service_socket heard socket
    then (delete_service socket heard).1
    else record heard { channel_service_register = erase socket heard.channel_service_register }

unfoldable pub on_close : RpcRoute → RpcRoute
on_close route = record route {
  service_2info = [];
  service_socket_2name = [];
  event_dis_notice_2listen = [];
  event_dis_listen_2notice = [];
}

unfoldable pub start : Bool → RpcRoute → RpcRoute
start started route =
    if started then record route { rpc_heart = run_server route.rpc_heart } else route

unfoldable pub stop : RpcRoute → RpcRoute
stop route = record route { rpc_heart = stop_heart_check route.rpc_heart }

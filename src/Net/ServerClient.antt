-- ===== src/Net/ServerClient.antt =====
-- `RpcServer_Route_Client` of src/rpc/net_server.{h,cpp}: the connection of a server to one gateway.
pub mod Queued
pub mod Fuel
use frrpc.Prelude.{
  ℕ, zero, suc, ◌+◌, Bool, true, false, String, List, [], ◌∷◌, none, some, ltb, leb, ◌==◌, length,
  if◌then◌else◌, ◌-◌,
}
use frrpc.Prelude.Outcome.{or_fault, or_refuse, exhausted}
use frrpc.Prelude.Effect.{Effect, pure, refuse, lift, modify, refuse_if, ◌>>=◌, ◌>>◌, gets}
use frrpc.Wire.Bytes.{Bytes, read}
use frrpc.Wire.Messages.{
  NetInfo, RpcMeta, RouteNetInfo, empty_net_info, empty_route_net_info, net_type_route,
  net_type_route_cmd, net_type_route_notify, net_type_heart, notify_type_disconnect,
  cmd_server_disconnect_channel, cmd_server_service_register,
}
use frrpc.Wire.External.{Codec, External}
use frrpc.Wire.Packet.{
  RpcPacket, new_packet, copy_packet, event_method, event_disconnection, get_message,
  build_from_message, build_from_cmd,
}
use frrpc.Net.LinkId.{build_link_id, get_socket, get_route_id}
use frrpc.Net.Base.{
  LockQueue, Client, Answers, client_send, Received, sub_size, net_packet_max_size, push_message,
}

module _ (ext : External) (queues : LockQueue RpcPacket) (route_length route_id : ℕ) where
  unfoldable pub receive_route_packet : NetInfo → RpcPacket → Effect Received (Unit {0})
  receive_route_packet net_info packet = do
    route_net_info ← lift (or_refuse (ext.route_net_info.parse net_info.net_binary))
    copy ← lift (copy_packet packet)
    let link_id = build_link_id route_length route_id route_net_info.source_socket
    modify (push_message queues (record copy { link_id = link_id }))

  -- No command has a response.
  unfoldable pub do_route_cmd : NetInfo → Effect Received (Unit {0})
  do_route_cmd net_info = do
    response ← lift (or_refuse (ext.cmd_response.parse net_info.net_binary))
    refuse

  unfoldable pub do_route_notify : NetInfo → Effect Received (Unit {0})
  do_route_notify net_info = do
    route_notify ← lift (or_refuse (ext.route_notify.parse net_info.net_binary))
    if route_notify.type == notify_type_disconnect
        then (do
          notify ← lift (or_refuse (ext.notify_disconnect.parse route_notify.bytes))
          let link_id = build_link_id route_length route_id notify.socket
          modify (push_message queues (new_packet link_id event_disconnection)))
        else pure tt

  unfoldable pub handle : NetInfo → RpcPacket → Effect Received (Unit {0})
  unfolding receive_route_packet do_route_cmd do_route_notify
  handle net_info packet =
      if net_info.net_type == net_type_route
      then receive_route_packet net_info packet
      else if net_info.net_type == net_type_route_cmd
      then do_route_cmd net_info
      else if net_info.net_type == net_type_route_notify
      then do_route_notify net_info
      else if net_info.net_type == net_type_heart
      then pure tt
      else refuse

  -- The loop at `offset`; a round takes 5 bytes at least.
  unfoldable pub receive_loop : ℕ → Bytes → ℕ → Effect Received (Unit {0})
  receive_loop zero binary offset = lift exhausted
  receive_loop (suc fuel) binary offset =
      if ltb 4 (length binary - offset)
      then (do
        size ← lift (or_fault (read 4 offset binary))
        read_size ← gets (λ state. state.read_size)
        if ltb (sub_size (length binary) read_size) (size + 4) then pure tt else (do
          refuse_if (leb net_packet_max_size size)
          refuse_if (size == 0)
          got ← lift (get_message ext binary offset empty_net_info (new_packet 0 event_method))
          handle got.0 got.1
          modify (λ state. record state { read_size = state.read_size + (size + 4) })
          receive_loop fuel binary (offset + (size + 4))))
      else pure tt

  unfoldable pub on_receive : Bytes → Effect Received (Unit {0})
  unfolding receive_loop
  on_receive binary = receive_loop (suc (length binary)) binary 0

module _ (ext : External) (answers : Answers) where
  -- `Send` of a `RouteNetInfo`. A message that cannot be serialized is dropped, and the call
  -- returns true.
  unfoldable pub send_route_net_info :
      {M : Type 0} → Codec M → RouteNetInfo → RpcMeta → M → Client → Bool × Client
  send_route_net_info codec route_net_info meta body client =
      if ltb 0 (length route_net_info.target_sockets)
      then (elim (ext.route_net_info.serialize route_net_info) [
        | none ↦ (true, client)
        | some net_binary ↦
            elim (build_from_message ext codec
              (record { net_type = net_type_route; net_binary = net_binary }) meta body) [
                | none ↦ (true, client)
                | some packet ↦ client_send answers (some packet) client
              ]
      ])
      else (false, client)

  unfoldable pub send_route_cmd : {M : Type 0} → Codec M → ℕ → M → Client → Bool × Client
  send_route_cmd codec cmd cmd_info client = elim (build_from_cmd ext codec cmd cmd_info) [
    | none ↦ (false, client)
    | some packet ↦ client_send answers (some packet) client
  ]

  module _ (route_length route_id : ℕ) where
    -- The sockets of the links that belong to this gateway.
    unfoldable pub target_sockets : List ℕ → List ℕ
    target_sockets [] = []
    target_sockets (link_id ∷ link_ids) =
        if route_id == get_route_id route_length link_id
        then get_socket route_length link_id ∷ target_sockets link_ids
        else target_sockets link_ids

    -- `Send` to several links; to one link it is a list of one.
    unfoldable pub send : {M : Type 0} → Codec M → List ℕ → RpcMeta → M → Client → Bool × Client
    unfolding target_sockets
    send codec link_ids meta body client =
        send_route_net_info codec
          (record empty_route_net_info { target_sockets = target_sockets link_ids }) meta body
          client

    unfoldable pub disconnect : ℕ → Client → Bool × Client
    disconnect link_id client =
        send_route_cmd ext.disconnect_channel cmd_server_disconnect_channel
          (record { channel_socket = get_socket route_length link_id ∷ [] }) client

  unfoldable pub register_service : String → String → Client → Bool × Client
  register_service name addr client =
      send_route_cmd ext.service_info cmd_server_service_register
        (record { name = name; addr = addr }) client

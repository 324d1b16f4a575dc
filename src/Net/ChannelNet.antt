-- ===== src/Net/ChannelNet.antt =====
-- `RpcChannel_Route` of src/rpc/net_channel.{h,cpp}: the connection of a channel to its gateway.
pub mod Fuel
pub mod Queued
use frrpc.Prelude.{
  ℕ, zero, suc, ◌+◌, Bool, true, false, String, none, some, ltb, ◌==◌, length, if◌then◌else◌,
}
use frrpc.Prelude.Outcome.{exhausted}
use frrpc.Prelude.Effect.{Effect, pure, refuse, lift, gets, modify, ◌>>=◌, ◌>>◌}
use frrpc.Wire.Bytes.{Bytes}
use frrpc.Wire.Messages.{
  NetInfo, RpcMeta, empty_net_info, empty_route_net_info, net_type_route, net_type_route_cmd,
  net_type_heart, cmd_channel_service_register,
}
use frrpc.Wire.External.{Codec, External}
use frrpc.Wire.Packet.{
  RpcPacket, new_packet, event_method, event_connection, event_disconnection, get_message,
  build_from_net_info, build_from_message, build_from_cmd,
}
use frrpc.Net.Base.{
  LockQueue, Client, Answers, client_send, Received, sub_size, push_message,
  get_and_check_packet_size,
}

module _ (ext : External) (answers : Answers) where
  unfoldable pub send : {M : Type 0} → Codec M → RpcMeta → M → Client → Bool × Client
  send codec meta body client =
      elim (ext.route_net_info.serialize (record empty_route_net_info {
        is_channel_packet = true;
        service_name = meta.service_name;
      })) [
        | none ↦ (false, client)
        | some net_binary ↦
            client_send answers
              (build_from_message ext codec
                (record { net_type = net_type_route; net_binary = net_binary }) meta body)
              client
      ]

  unfoldable pub register_service : String → String → Client → Bool × Client
  register_service name addr client =
      client_send answers
        (build_from_cmd ext ext.service_register cmd_channel_service_register
          (record { service_name = name; service_addr = addr }))
        client

  -- A heart that cannot be built is not sent, and the call returns true.
  unfoldable pub send_heart : Client → Bool × Client
  send_heart client =
      elim (build_from_net_info ext (record empty_net_info { net_type = net_type_heart })) [
        | none ↦ (true, client)
        | some packet ↦ client_send answers (some packet) client
      ]

module _ (ext : External) (queues : LockQueue RpcPacket) where
  -- `Disconnect` and `OnDisconnect`
  unfoldable pub on_disconnect : ℕ → Received → Received
  on_disconnect link_id = push_message queues (new_packet link_id event_disconnection)

  unfoldable pub on_connect : ℕ → Received → Received
  on_connect socket = push_message queues (new_packet socket event_connection)

  unfoldable pub handle : NetInfo → RpcPacket → Effect Received (Unit {0})
  handle net_info packet =
      if net_info.net_type == net_type_route
      then modify (push_message queues packet)
      else if net_info.net_type == net_type_heart
      then pure tt
      else if net_info.net_type == net_type_route_cmd
      then pure tt
      else refuse

  -- The loop at `offset`; a round takes 5 bytes at least.
  unfoldable pub receive_loop : ℕ → Bytes → ℕ → Effect Received (Unit {0})
  unfolding handle
  receive_loop zero binary offset = lift exhausted
  receive_loop (suc fuel) binary offset = do
    read_size ← gets (λ state. state.read_size)
    if ltb 4 (sub_size (length binary) read_size)
        then (do
          size ← lift (get_and_check_packet_size binary offset)
          if ltb (sub_size (length binary) read_size) (size + 4) then pure tt else (do
            got ← lift (get_message ext binary offset empty_net_info (new_packet 0 event_method))
            handle got.0 got.1
            modify (λ state. record state { read_size = state.read_size + (size + 4) })
            receive_loop fuel binary (offset + (size + 4))))
        else pure tt

  unfoldable pub on_receive : Bytes → Effect Received (Unit {0})
  unfolding receive_loop
  on_receive binary = receive_loop (suc (length binary)) binary 0

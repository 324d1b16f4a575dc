-- ===== src/Net/ServerClient/Fuel.antt =====
-- The fuel of the loop of `OnReceive` in src/rpc/net_server.cpp.
use frrpc.Prelude.{ℕ, zero, suc, ◌+◌, ◌-◌, ◌<◌, ◌≢◌, ◌≡◌, arith, length, ltb, true}
use frrpc.Prelude.Outcome.{exhausted}
use frrpc.Prelude.Effect.Settles.{Settled, Settles, settles_rules}
use frrpc.Wire.Bytes.{Bytes}
use frrpc.Wire.Messages.{NetInfo}
use frrpc.Wire.External.{External}
use frrpc.Wire.Packet.{RpcPacket, get_message, copy_packet}
use frrpc.Net.Base.{LockQueue, Received}
use frrpc.Net.ServerClient.{
  handle, receive_route_packet, do_route_cmd, do_route_notify, receive_loop, on_receive,
}

shrinks :
    (n cur size fuel : ℕ)
    → n - cur < suc fuel
    → ltb 4 (n - cur) ≡ true
    → n - (cur + (size + 4)) < fuel
shrinks n cur size fuel h e = ground arith

pub get_message-Settled :
    (ext : External) (binary : Bytes) (offset : ℕ) (info : NetInfo) (packet : RpcPacket)
    → Settled (get_message ext binary offset info packet)
unfolding get_message
get_message-Settled ext binary offset info packet = record { ends = grind arith }

copy_packet-Settled : (packet : RpcPacket) → Settled (copy_packet packet)
unfolding copy_packet
copy_packet-Settled packet = record { ends = grind arith }

module _ (ext : External) (queues : LockQueue RpcPacket) (route_length route_id : ℕ) where
  handle-Settles :
      (info : NetInfo) (packet : RpcPacket)
      → Settles (handle ext queues route_length route_id info packet)
  unfolding handle receive_route_packet do_route_cmd do_route_notify
  handle-Settles info packet = search (settles_rules, copy_packet-Settled) depth 12

  receive_loop-Settles :
      (fuel : ℕ) (binary : Bytes) (offset : ℕ)
      → length binary - offset < fuel
      → Settles (receive_loop ext queues route_length route_id fuel binary offset)
  unfolding receive_loop
  receive_loop-Settles zero binary offset h = elim h [ ]
  receive_loop-Settles (suc fuel) binary offset h =
      search
        (settles_rules, get_message-Settled, handle-Settles, receive_loop-Settles fuel, shrinks)
        depth 14

  -- Whatever arrives from a gateway, the server's loop ends before its fuel does.
  server_receive-Settles :
      (binary : Bytes) (state : Received)
      → (on_receive ext queues route_length route_id binary state).0 ≢ exhausted
  unfolding on_receive
  server_receive-Settles binary =
      (receive_loop-Settles (suc (length binary)) binary 0 (omega arith)).at

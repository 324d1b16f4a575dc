-- ===== src/Net/ChannelNet/Fuel.antt =====
-- The fuel of the loop of `OnReceive` in src/rpc/net_channel.cpp.
use frrpc.Prelude.{length-drop, ℕ, zero, suc, ◌+◌, ◌-◌, ◌<◌, ◌≤◌, ◌≢◌, ◌≡◌, arith, length}
use frrpc.Prelude.Outcome.{ok, exhausted}
use frrpc.Prelude.Effect.Settles.{Settled, Settles, settles_rules, Settles-lift-bind}
use frrpc.Wire.Bytes.{Bytes, read, slice}
use frrpc.Wire.Messages.{NetInfo}
use frrpc.Wire.External.{External}
use frrpc.Wire.Packet.{RpcPacket}
use frrpc.Net.Base.{LockQueue, Received, get_and_check_packet_size}
use frrpc.Net.ChannelNet.{handle, receive_loop, on_receive}
use frrpc.Net.ServerClient.Fuel.{get_message-Settled}

size-Settled : (binary : Bytes) (offset : ℕ) → Settled (get_and_check_packet_size binary offset)
unfolding get_and_check_packet_size
size-Settled binary offset = record { ends = grind arith }

-- A size that was read lies in the buffer.
within :
    (binary : Bytes) (offset size : ℕ)
    → get_and_check_packet_size binary offset ≡ ok size
    → offset + 4 ≤ length binary
unfolding get_and_check_packet_size read slice
within binary offset size h = ground (arith, length-drop offset binary)

shrinks : (n cur size fuel : ℕ) → n - cur < suc fuel → cur + 4 ≤ n → n - (cur + (size + 4)) < fuel
shrinks n cur size fuel h e = omega arith

module _ (ext : External) (queues : LockQueue RpcPacket) where
  handle-Settles : (info : NetInfo) (packet : RpcPacket) → Settles (handle ext queues info packet)
  unfolding handle
  handle-Settles info packet = search settles_rules

  receive_loop-Settles :
      (fuel : ℕ) (binary : Bytes) (offset : ℕ)
      → length binary - offset < fuel
      → Settles (receive_loop ext queues fuel binary offset)
  unfolding receive_loop
  receive_loop-Settles zero binary offset h = elim h [ ]
  receive_loop-Settles (suc fuel) binary offset h =
      search
        (
          Settles-lift-bind,
          settles_rules,
          size-Settled,
          get_message-Settled,
          handle-Settles,
          receive_loop-Settles fuel,
          shrinks,
          within,
        )
        depth 16

  -- Whatever arrives from the gateway, the channel's loop ends before its fuel does.
  channel_receive-Settles :
      (binary : Bytes) (state : Received) → (on_receive ext queues binary state).0 ≢ exhausted
  unfolding on_receive
  channel_receive-Settles binary =
      (receive_loop-Settles (suc (length binary)) binary 0 (omega arith)).at

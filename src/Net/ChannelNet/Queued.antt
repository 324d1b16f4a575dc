-- ===== src/Net/ChannelNet/Queued.antt =====
-- What becomes of a packet of a server that reaches a channel.
use frrpc.Prelude.{ℕ, zero, suc, ◌+◌, ◌<◌, ◌^◌, ◌≡◌, refl, some, arith, length, ◌∙◌, sym}
use frrpc.Prelude.Effect.{modify, ◌>>=◌, ◌>>◌}
use frrpc.Prelude.Outcome.{ok}
use frrpc.Wire.Bytes.{Bytes}
use frrpc.Wire.Messages.{NetInfo, RpcMeta, net_type_route}
use frrpc.Wire.External.{External}
use frrpc.Wire.Layout.{framed, rpc_part}
use frrpc.Wire.RoundTrip.{filled}
use frrpc.Wire.Packet.{RpcPacket, new_packet, event_method}
use frrpc.Net.OnePacket.{read_size_of, length_of, message_of}
use frrpc.Net.Base.{
  LockQueue, net_packet_max_size, push_message, Received, get_and_check_packet_size,
}
use frrpc.Net.ChannelNet.{handle, receive_loop, on_receive}

module _ (ext : External) (queues : LockQueue RpcPacket) where
  module _ (info : NetInfo) (meta : RpcMeta) (net bytes : Bytes)
      (typed : info.net_type ≡ net_type_route) (serialized : ext.net_info.serialize info ≡ some net)
      (serialized_meta : ext.rpc_meta.serialize meta ≡ some bytes) (some_net : 0 < length net)
      (some_meta : 0 < length bytes) where
    whole_round :
        (fuel : ℕ) (body : Bytes) (state : Received)
        → 4 + length net + length bytes + length body < net_packet_max_size
        → state.read_size ≡ 0
        → receive_loop ext queues (suc fuel) (framed net (rpc_part bytes body)) 0 state
          ≡ (do
            handle ext queues info (filled meta body (new_packet 0 event_method))
            modify (λ s. record s {
              read_size = s.read_size + (8 + length net + length bytes + length body);
            })
            receive_loop ext queues fuel
                (framed net (rpc_part bytes body))
                (8 + length net + length bytes + length body))
              state
    unfolding receive_loop get_and_check_packet_size ◌>>=◌
    whole_round fuel body state fits fresh = ground (
      arith,
      read_size_of net bytes body fits,
      message_of ext info meta net bytes typed serialized serialized_meta some_net some_meta body
          fits,
      length_of net bytes body,
    )

    ended :
        (fuel offset : ℕ) (binary : Bytes) (state : Received)
        → 0 < fuel
        → state.read_size ≡ length binary
        → length binary < 2 ^ 64
        → receive_loop ext queues fuel binary offset state ≡ (ok tt, state)
    unfolding receive_loop ◌>>=◌
    ended zero offset binary state h e lt = elim h [ ]
    ended (suc fuel) offset binary state h e lt = ground arith

    handled :
        (packet : RpcPacket) (state : Received)
        → handle ext queues info packet state ≡ (ok tt, push_message queues packet state)
    unfolding handle ◌>>=◌
    handled packet state = ground (arith, typed)

    -- The buffer is one packet of less than 4096 bytes, routed to a channel, whose net info and
    -- meta are not empty and are what serializing gave. Then it is queued with its meta and its
    -- body, where an empty body is a null pointer, and the whole buffer is consumed.
    pub answer_is_queued :
        (body : Bytes) (state : Received)
        → 4 + length net + length bytes + length body < net_packet_max_size
        → state.read_size ≡ 0
        → on_receive ext queues (framed net (rpc_part bytes body)) state ≡ (
          ok tt,
          record {
            packet_queue =
                queues.push state.packet_queue (filled meta body (new_packet 0 event_method));
            read_size = length (framed net (rpc_part bytes body));
          },
        )
    unfolding on_receive push_message ◌>>=◌
    answer_is_queued body state fits fresh =
        let n = length_of net bytes body in
        let e : 0 + length (framed net (rpc_part bytes body))
            ≡ length (framed net (rpc_part bytes body)) =
          omega arith in
        whole_round (length (framed net (rpc_part bytes body))) body state fits fresh
        ∙ rw (handled (filled meta body (new_packet 0 event_method)) state) (
            rw (sym n, fresh, e)
              (ended (length (framed net (rpc_part bytes body))) _ _ _ (omega (arith, n)) refl
                (omega (arith, n))))

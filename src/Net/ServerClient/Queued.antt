-- ===== src/Net/ServerClient/Queued.antt =====
-- What becomes of a packet of a channel that reaches a server.
use frrpc.Net.ServerClient.{
  handle, receive_route_packet, receive_loop, on_receive, suc, build_link_id,
}
use frrpc.Prelude.{ℕ, ◌+◌, ◌<◌, ◌≡◌, [], some, arith, length, ap, ◌∙◌, sym, ◌∷◌, zero}
use frrpc.Prelude.Effect.{modify, ◌>>=◌, ◌>>◌}
use frrpc.Prelude.Outcome.{ok, fault}
use frrpc.Wire.Packet.{copy_packet}
use frrpc.Wire.Bytes.{Bytes}
use frrpc.Wire.Messages.{NetInfo, RpcMeta, RouteNetInfo, net_type_route}
use frrpc.Wire.External.{External}
use frrpc.Wire.Layout.{framed, rpc_part}
use frrpc.Wire.RoundTrip.{filled}
use frrpc.Wire.Packet.{RpcPacket, new_packet, event_method}
use frrpc.Net.OnePacket.{read_size_of, length_of, message_of}
use frrpc.Net.Base.{LockQueue, net_packet_max_size, push_message, Received}

module _ (ext : External) (queues : LockQueue RpcPacket) (route_length route_id : ℕ) where
  module _ (info : NetInfo) (route_info : RouteNetInfo) (meta : RpcMeta) (net bytes : Bytes)
      (typed : info.net_type ≡ net_type_route) (serialized : ext.net_info.serialize info ≡ some net)
      (parsed : ext.route_net_info.parse info.net_binary ≡ some route_info)
      (serialized_meta : ext.rpc_meta.serialize meta ≡ some bytes) (some_net : 0 < length net)
      (some_meta : 0 < length bytes) where
    -- One round, for a buffer that is one packet.
    whole_round :
        (fuel : ℕ) (body : Bytes) (state : Received)
        → 4 + length net + length bytes + length body < net_packet_max_size
        → state.read_size ≡ 0
        → receive_loop ext queues route_length route_id
            (suc fuel)
            (framed net (rpc_part bytes body))
            0
            state
          ≡ (do
            handle ext queues route_length route_id info
                (filled meta body (new_packet 0 event_method))
            modify (λ s. record s {
              read_size = s.read_size + (8 + length net + length bytes + length body);
            })
            receive_loop ext queues route_length route_id fuel
                (framed net (rpc_part bytes body))
                (8 + length net + length bytes + length body))
              state
    unfolding receive_loop ◌>>=◌
    whole_round fuel body state fits fresh = ground (
      arith,
      read_size_of net bytes body fits,
      message_of ext info meta net bytes typed serialized serialized_meta some_net some_meta body
          fits,
      length_of net bytes body,
    )

    ended :
        (fuel : ℕ) (binary : Bytes) (state : Received)
        → 0 < fuel
        → receive_loop ext queues route_length route_id fuel binary (length binary) state
          ≡ (ok tt, state)
    unfolding receive_loop ◌>>=◌
    ended zero binary state h = elim h [ ]
    ended (suc fuel) binary state h = ground arith

    handled :
        (b : ℕ) (bs : Bytes) (state : Received)
        → handle ext queues route_length route_id info
            (filled meta (b ∷ bs) (new_packet 0 event_method))
            state
          ≡ (
            ok tt,
            push_message queues
                (record {
                  link_id = build_link_id route_length route_id route_info.source_socket;
                  net_event = event_method;
                  rpc_meta = meta;
                  binary = some (b ∷ bs);
                })
                state,
          )
    unfolding handle receive_route_packet copy_packet ◌>>=◌
    handled b bs state = ground (arith, parsed, typed)

    not_handled :
        (state : Received)
        → handle ext queues route_length route_id info
            (filled meta [] (new_packet 0 event_method))
            state
          ≡ (fault, state)
    unfolding handle receive_route_packet copy_packet ◌>>=◌
    not_handled state = ground (arith, parsed, typed)

    -- The buffer is one packet of less than 4096 bytes, routed by a gateway, whose net info and
    -- meta are not empty and are what serializing gave, and whose body is not empty. Then it is
    -- queued with its meta, its body and a link id that is made of the gateway's number and the
    -- packet's source, and the whole buffer is consumed.
    pub call_is_queued :
        (b : ℕ) (bs : Bytes) (state : Received)
        → 4 + length net + length bytes + length (b ∷ bs) < net_packet_max_size
        → state.read_size ≡ 0
        → on_receive ext queues route_length route_id (framed net (rpc_part bytes (b ∷ bs))) state
          ≡ (
            ok tt,
            record {
              packet_queue = queues.push state.packet_queue (record {
                link_id = build_link_id route_length route_id route_info.source_socket;
                net_event = event_method;
                rpc_meta = meta;
                binary = some (b ∷ bs);
              });
              read_size = length (framed net (rpc_part bytes (b ∷ bs)));
            },
          )
    unfolding on_receive push_message ◌>>=◌
    call_is_queued b bs state fits fresh =
        let n = length_of net bytes (b ∷ bs) in
        let e : 0 + length (framed net (rpc_part bytes (b ∷ bs)))
            ≡ length (framed net (rpc_part bytes (b ∷ bs))) =
          omega arith in
        whole_round _ (b ∷ bs) state fits fresh
        ∙ rw (handled b bs state) (
            rw (sym n, fresh, e)
              (ended (length (framed net (rpc_part bytes (b ∷ bs)))) _ _ (omega (arith, n))))

    -- A server gets a buffer that is one packet of less than 4096 bytes, routed by a gateway,
    -- whose net info and meta are not empty and are what serializing gave, and whose body is
    -- empty. Then it follows a null pointer.
    pub empty_call_faults :
        (state : Received)
        → 4 + length net + length bytes < net_packet_max_size
        → state.read_size ≡ 0
        → (on_receive ext queues route_length route_id (framed net (rpc_part bytes [])) state).0
          ≡ fault
    unfolding on_receive ◌>>=◌
    empty_call_faults state fits fresh =
        ap (λ r. r.0)
          (whole_round (length (framed net (rpc_part bytes []))) [] state (omega arith) fresh)
        ∙ ground (arith, not_handled state)
